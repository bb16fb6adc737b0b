-- ===== src/HttpQueue/Stream.antt =====
-- pkg/mq/httpclient.go: `connectAndStream`, which parses the event stream of the queue service. The
-- decoder is `json.Unmarshal`, where an error is `none`. The context is asked before each line, and
-- where the message channel is full and the context is cancelled a message is not delivered.
use elastic_gpu_telemetry_pi.Common.{
  ℕ, suc, Bool, ◌&&◌, ◌||◌, not, Option, none, some, List, [], ◌∷◌, ◌++◌, Text, codes, is_empty,
  ◌==◌, text_eq, strip_prefix, trim_space, if◌then◌else◌,
}
use elastic_gpu_telemetry_pi.Domain.{Message}

-- How the body ends: with EOF, or with an error.
pub data Ending : Type 0 where
  eof : Ending
  read_failed : Text → Ending

pub data StreamEnd : Type 0 where
  stream_ended stream_cancelled : StreamEnd
  read_error : Text → StreamEnd

pub record Context : Type 0 where
  pub stops : ℕ → Bool
  pub blocks : ℕ → Bool

-- The complete lines of the body, without their newlines: an incomplete last line comes with an error
-- from `ReadString` and is not looked at.
unfoldable pub lines : Text → Text → List Text
lines line [] = []
lines line (c ∷ s) =
    let rest = lines [] s in
    let more = lines (line ++ c ∷ []) s in if c == 10 then line ∷ rest else more

-- `strings.TrimRight(line, "\r\n")`.
unfoldable pub trim_right : Text → Text
trim_right [] = []
trim_right (c ∷ s) =
    let rest = trim_right s in if is_empty rest && (c == 13 || c == 10) then [] else c ∷ rest

-- The event and the data that have been read.
pub record Frame : Type 0 where
  pub event : Text
  pub content : Text

abbrev pub no_frame : Frame
no_frame = record { event = []; content = [] }

abbrev joined : Text → Text → Text
joined [] s = s
joined (c ∷ d) s = (c ∷ d) ++ 10 ∷ s

-- The part of the loop for a line that is not empty.
unfoldable pub on_field : Text → Frame → Frame
on_field line f = elim (strip_prefix (codes "event:") line) [
  | some s ↦ record { event = trim_space s; content = [] }
  | none ↦ elim (strip_prefix (codes "data:") line) [
    | some s ↦ record f { content = joined f.content (trim_space s) }
    | none ↦ f
  ]
]

module _ (decode : Text → Option Message) where
  -- The message of a frame, if it has one.
  unfoldable pub message_of : Frame → Option Message
  message_of f =
      if not (is_empty f.content) && text_eq f.event (codes "message")
      then decode f.content
      else none

  -- The loop, before line `i`; `sent` counts the messages that were delivered, which are the result.
  unfoldable pub read_loop : Context → Ending → ℕ → ℕ → Frame → List Text → List Message × StreamEnd
  read_loop ctx (read_failed e) i sent f [] =
      if ctx.stops i then ([], stream_cancelled) else ([], read_error e)
  read_loop ctx eof i sent f [] =
      if ctx.stops i then ([], stream_cancelled) else elim (message_of f) [
        | none ↦ ([], stream_ended)
        | some m ↦ if ctx.blocks sent then ([], stream_cancelled) else (m ∷ [], stream_ended)
      ]
  read_loop ctx ending i sent f (line ∷ rest) =
      let text = trim_right line in
      let field = read_loop ctx ending (suc i) sent (on_field text f) rest in
      let skipped = read_loop ctx ending (suc i) sent no_frame rest in
      let delivered = read_loop ctx ending (suc i) (suc sent) no_frame rest in
      if ctx.stops i
      then ([], stream_cancelled)
      else if not (is_empty text)
      then field
      else elim (message_of f) [
        | none ↦ skipped
        | some m ↦
            if ctx.blocks sent then ([], stream_cancelled) else (m ∷ delivered.0, delivered.1)
      ]

  unfoldable pub stream : Context → Ending → Text → List Message × StreamEnd
  stream ctx ending body = read_loop ctx ending 0 0 no_frame (lines [] body)
