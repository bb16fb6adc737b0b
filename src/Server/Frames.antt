-- ===== src/Server/Frames.antt =====
-- pkg/mq/httpclient.go: how the client reads one event of the stream.
use mathlib.Core.List.{append_assoc, append-nil}
use elastic_gpu_telemetry_pi.Common.{
  ℕ, suc, ◌≡◌, refl, sym, ap, ◌∙◌, Bool, true, false, not, ◌&&◌, ◌||◌, Option, none, some, List, [],
  ◌∷◌, ◌++◌, arith, Text, codes, is_empty, text_eq, strip_prefix, trim_space, ◌==◌,
}
use elastic_gpu_telemetry_pi.Domain.{Message}
use elastic_gpu_telemetry_pi.HttpQueue.Stream.{
  Context, eof, stream_ended, StreamEnd, lines, trim_right, Frame, no_frame, on_field, message_of,
  read_loop,
}

-- The text has no line break.
abbrev pub is_line : Text → Bool
is_line [] = true
is_line (c ∷ s) = not (c == 13 || c == 10) && is_line s

-- The text is a line with no white space around it, as `json.Marshal` makes them.
pub record IsJson (text : Text) : Type 0 where
  pub line : is_line text ≡ true
  pub trimmed : trim_space text ≡ text
  pub nonempty : is_empty text ≡ false

-- The bytes that gin writes for an event with JSON data.
abbrev pub event_bytes : Text → Text → Text
event_bytes name json = (codes "event:" ++ name) ++ 10 ∷ ((codes "data:" ++ json) ++ 10 ∷ 10 ∷ [])

lines_break :
    (line s rest : Text)
    → is_line s ≡ true
    → lines line (s ++ 10 ∷ rest) ≡ (line ++ s) ∷ lines [] rest
unfolding lines
lines_break line [] rest h = ap (λ l. l ∷ lines [] rest) (sym (append-nil line))
lines_break line (c ∷ s) rest h =
    ground (arith, lines_break (line ++ c ∷ []) s rest, append_assoc line (c ∷ []) s)

pub trim_right-is_line : (s : Text) → is_line s ≡ true → trim_right s ≡ s
unfolding trim_right
trim_right-is_line [] h = refl
trim_right-is_line (c ∷ s) h = ground (arith, trim_right-is_line s)

is_line-append : (s t : Text) → is_line s ≡ true → is_line t ≡ true → is_line (s ++ t) ≡ true
is_line-append [] t h k = k
is_line-append (c ∷ s) t h k = ground (arith, is_line-append s t)

-- The context is never cancelled.
abbrev pub calm : Context
calm = record { stops = λ i. false; blocks = λ i. false }

pub lines-event_bytes :
    (name json rest : Text)
    → is_line name ≡ true
    → is_line json ≡ true
    → lines [] (event_bytes name json ++ rest)
      ≡ (codes "event:" ++ name) ∷ (codes "data:" ++ json) ∷ [] ∷ lines [] rest
unfolding lines
lines-event_bytes name json rest h k =
    ap (lines []) (append_assoc event (10 ∷ (content ++ 10 ∷ 10 ∷ [])) rest)
    ∙ lines_break [] event (content ++ 10 ∷ 10 ∷ [] ++ rest) h
    ∙ ap (λ l. event ∷ l)
        (ap (lines []) (append_assoc content (10 ∷ 10 ∷ []) rest)
          ∙ lines_break [] content (10 ∷ rest) k)
  where
    event : Text
    event = codes "event:" ++ name

    content : Text
    content = codes "data:" ++ json

-- The names of the events.
pub message_name : text_eq (trim_space (codes "message")) (codes "message") ≡ true
unfolding text_eq trim_space
message_name = refl

pub connected_name : text_eq (trim_space (codes "connected")) (codes "message") ≡ false
unfolding text_eq trim_space
connected_name = refl

pub closed_name : text_eq (trim_space (codes "closed")) (codes "message") ≡ false
unfolding text_eq trim_space
closed_name = refl

module _ (decode : Text → Option Message) where
  abbrev pub step_frame : ℕ → ℕ → List Text → Option Message → List Message × StreamEnd
  step_frame i sent ls none = read_loop decode calm eof i sent no_frame ls
  step_frame i sent ls (some m) =
      let r = read_loop decode calm eof i (suc sent) no_frame ls in (m ∷ r.0, r.1)

  read_loop_field :
      (i sent : ℕ) (f : Frame) (line : Text) (ls : List Text)
      → is_line line ≡ true
      → is_empty line ≡ false
      → read_loop decode calm eof i sent f (line ∷ ls)
        ≡ read_loop decode calm eof (suc i) sent (on_field line f) ls
  unfolding read_loop
  read_loop_field i sent f line ls h k = ground (arith, trim_right-is_line line h)

  read_loop_blank :
      (i sent : ℕ) (f : Frame) (ls : List Text)
      → read_loop decode calm eof i sent f ([] ∷ ls)
        ≡ step_frame (suc i) sent ls (message_of decode f)
  unfolding read_loop trim_right
  read_loop_blank i sent f ls = ground arith

  pub on_field-event :
      (f : Frame) (name : Text)
      → on_field (codes "event:" ++ name) f ≡ record { event = trim_space name; content = [] }
  unfolding on_field strip_prefix
  on_field-event f name = refl

  pub on_field-content :
      (event json : Text)
      → trim_space json ≡ json
      → on_field (codes "data:" ++ json) (record { event = event; content = [] })
        ≡ record { event = event; content = json }
  unfolding on_field strip_prefix
  on_field-content event json h = ap (λ t. record { event = event; content = t }) h

  read_loop-frame :
      (i sent : ℕ) (f : Frame) (name json : Text) (ls : List Text)
      → is_line name ≡ true
      → IsJson json
      → read_loop decode calm eof i sent f
          ((codes "event:" ++ name) ∷ (codes "data:" ++ json) ∷ [] ∷ ls)
        ≡ step_frame
            (suc (suc (suc i)))
            sent
            ls
            (message_of decode (record { event = trim_space name; content = json }))
  read_loop-frame i sent f name json ls h j =
      read_loop_field i sent f (codes "event:" ++ name) ((codes "data:" ++ json) ∷ [] ∷ ls) h refl
      ∙ ap (λ g. read_loop decode calm eof (suc i) sent g ((codes "data:" ++ json) ∷ [] ∷ ls))
          (on_field-event f name)
      ∙ read_loop_field (suc i) sent _ (codes "data:" ++ json) ([] ∷ ls) j.line refl
      ∙ ap (λ g. read_loop decode calm eof (suc (suc i)) sent g ([] ∷ ls))
          (on_field-content (trim_space name) json j.trimmed)
      ∙ read_loop_blank (suc (suc i)) sent _ ls

  -- One frame of the stream, with any bytes behind it.
  read_loop-event_bytes :
      (i sent : ℕ) (name json rest : Text)
      → is_line name ≡ true
      → IsJson json
      → read_loop decode calm eof i sent no_frame (lines [] (event_bytes name json ++ rest))
        ≡ step_frame
            (suc (suc (suc i)))
            sent
            (lines [] rest)
            (message_of decode (record { event = trim_space name; content = json }))
  read_loop-event_bytes i sent name json rest h j =
      ap (read_loop decode calm eof i sent no_frame) (lines-event_bytes name json rest h j.line)
      ∙ read_loop-frame i sent no_frame name json (lines [] rest) h j

  pub read_loop_end :
      (i sent : ℕ) → read_loop decode calm eof i sent no_frame (lines [] []) ≡ ([], stream_ended)
  unfolding read_loop lines message_of
  read_loop_end i sent = refl

  pub message_of-other :
      (name json : Text)
      → text_eq (trim_space name) (codes "message") ≡ false
      → message_of decode (record { event = trim_space name; content = json }) ≡ none
  unfolding message_of
  message_of-other name json h = ground arith

  pub message_of-message :
      (json : Text)
      → is_empty json ≡ false
      → message_of decode (record { event = trim_space (codes "message"); content = json })
        ≡ decode json
  unfolding message_of
  message_of-message json h = ground (arith, is_message)
    where
      is_message : text_eq (trim_space (codes "message")) (codes "message") ≡ true
      is_message = message_name

  -- A frame that is not a message.
  pub read_loop-other :
      (i sent : ℕ) (name json rest : Text)
      → is_line name ≡ true
      → text_eq (trim_space name) (codes "message") ≡ false
      → IsJson json
      → read_loop decode calm eof i sent no_frame (lines [] (event_bytes name json ++ rest))
        ≡ read_loop decode calm eof (suc (suc (suc i))) sent no_frame (lines [] rest)
  read_loop-other i sent name json rest h k j =
      read_loop-event_bytes i sent name json rest h j
      ∙ ap (step_frame (suc (suc (suc i))) sent (lines [] rest)) (message_of-other name json k)

  pub read_loop-message :
      (i sent : ℕ) (json rest : Text) (m : Message)
      → IsJson json
      → decode json ≡ some m
      → read_loop decode calm eof i sent no_frame
          (lines [] (event_bytes (codes "message") json ++ rest))
        ≡ step_frame (suc (suc (suc i))) sent (lines [] rest) (some m)
  read_loop-message i sent json rest m j e =
      read_loop-event_bytes i sent (codes "message") json rest refl j
      ∙ ap (step_frame (suc (suc (suc i))) sent (lines [] rest))
          (message_of-message json j.nonempty ∙ e)
