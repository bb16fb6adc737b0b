-- ===== src/Server/Cutting.antt =====
-- pkg/mq/httpclient.go: what the client reads from a stream that breaks off.
use elastic_gpu_telemetry_pi.Common.{
  ℕ, suc, ◌≡◌, refl, sym, ap, subst, ◌∙◌, true, false, Option, none, some, List, [], ◌∷◌, ◌++◌,
  arith, Text, codes, is_empty, trim_space, ◌==◌, All, Bool-cases, inl, inr,
}
use elastic_gpu_telemetry_pi.Domain.{Message}
use elastic_gpu_telemetry_pi.HttpQueue.Stream.{
  Ending, eof, read_failed, StreamEnd, stream_ended, lines, trim_right, Frame, no_frame, on_field,
  message_of, read_loop,
}
use elastic_gpu_telemetry_pi.Server.Frames.{
  is_line, IsJson, event_bytes, calm, lines-event_bytes, trim_right-is_line, on_field-event,
  on_field-content,
}

abbrev pub IsPrefix : {A : Type 0} → List A → List A → Type 0
IsPrefix {A} xs ys = (zs : List A) × (xs ++ zs ≡ ys)

-- The complete lines of the first part of a text come first.
pub lines-append :
    (line s t : Text) → (rest : List Text) × (lines line (s ++ t) ≡ lines line s ++ rest)
unfolding lines
lines-append line [] t = (lines line t, refl)
lines-append line (c ∷ s) t = elim (Bool-cases (c == 10)) [
  | inl h ↦ let (rest, e) = lines-append [] s t in (rest, rw h (ap (λ l. line ∷ l) e))
  | inr h ↦ let (rest, e) = lines-append (line ++ c ∷ []) s t in (rest, rw h e)
]

-- A frame is a name and a JSON text.
abbrev pub IsFrame : Text × Text → Type 0
IsFrame f = (is_line f.0 ≡ true) × IsJson f.1

abbrev pub bytes_of : List (Text × Text) → Text
bytes_of [] = []
bytes_of (f ∷ fs) = event_bytes f.0 f.1 ++ bytes_of fs

abbrev lines_of : List (Text × Text) → List Text
lines_of [] = []
lines_of (f ∷ fs) = (codes "event:" ++ f.0) ∷ (codes "data:" ++ f.1) ∷ [] ∷ lines_of fs

pub lines-bytes_of :
    (fs : List (Text × Text)) → All IsFrame fs → lines [] (bytes_of fs) ≡ lines_of fs
unfolding lines
lines-bytes_of [] h = refl
lines-bytes_of ((name, json) ∷ fs) ((h, j), hs) =
    lines-event_bytes name json (bytes_of fs) h j.line
    ∙ ap (λ l. (codes "event:" ++ name) ∷ (codes "data:" ++ json) ∷ [] ∷ l) (lines-bytes_of fs hs)

module _ (decode : Text → Option Message) where
  abbrev with_message : Option Message → List Message → List Message
  with_message none ms = ms
  with_message (some m) ms = m ∷ ms

  -- The frame as the client has it once its two lines are read.
  abbrev frame_of : Text × Text → Frame
  frame_of f = record { event = trim_space f.0; content = f.1 }

  -- The messages of the frames, in order.
  abbrev pub messages_of : List (Text × Text) → List Message
  messages_of [] = []
  messages_of (f ∷ fs) = with_message (message_of decode (frame_of f)) (messages_of fs)

  -- The body ends inside a frame or behind it.
  abbrev at_end : Ending → Option Message → List Message
  at_end (read_failed e) m = []
  at_end eof m = with_message m []

  abbrev at_eof : Option Message → List Message × StreamEnd
  at_eof none = ([], stream_ended)
  at_eof (some m) = (m ∷ [], stream_ended)

  read_loop_end :
      (ending : Ending) (i sent : ℕ) (f : Frame)
      → (read_loop decode calm ending i sent f []).0 ≡ at_end ending (message_of decode f)
  unfolding read_loop
  read_loop_end eof i sent f = ended (message_of decode f)
    where
      ended : (o : Option Message) → (at_eof o).0 ≡ with_message o []
      ended none = refl
      ended (some m) = refl
  read_loop_end (read_failed e) i sent f = refl

  read_loop_field :
      (ending : Ending) (i sent : ℕ) (f : Frame) (line : Text) (ls : List Text)
      → is_line line ≡ true
      → is_empty line ≡ false
      → read_loop decode calm ending i sent f (line ∷ ls)
        ≡ read_loop decode calm ending (suc i) sent (on_field line f) ls
  unfolding read_loop
  read_loop_field eof i sent f line ls h k = ground (arith, trim_right-is_line line h)
  read_loop_field (read_failed e) i sent f line ls h k = ground (arith, trim_right-is_line line h)

  abbrev after_blank : Ending → ℕ → ℕ → List Text → Option Message → List Message
  after_blank ending i sent ls none = (read_loop decode calm ending i sent no_frame ls).0
  after_blank ending i sent ls (some m) =
      m ∷ (read_loop decode calm ending i (suc sent) no_frame ls).0

  read_loop_blank :
      (ending : Ending) (i sent : ℕ) (f : Frame) (ls : List Text)
      → (read_loop decode calm ending i sent f ([] ∷ ls)).0
        ≡ after_blank ending (suc i) sent ls (message_of decode f)
  unfolding read_loop trim_right
  read_loop_blank eof i sent f ls = ground arith
  read_loop_blank (read_failed e) i sent f ls = ground arith

  message_of_empty :
      (name : Text) → message_of decode (record { event = name; content = [] }) ≡ none
  unfolding message_of
  message_of_empty name = refl

  -- The first line of a frame, and both of its lines.
  read_one :
      (ending : Ending) (i sent : ℕ) (f : Text × Text) (ls : List Text)
      → IsFrame f
      → read_loop decode calm ending i sent no_frame ((codes "event:" ++ f.0) ∷ ls)
        ≡ read_loop decode calm ending
            (suc i)
            sent
            (record { event = trim_space f.0; content = [] })
            ls
  read_one ending i sent (name, json) ls (h, j) =
      read_loop_field ending i sent no_frame (codes "event:" ++ name) ls h refl
      ∙ ap (λ g. read_loop decode calm ending (suc i) sent g ls)
          (on_field-event decode no_frame name)

  read_two :
      (ending : Ending) (i sent : ℕ) (f : Text × Text) (ls : List Text)
      → IsFrame f
      → read_loop decode calm ending i sent no_frame
          ((codes "event:" ++ f.0) ∷ (codes "data:" ++ f.1) ∷ ls)
        ≡ read_loop decode calm ending (suc (suc i)) sent (frame_of f) ls
  read_two ending i sent (name, json) ls (h, j) =
      read_one ending i sent (name, json) ((codes "data:" ++ json) ∷ ls) (h, j)
      ∙ read_loop_field ending (suc i) sent _ (codes "data:" ++ json) ls j.line refl
      ∙ ap (λ g. read_loop decode calm ending (suc (suc i)) sent g ls)
          (on_field-content decode (trim_space name) json j.trimmed)

  at_end-IsPrefix :
      (ending : Ending) (o : Option Message) (ms : List Message)
      → IsPrefix (at_end ending o) (with_message o ms)
  at_end-IsPrefix eof none ms = (ms, refl)
  at_end-IsPrefix eof (some m) ms = (ms, refl)
  at_end-IsPrefix (read_failed e) o ms = (with_message o ms, refl)

  nothing-IsPrefix :
      (ending : Ending) (f : Frame) (i sent : ℕ) (ms : List Message)
      → message_of decode f ≡ none
      → IsPrefix (read_loop decode calm ending i sent f []).0 ms
  nothing-IsPrefix ending f i sent ms h =
      subst (λ l. IsPrefix l ms) (sym (read_loop_end ending i sent f ∙ ap (at_end ending) h))
        (at_end-IsPrefix ending none ms)

  after_blank-IsPrefix :
      (ending : Ending) (i sent : ℕ) (ls : List Text) (o : Option Message) (ms : List Message)
      → ((k : ℕ) → IsPrefix (read_loop decode calm ending i k no_frame ls).0 ms)
      → IsPrefix (after_blank ending i sent ls o) (with_message o ms)
  after_blank-IsPrefix ending i sent ls none ms h = h sent
  after_blank-IsPrefix ending i sent ls (some m) ms h =
      let (rest, e) = h (suc sent) in (rest, ap (λ l. m ∷ l) e)

  pub read_loop-IsPrefix :
      (ending : Ending) (i sent : ℕ) (fs : List (Text × Text)) (ls rest : List Text)
      → All IsFrame fs
      → ls ++ rest ≡ lines_of fs
      → IsPrefix (read_loop decode calm ending i sent no_frame ls).0 (messages_of fs)
  read_loop-IsPrefix ending i sent fs [] rest h e =
      nothing-IsPrefix ending no_frame i sent (messages_of fs) (message_of_empty [])
  read_loop-IsPrefix ending i sent [] (l ∷ ls) rest h e = cc
  read_loop-IsPrefix ending i sent (f ∷ fs) (l ∷ []) rest (h, hs) e =
      subst (λ r. IsPrefix r.0 (messages_of (f ∷ fs)))
        (sym (
          ap (λ x. read_loop decode calm ending i sent no_frame (x ∷ [])) first
          ∙ read_one ending i sent f [] h))
        (nothing-IsPrefix ending _ (suc i) sent (messages_of (f ∷ fs))
          (message_of_empty (trim_space f.0)))
    where
      first : l ≡ codes "event:" ++ f.0
      first = cc
  read_loop-IsPrefix ending i sent (f ∷ fs) (l ∷ k ∷ []) rest (h, hs) e =
      subst (λ r. IsPrefix r.0 (messages_of (f ∷ fs)))
        (sym
          (ap (read_loop decode calm ending i sent no_frame) both ∙ read_two ending i sent f [] h))
        (subst (λ x. IsPrefix x (messages_of (f ∷ fs)))
          (sym (read_loop_end ending (suc (suc i)) sent (frame_of f)))
          (at_end-IsPrefix ending (message_of decode (frame_of f)) (messages_of fs)))
    where
      both : l ∷ k ∷ [] ≡ (codes "event:" ++ f.0) ∷ (codes "data:" ++ f.1) ∷ []
      both = cc
  read_loop-IsPrefix ending i sent (f ∷ fs) (l ∷ k ∷ b ∷ ls) rest (h, hs) e =
      subst (λ x. IsPrefix x (messages_of (f ∷ fs)))
        (sym (
          ap (λ x. (read_loop decode calm ending i sent no_frame x).0) whole
          ∙ ap (λ r. r.0) (read_two ending i sent f ([] ∷ ls) h)
          ∙ read_loop_blank ending (suc (suc i)) sent (frame_of f) ls))
        (after_blank-IsPrefix ending (suc (suc (suc i))) sent ls (message_of decode (frame_of f))
          (messages_of fs)
          (λ j. read_loop-IsPrefix ending (suc (suc (suc i))) j fs ls rest hs tail))
    where
      whole : l ∷ k ∷ b ∷ ls ≡ (codes "event:" ++ f.0) ∷ (codes "data:" ++ f.1) ∷ [] ∷ ls
      whole = cc

      tail : ls ++ rest ≡ lines_of fs
      tail = cc
