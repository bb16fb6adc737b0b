-- ===== src/Server/Connections.antt =====
-- pkg/mq/server.go and pkg/mq/httpclient.go: a subscriber's connections, which may break off anywhere.
use mathlib.Core.List.{append-nil}
use elastic_gpu_telemetry_pi.Common.{
  ◌≡◌, refl, sym, ap, subst, ◌∙◌, ◌⊎◌, inl, inr, Option, List, [], ◌∷◌, ◌++◌, Text, codes, All,
  Bool-cases,
}
use elastic_gpu_telemetry_pi.Domain.{Message}
use elastic_gpu_telemetry_pi.HttpQueue.{ClientError}
use elastic_gpu_telemetry_pi.HttpQueue.Stream.{Ending, lines, stream, no_frame, read_loop}
use elastic_gpu_telemetry_pi.HttpQueue.Subscribing.{
  not_connected, connected, Turn, received, subscription,
}
use elastic_gpu_telemetry_pi.Server.{
  StreamEvent, message_arrives, channel_closes, client_leaves, stream_messages, stream_body,
}
use elastic_gpu_telemetry_pi.Server.Frames.{
  IsJson, event_bytes, calm, connected_name, closed_name, message_of-other, message_of-message,
}
use elastic_gpu_telemetry_pi.Server.RoundTrip.{sent_messages, IsCarried}
use elastic_gpu_telemetry_pi.Server.Cutting.{
  IsPrefix, IsFrame, bytes_of, messages_of, lines-append, lines-bytes_of, read_loop-IsPrefix,
}

module _ (decode : Text → Option Message) (sse_event : Text → Text → Text) (encode : Message → Text)
    (writes : (name json : Text) → sse_event name json ≡ event_bytes name json)
    (greeting closing : Text) (greeting-IsJson : IsJson greeting)
    (closing-IsJson : IsJson closing) where
  abbrev frames_of : List StreamEvent → List (Text × Text)
  frames_of [] = []
  frames_of (client_leaves ∷ es) = []
  frames_of (channel_closes ∷ es) = (codes "closed", closing) ∷ []
  frames_of (message_arrives m ∷ es) = (codes "message", encode m) ∷ frames_of es

  abbrev all_frames : List StreamEvent → List (Text × Text)
  all_frames es = (codes "connected", greeting) ∷ frames_of es

  abbrev AllCarried : List StreamEvent → Type 0
  AllCarried es = All (IsCarried decode sse_event encode writes) (sent_messages es)

  stream_messages-bytes_of :
      (es : List StreamEvent)
      → stream_messages sse_event encode closing es ≡ bytes_of (frames_of es)
  unfolding stream_messages
  stream_messages-bytes_of [] = refl
  stream_messages-bytes_of (client_leaves ∷ es) = refl
  stream_messages-bytes_of (channel_closes ∷ es) =
      writes (codes "closed") closing ∙ sym (append-nil (event_bytes (codes "closed") closing))
  stream_messages-bytes_of (message_arrives m ∷ es) =
      ap (λ l. l ++ stream_messages sse_event encode closing es)
        (writes (codes "message") (encode m))
      ∙ ap (λ l. event_bytes (codes "message") (encode m) ++ l) (stream_messages-bytes_of es)

  frames_of-IsFrame : (es : List StreamEvent) → AllCarried es → All IsFrame (frames_of es)
  unfolding sent_messages
  frames_of-IsFrame [] h = tt
  frames_of-IsFrame (client_leaves ∷ es) h = tt
  frames_of-IsFrame (channel_closes ∷ es) h = ((refl, closing-IsJson), tt)
  frames_of-IsFrame (message_arrives m ∷ es) ((j, d), h) = ((refl, j), frames_of-IsFrame es h)

  messages_of-frames_of :
      (es : List StreamEvent) → AllCarried es → messages_of decode (frames_of es) ≡ sent_messages es
  unfolding sent_messages
  messages_of-frames_of [] h = refl
  messages_of-frames_of (client_leaves ∷ es) h = refl
  messages_of-frames_of (channel_closes ∷ es) h =
      rw (message_of-other decode (codes "closed") closing closed_name) refl
  messages_of-frames_of (message_arrives m ∷ es) ((j, d), h) =
      rw (message_of-message decode (encode m) j.nonempty ∙ d)
        (ap (λ l. m ∷ l) (messages_of-frames_of es h))

  -- The server's whole body, as frames.
  stream_body-bytes_of :
      (es : List StreamEvent)
      → stream_body sse_event encode greeting closing es ≡ bytes_of (all_frames es)
  unfolding stream_body
  stream_body-bytes_of es =
      ap (λ l. l ++ stream_messages sse_event encode closing es)
        (writes (codes "connected") greeting)
      ∙ ap (λ l. event_bytes (codes "connected") greeting ++ l) (stream_messages-bytes_of es)

  messages_of-all_frames :
      (es : List StreamEvent)
      → AllCarried es
      → messages_of decode (all_frames es) ≡ sent_messages es
  messages_of-all_frames es h =
      rw (message_of-other decode (codes "connected") greeting connected_name)
        (messages_of-frames_of es h)

  -- A stream that breaks off anywhere, in a line or between them.
  pub stream-IsPrefix :
      (es : List StreamEvent) (ending : Ending) (body rest : Text)
      → AllCarried es
      → body ++ rest ≡ stream_body sse_event encode greeting closing es
      → IsPrefix (stream decode calm ending body).0 (sent_messages es)
  unfolding stream
  stream-IsPrefix es ending body rest h e =
      let frames : All IsFrame (all_frames es) =
        ((refl, greeting-IsJson), frames_of-IsFrame es h) in
      let (others, split) = lines-append [] body rest in
      let whole =
        sym split
        ∙ ap (lines []) (e ∙ stream_body-bytes_of es)
        ∙ lines-bytes_of (all_frames es) frames in
      subst (IsPrefix (read_loop decode calm ending 0 0 no_frame (lines [] body)).0)
        (messages_of-all_frames es h)
        (read_loop-IsPrefix decode ending 0 0 (all_frames es) (lines [] body) others frames whole)

  -- A turn whose connection, if it has one, is to the server: it has read the first part of what the
  -- server wrote for some events.
  pub record IsServed (t : Turn) : Type 0 where
    pub events : List StreamEvent
    pub carried : AllCarried events
    pub served :
        ((e : ClientError) × (t.connection ≡ not_connected e))
        ⊎ ((ending : Ending) × (body : Text) × (rest : Text) × (t.connection
              ≡ connected calm ending body)
            × (body ++ rest ≡ stream_body sse_event encode greeting closing events))

  -- Some of the first messages that the server sent in the first turn, then of those in the second, and
  -- so on.
  abbrev pub AreParts : (turns : List Turn) → All IsServed turns → List Message → Type 0
  AreParts [] h ms = ms ≡ []
  AreParts (t ∷ turns) (h, hs) ms =
      (part : List Message) × (more : List Message) × (ms ≡ part ++ more)
      × IsPrefix part (sent_messages h.events)
      × AreParts turns hs more

  received-IsPrefix :
      (t : Turn) (h : IsServed t) → IsPrefix (received decode t.connection) (sent_messages h.events)
  received-IsPrefix t h = elim h.served [
    | inl (e, c) ↦
        subst (λ x. IsPrefix (received decode x) (sent_messages h.events)) (sym c)
          (sent_messages h.events, refl)
    | inr (ending, body, rest, c, e) ↦
        subst (λ x. IsPrefix (received decode x) (sent_messages h.events)) (sym c)
          (stream-IsPrefix h.events ending body rest h.carried e)
  ]

  none-AreParts : (turns : List Turn) (h : All IsServed turns) → AreParts turns h []
  none-AreParts [] h = refl
  none-AreParts (t ∷ turns) (h, hs) =
      ([], [], refl, (sent_messages h.events, refl), none-AreParts turns hs)

  -- Where every connection of a subscriber is to the server, gin writes an event as its name and its
  -- JSON text, each on a line, and an empty line, the JSON texts are lines without white space around
  -- them that are decoded to the messages, and the context is not cancelled while a connection is read;
  -- a connection may break off anywhere, even inside a line, with the end of the body or an error. Then
  -- what the subscriber's channel receives is, for each connection in turn, some of the first messages
  -- that the server sent on it, in order: none is made up, changed or out of order.
  pub subscription-AreParts :
      (turns : List Turn) (h : All IsServed turns) → AreParts turns h (subscription decode turns).0
  unfolding subscription
  subscription-AreParts [] h = refl
  subscription-AreParts (t ∷ turns) (h, hs) = elim (Bool-cases t.done) [
    | inl a ↦ rw a (none-AreParts (t ∷ turns) (h, hs))
    | inr a ↦ elim (Bool-cases t.closed) [
      | inl b ↦ rw (a, b) (none-AreParts (t ∷ turns) (h, hs))
      | inr b ↦ elim (Bool-cases t.closed_after) [
        | inl c ↦ rw (a, b, c) last
        | inr c ↦ elim (Bool-cases t.cancelled) [
          | inl d ↦ rw (a, b, c, d) last
          | inr d ↦
              rw (a, b, c, d)
                (
                  received decode t.connection,
                  (subscription decode turns).0,
                  refl,
                  received-IsPrefix t h,
                  subscription-AreParts turns hs,
                )
        ]
      ]
    ]
  ]
    where
      last : AreParts (t ∷ turns) (h, hs) (received decode t.connection)
      last = (
        received decode t.connection,
        [],
        sym (append-nil (received decode t.connection)),
        received-IsPrefix t h,
        none-AreParts turns hs,
      )
