-- ===== src/Server/RoundTrip.antt =====
-- pkg/mq/server.go and pkg/mq/httpclient.go: the event stream that the server writes and the client
-- reads.
use mathlib.Core.List.{append-nil}
use elastic_gpu_telemetry_pi.Common.{
  ℕ, suc, ◌≡◌, refl, sym, ap, ◌∙◌, Option, some, List, [], ◌∷◌, ◌++◌, Text, codes, All,
}
use elastic_gpu_telemetry_pi.Domain.{Message}
use elastic_gpu_telemetry_pi.HttpQueue.Stream.{
  eof, stream_ended, lines, no_frame, read_loop, stream,
}
use elastic_gpu_telemetry_pi.Server.{
  StreamEvent, message_arrives, channel_closes, client_leaves, stream_messages, stream_body,
}
use elastic_gpu_telemetry_pi.Server.Frames.{
  IsJson, event_bytes, calm, read_loop_end, read_loop-other, read_loop-message, connected_name,
  closed_name,
}

-- The messages that arrive before the stream ends.
unfoldable pub sent_messages : List StreamEvent → List Message
sent_messages [] = []
sent_messages (client_leaves ∷ es) = []
sent_messages (channel_closes ∷ es) = []
sent_messages (message_arrives m ∷ es) = m ∷ sent_messages es

module _ (decode : Text → Option Message) (sse_event : Text → Text → Text) (encode : Message → Text)
    (writes : (name json : Text) → sse_event name json ≡ event_bytes name json) where
  -- The message's JSON text is one, and it is decoded to the message.
  abbrev pub IsCarried : Message → Type 0
  IsCarried m = IsJson (encode m) × (decode (encode m) ≡ some m)

  read_loop-messages :
      (i sent : ℕ) (closing : Text) (es : List StreamEvent)
      → IsJson closing
      → All IsCarried (sent_messages es)
      → read_loop decode calm eof i sent no_frame
          (lines [] (stream_messages sse_event encode closing es))
        ≡ (sent_messages es, stream_ended)
  unfolding stream_messages sent_messages
  read_loop-messages i sent closing [] j c = read_loop_end decode i sent
  read_loop-messages i sent closing (client_leaves ∷ es) j c = read_loop_end decode i sent
  read_loop-messages i sent closing (channel_closes ∷ es) j c =
      ap (λ l. read_loop decode calm eof i sent no_frame (lines [] l))
        (writes (codes "closed") closing ∙ sym (append-nil (event_bytes (codes "closed") closing)))
      ∙ read_loop-other decode i sent (codes "closed") closing [] refl closed_name j
      ∙ read_loop_end decode (suc (suc (suc i))) sent
  read_loop-messages i sent closing (message_arrives m ∷ es) j ((json, decoded), c) =
      ap
        (λ l.
          read_loop decode calm eof i sent no_frame
            (lines [] (l ++ stream_messages sse_event encode closing es)))
        (writes (codes "message") (encode m))
      ∙ read_loop-message decode i sent (encode m) (stream_messages sse_event encode closing es) m
          json decoded
      ∙ ap (λ r. (m ∷ r.0, r.1)) (read_loop-messages (suc (suc (suc i))) (suc sent) closing es j c)

  -- Where gin writes an event as its name and its JSON text, each on a line, and an empty line, and
  -- the JSON texts are lines without white space around them that are decoded to the messages: what
  -- the client reads from the server's stream, if its context is not cancelled, is exactly the
  -- messages that the server sent, in order. The first event and the last make no message.
  pub stream-stream_body :
      (greeting closing : Text) (es : List StreamEvent)
      → IsJson greeting
      → IsJson closing
      → All IsCarried (sent_messages es)
      → stream decode calm eof (stream_body sse_event encode greeting closing es)
        ≡ (sent_messages es, stream_ended)
  unfolding stream stream_body
  stream-stream_body greeting closing es g j c =
      ap
        (λ l.
          read_loop decode calm eof 0 0 no_frame
            (lines [] (l ++ stream_messages sse_event encode closing es)))
        (writes (codes "connected") greeting)
      ∙ read_loop-other decode 0 0 (codes "connected") greeting
          (stream_messages sse_event encode closing es) refl connected_name g
      ∙ read_loop-messages 3 0 closing es j c
