-- ===== src/Queue/Streaming.antt =====
-- pkg/mq/inmemory.go: how long a subscriber's channel stays open.
use elastic_gpu_telemetry_pi.Common.{
  ℕ, ◌≤◌, ◌<◌, ◌==◌, not, ◌≡◌, refl, ◌∙◌, inl, inr, Bool, true, false, List, [], ◌∷◌, arith, All,
  lookup, Option-cases, Text,
}
use elastic_gpu_telemetry_pi.Domain.{Message}
use elastic_gpu_telemetry_pi.Queue.{Queue, send_message, subscribe, cancel, clean_up, receive, ack}
use elastic_gpu_telemetry_pi.Queue.Steps.{
  Action, act, acts, sends_message, subscribes, cancels, cleans_up, receives, acks, buffers,
  selects, sends, registers, expires, takes_message, takes_backlog, drops_subscribers, begins_close,
  finishes_close, select, after_select, buffer, safe_send, register, expire, take_message,
  take_backlog,
}
use elastic_gpu_telemetry_pi.Queue.Selecting.{select_cases}

-- A subscriber that was made, whose channel is open and whose context is not cancelled.
pub record IsStreaming (q : Queue) (ref : ℕ) : Type 0 where
  pub made : ref < q.next_ref
  pub channel_open : (q.info ref).chan_closed ≡ false
  pub connected : (q.info ref).ctx_done ≡ false

-- The subscriber at `ref` is not cancelled, and nobody closes the queue.
unfoldable pub leaves_open : ℕ → Action → Bool
leaves_open ref (cancels r) = not (r == ref)
leaves_open ref (cleans_up r) = not (r == ref)
leaves_open ref drops_subscribers = false
leaves_open ref begins_close = false
leaves_open ref finishes_close = false
leaves_open ref (subscribes consumer_id) = true
leaves_open ref (acks id consumer_id) = true
leaves_open ref selects = true
leaves_open ref (sends_message done pick m) = true
leaves_open ref (receives r) = true
leaves_open ref (buffers m) = true
leaves_open ref (sends pick r m) = true
leaves_open ref (registers r now m) = true
leaves_open ref (expires now visits) = true
leaves_open ref takes_message = true
leaves_open ref takes_backlog = true

-- What matters of the queue to the stream at `ref`.
record Same (ref : ℕ) (q t : Queue) : Type 0 where
  made : q.next_ref ≤ t.next_ref
  channel_open : (t.info ref).chan_closed ≡ (q.info ref).chan_closed
  connected : (t.info ref).ctx_done ≡ (q.info ref).ctx_done
  closed : t.closed ≡ q.closed

Same-refl : (ref : ℕ) (q : Queue) → Same ref q q
Same-refl ref q = record {
  made = omega arith;
  channel_open = refl;
  connected = refl;
  closed = refl;
}

module _ (ref : ℕ) (q : Queue) (known : ref < q.next_ref) where
  send_message-Same : (done pick : Bool) (m : Message) → Same ref q (send_message done pick m q).0
  unfolding send_message
  send_message-Same done pick m = ground arith

  subscribe-Same : (consumer_id : Text) → Same ref q (act (subscribes consumer_id) q)
  unfolding act subscribe
  subscribe-Same consumer_id = ground arith

  receive-Same : (r : ℕ) → Same ref q (receive r q)
  unfolding receive
  receive-Same r = ground arith

  safe_send-Same : (pick : Bool) (r : ℕ) (m : Message) → Same ref q (safe_send pick r m q).0
  unfolding safe_send
  safe_send-Same pick r m = ground arith

  ack-Same : (id consumer_id : Text) → Same ref q (act (acks id consumer_id) q)
  unfolding act ack
  ack-Same id consumer_id = elim (Option-cases (lookup id q.pending)) [
    | inl e ↦ ground arith
    | inr (p, e) ↦ ground arith
  ]

  buffer-Same : (m : Message) → Same ref q (buffer m q)
  unfolding buffer
  buffer-Same m = ground arith

  register-Same : (r now : ℕ) (m : Message) → Same ref q (register r now m q)
  unfolding register
  register-Same r now m = ground arith

  select-Same : Same ref q (after_select q (select q))
  select-Same = elim (select_cases q) [
    | inl (_, e) ↦ rw e (Same-refl ref q)
    | inr (r, c) ↦
        rw c.result
          (record { made = omega arith; channel_open = refl; connected = refl; closed = refl })
  ]

  take_message-Same : Same ref q (take_message q)
  unfolding take_message
  take_message-Same = ground arith

  act-Same : (a : Action) → leaves_open ref a ≡ true → Same ref q (act a q)
  unfolding act leaves_open cancel clean_up expire take_backlog
  act-Same (sends_message done pick m) h = send_message-Same done pick m
  act-Same (subscribes consumer_id) h = subscribe-Same consumer_id
  act-Same (cancels r) h = ground arith
  act-Same (cleans_up r) h = ground arith
  act-Same (receives r) h = receive-Same r
  act-Same (acks id consumer_id) h = ack-Same id consumer_id
  act-Same (buffers m) h = buffer-Same m
  act-Same selects h = select-Same
  act-Same (sends pick r m) h = safe_send-Same pick r m
  act-Same (registers r now m) h = register-Same r now m
  act-Same (expires now visits) h = record {
    made = omega arith;
    channel_open = refl;
    connected = refl;
    closed = refl;
  }
  act-Same takes_message h = take_message-Same
  act-Same takes_backlog h = record {
    made = omega arith;
    channel_open = refl;
    connected = refl;
    closed = refl;
  }
  act-Same drops_subscribers h = cc
  act-Same begins_close h = cc
  act-Same finishes_close h = cc

-- Without a cancellation or a close the subscriber's channel stays open, and so does the queue.
pub acts-IsStreaming :
    (ref : ℕ) (schedule : List Action) (q : Queue)
    → All (λ a. leaves_open ref a ≡ true) schedule
    → IsStreaming q ref
    → IsStreaming (acts schedule q) ref × ((acts schedule q).closed ≡ q.closed)
unfolding acts
acts-IsStreaming ref [] q h s = (s, refl)
acts-IsStreaming ref (a ∷ rest) q (ha, h) s =
    let same = act-Same ref q s.made a ha in
    let (t, closed) = acts-IsStreaming ref rest (act a q) h (record {
      made = omega (arith, s.made, same.made);
      channel_open = same.channel_open ∙ s.channel_open;
      connected = same.connected ∙ s.connected;
    }) in
    (t, closed ∙ same.closed)
