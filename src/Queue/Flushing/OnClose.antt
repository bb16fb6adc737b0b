-- ===== src/Queue/Flushing/OnClose.antt =====
-- pkg/mq/inmemory.go: `Close` with a single subscriber that has room.
use mathlib.Core.List.{append_assoc, append-nil}
use elastic_gpu_telemetry_pi.Common.{
  ℕ, zero, suc, ◌+◌, ◌≤◌, ◌≡◌, Bool, sym, ap, ◌∙◌, false, true, List, [], ◌∷◌, ◌++◌, arith, length,
}
use elastic_gpu_telemetry_pi.Domain.{Time, Message}
use elastic_gpu_telemetry_pi.Queue.{Queue}
use elastic_gpu_telemetry_pi.Queue.Ledger.Frame.{close_all-channel}
use elastic_gpu_telemetry_pi.Queue.Steps.{
  Action, acts, take_backlog, drop_subscribers, begin_close, finish_close,
}
use elastic_gpu_telemetry_pi.Queue.Goroutines.{Environment, distribute_message, drain, close}
use elastic_gpu_telemetry_pi.Queue.Flushing.{
  IsReady, IsReady-weaken, envs, distribute_message-Flushes,
}

drop_subscribers-channel :
    (ref : ℕ) (q : Queue) → ((drop_subscribers q).info ref).channel ≡ (q.info ref).channel
unfolding drop_subscribers
drop_subscribers-channel ref q = close_all-channel q.subscribers q.info ref

module _ (backlog_picks : ℕ → ℕ → ℕ → Bool) (backlog_nows : ℕ → ℕ → Time) (picks : ℕ → ℕ → Bool)
    (nows : ℕ → Time) where
  abbrev pub quiet_backlog : ℕ → ℕ → Environment
  quiet_backlog i = envs (backlog_picks i) (backlog_nows i)

  abbrev pub quiet : ℕ → List Action
  quiet i = []

  abbrev drained : ℕ → ℕ → ℕ → Queue → List Message
  drained rounds i ref q =
      ((drain quiet_backlog (envs picks nows) quiet rounds i q).info ref).channel

  -- A round, and then those that follow.
  round-channel :
      (rounds i ref : ℕ) (m : Message) (ms : List Message) (q : Queue)
      → q.messages ≡ m ∷ ms
      → IsReady (length ms + length q.undelivered + 1) ref q
      → ((t : Queue)
          → t.messages ≡ ms
          → t.undelivered ≡ []
          → IsReady (length ms) ref t
          → drained rounds (suc i) ref t ≡ (t.info ref).channel ++ ms)
      → drained (suc rounds) i ref q ≡ (q.info ref).channel ++ (q.undelivered ++ m ∷ ms)
  unfolding drain acts take_backlog
  round-channel rounds i ref m ms q e r rest =
      let q' : Queue = record q { messages = ms } in
      let t = distribute_message (quiet_backlog i) (envs picks nows i) m q' in
      let f =
        distribute_message-Flushes (backlog_picks i) (backlog_nows i) (length ms) ref (picks i)
          (nows i) m q'
          (record {
            listed = r.listed;
            unflagged = r.unflagged;
            channel_open = r.channel_open;
            not_cancelled = r.not_cancelled;
            room = r.room;
          }) in
      rw e (
        rest t (f.same_messages) (f.same_backlog) f.ready
        ∙ ap (λ l. l ++ ms) f.channel
        ∙ append_assoc (q.info ref).channel (q.undelivered ++ m ∷ []) ms
        ∙ ap (λ l. (q.info ref).channel ++ l) (append_assoc q.undelivered (m ∷ []) ms))

  -- The distributor with an empty backlog.
  drain-channel :
      (rounds i ref : ℕ) (ms : List Message) (q : Queue)
      → q.messages ≡ ms
      → q.undelivered ≡ []
      → length ms ≤ rounds
      → IsReady (length ms) ref q
      → drained rounds i ref q ≡ (q.info ref).channel ++ ms
  unfolding drain acts
  drain-channel zero i ref [] q e none_left enough r =
      drop_subscribers-channel ref q ∙ sym (append-nil (q.info ref).channel)
  drain-channel zero i ref (m ∷ ms) q e none_left enough r = absurd (omega arith)
  drain-channel (suc rounds) i ref [] q e none_left enough r =
      rw e (drop_subscribers-channel ref q ∙ sym (append-nil (q.info ref).channel))
  drain-channel (suc rounds) i ref (m ∷ ms) q e none_left enough r =
      round-channel rounds i ref m ms q e
        (IsReady-weaken (length ms + length q.undelivered + 1) (length (m ∷ ms)) ref q
          (omega (arith, ap length none_left)) r)
        (λ t e' none_left' r'. drain-channel rounds (suc i) ref ms t e' none_left' (omega arith) r')
      ∙ ap (λ l. (q.info ref).channel ++ (l ++ m ∷ ms)) none_left

  -- `Close` of an open queue with a single subscriber, which is open, is not cancelled, and has room for
  -- the backlog and all messages of the channel, of which there is at least one; where no other
  -- goroutine interferes. The subscriber's channel then ends with the backlog and, after it, these
  -- messages, each once and in order.
  pub close_flushes :
      (ref : ℕ) (m : Message) (ms : List Message) (q : Queue)
      → q.closed ≡ false
      → q.messages ≡ m ∷ ms
      → IsReady (length q.undelivered + length q.messages) ref q
      → ((close quiet_backlog (envs picks nows) quiet [] q).info ref).channel
        ≡ (q.info ref).channel ++ (q.undelivered ++ q.messages)
  unfolding close begin_close finish_close acts
  close_flushes ref m ms q opened e r =
      let q' : Queue = record q {
        closed = true;
        messages_closed = true;
        redeliver_closed = true;
      } in
      rw (opened, close)
        (drop_subscribers-channel ref
            (drain quiet_backlog (envs picks nows) quiet (length q.messages) 0 q')
          ∙ ap (λ n. drained n 0 ref q') (ap length e)
          ∙ round-channel (length ms) 0 ref m ms q' e
              (record {
                listed = r.listed;
                unflagged = r.unflagged;
                channel_open = r.channel_open;
                not_cancelled = r.not_cancelled;
                room = omega (arith, r.room, ap length e);
              })
              (λ t e' none_left r'.
                drain-channel (length ms) 1 ref ms t e' none_left (omega arith) r')
          ∙ ap (λ l. (q.info ref).channel ++ (q.undelivered ++ l)) (sym e))
