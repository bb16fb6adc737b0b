-- ===== src/Queue/Schedules.antt =====
-- pkg/mq/inmemory.go: the invariant along schedules.
use elastic_gpu_telemetry_pi.Common.{
  ℕ, ◌≤◌, ◌≡◌, refl, ap, inl, inr, List, [], ◌∷◌, arith, lookup, length,
}
use elastic_gpu_telemetry_pi.Domain.{Message}
use elastic_gpu_telemetry_pi.Queue.{Queue, new_queue}
use elastic_gpu_telemetry_pi.Queue.Steps.{
  Action, act, acts, select, after_select, take_message, take_backlog, drop_subscribers,
  begin_close, finish_close, sends_message, subscribes, cancels, cleans_up, receives, acks, buffers,
  selects, sends, registers, expires, takes_message, takes_backlog, drops_subscribers, begins_close,
  finishes_close,
}
use elastic_gpu_telemetry_pi.Queue.Invariant.{
  IsValid, send_message-IsValid, buffer-IsValid, cancel-IsValid, receive-IsValid, safe_send-IsValid,
  new_queue-IsValid,
}
use elastic_gpu_telemetry_pi.Queue.Selecting.{Chooses, select_cases}
use elastic_gpu_telemetry_pi.Queue.Pending.{
  register-IsValid, forget-IsValid, ack-IsValid, expire-IsValid,
}
use elastic_gpu_telemetry_pi.Queue.Subscribing.{
  subscribe-IsValid, clean_up-IsValid, drop_subscribers-IsValid,
}

-- The index plays no part in the invariant.
move-IsValid : (q : Queue) (i : ℕ) → IsValid q → IsValid (record q { current = i })
move-IsValid q i v = record {
  messages_bounded = v.messages_bounded;
  backlog_bounded = v.backlog_bounded;
  pending_bounded = v.pending_bounded;
  keyed = v.keyed;
  sound = v.sound;
  distinct = v.distinct;
  listed = λ r h. record {
    made = (v.listed r h).made;
    unflagged = (v.listed r h).unflagged;
    channel_open = (v.listed r h).channel_open;
  };
  closing = v.closing;
}

pub chosen-IsValid :
    (q : Queue) (ref : ℕ) → Chooses q ref → IsValid q → IsValid (after_select q (select q))
chosen-IsValid q ref c v = rw c.result (move-IsValid q _ v)

select-IsValid : (q : Queue) → IsValid q → IsValid (after_select q (select q))
select-IsValid q v = elim (select_cases q) [
  | inl (_, e) ↦ rw e v
  | inr (ref, c) ↦ chosen-IsValid q ref c v
]

pub shorten-IsValid :
    (q : Queue) (ms : List Message)
    → length ms ≤ length q.messages
    → IsValid q
    → IsValid (record q { messages = ms })
shorten-IsValid q ms h v = record {
  messages_bounded = omega (arith, v.messages_bounded);
  backlog_bounded = v.backlog_bounded;
  pending_bounded = v.pending_bounded;
  keyed = v.keyed;
  sound = v.sound;
  distinct = v.distinct;
  listed = λ r h'. record {
    made = (v.listed r h').made;
    unflagged = (v.listed r h').unflagged;
    channel_open = (v.listed r h').channel_open;
  };
  closing = v.closing;
}

pub take_message-IsValid : (q : Queue) → IsValid q → IsValid (take_message q)
unfolding take_message
take_message-IsValid q v = go q.messages refl
  where
    go :
        (ms : List Message)
        → q.messages ≡ ms
        → IsValid (elim ms [ [] ↦ q | m ∷ rest ↦ record q { messages = rest } ])
    go [] e = v
    go (m ∷ rest) e = shorten-IsValid q rest (omega (arith, ap length e)) v

pub take_backlog-IsValid : (q : Queue) → IsValid q → IsValid (take_backlog q)
unfolding take_backlog
take_backlog-IsValid q v = ground arith

pub begin_close-IsValid : (q : Queue) → IsValid q → IsValid (begin_close q)
unfolding begin_close
begin_close-IsValid q v = ground arith

pub finish_close-IsValid : (q : Queue) → IsValid q → IsValid (finish_close q)
unfolding finish_close lookup
finish_close-IsValid q v =
    forget-IsValid (drop_subscribers q) [] (drop_subscribers-IsValid q v) (omega arith)
      (λ id p h. cc)

-- Each section keeps the queue valid.
pub act-IsValid : (a : Action) (q : Queue) → IsValid q → IsValid (act a q)
unfolding act
act-IsValid (sends_message done pick m) q v = send_message-IsValid done pick m q v
act-IsValid (subscribes consumer_id) q v = subscribe-IsValid consumer_id q v
act-IsValid (cancels ref) q v = cancel-IsValid ref q v
act-IsValid (cleans_up ref) q v = clean_up-IsValid ref q v
act-IsValid (receives ref) q v = receive-IsValid ref q v
act-IsValid (acks id consumer_id) q v = ack-IsValid id consumer_id q v
act-IsValid (buffers m) q v = buffer-IsValid m q v
act-IsValid selects q v = select-IsValid q v
act-IsValid (sends pick ref m) q v = safe_send-IsValid pick ref m q v
act-IsValid (registers ref now m) q v = register-IsValid ref now m q v
act-IsValid (expires now visits) q v = expire-IsValid now visits q v
act-IsValid takes_message q v = take_message-IsValid q v
act-IsValid takes_backlog q v = take_backlog-IsValid q v
act-IsValid drops_subscribers q v = drop_subscribers-IsValid q v
act-IsValid begins_close q v = begin_close-IsValid q v
act-IsValid finishes_close q v = finish_close-IsValid q v

pub acts-IsValid : (schedule : List Action) (q : Queue) → IsValid q → IsValid (acts schedule q)
unfolding acts
acts-IsValid [] q v = v
acts-IsValid (a ∷ rest) q v = acts-IsValid rest (act a q) (act-IsValid a q v)

-- From a new queue of any size, every interleaving of the uninterrupted sections of publishers,
-- subscribers, consumers, the distributor, the redelivery loop and `Close` ends in a valid queue:
-- the message channel, the backlog, the pending messages and each subscriber's channel are within
-- their limits, each pending message stands under its own ID, no subscriber is listed twice and the
-- listed ones are open, and the two channels of the queue are closed exactly when it is.
pub acts-new_queue-IsValid :
    (size : ℕ) (schedule : List Action) → IsValid (acts schedule (new_queue size))
acts-new_queue-IsValid size schedule = acts-IsValid schedule _ (new_queue-IsValid size)
