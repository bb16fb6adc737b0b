-- ===== src/Queue/Draining.antt =====
-- pkg/mq/inmemory.go: the message channel after it is closed.
use elastic_gpu_telemetry_pi.Common.{
  ℕ, ◌≤◌, ◌≡◌, inl, inr, Bool, true, List, [], ◌∷◌, arith, length, lookup, Option-cases, Text,
}
use elastic_gpu_telemetry_pi.Domain.{Message}
use elastic_gpu_telemetry_pi.Queue.{
  Queue, update, send_message, subscribe, cancel, clean_up, receive, ack,
}
use elastic_gpu_telemetry_pi.Queue.Steps.{
  Action, act, acts, sends_message, subscribes, cancels, cleans_up, receives, acks, buffers,
  selects, sends, registers, expires, takes_message, takes_backlog, drops_subscribers, begins_close,
  finishes_close, buffer, select, after_select, safe_send, register, expire, take_message,
  take_backlog, drop_subscribers, begin_close, finish_close,
}
use elastic_gpu_telemetry_pi.Queue.Selecting.{select_cases}

-- The message channel is closed and holds at most `n` messages.
abbrev pub IsDraining : ℕ → Queue → Type 0
IsDraining n q = (q.messages_closed ≡ true) × (length q.messages ≤ n)

send_message-IsDraining :
    (n : ℕ) (done pick : Bool) (m : Message) (q : Queue)
    → IsDraining n q
    → IsDraining n (send_message done pick m q).0
unfolding send_message
send_message-IsDraining n done pick m q d = ground (arith, d)

take_message-IsDraining : (n : ℕ) (q : Queue) → IsDraining n q → IsDraining n (take_message q)
unfolding take_message
take_message-IsDraining n q d = go q.messages d.1
  where
    go :
        (ms : List Message)
        → length ms ≤ n
        → IsDraining n (elim ms [ [] ↦ q | m ∷ rest ↦ record q { messages = rest } ])
    go [] h = d
    go (m ∷ rest) h = (d.0, omega arith)

receive-IsDraining : (n ref : ℕ) (q : Queue) → IsDraining n q → IsDraining n (receive ref q)
unfolding receive
receive-IsDraining n ref q d = go (q.info ref).channel
  where
    go :
        (ms : List Message)
        → IsDraining n (elim ms [
          | [] ↦ q
          | m ∷ rest ↦ record q {
            info = update q.info ref (record (q.info ref) { channel = rest });
          }
        ])
    go [] = d
    go (m ∷ rest) = d

pub safe_send-IsDraining :
    (n : ℕ) (pick : Bool) (ref : ℕ) (m : Message) (q : Queue)
    → IsDraining n q
    → IsDraining n (safe_send pick ref m q).0
unfolding safe_send
safe_send-IsDraining n pick ref m q d = ground (arith, d)

pub buffer-IsDraining :
    (n : ℕ) (m : Message) (q : Queue) → IsDraining n q → IsDraining n (buffer m q)
unfolding buffer
buffer-IsDraining n m q d = ground (arith, d)

pub register-IsDraining :
    (n ref now : ℕ) (m : Message) (q : Queue) → IsDraining n q → IsDraining n (register ref now m q)
unfolding register
register-IsDraining n ref now m q d = ground (arith, d)

ack-IsDraining :
    (n : ℕ) (id consumer_id : Text) (q : Queue)
    → IsDraining n q
    → IsDraining n (act (acks id consumer_id) q)
unfolding act ack
ack-IsDraining n id consumer_id q d = elim (Option-cases (lookup id q.pending)) [
  | inl e ↦ ground (arith, d)
  | inr (p, e) ↦ ground (arith, d)
]

begin_close-IsDraining : (n : ℕ) (q : Queue) → IsDraining n q → IsDraining n (begin_close q)
unfolding begin_close
begin_close-IsDraining n q d = ground (arith, d)

subscribe-IsDraining :
    (n : ℕ) (consumer_id : Text) (q : Queue)
    → IsDraining n q
    → IsDraining n (act (subscribes consumer_id) q)
unfolding act subscribe
subscribe-IsDraining n consumer_id q d = ground (arith, d)

select-IsDraining : (n : ℕ) (q : Queue) → IsDraining n q → IsDraining n (after_select q (select q))
select-IsDraining n q d = elim (select_cases q) [
  | inl (_, e) ↦ rw e d
  | inr (ref, c) ↦ rw c.result d
]

act-IsDraining : (n : ℕ) (a : Action) (q : Queue) → IsDraining n q → IsDraining n (act a q)
unfolding act cancel clean_up expire take_backlog drop_subscribers finish_close
act-IsDraining n (sends_message done pick m) q d = send_message-IsDraining n done pick m q d
act-IsDraining n (subscribes consumer_id) q d = subscribe-IsDraining n consumer_id q d
act-IsDraining n (cancels ref) q d = d
act-IsDraining n (cleans_up ref) q d = d
act-IsDraining n (receives ref) q d = receive-IsDraining n ref q d
act-IsDraining n (acks id consumer_id) q d = ack-IsDraining n id consumer_id q d
act-IsDraining n (buffers m) q d = buffer-IsDraining n m q d
act-IsDraining n selects q d = select-IsDraining n q d
act-IsDraining n (sends pick ref m) q d = safe_send-IsDraining n pick ref m q d
act-IsDraining n (registers ref now m) q d = register-IsDraining n ref now m q d
act-IsDraining n (expires now visits) q d = d
act-IsDraining n takes_message q d = take_message-IsDraining n q d
act-IsDraining n takes_backlog q d = d
act-IsDraining n drops_subscribers q d = d
act-IsDraining n begins_close q d = begin_close-IsDraining n q d
act-IsDraining n finishes_close q d = d

pub acts-IsDraining :
    (n : ℕ) (schedule : List Action) (q : Queue) → IsDraining n q → IsDraining n (acts schedule q)
unfolding acts
acts-IsDraining n [] q d = d
acts-IsDraining n (a ∷ rest) q d = acts-IsDraining n rest (act a q) (act-IsDraining n a q d)
