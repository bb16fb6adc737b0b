-- ===== src/Queue/Steps.antt =====
-- pkg/mq/inmemory.go: the uninterrupted sections of `deliverMessage`, `distribute`, `redeliveryLoop`
-- and `Close`, and schedules of all sections of all goroutines.
use elastic_gpu_telemetry_pi.Common.{
  ℕ, ◌+◌, ◌-◌, ◌%◌, Bool, true, false, ◌&&◌, none, some, List, [], ◌∷◌, ◌++◌, Text, Map, insert,
  remove, ltb, leb, ◌==◌, length, get_elem?, ok, err, if◌then◌else◌,
}
use elastic_gpu_telemetry_pi.Domain.{Time, Message}
use elastic_gpu_telemetry_pi.Queue.{
  Queue, PendingMessage, SubscriberInfo, update, close_channel, send_message, subscribe, cancel,
  clean_up, receive, ack,
}

-- `deliverMessage`: buffers a message if the backlog has room, and drops it otherwise.
unfoldable pub buffer : Message → Queue → Queue
buffer m q =
    if ltb (length q.undelivered) q.max_undelivered
    then record q { undelivered = q.undelivered ++ m ∷ [] }
    else q

-- `deliverMessage`: the section that chooses the next subscriber. An index out of range would panic.
pub data Selection : Type 0 where
  no_subscribers out_of_range : Selection
  selected : ℕ → Queue → Selection

unfoldable pub select : Queue → Selection
select q =
    let num_subs = length q.subscribers in
    let current = if leb num_subs q.current then 0 else q.current in
    if num_subs == 0 then no_subscribers else elim (get_elem? q.subscribers current) [
      | none ↦ out_of_range
      | some ref ↦ selected ref (record q { current = (current + 1) % num_subs })
    ]

-- The queue after `select`.
abbrev pub after_select : Queue → Selection → Queue
after_select q no_subscribers = q
after_select q out_of_range = q
after_select q (selected ref t) = t

abbrev pub push : Queue → ℕ → Message → Queue
push q ref m = record q {
  info = update q.info ref (record (q.info ref) { channel = (q.info ref).channel ++ m ∷ [] });
}

-- `safeSend`. A send on a closed channel panics, and the recovered panic makes the result false, as
-- does the case of the cancelled context, which `pick` prefers where both cases are ready.
unfoldable pub safe_send : Bool → ℕ → Message → Queue → Queue × Bool
safe_send pick ref m q =
    let s = q.info ref in
    if s.closed
    then (q, false)
    else if s.chan_closed
    then (q, false)
    else if ltb (length s.channel) q.buffer_size
    then (if s.ctx_done && pick then (q, false) else (push q ref m, true))
    else (q, false)

-- `deliverMessage`: the section that records a message as pending.
unfoldable pub register : ℕ → Time → Message → Queue → Queue
register ref now m q =
    if ltb (length q.pending) q.max_pending
    then record q {
      pending =
          insert m.id
            (record { message = m; consumer_id = (q.info ref).consumer_id; delivered_at = now })
            q.pending;
    }
    else q

-- `redeliveryLoop`: the loop over the pending messages, which `range` visits in the order of the
-- list. It gives the messages that are left and those to deliver again.
unfoldable pub expire_loop :
    Time
    → Time
    → Time
    → List (Text × PendingMessage)
    → Map PendingMessage
    → Map PendingMessage × List Message
expire_loop ttl timeout now [] pending = (pending, [])
expire_loop ttl timeout now ((id, p) ∷ visits) pending =
    let elapsed = now - p.delivered_at in
    let gone = expire_loop ttl timeout now visits (remove id pending) in
    let kept = expire_loop ttl timeout now visits pending in
    if ltb ttl elapsed
    then gone
    else if ltb timeout elapsed
    then (gone.0, p.message ∷ gone.1)
    else kept

unfoldable pub expire : Time → List (Text × PendingMessage) → Queue → Queue × List Message
expire now visits q =
    let (pending, redeliver) = expire_loop q.pending_ttl q.ack_timeout now visits q.pending in
    (record q { pending = pending }, redeliver)

-- `distribute`: takes a message off the channel, takes the backlog, and ends.
unfoldable pub take_message : Queue → Queue
take_message q = elim q.messages [ [] ↦ q | m ∷ rest ↦ record q { messages = rest } ]

unfoldable pub take_backlog : Queue → Queue
take_backlog q = record q { undelivered = [] }

unfoldable pub close_all : List ℕ → (ℕ → SubscriberInfo) → ℕ → SubscriberInfo
close_all [] info = info
close_all (r ∷ rs) info = close_all rs (update info r (close_channel (info r)))

-- `distribute` and `Close` both close the channels of all subscribers and forget these.
unfoldable pub drop_subscribers : Queue → Queue
unfolding close_all
drop_subscribers q = record q { info = close_all q.subscribers q.info; subscribers = [] }

-- `Close`: what it does before it waits for the goroutines, and after.
unfoldable pub begin_close : Queue → Queue
begin_close q =
    if q.closed
    then q
    else record q { closed = true; messages_closed = true; redeliver_closed = true }

unfoldable pub finish_close : Queue → Queue
unfolding drop_subscribers
finish_close q = record (drop_subscribers q) { pending = [] }

-- One uninterrupted section of some goroutine.
pub data Action : Type 0 where
  sends_message : Bool → Bool → Message → Action
  subscribes : Text → Action
  cancels cleans_up receives : ℕ → Action
  acks : Text → Text → Action
  buffers : Message → Action
  selects : Action
  sends : Bool → ℕ → Message → Action
  registers : ℕ → Time → Message → Action
  expires : Time → List (Text × PendingMessage) → Action
  takes_message takes_backlog drops_subscribers begins_close finishes_close : Action

unfoldable pub act : Action → Queue → Queue
act (sends_message done pick m) q = (send_message done pick m q).0
act (subscribes consumer_id) q = elim (subscribe consumer_id q) [ ok r ↦ r.0 | err e ↦ q ]
act (cancels ref) q = cancel ref q
act (cleans_up ref) q = clean_up ref q
act (receives ref) q = receive ref q
act (acks id consumer_id) q = elim (ack id consumer_id q) [ ok t ↦ t | err e ↦ q ]
act (buffers m) q = buffer m q
act selects q = after_select q (select q)
act (sends pick ref m) q = (safe_send pick ref m q).0
act (registers ref now m) q = register ref now m q
act (expires now visits) q = (expire now visits q).0
act takes_message q = take_message q
act takes_backlog q = take_backlog q
act drops_subscribers q = drop_subscribers q
act begins_close q = begin_close q
act finishes_close q = finish_close q

-- A schedule: what other goroutines do meanwhile.
unfoldable pub acts : List Action → Queue → Queue
acts [] q = q
acts (a ∷ rest) q = acts rest (act a q)
