-- ===== src/Queue/Ledger/Tests.antt =====
-- Runs of the queue with its history.
use elastic_gpu_telemetry_pi.Common.{
  ◌+◌, ◌≤◌, ◌≡◌, refl, Bool, false, List, [], ◌∷◌, ◌++◌, none, Text, codes, text_eq, lookup, insert,
  remove, tally,
}
use elastic_gpu_telemetry_pi.Domain.{Message, empty}
use elastic_gpu_telemetry_pi.Queue.{new_queue, new_queue_of_size, send_message, subscribe, receive}
use elastic_gpu_telemetry_pi.Queue.Steps.{
  Action, act, acts, subscribes, sends_message, safe_send, register, expire, expire_loop,
  take_message,
}
use elastic_gpu_telemetry_pi.Queue.Goroutines.{calm, distribute_message}
use elastic_gpu_telemetry_pi.Queue.Schedules.{acts-new_queue-IsValid}
use elastic_gpu_telemetry_pi.Queue.Ledger.{
  Ledger, new_ledger, Move, others, publishes, consumes, takes, times_out, delivers, tracks, move,
  moves, moves_nothing, visits_of,
}
use elastic_gpu_telemetry_pi.Queue.Ledger.Counting.{messages_conserved}
use elastic_gpu_telemetry_pi.Queue.Ledger.Order.{of_subscriber, received_in_order}
use elastic_gpu_telemetry_pi.Queue.Ledger.Origin.{received_was_published}
use elastic_gpu_telemetry_pi.Queue.Ledger.Delivering.{Runs}
use elastic_gpu_telemetry_pi.Queue.Ledger.Rounds.{calms, distribute_message-Runs}

abbrev message : Text → Message
message id = record {
  id = id;
  payload = none;
  timestamp = 0;
  producer_id = empty;
  acked = false;
  acked_at = none;
  consumer_id = empty;
}

abbrev m1 : Message
m1 = message (codes "m1")

abbrev m2 : Message
m2 = message (codes "m2")

abbrev has_id : Text → Message → Bool
has_id id m = text_eq m.id id

-- Two messages go to one consumer, who takes the first; that one times out and is delivered again.
abbrev run : List Move
run =
    others (subscribes (codes "alice"))
    ∷ publishes false false m1
    ∷ publishes false false m2
    ∷ takes
    ∷ delivers false 0 0
    ∷ tracks 0 5
    ∷ consumes 0
    ∷ takes
    ∷ delivers false 0 0
    ∷ times_out 40000000000 (codes "m1" ∷ [])
    ∷ delivers false 0 0
    ∷ []

abbrev log : Ledger
log = moves run (new_ledger 4)

-- The first message was delivered twice, as it was published once and timed out once.
delivered_twice : tally (λ d. has_id (codes "m1") d.1) log.delivered ≡ 2
unfolding moves move moves_nothing new_ledger new_queue new_queue_of_size act subscribe send_message
    take_message safe_send register receive expire expire_loop visits_of lookup insert remove
    text_eq
delivered_twice = refl

messages_conserved_example :
    (tally (has_id (codes "m1")) log.queue.messages
        + tally (has_id (codes "m1")) log.queue.undelivered
        + tally (has_id (codes "m1")) log.hand
        + tally (λ d. has_id (codes "m1") d.1) log.delivered
        + tally (has_id (codes "m1")) log.dropped
      ≡ tally (has_id (codes "m1")) log.published + tally (has_id (codes "m1")) log.redelivered)
    × (tally (λ d. has_id (codes "m1") d.1) log.delivered
        ≤ tally (has_id (codes "m1")) log.published + tally (has_id (codes "m1")) log.redelivered)
messages_conserved_example = messages_conserved (has_id (codes "m1")) 4 run

received_in_order_example :
    of_subscriber 0 log.delivered ≡ of_subscriber 0 log.received ++ (log.queue.info 0).channel
received_in_order_example = received_in_order 4 run 0

none_published : tally (has_id (codes "m9")) log.published ≡ 0
unfolding moves move moves_nothing new_ledger new_queue new_queue_of_size act subscribe send_message
    take_message safe_send register receive expire expire_loop visits_of lookup insert remove
    text_eq
none_published = refl

received_was_published_example : tally (has_id (codes "m9")) (of_subscriber 0 log.received) ≡ 0
received_was_published_example = received_was_published (has_id (codes "m9")) 4 run 0 none_published

-- A queue that holds a message for one consumer.
abbrev schedule : List Action
schedule = subscribes (codes "alice") ∷ sends_message false false m1 ∷ []

abbrev waiting : Ledger
waiting = record (new_ledger 4) { queue = acts schedule (new_queue 4) }

waiting_messages : waiting.queue.messages ≡ m1 ∷ []
unfolding acts act subscribe send_message new_queue new_queue_of_size
waiting_messages = refl

waiting_hand : waiting.hand ≡ []
unfolding new_ledger
waiting_hand = refl

distribute_message-Runs_example :
    Runs waiting
      (distribute_message
        (calms (λ i k. false) (λ i. 5))
        (calm (λ k. false) 5)
        m1
        (record waiting.queue { messages = [] }))
      []
distribute_message-Runs_example =
    distribute_message-Runs (λ i k. false) (λ i. 5) (λ k. false) 5 m1 [] waiting
      (acts-new_queue-IsValid 4 schedule) waiting_hand waiting_messages
