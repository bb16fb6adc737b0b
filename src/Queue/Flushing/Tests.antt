-- ===== src/Queue/Flushing/Tests.antt =====
-- A run of `Close` at a concrete queue.
use elastic_gpu_telemetry_pi.Common.{
  ℕ, Bool, ◌≡◌, ◌++◌, refl, false, none, [], ◌∷◌, arith, Text, codes,
}
use elastic_gpu_telemetry_pi.Domain.{Time, Message, empty}
use elastic_gpu_telemetry_pi.Queue.{Queue, SubscriberInfo, new_queue, new_queue_of_size}
use elastic_gpu_telemetry_pi.Queue.Goroutines.{close}
use elastic_gpu_telemetry_pi.Queue.Flushing.{IsReady, envs}
use elastic_gpu_telemetry_pi.Queue.Flushing.OnClose.{quiet, quiet_backlog, close_flushes}

abbrev message : Text → Message
message id = record {
  id = id;
  payload = none;
  timestamp = 7;
  producer_id = codes "s1";
  acked = false;
  acked_at = none;
  consumer_id = empty;
}

abbrev alice : SubscriberInfo
alice = record {
  consumer_id = codes "alice";
  channel = message (codes "m0") ∷ [];
  closed = false;
  chan_closed = false;
  ctx_done = false;
}

-- One message is buffered, and two are in the channel.
abbrev waiting : Queue
waiting = record (new_queue 10) {
  messages = message (codes "m2") ∷ message (codes "m3") ∷ [];
  undelivered = message (codes "m1") ∷ [];
  subscribers = 0 ∷ [];
  info = λ r. alice;
}

waiting-IsReady : IsReady 3 0 waiting
unfolding new_queue new_queue_of_size
waiting-IsReady = record {
  listed = refl;
  unflagged = refl;
  channel_open = refl;
  not_cancelled = refl;
  room = omega arith;
}

waiting_open : waiting.closed ≡ false
unfolding new_queue new_queue_of_size
waiting_open = refl

abbrev pick : ℕ → ℕ → Bool
pick i k = false

abbrev at_ten : ℕ → Time
at_ten i = 10

close_flushes_example :
    ((close
        (quiet_backlog (λ i. pick) (λ i. at_ten) pick at_ten)
        (envs pick at_ten)
        (quiet (λ i. pick) (λ i. at_ten) pick at_ten)
        []
        waiting).info
      0).channel
    ≡ alice.channel ++ (waiting.undelivered ++ waiting.messages)
close_flushes_example =
    close_flushes (λ i. pick) (λ i. at_ten) pick at_ten 0 (message (codes "m2"))
      (message (codes "m3") ∷ []) waiting waiting_open refl waiting-IsReady
