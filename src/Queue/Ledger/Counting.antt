-- ===== src/Queue/Ledger/Counting.antt =====
-- pkg/mq/inmemory.go: how often a message is handled.
use elastic_gpu_telemetry_pi.Common.{
  ℕ, ◌+◌, ◌≤◌, ◌≡◌, refl, ap, inl, inr, Bool, List, [], ◌∷◌, ◌++◌, arith, tally, tally-append,
  tally-remove_at, length, ltb, get_elem?, Bool-cases, Option-cases, if◌then◌else◌,
}
use elastic_gpu_telemetry_pi.Domain.{Message}
use elastic_gpu_telemetry_pi.Queue.{send_message, receive, new_queue, new_queue_of_size}
use elastic_gpu_telemetry_pi.Queue.Steps.{buffer, register, expire, take_message, take_backlog}
use elastic_gpu_telemetry_pi.Queue.Invariant.{safe_send_cases}
use elastic_gpu_telemetry_pi.Queue.Ledger.{
  Ledger, new_ledger, Move, others, publishes, consumes, takes, flushes, times_out, delivers, keeps,
  tracks, move, moves, moves_nothing, log_published, log_received, log_taken, deliver_one, keep_one,
  track_one,
}
use elastic_gpu_telemetry_pi.Queue.Ledger.Frame.{act-Frames}

module _ (f : Message → Bool) where
  -- How often a message that passes the test is on its way or was delivered, and how often one was
  -- accepted by `Publish` or handed on by the redelivery loop.
  abbrev pub handled : Ledger → ℕ
  handled l =
      tally f l.queue.messages
      + tally f l.queue.undelivered
      + tally f l.hand
      + tally (λ d. f d.1) l.delivered
      + tally f l.dropped

  abbrev pub entered : Ledger → ℕ
  entered l = tally f l.published + tally f l.redelivered

  abbrev pub IsCounted : Ledger → Type 0
  IsCounted l = handled l ≡ entered l

  publish-IsCounted :
      (done pick : Bool) (m : Message) (l : Ledger)
      → IsCounted l
      → IsCounted (log_published m l (send_message done pick m l.queue))
  unfolding send_message
  publish-IsCounted done pick m l h =
      ground (arith, tally-append f l.queue.messages (m ∷ []), tally-append f l.published (m ∷ []))

  buffer-tally :
      (m : Message) (l : Ledger)
      → (tally f (buffer m l.queue).undelivered
            + tally f (
                if ltb (length l.queue.undelivered) l.queue.max_undelivered
                then l.dropped
                else l.dropped ++ m ∷ [])
          ≡ tally f l.queue.undelivered + tally f l.dropped + (if f m then 1 else 0))
        × ((buffer m l.queue).messages ≡ l.queue.messages)
  unfolding buffer
  buffer-tally m l =
      ground (arith, tally-append f l.queue.undelivered (m ∷ []), tally-append f l.dropped (m ∷ []))

  keep-IsCounted :
      (i : ℕ) (l : Ledger) → IsCounted l → IsCounted (keep_one i l (get_elem? l.hand i))
  keep-IsCounted i l h = elim (Option-cases (get_elem? l.hand i)) [
    | inl e ↦ rw e h
    | inr (m, e) ↦
        let b = buffer-tally m l in
        rw e (omega (arith, h, b.0, ap (tally f) b.1, tally-remove_at f l.hand i m e))
  ]

  deliver-IsCounted :
      (pick : Bool) (i ref : ℕ) (l : Ledger)
      → IsCounted l
      → IsCounted (deliver_one pick i ref l (get_elem? l.hand i))
  deliver-IsCounted pick i ref l h = elim (Option-cases (get_elem? l.hand i)) [
    | inl e ↦ rw e h
    | inr (m, e) ↦ rw e (elim (safe_send_cases pick ref m l.queue) [
      | inl s ↦ rw s h
      | inr (_, _, _, s) ↦ rw s (
          omega (
            arith,
            h,
            tally-remove_at f l.hand i m e,
            tally-append (λ (d : ℕ × Message). f d.1) l.delivered ((ref, m) ∷ []),
          ))
    ])
  ]

  track-IsCounted :
      (now i : ℕ) (l : Ledger) → IsCounted l → IsCounted (track_one now l (get_elem? l.delivered i))
  unfolding register
  track-IsCounted now i l h = elim (Option-cases (get_elem? l.delivered i)) [
    | inl e ↦ rw e h
    | inr ((ref, m), e) ↦ rw e (ground arith)
  ]

  take-IsCounted : (l : Ledger) → IsCounted l → IsCounted (log_taken l l.queue.messages)
  unfolding take_message
  take-IsCounted l h = go l.queue.messages refl
    where
      go : (ms : List Message) → l.queue.messages ≡ ms → IsCounted (log_taken l ms)
      go [] e = h
      go (m ∷ rest) e = rw e (omega (arith, h, ap (tally f) e, tally-append f l.hand (m ∷ [])))

  receive-IsCounted :
      (ref : ℕ) (l : Ledger)
      → IsCounted l
      → IsCounted (log_received ref l (l.queue.info ref).channel)
  unfolding receive
  receive-IsCounted ref l h = go (l.queue.info ref).channel refl
    where
      go : (ms : List Message) → (l.queue.info ref).channel ≡ ms → IsCounted (log_received ref l ms)
      go [] e = h
      go (m ∷ rest) e = rw (e, receive) h

  -- A move counts no message twice.
  pub move-IsCounted : (a : Move) (l : Ledger) → IsCounted l → IsCounted (move a l)
  unfolding move take_backlog expire
  move-IsCounted (others a) l h = elim (Bool-cases (moves_nothing a)) [
    | inl e ↦
        let t = act-Frames a l.queue e in
        rw e (omega (arith, h, ap (tally f) t.messages, ap (tally f) t.backlog))
    | inr e ↦ rw e h
  ]
  move-IsCounted (publishes done pick m) l h = publish-IsCounted done pick m l h
  move-IsCounted (consumes ref) l h = receive-IsCounted ref l h
  move-IsCounted takes l h = take-IsCounted l h
  move-IsCounted flushes l h = omega (arith, h, tally-append f l.hand l.queue.undelivered)
  move-IsCounted (times_out now keys) l h =
      omega (arith, h, tally-append f l.hand _, tally-append f l.redelivered _)
  move-IsCounted (delivers pick i ref) l h = elim (Bool-cases (ltb ref l.queue.next_ref)) [
    | inl e ↦ rw e (deliver-IsCounted pick i ref l h)
    | inr e ↦ rw e h
  ]
  move-IsCounted (keeps i) l h = keep-IsCounted i l h
  move-IsCounted (tracks i now) l h = track-IsCounted now i l h

  moves-IsCounted : (run : List Move) (l : Ledger) → IsCounted l → IsCounted (moves run l)
  unfolding moves
  moves-IsCounted [] l h = h
  moves-IsCounted (a ∷ rest) l h = moves-IsCounted rest (move a l) (move-IsCounted a l h)

  -- However the goroutines interleave, no message is lost or made by the way: as many as Publish accepted
  -- or the redelivery loop handed on are in the message channel, in the backlog, in hand, delivered to
  -- consumers, or dropped because the backlog was full. This holds of all messages that pass a test
  -- taken together, in particular of those with an ID; so a message is delivered at most once for each
  -- time that it was published or timed out.
  pub messages_conserved :
      (size : ℕ) (run : List Move)
      → let l : Ledger = moves run (new_ledger size) in
        (tally f l.queue.messages
            + tally f l.queue.undelivered
            + tally f l.hand
            + tally (λ d. f d.1) l.delivered
            + tally f l.dropped
          ≡ tally f l.published + tally f l.redelivered)
        × (tally (λ d. f d.1) l.delivered ≤ tally f l.published + tally f l.redelivered)
  unfolding new_ledger new_queue new_queue_of_size
  messages_conserved size run =
      let counted = moves-IsCounted run (new_ledger size) (ground arith) in
      (counted, omega (arith, counted))
