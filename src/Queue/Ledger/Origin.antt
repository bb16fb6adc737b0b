-- ===== src/Queue/Ledger/Origin.antt =====
-- pkg/mq/inmemory.go: where the messages that a consumer receives come from.
use elastic_gpu_telemetry_pi.Common.{
  ℕ, ◌-◌, ◌≤◌, ◌≡◌, refl, sym, ap, ◌∙◌, inl, inr, Bool, false, Option, none, some, List, [], ◌∷◌,
  arith, Text, Map, lookup, insert, remove, lookup-insert, lookup-remove, tally, tally-append,
  tally-remove_at, All, ltb, get_elem?, Bool-cases, Option-cases, length,
}
use elastic_gpu_telemetry_pi.Domain.{Message}
use elastic_gpu_telemetry_pi.Queue.{
  Queue, PendingMessage, PublishOutcome, published, panicked, failed, send_message, receive,
  new_queue, new_queue_of_size,
}
use elastic_gpu_telemetry_pi.Queue.Steps.{
  buffer, safe_send, register, expire, expire_loop, take_message, take_backlog,
}
use elastic_gpu_telemetry_pi.Queue.Invariant.{safe_send_cases}
use elastic_gpu_telemetry_pi.Queue.Ledger.{
  Ledger, new_ledger, Move, others, publishes, consumes, takes, flushes, times_out, delivers, keeps,
  tracks, move, moves, moves_nothing, visits_of, log_published, log_received, log_taken,
  log_delivered, keep_one, track_one,
}
use elastic_gpu_telemetry_pi.Queue.Ledger.Frame.{act-Frames}
use elastic_gpu_telemetry_pi.Queue.Ledger.Counting.{IsCounted, move-IsCounted}
use elastic_gpu_telemetry_pi.Queue.Ledger.Order.{of_subscriber, received_in_order}

module _ (f : Message → Bool) where
  -- No pending message passes the test.
  abbrev HasNonePending : Map PendingMessage → Type 0
  HasNonePending m = (id : Text) (p : PendingMessage) → lookup id m ≡ some p → f p.message ≡ false

  remove-HasNonePending :
      (key : Text) (m : Map PendingMessage) → HasNonePending m → HasNonePending (remove key m)
  remove-HasNonePending key m h id p e = h id p (ground (arith, lookup-remove key id m))

  insert-HasNonePending :
      (key : Text) (x : PendingMessage) (m : Map PendingMessage)
      → f x.message ≡ false
      → HasNonePending m
      → HasNonePending (insert key x m)
  insert-HasNonePending key x m n h id p e = ground (arith, h id p, lookup-insert key id x m, n)

  visits_none :
      (keys : List Text) (m : Map PendingMessage)
      → HasNonePending m
      → All (λ v. f v.1.message ≡ false) (visits_of keys m)
  unfolding visits_of
  visits_none [] m h = tt
  visits_none (key ∷ keys) m h = elim (Option-cases (lookup key m)) [
    | inl e ↦ rw (e, visits_of) (visits_none keys m h)
    | inr (p, e) ↦
        rw (e, visits_of)
          (h key p e, visits_none keys (remove key m) (remove-HasNonePending key m h))
  ]

  -- The loop over the pending messages hands on only messages that it visits, and keeps only those
  -- that were pending.
  expire_loop_none :
      (ttl timeout now : ℕ) (visits : List (Text × PendingMessage)) (m : Map PendingMessage)
      → All (λ v. f v.1.message ≡ false) visits
      → HasNonePending m
      → HasNonePending (expire_loop ttl timeout now visits m).0
        × (tally f (expire_loop ttl timeout now visits m).1 ≡ 0)
  unfolding expire_loop
  expire_loop_none ttl timeout now [] m v h = (h, refl)
  expire_loop_none ttl timeout now ((key, p) ∷ visits) m (n, v) h =
      let gone =
        expire_loop_none ttl timeout now visits (remove key m) v (remove-HasNonePending key m h) in
      let kept = expire_loop_none ttl timeout now visits m v h in
      elim (Bool-cases (ltb ttl (now - p.delivered_at))) [
        | inl e ↦ rw e gone
        | inr e ↦ rw e (elim (Bool-cases (ltb timeout (now - p.delivered_at))) [
          | inl t ↦ rw t (gone.0, ground (arith, n, gone.1))
          | inr t ↦ rw t kept
        ])
      ]

  -- If nothing that was published passes the test, nothing pending and nothing handed on does.
  record IsClean (l : Ledger) : Type 0 where
    clean : tally f l.published ≡ 0 → HasNonePending l.queue.pending × (tally f l.redelivered ≡ 0)

  kept-IsClean :
      (l t : Ledger)
      → tally f l.published ≤ tally f t.published
      → t.redelivered ≡ l.redelivered
      → ((id : Text) (p : PendingMessage)
          → lookup id t.queue.pending ≡ some p
          → lookup id l.queue.pending ≡ some p)
      → IsClean l
      → IsClean t
  kept-IsClean l t more same part c = record {
    clean = λ h.
        let old = c.clean (omega arith) in
        (λ id p e. old.0 id p (part id p e), ap (tally f) same ∙ old.1);
  }

  send_message-pending :
      (done pick : Bool) (m : Message) (q : Queue)
      → (send_message done pick m q).0.pending ≡ q.pending
  unfolding send_message
  send_message-pending done pick m q = ground arith

  publish-IsClean :
      (m : Message) (l : Ledger) (r : Queue × PublishOutcome)
      → r.0.pending ≡ l.queue.pending
      → IsClean l
      → IsClean (log_published m l r)
  publish-IsClean m l (q, published) e c =
      kept-IsClean l _ (omega (arith, tally-append f l.published (m ∷ []))) refl
        (λ id p h. ap (lookup id) (sym e) ∙ h) c
  publish-IsClean m l (q, panicked) e c =
      kept-IsClean l _ (omega arith) refl (λ id p h. ap (lookup id) (sym e) ∙ h) c
  publish-IsClean m l (q, failed x) e c =
      kept-IsClean l _ (omega arith) refl (λ id p h. ap (lookup id) (sym e) ∙ h) c

  same-IsClean :
      (l t : Ledger)
      → t.published ≡ l.published
      → t.redelivered ≡ l.redelivered
      → t.queue.pending ≡ l.queue.pending
      → IsClean l
      → IsClean t
  same-IsClean l t p r e c =
      kept-IsClean l t (omega (arith, ap (tally f) p)) r (λ id x h. ap (lookup id) (sym e) ∙ h) c

  take-IsClean :
      (l : Ledger) (ms : List Message)
      → l.queue.messages ≡ ms
      → IsClean l
      → IsClean (log_taken l ms)
  unfolding take_message
  take-IsClean l [] e c = c
  take-IsClean l (m ∷ rest) e c = rw (e, take_message) (same-IsClean l _ refl refl refl c)

  receive-IsClean :
      (ref : ℕ) (l : Ledger) (ms : List Message)
      → (l.queue.info ref).channel ≡ ms
      → IsClean l
      → IsClean (log_received ref l ms)
  unfolding receive
  receive-IsClean ref l [] e c = c
  receive-IsClean ref l (m ∷ rest) e c = rw (e, receive) (same-IsClean l _ refl refl refl c)

  deliver-IsClean :
      (pick : Bool) (i ref : ℕ) (m : Message) (l : Ledger)
      → IsClean l
      → IsClean (log_delivered i ref m l (safe_send pick ref m l.queue))
  deliver-IsClean pick i ref m l c = elim (safe_send_cases pick ref m l.queue) [
    | inl e ↦ rw e c
    | inr (_, _, _, e) ↦ rw e (same-IsClean l _ refl refl refl c)
  ]

  buffer-pending : (m : Message) (q : Queue) → (buffer m q).pending ≡ q.pending
  unfolding buffer
  buffer-pending m q = ground arith

  keep-IsClean :
      (i : ℕ) (l : Ledger) (found : Option Message) → IsClean l → IsClean (keep_one i l found)
  keep-IsClean i l none c = c
  keep-IsClean i l (some m) c = same-IsClean l _ refl refl (buffer-pending m l.queue) c

  register-HasNonePending :
      (ref now : ℕ) (m : Message) (q : Queue)
      → f m ≡ false
      → HasNonePending q.pending
      → HasNonePending (register ref now m q).pending
  unfolding register
  register-HasNonePending ref now m q n h =
      elim (Bool-cases (ltb (length q.pending) q.max_pending)) [
        | inl e ↦ rw e (insert-HasNonePending m.id _ q.pending n h)
        | inr e ↦ rw e h
      ]

  track-IsClean :
      (i now : ℕ) (l : Ledger)
      → IsCounted f l
      → IsClean l
      → IsClean (track_one now l (get_elem? l.delivered i))
  track-IsClean i now l counted c = elim (Option-cases (get_elem? l.delivered i)) [
    | inl e ↦ rw e c
    | inr ((ref, m), e) ↦ rw e (record {
      clean = λ h.
          let old = c.clean h in
          let at = tally-remove_at (λ (d : ℕ × Message). f d.1) l.delivered i (ref, m) e in
          (
            register-HasNonePending ref now m l.queue (ground (arith, counted, old.1, at, h)) old.0,
            old.1,
          );
    })
  ]

  move-IsClean : (a : Move) (l : Ledger) → IsCounted f l → IsClean l → IsClean (move a l)
  unfolding move take_backlog expire
  move-IsClean (others a) l counted c = elim (Bool-cases (moves_nothing a)) [
    | inl e ↦ rw e (kept-IsClean l _ (omega arith) refl (act-Frames a l.queue e).pending c)
    | inr e ↦ rw e c
  ]
  move-IsClean (publishes done pick m) l counted c =
      publish-IsClean m l (send_message done pick m l.queue)
        (send_message-pending done pick m l.queue) c
  move-IsClean (consumes ref) l counted c = receive-IsClean ref l _ refl c
  move-IsClean takes l counted c = take-IsClean l _ refl c
  move-IsClean flushes l counted c = same-IsClean l _ refl refl refl c
  move-IsClean (times_out now keys) l counted c = record {
    clean = λ h.
        let old = c.clean h in
        let loop =
          expire_loop_none l.queue.pending_ttl l.queue.ack_timeout now _ l.queue.pending
            (visits_none keys l.queue.pending old.0) old.0 in
        (loop.0, omega (arith, tally-append f l.redelivered _, old.1, loop.1));
  }
  move-IsClean (delivers pick i ref) l counted c = elim (Bool-cases (ltb ref l.queue.next_ref)) [
    | inl e ↦ rw e (elim (Option-cases (get_elem? l.hand i)) [
      | inl h ↦ rw h c
      | inr (m, h) ↦ rw h (deliver-IsClean pick i ref m l c)
    ])
    | inr e ↦ rw e c
  ]
  move-IsClean (keeps i) l counted c = keep-IsClean i l _ c
  move-IsClean (tracks i now) l counted c = track-IsClean i now l counted c

  moves-IsClean :
      (run : List Move) (l : Ledger)
      → IsCounted f l
      → IsClean l
      → IsCounted f (moves run l) × IsClean (moves run l)
  unfolding moves
  moves-IsClean [] l counted c = (counted, c)
  moves-IsClean (a ∷ rest) l counted c =
      moves-IsClean rest (move a l) (move-IsCounted f a l counted) (move-IsClean a l counted c)

  of_subscriber-tally :
      (r : ℕ) (log : List (ℕ × Message)) → tally f (of_subscriber r log) ≤ tally (λ d. f d.1) log
  of_subscriber-tally r [] = omega arith
  of_subscriber-tally r ((ref, m) ∷ log) = ground (arith, of_subscriber-tally r log)

  -- However the goroutines interleave, and whatever times out: if no published message passes a test,
  -- no message that a consumer receives does. In particular no consumer receives a message with an ID
  -- that nobody published.
  pub received_was_published :
      (size : ℕ) (run : List Move) (r : ℕ)
      → let l : Ledger = moves run (new_ledger size) in
        tally f l.published ≡ 0 → tally f (of_subscriber r l.received) ≡ 0
  unfolding new_ledger new_queue new_queue_of_size lookup
  received_was_published size run r h =
      let l : Ledger = moves run (new_ledger size) in
      let (counted, c) = moves-IsClean run (new_ledger size) (ground arith) start in
      omega (
        arith,
        counted,
        (c.clean h).1,
        of_subscriber-tally r l.delivered,
        ap (tally f) (received_in_order size run r),
        tally-append f (of_subscriber r l.received) (l.queue.info r).channel,
      )
    where
      start : IsClean (new_ledger size)
      start = record { clean = λ h'. (λ id p e. cc, refl) }
