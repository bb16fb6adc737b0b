-- ===== src/Queue/Ledger/Order.antt =====
-- pkg/mq/inmemory.go: the order in which a subscriber receives its messages.
use mathlib.Core.List.{append_assoc, append-nil}
use elastic_gpu_telemetry_pi.Common.{
  ℕ, ◌≤◌, ◌<◌, ◌≡◌, ◌⊎◌, refl, sym, ap, ◌∙◌, inl, inr, Bool, true, false, Option, none, some, List,
  [], ◌∷◌, ◌++◌, arith, ltb, ◌==◌, get_elem?, Bool-cases, Option-cases, if◌then◌else◌,
}
use elastic_gpu_telemetry_pi.Domain.{Message}
use elastic_gpu_telemetry_pi.Queue.{
  Queue, update, PublishOutcome, published, panicked, failed, send_message, receive, new_queue,
  new_queue_of_size,
}
use elastic_gpu_telemetry_pi.Queue.Steps.{
  buffer, push, safe_send, register, expire, take_message, take_backlog,
}
use elastic_gpu_telemetry_pi.Queue.Invariant.{safe_send_cases}
use elastic_gpu_telemetry_pi.Queue.Ledger.{
  Ledger, new_ledger, Move, others, publishes, consumes, takes, flushes, times_out, delivers, keeps,
  tracks, move, moves, moves_nothing, log_published, log_received, log_taken, log_delivered,
  keep_one, track_one,
}
use elastic_gpu_telemetry_pi.Queue.Ledger.Frame.{act-Frames}

-- The messages of one subscriber in a log.
abbrev pub of_subscriber : ℕ → List (ℕ × Message) → List Message
of_subscriber r [] = []
of_subscriber r ((ref, m) ∷ log) = if r == ref then m ∷ of_subscriber r log else of_subscriber r log

of_subscriber-append :
    (r : ℕ) (xs ys : List (ℕ × Message))
    → of_subscriber r (xs ++ ys) ≡ of_subscriber r xs ++ of_subscriber r ys
of_subscriber-append r [] ys = refl
of_subscriber-append r ((ref, m) ∷ xs) ys = ground (arith, of_subscriber-append r xs ys)

-- What was sent to a channel is what was received from it and then what it buffers, in this order.
pub record IsOrdered (l : Ledger) : Type 0 where
  pub in_order :
      (r : ℕ) → of_subscriber r l.delivered ≡ of_subscriber r l.received ++ (l.queue.info r).channel
  pub fresh : (r : ℕ) → l.queue.next_ref ≤ r → of_subscriber r l.delivered ≡ []

-- The same logs, and channels that are the same or those of new subscribers.
moved-IsOrdered :
    (l t : Ledger)
    → t.delivered ≡ l.delivered
    → t.received ≡ l.received
    → l.queue.next_ref ≤ t.queue.next_ref
    → ((x : ℕ)
        → ((t.queue.info x).channel ≡ (l.queue.info x).channel)
          ⊎ ((l.queue.next_ref ≤ x) × ((t.queue.info x).channel ≡ [])))
    → IsOrdered l
    → IsOrdered t
moved-IsOrdered l t d r made channels o = record {
  in_order = λ x. elim (channels x) [
    | inl same ↦
        ap (of_subscriber x) d
        ∙ o.in_order x
        ∙ ap (λ ms. ms ++ (l.queue.info x).channel) (sym (ap (of_subscriber x) r))
        ∙ ap (λ ms. of_subscriber x t.received ++ ms) (sym same)
    | inr (late, empty) ↦ new x late empty
  ];
  fresh = λ x late. ap (of_subscriber x) d ∙ o.fresh x (omega arith);
}
  where
    front : (xs ys : List Message) → xs ++ ys ≡ [] → xs ≡ []
    front [] ys h = refl
    front (x ∷ xs) ys h = cc

    new :
        (x : ℕ)
        → l.queue.next_ref ≤ x
        → (t.queue.info x).channel ≡ []
        → of_subscriber x t.delivered ≡ of_subscriber x t.received ++ (t.queue.info x).channel
    new x late empty =
        let none_sent = o.fresh x late in
        let none_received = front (of_subscriber x l.received) _ (sym (o.in_order x) ∙ none_sent) in
        ap (of_subscriber x) d
        ∙ none_sent
        ∙ sym none_received
        ∙ ap (of_subscriber x) (sym r)
        ∙ sym (append-nil _)
        ∙ ap (λ ms. of_subscriber x t.received ++ ms) (sym empty)

-- The subscribers' channels have not changed.
abbrev SameSubscribers : Queue → Queue → Type 0
SameSubscribers q t = (t.info ≡ q.info) × (t.next_ref ≡ q.next_ref)

kept-IsOrdered :
    (l t : Ledger)
    → t.delivered ≡ l.delivered
    → t.received ≡ l.received
    → SameSubscribers l.queue t.queue
    → IsOrdered l
    → IsOrdered t
kept-IsOrdered l t d r (e, n) o =
    moved-IsOrdered l t d r (omega arith) (λ x. inl (ap (λ i. (i x).channel) e)) o

send_message-SameSubscribers :
    (done pick : Bool) (m : Message) (q : Queue) → SameSubscribers q (send_message done pick m q).0
unfolding send_message
send_message-SameSubscribers done pick m q = ground arith

publish-IsOrdered :
    (m : Message) (l : Ledger) (r : Queue × PublishOutcome)
    → SameSubscribers l.queue r.0
    → IsOrdered l
    → IsOrdered (log_published m l r)
publish-IsOrdered m l (q, published) e o = kept-IsOrdered l _ refl refl e o
publish-IsOrdered m l (q, panicked) e o = kept-IsOrdered l _ refl refl e o
publish-IsOrdered m l (q, failed x) e o = kept-IsOrdered l _ refl refl e o

take-IsOrdered :
    (l : Ledger) (ms : List Message)
    → l.queue.messages ≡ ms
    → IsOrdered l
    → IsOrdered (log_taken l ms)
unfolding take_message
take-IsOrdered l [] e o = o
take-IsOrdered l (m ∷ rest) e o = rw (e, take_message) (kept-IsOrdered l _ refl refl (refl, refl) o)

buffer-SameSubscribers : (m : Message) (q : Queue) → SameSubscribers q (buffer m q)
unfolding buffer
buffer-SameSubscribers m q = ground arith

register-SameSubscribers :
    (ref now : ℕ) (m : Message) (q : Queue) → SameSubscribers q (register ref now m q)
unfolding register
register-SameSubscribers ref now m q = ground arith

keep-IsOrdered :
    (i : ℕ) (l : Ledger) (found : Option Message) → IsOrdered l → IsOrdered (keep_one i l found)
keep-IsOrdered i l none o = o
keep-IsOrdered i l (some m) o = kept-IsOrdered l _ refl refl (buffer-SameSubscribers m l.queue) o

track-IsOrdered :
    (now : ℕ) (l : Ledger) (found : Option (ℕ × Message))
    → IsOrdered l
    → IsOrdered (track_one now l found)
track-IsOrdered now l none o = o
track-IsOrdered now l (some (ref, m)) o =
    kept-IsOrdered l _ refl refl (register-SameSubscribers ref now m l.queue) o

-- A message that is sent is the last one of its channel, and of those sent there.
deliver-IsOrdered :
    (pick : Bool) (i ref : ℕ) (m : Message) (l : Ledger)
    → ref < l.queue.next_ref
    → IsOrdered l
    → IsOrdered (log_delivered i ref m l (safe_send pick ref m l.queue))
deliver-IsOrdered pick i ref m l known o = elim (safe_send_cases pick ref m l.queue) [
  | inl e ↦ rw e o
  | inr (_, _, _, e) ↦ rw e (record {
    in_order =
        λ r. of_subscriber-append r l.delivered ((ref, m) ∷ []) ∙ sent r (Bool-cases (r == ref));
    fresh = λ r late.
        of_subscriber-append r l.delivered ((ref, m) ∷ []) ∙ ground (arith, o.fresh r late);
  })
]
  where
    sent :
        (r : ℕ)
        → ((r == ref) ≡ true) ⊎ ((r == ref) ≡ false)
        → of_subscriber r l.delivered ++ of_subscriber r ((ref, m) ∷ [])
          ≡ of_subscriber r l.received ++ ((push l.queue ref m).info r).channel
    sent r (inl e) =
        let same : r ≡ ref = ground arith in
        rw (e, same)
          (ap (λ ms. ms ++ m ∷ []) (o.in_order ref)
            ∙ append_assoc (of_subscriber ref l.received) (l.queue.info ref).channel (m ∷ []))
    sent r (inr e) = rw e (append-nil _ ∙ o.in_order r)

receive-IsOrdered :
    (ref : ℕ) (l : Ledger) (ms : List Message)
    → (l.queue.info ref).channel ≡ ms
    → IsOrdered l
    → IsOrdered (log_received ref l ms)
unfolding receive
receive-IsOrdered ref l [] e o = o
receive-IsOrdered ref l (m ∷ rest) e o =
    rw (e, receive) (record { in_order = λ r. got r (Bool-cases (r == ref)); fresh = o.fresh })
  where
    after : (r : ℕ) → List Message
    after r = (update l.queue.info ref (record (l.queue.info ref) { channel = rest }) r).channel

    got :
        (r : ℕ)
        → ((r == ref) ≡ true) ⊎ ((r == ref) ≡ false)
        → of_subscriber r l.delivered ≡ of_subscriber r (l.received ++ (ref, m) ∷ []) ++ after r
    got r (inl h) =
        let same : r ≡ ref = ground arith in
        o.in_order r
        ∙ ap (λ ms. of_subscriber r l.received ++ ms) (ap (λ x. (l.queue.info x).channel) same ∙ e)
        ∙ rw (of_subscriber-append r l.received ((ref, m) ∷ []), h, after, update)
            (sym (append_assoc (of_subscriber r l.received) (m ∷ []) rest))
    got r (inr h) =
        o.in_order r
        ∙ rw (of_subscriber-append r l.received ((ref, m) ∷ []), h, after, update)
            (ap (λ ms. ms ++ (l.queue.info r).channel)
              (sym (append-nil (of_subscriber r l.received))))

move-IsOrdered : (a : Move) (l : Ledger) → IsOrdered l → IsOrdered (move a l)
unfolding move take_backlog expire
move-IsOrdered (others a) l o = elim (Bool-cases (moves_nothing a)) [
  | inl e ↦
      let t = act-Frames a l.queue e in rw e (moved-IsOrdered l _ refl refl t.made t.channels o)
  | inr e ↦ rw e o
]
move-IsOrdered (publishes done pick m) l o =
    publish-IsOrdered m l (send_message done pick m l.queue)
      (send_message-SameSubscribers done pick m l.queue) o
move-IsOrdered (consumes ref) l o = receive-IsOrdered ref l _ refl o
move-IsOrdered takes l o = take-IsOrdered l _ refl o
move-IsOrdered flushes l o = kept-IsOrdered l _ refl refl (refl, refl) o
move-IsOrdered (times_out now keys) l o = kept-IsOrdered l _ refl refl (refl, refl) o
move-IsOrdered (delivers pick i ref) l o = elim (Bool-cases (ltb ref l.queue.next_ref)) [
  | inl e ↦ rw e (elim (Option-cases (get_elem? l.hand i)) [
    | inl h ↦ rw h o
    | inr (m, h) ↦ rw h (deliver-IsOrdered pick i ref m l (ground arith) o)
  ])
  | inr e ↦ rw e o
]
move-IsOrdered (keeps i) l o = keep-IsOrdered i l _ o
move-IsOrdered (tracks i now) l o = track-IsOrdered now l _ o

moves-IsOrdered : (run : List Move) (l : Ledger) → IsOrdered l → IsOrdered (moves run l)
unfolding moves
moves-IsOrdered [] l o = o
moves-IsOrdered (a ∷ rest) l o = moves-IsOrdered rest (move a l) (move-IsOrdered a l o)

-- However the goroutines interleave: what was sent to a subscriber's channel is exactly what the
-- subscriber has received and then what its channel buffers, in this order. So each subscriber receives
-- its messages in the order in which they were sent to it, each once, and none is lost on the way.
pub received_in_order :
    (size : ℕ) (run : List Move) (r : ℕ)
    → let l : Ledger = moves run (new_ledger size) in
      of_subscriber r l.delivered ≡ of_subscriber r l.received ++ (l.queue.info r).channel
unfolding new_ledger new_queue new_queue_of_size
received_in_order size run r =
    (moves-IsOrdered run (new_ledger size)
        (record { in_order = λ x. refl; fresh = λ x late. refl })).in_order
      r
