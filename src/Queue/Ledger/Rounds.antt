-- ===== src/Queue/Ledger/Rounds.antt =====
-- pkg/mq/inmemory.go: the rounds of `distribute` as runs of moves, where no other goroutine interferes.
use elastic_gpu_telemetry_pi.Common.{
  ℕ, suc, ◌≡◌, ◌⊎◌, refl, sym, ap, subst, ◌∙◌, inl, inr, Bool, true, false, some, List, [], ◌∷◌,
  ◌++◌, arith, ltb, ◌==◌, get_elem?, remove_at, length, Bool-cases,
}
use elastic_gpu_telemetry_pi.Domain.{Time, Message}
use elastic_gpu_telemetry_pi.Queue.{Queue}
use elastic_gpu_telemetry_pi.Queue.Steps.{take_message, take_backlog}
use elastic_gpu_telemetry_pi.Queue.Goroutines.{
  Environment, calm, deliver_message, deliver_all, distribute_message,
}
use elastic_gpu_telemetry_pi.Queue.Invariant.{IsValid}
use elastic_gpu_telemetry_pi.Queue.Schedules.{shorten-IsValid, take_backlog-IsValid}
use elastic_gpu_telemetry_pi.Queue.Interference.{deliver_message-IsFine, deliver_all-IsValid}
use elastic_gpu_telemetry_pi.Queue.Ledger.{Ledger, Move, takes, flushes, move, moves, log_taken}
use elastic_gpu_telemetry_pi.Queue.Ledger.Delivering.{
  Runs, first, done, with_left, keep-Runs, deliver_message-Runs,
}

moves-append : (xs ys : List Move) (l : Ledger) → moves (xs ++ ys) l ≡ moves ys (moves xs l)
unfolding moves
moves-append [] ys l = refl
moves-append (x ∷ xs) ys l = moves-append xs ys (move x l)

-- One run after another.
followed :
    {l : Ledger} {q t : Queue} {hand left : List Message}
    → Runs l q hand
    → ((l' : Ledger) → l'.queue ≡ q → l'.hand ≡ hand → Runs l' t left)
    → Runs l t left
followed {l} r next =
    let s = next (moves r.run l) r.queue r.left in
    record {
      run = r.run ++ s.run;
      queue = ap (λ x. x.queue) (moves-append r.run s.run l) ∙ s.queue;
      left = ap (λ x. x.hand) (moves-append r.run s.run l) ∙ s.left;
    }

take_message-first :
    (m : Message) (ms : List Message) (q : Queue)
    → q.messages ≡ m ∷ ms
    → take_message q ≡ record q { messages = ms }
unfolding take_message
take_message-first m ms q e = rw (e, take_message) refl

-- The round has received a message.
abbrev taken : Message → List Message → Ledger → Ledger
taken m ms l = record l { queue = record l.queue { messages = ms }; hand = l.hand ++ m ∷ [] }

move-taken :
    (m : Message) (ms : List Message) (l : Ledger)
    → l.queue.messages ≡ m ∷ ms
    → move takes l ≡ taken m ms l
unfolding move
move-taken m ms l e = rw (e, log_taken) (rw (take_message-first m ms l.queue e) refl)

module _ (picks : ℕ → ℕ → Bool) (nows : ℕ → Time) where
  abbrev pub calms : ℕ → Environment
  calms i = calm (picks i) (nows i)

  -- The backlog, behind the message that the round has received.
  deliver_all-Runs :
      (i : ℕ) (m : Message) (ms : List Message) (q : Queue)
      → IsValid q
      → (l : Ledger) → l.queue ≡ q
      → l.hand ≡ m ∷ ms
      → Runs l (deliver_all calms i ms q) (m ∷ [])
  unfolding deliver_all
  deliver_all-Runs i m [] q v l e h = done l q (m ∷ []) e h
  deliver_all-Runs i m (x ∷ ms) q v l e h =
      followed (one x 1 q v l e (ap (λ xs. get_elem? xs 1) h)) (λ l' e' h'.
        deliver_all-Runs (suc i) m ms (deliver_message (calm (picks i) (nows i)) x q).0
          (deliver_message-IsFine (calm (picks i) (nows i)) x q v).0 l' e'
          (h' ∙ ap (λ xs. remove_at xs 1) h))
    where
      one :
          (x : Message) (place : ℕ) (q : Queue)
          → IsValid q
          → (l : Ledger) → l.queue ≡ q
          → get_elem? l.hand place ≡ some x
          → Runs l (deliver_message (calm (picks i) (nows i)) x q).0 (remove_at l.hand place)
      one x place q v l e h =
          subst
            (λ t. Runs l (deliver_message (calm (picks i) (nows i)) x t).0 (remove_at l.hand place))
            e (deliver_message-Runs (picks i) (nows i) x place l (subst IsValid (sym e) v) h)

  -- A round of `distribute`, where no other goroutine interferes, is a run of moves: it takes a message
  -- off the channel, and leaves none in hand. So what holds along all runs holds of it.
  pub distribute_message-Runs :
      (pick : ℕ → Bool) (now : Time) (m : Message) (ms : List Message) (l : Ledger)
      → IsValid l.queue
      → l.hand ≡ []
      → l.queue.messages ≡ m ∷ ms
      → Runs l (distribute_message calms (calm pick now) m (record l.queue { messages = ms })) []
  unfolding distribute_message move
  distribute_message-Runs pick now m ms l v h e = first takes (
      subst
        (λ t.
          Runs t (distribute_message calms (calm pick now) m (record l.queue { messages = ms })) [])
        (sym (move-taken m ms l e))
        (go (Bool-cases (length l.queue.subscribers == 0))
          (Bool-cases (ltb 0 (length l.queue.undelivered)))))
    where
      after : Ledger
      after = taken m ms l

      shortened : IsValid after.queue
      shortened = shorten-IsValid l.queue ms (omega (arith, ap length e)) v

      cleared : IsValid (take_backlog after.queue)
      cleared = take_backlog-IsValid after.queue shortened

      none_left : remove_at (l.hand ++ m ∷ []) 0 ≡ []
      none_left = ap (λ xs. remove_at (xs ++ m ∷ []) 0) h

      held : get_elem? (l.hand ++ m ∷ []) 0 ≡ some m
      held = ap (λ xs. get_elem? (xs ++ m ∷ []) 0) h

      last :
          (q : Queue)
          → IsValid q
          → (l' : Ledger) → l'.queue ≡ q
          → l'.hand ≡ m ∷ []
          → Runs l' (deliver_message (calm pick now) m q).0 []
      last q w l' e' h' =
          subst (λ t. Runs l' (deliver_message (calm pick now) m t).0 []) e'
            (with_left (ap (λ xs. remove_at xs 0) h') (
              deliver_message-Runs pick now m 0 l' (subst IsValid (sym e') w)
                (ap (λ xs. get_elem? xs 0) h')))

      go :
          ((length l.queue.subscribers == 0) ≡ true) ⊎ ((length l.queue.subscribers == 0) ≡ false)
          → (ltb 0 (length l.queue.undelivered) ≡ true)
            ⊎ (ltb 0 (length l.queue.undelivered) ≡ false)
          → Runs after
              (distribute_message calms (calm pick now) m (record l.queue { messages = ms }))
              []
      go (inl a) b = rw a (with_left none_left (keep-Runs pick now m 0 after held))
      go (inr a) (inl b) =
          rw (a, b)
            (first flushes (
              followed
                (deliver_all-Runs 0 m l.queue.undelivered (take_backlog after.queue) cleared _ refl
                  (ap (λ xs. xs ++ m ∷ [] ++ l.queue.undelivered) h))
                (last _ (deliver_all-IsValid calms 0 l.queue.undelivered _ cleared))))
      go (inr a) (inr b) =
          rw (a, b) (with_left none_left (deliver_message-Runs pick now m 0 after shortened held))
