-- ===== src/Queue/Ledger/Delivering.antt =====
-- pkg/mq/inmemory.go: `deliverMessage` as a run of moves, where no other goroutine interferes.
use elastic_gpu_telemetry_pi.Common.{
  ℕ, zero, suc, ◌<◌, ◌≡◌, refl, sym, ap, subst, ◌∙◌, inl, inr, Bool, true, some, List, [], ◌∷◌,
  ◌++◌, arith, ltb, get_elem?, remove_at, length,
}
use elastic_gpu_telemetry_pi.Domain.{Time, Message}
use elastic_gpu_telemetry_pi.Queue.{Queue}
use elastic_gpu_telemetry_pi.Queue.Steps.{
  acts, act, buffer, push, safe_send, register, select, selects, after_select,
}
use elastic_gpu_telemetry_pi.Queue.Goroutines.{calm, deliver_loop, deliver_message, max_retries}
use elastic_gpu_telemetry_pi.Queue.Invariant.{IsValid, safe_send_cases}
use elastic_gpu_telemetry_pi.Queue.Schedules.{chosen-IsValid}
use elastic_gpu_telemetry_pi.Queue.Selecting.{select_cases}
use elastic_gpu_telemetry_pi.Queue.Sending.{attempted}
use elastic_gpu_telemetry_pi.Queue.Ledger.{
  Ledger, Move, others, delivers, keeps, tracks, move, moves, moves_nothing,
}

-- Some run leads to a queue, with these messages left in hand.
pub record Runs (l : Ledger) (q : Queue) (hand : List Message) : Type 0 where
  pub run : List Move
  pub queue : (moves run l).queue ≡ q
  pub left : (moves run l).hand ≡ hand

-- One move, and then a run.
pub first :
    {l : Ledger} {q : Queue} {hand : List Message} (a : Move)
    → Runs (move a l) q hand
    → Runs l q hand
unfolding moves
first a r = record { run = a ∷ r.run; queue = r.queue; left = r.left }

pub done :
    (l : Ledger) (q : Queue) (hand : List Message) → l.queue ≡ q → l.hand ≡ hand → Runs l q hand
unfolding moves
done l q hand e h = record { run = []; queue = e; left = h }

pub with_left :
    {l : Ledger} {q : Queue} {hand hand' : List Message}
    → hand ≡ hand'
    → Runs l q hand
    → Runs l q hand'
with_left e r = record { run = r.run; queue = r.queue; left = r.left ∙ e }

get_last : {A : Type 0} (xs : List A) (x : A) → get_elem? (xs ++ x ∷ []) (length xs) ≡ some x
get_last [] x = refl
get_last (y ∷ ys) x = get_last ys x

module _ (pick : ℕ → Bool) (now : Time) (m : Message) where
  pub keep-Runs :
      (i : ℕ) (l : Ledger)
      → get_elem? l.hand i ≡ some m
      → Runs l (buffer m l.queue) (remove_at l.hand i)
  unfolding move
  keep-Runs i l h = first (keeps i) (done _ _ _ (rw h refl) (rw h refl))

  sent : (i ref : ℕ) → Ledger → Ledger
  sent i ref l = record l {
    queue = push l.queue ref m;
    hand = remove_at l.hand i;
    delivered = l.delivered ++ (ref, m) ∷ [];
  }

  move-sent :
      (i ref : ℕ) (p : Bool) (l : Ledger)
      → get_elem? l.hand i ≡ some m
      → ref < l.queue.next_ref
      → safe_send p ref m l.queue ≡ (push l.queue ref m, true)
      → move (delivers p i ref) l ≡ sent i ref l
  unfolding move sent
  move-sent i ref p l h known e =
      let test : ltb ref l.queue.next_ref ≡ true = ground arith in rw (test, h, e) refl

  send-Runs :
      (i ref : ℕ) (p : Bool) (l : Ledger)
      → get_elem? l.hand i ≡ some m
      → ref < l.queue.next_ref
      → safe_send p ref m l.queue ≡ (push l.queue ref m, true)
      → Runs l (register ref now m (push l.queue ref m)) (remove_at l.hand i)
  unfolding move sent
  send-Runs i ref p l h known e = first (delivers p i ref) (
      subst (λ t. Runs t (register ref now m (push l.queue ref m)) (remove_at l.hand i))
        (sym (move-sent i ref p l h known e))
        (first (tracks (length l.delivered) now) (
          done _ _ _ (rw (get_last l.delivered (ref, m)) refl)
            (rw (get_last l.delivered (ref, m)) refl))))

  attempt-Runs :
      (i left k ref : ℕ) (l : Ledger)
      → get_elem? l.hand i ≡ some m
      → ref < l.queue.next_ref
      → Runs l (deliver_loop (calm pick now) left (suc k) m l.queue).0 (remove_at l.hand i)
      → Runs l
          (attempted (calm pick now) left k m ref (safe_send (pick k) ref m l.queue)).0
          (remove_at l.hand i)
  unfolding acts
  attempt-Runs i left k ref l h known rest = elim (safe_send_cases (pick k) ref m l.queue) [
    | inl e ↦ rw e rest
    | inr (_, _, _, e) ↦ rw e (send-Runs i ref (pick k) l h known e)
  ]

  deliver_loop-Runs :
      (left k i : ℕ) (l : Ledger)
      → IsValid l.queue
      → get_elem? l.hand i ≡ some m
      → Runs l (deliver_loop (calm pick now) left k m l.queue).0 (remove_at l.hand i)
  unfolding deliver_loop acts move moves_nothing act
  deliver_loop-Runs zero k i l v h = keep-Runs i l h
  deliver_loop-Runs (suc left) k i l v h = elim (select_cases l.queue) [
    | inl (_, e) ↦ rw (e, deliver_loop) (keep-Runs i l h)
    | inr (ref, c) ↦
        let chosen : Queue = after_select l.queue (select l.queue) in
        let known : ref < chosen.next_ref = rw c.result ((v.listed ref c.listed).made) in
        rw (c.result, deliver_loop)
          (first (others selects) (
            subst
              (λ t.
                Runs (record l { queue = after_select l.queue (select l.queue) })
                  (attempted (calm pick now) left k m ref (safe_send (pick k) ref m t)).0
                  (remove_at l.hand i))
              (ap (after_select l.queue) c.result)
              (attempt-Runs i left k ref (record l { queue = chosen }) h known
                (deliver_loop-Runs left (suc k) i (record l { queue = chosen })
                  (chosen-IsValid l.queue ref c v) h))))
  ]

  -- `deliverMessage` of a message that is in hand.
  pub deliver_message-Runs :
      (i : ℕ) (l : Ledger)
      → IsValid l.queue
      → get_elem? l.hand i ≡ some m
      → Runs l (deliver_message (calm pick now) m l.queue).0 (remove_at l.hand i)
  unfolding deliver_message acts
  deliver_message-Runs i l v h = deliver_loop-Runs max_retries 0 i l v h
