-- ===== src/Queue/Finding.antt =====
-- pkg/mq/inmemory.go: the round-robin search of `deliverMessage` for a subscriber.
use native.Mathlib.Nat.{mod-lt, mod-eq_of_lt, mod-add-mod, add-mod-mod, add-mod_right}
use elastic_gpu_telemetry_pi.Common.{
  ℕ, zero, suc, ◌+◌, ◌-◌, ◌==◌, Bool-cases, ◌%◌, ◌<◌, ◌≤◌, ◌≡◌, refl, sym, ap, subst, ◌∙◌, inl, inr,
  Bool, true, false, List, [], ◌∷◌, some, arith, length, get_elem?,
}
use elastic_gpu_telemetry_pi.Domain.{Time, Message}
use elastic_gpu_telemetry_pi.Queue.{Queue, contains_ref}
use elastic_gpu_telemetry_pi.Queue.Steps.{acts, push, safe_send}
use elastic_gpu_telemetry_pi.Queue.Goroutines.{
  calm, delivered, deliver_loop, deliver_message, max_retries,
}
use elastic_gpu_telemetry_pi.Queue.Invariant.{safe_send_cases}
use elastic_gpu_telemetry_pi.Queue.Selecting.{chosen_index, select-Chooses}
use elastic_gpu_telemetry_pi.Queue.Sending.{attempted, at_index}

-- The subscriber takes a message: it is open, its context is not cancelled, and it has room.
pub record Accepts (q : Queue) (ref : ℕ) : Type 0 where
  pub unflagged : (q.info ref).closed ≡ false
  pub channel_open : (q.info ref).chan_closed ≡ false
  pub not_cancelled : (q.info ref).ctx_done ≡ false
  pub room : length (q.info ref).channel < q.buffer_size

pub safe_send-Accepts :
    (pick : Bool) (ref : ℕ) (m : Message) (q : Queue)
    → Accepts q ref
    → safe_send pick ref m q ≡ (push q ref m, true)
unfolding safe_send
safe_send-Accepts pick ref m q a = ground arith

-- The place that the search looks at after `d` failures, if it looks at `c` first.
next_place : (n c d : ℕ) → c < n → ((c + 1) % n + d) % n ≡ (c + suc d) % n
next_place n c d h = mod-add-mod (c + 1) n d ∙ ap (λ t. t % n) (omega arith)

chosen_index-lt : (q : Queue) → 0 < length q.subscribers → chosen_index q < length q.subscribers
chosen_index-lt q h = ground arith

chosen_index_of_lt :
    (q : Queue) (i : ℕ) → i < length q.subscribers → chosen_index (at_index q i) ≡ i
chosen_index_of_lt q i h = ground arith

module _ (pick : ℕ → Bool) (now : Time) (m : Message) (q : Queue) (ref : ℕ) (a : Accepts q ref)
    (some_listed : 0 < length q.subscribers) where
  -- Another subscriber was tried: it took the message, or the search goes on.
  attempt_other :
      (left k i other : ℕ)
      → (deliver_loop (calm pick now) left (suc k) m (at_index q i)).1 ≡ delivered
      → (attempted (calm pick now) left k m other (safe_send (pick k) other m (at_index q i))).1
        ≡ delivered
  unfolding acts
  attempt_other left k i other rest = elim (safe_send_cases (pick k) other m (at_index q i)) [
    | inl e ↦ subst (λ r. (attempted (calm pick now) left k m other r).1 ≡ delivered) (sym e) rest
    | inr (_, _, _, e) ↦
        subst (λ r. (attempted (calm pick now) left k m other r).1 ≡ delivered) (sym e) refl
  ]

  attempt_accepting :
      (left k i : ℕ)
      → (attempted (calm pick now) left k m ref (safe_send (pick k) ref m (at_index q i))).1
        ≡ delivered
  attempt_accepting left k i =
      subst (λ r. (attempted (calm pick now) left k m ref r).1 ≡ delivered)
        (sym (
          safe_send-Accepts (pick k) ref m (at_index q i) (record {
            unflagged = a.unflagged;
            channel_open = a.channel_open;
            not_cancelled = a.not_cancelled;
            room = a.room;
          })))
        refl

  next_index : ℕ → ℕ
  next_index i = (chosen_index (at_index q i) + 1) % length q.subscribers

  moved :
      (i d : ℕ)
      → (chosen_index (at_index q (next_index i)) + d) % length q.subscribers
        ≡ (chosen_index (at_index q i) + suc d) % length q.subscribers
  unfolding next_index
  moved i d =
      ap (λ t. (t + d) % length q.subscribers)
        (chosen_index_of_lt q (next_index i) (mod-lt _ some_listed))
      ∙ next_place (length q.subscribers) (chosen_index (at_index q i)) d
          (chosen_index-lt (at_index q i) some_listed)

  -- `d` more failures lead to the subscriber.
  deliver_loop-finds :
      (left k i d : ℕ)
      → d < left
      → get_elem? q.subscribers ((chosen_index (at_index q i) + d) % length q.subscribers)
        ≡ some ref
      → (deliver_loop (calm pick now) left k m (at_index q i)).1 ≡ delivered
  unfolding deliver_loop acts next_index
  deliver_loop-finds zero k i d h e = absurd (omega arith)
  deliver_loop-finds (suc left) k i zero h e =
      let (first, c) = select-Chooses (at_index q i) some_listed in
      let here : get_elem? q.subscribers (chosen_index (at_index q i)) ≡ some ref =
        ap (get_elem? q.subscribers) (
          sym (
            ap (λ t. t % length q.subscribers) (omega arith)
            ∙ mod-eq_of_lt (chosen_index-lt (at_index q i) some_listed)))
        ∙ e in
      let same : first ≡ ref = cc (c.at_index, here) in
      rw (c.result, deliver_loop)
        (subst
          (λ r.
            (attempted (calm pick now) left k m r
              (safe_send (pick k) r m (at_index q (next_index i)))).1
            ≡ delivered)
          (sym same) (attempt_accepting left k (next_index i)))
  deliver_loop-finds (suc left) k i (suc d) h e =
      let (first, c) = select-Chooses (at_index q i) some_listed in
      rw (c.result, deliver_loop)
        (attempt_other left k (next_index i) first (
          deliver_loop-finds left (suc k) (next_index i) d (omega arith)
            (ap (get_elem? q.subscribers) (moved i d) ∙ e)))

place_of_listed :
    (rs : List ℕ) (ref : ℕ)
    → contains_ref ref rs ≡ true
    → (p : ℕ) × (p < length rs) × (get_elem? rs p ≡ some ref)
place_of_listed [] ref h = cc
place_of_listed (x ∷ rs) ref h = elim (Bool-cases (x == ref)) [
  | inl e ↦ (0, omega arith, ground arith)
  | inr e ↦ let (p, lt, at) = place_of_listed rs ref (ground arith) in (suc p, omega arith, at)
]

-- From place `c`, the place `p` is `(p + n - c) % n` steps ahead.
ahead : (n c p : ℕ) → c < n → p < n → (c + (p + n - c) % n) % n ≡ p
ahead n c p hc hp =
    add-mod-mod c (p + n - c) n
    ∙ ap (λ t. t % n) (omega arith)
    ∙ add-mod_right p n
    ∙ mod-eq_of_lt hp

-- Where no other goroutine interferes and at most 100 subscribers are listed, `deliverMessage`
-- delivers whenever at least one of them, anywhere in the list, is open, is not cancelled and has
-- room in its channel: full channels before it do not stop the search.
pub deliver_message-finds :
    (pick : ℕ → Bool) (now : Time) (m : Message) (q : Queue) (ref : ℕ)
    → Accepts q ref
    → contains_ref ref q.subscribers ≡ true
    → length q.subscribers ≤ max_retries
    → (deliver_message (calm pick now) m q).1 ≡ delivered
unfolding deliver_message acts
deliver_message-finds pick now m q ref a listed few =
    let (p, lt, at) = place_of_listed q.subscribers ref listed in
    let n = length q.subscribers in
    let nonempty : 0 < n = omega arith in
    let d = (p + n - chosen_index q) % n in
    let near : d < n = mod-lt _ nonempty in
    deliver_loop-finds pick now m q ref a nonempty max_retries 0 q.current d (omega arith) (
      ap (get_elem? q.subscribers) (ahead n (chosen_index q) p (chosen_index-lt q nonempty) lt)
      ∙ at)
