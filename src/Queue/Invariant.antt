-- ===== src/Queue/Invariant.antt =====
-- pkg/mq/inmemory.go: the queue's invariant.
use elastic_gpu_telemetry_pi.Common.{
  ℕ, ◌≤◌, ◌<◌, ◌≡◌, refl, ap, ◌⊎◌, inl, inr, Bool, true, false, ◌||◌, some, List, [], ◌∷◌, ◌++◌,
  arith, Text, lookup, ◌==◌, ==_iff, length, length-append, Bool-cases, if◌then◌else◌,
}
use elastic_gpu_telemetry_pi.Domain.{Message}
use elastic_gpu_telemetry_pi.Queue.{
  Queue, PendingMessage, SubscriberInfo, new_queue, update, contains_ref, remove_ref, receive,
  cancel, send_message,
}
use elastic_gpu_telemetry_pi.Queue.Steps.{buffer, safe_send, push}

-- What holds of a subscriber object: its channel is within its capacity, and the flag is set only
-- once the channel is closed.
pub record IsSound (size : ℕ) (s : SubscriberInfo) : Type 0 where
  pub channel_bounded : length s.channel ≤ size
  pub flag : s.closed ≡ true → s.chan_closed ≡ true

-- A listed subscriber is an object that was made, and it is open.
pub record IsOpen (q : Queue) (r : ℕ) : Type 0 where
  pub made : r < q.next_ref
  pub unflagged : (q.info r).closed ≡ false
  pub channel_open : (q.info r).chan_closed ≡ false

abbrev pub IsDistinct : List ℕ → Type 0
IsDistinct [] = Unit
IsDistinct (r ∷ rs) = (contains_ref r rs ≡ false) × IsDistinct rs

pub record IsValid (q : Queue) : Type 0 where
  pub messages_bounded : length q.messages ≤ q.buffer_size
  pub backlog_bounded : length q.undelivered ≤ q.max_undelivered
  pub pending_bounded : length q.pending ≤ q.max_pending
  pub keyed : (id : Text) (p : PendingMessage) → lookup id q.pending ≡ some p → p.message.id ≡ id
  pub sound : (r : ℕ) → IsSound q.buffer_size (q.info r)
  pub distinct : IsDistinct q.subscribers
  pub listed : (r : ℕ) → contains_ref r q.subscribers ≡ true → IsOpen q r
  pub closing : (q.messages_closed ≡ q.closed) × (q.redeliver_closed ≡ q.closed)

-- A new queue of any size is valid.
pub new_queue-IsValid : (size : ℕ) → IsValid (new_queue size)
unfolding new_queue lookup
new_queue-IsValid size = record {
  messages_bounded = omega arith;
  backlog_bounded = omega arith;
  pending_bounded = omega arith;
  keyed = λ id p e. cc;
  sound = λ r. record { channel_bounded = omega arith; flag = λ e. cc };
  distinct = tt;
  listed = λ r e. cc;
  closing = (refl, refl);
}

pub send_message-IsValid :
    (done pick : Bool) (m : Message) (q : Queue)
    → IsValid q
    → IsValid (send_message done pick m q).0
unfolding send_message
send_message-IsValid done pick m q v = ground (arith, length-append q.messages (m ∷ []))

pub buffer-IsValid : (m : Message) (q : Queue) → IsValid q → IsValid (buffer m q)
unfolding buffer
buffer-IsValid m q v = ground (arith, length-append q.undelivered (m ∷ []))

pub contains_ref-append :
    (r s : ℕ) (rs : List ℕ) → contains_ref r (rs ++ s ∷ []) ≡ (contains_ref r rs || (s == r))
contains_ref-append r s [] = ground arith
contains_ref-append r s (x ∷ rs) = ground (arith, contains_ref-append r s rs)

pub contains_ref-remove_ref :
    (r s : ℕ) (rs : List ℕ)
    → IsDistinct rs
    → contains_ref r (remove_ref s rs) ≡ (if s == r then false else contains_ref r rs)
unfolding remove_ref
contains_ref-remove_ref r s [] d = ground arith
contains_ref-remove_ref r s (x ∷ rs) d = ground (arith, contains_ref-remove_ref r s rs d.1)

pub remove_ref-IsDistinct : (s : ℕ) (rs : List ℕ) → IsDistinct rs → IsDistinct (remove_ref s rs)
unfolding remove_ref
remove_ref-IsDistinct s [] d = tt
remove_ref-IsDistinct s (x ∷ rs) d =
    ground (arith, remove_ref-IsDistinct s rs d.1, contains_ref-remove_ref x s rs d.1)

pub append-IsDistinct :
    (s : ℕ) (rs : List ℕ) → contains_ref s rs ≡ false → IsDistinct rs → IsDistinct (rs ++ s ∷ [])
append-IsDistinct s [] e d = (refl, tt)
append-IsDistinct s (x ∷ rs) e d =
    ground (arith, append-IsDistinct s rs, contains_ref-append x s rs, d)

-- A write to one object keeps the queue valid if the new object is sound, and is open where the old
-- one is listed.
pub write-IsValid :
    (q : Queue) (ref : ℕ) (s : SubscriberInfo)
    → IsValid q
    → IsSound q.buffer_size s
    → (contains_ref ref q.subscribers ≡ true → (s.closed ≡ false) × (s.chan_closed ≡ false))
    → IsValid (record q { info = update q.info ref s })
write-IsValid q ref s v sound open_if_listed = record {
  messages_bounded = v.messages_bounded;
  backlog_bounded = v.backlog_bounded;
  pending_bounded = v.pending_bounded;
  keyed = v.keyed;
  sound = λ r. elim (Bool-cases (r == ref)) [ inl e ↦ rw e sound | inr e ↦ rw e (v.sound r) ];
  distinct = v.distinct;
  listed = λ r h. elim (Bool-cases (r == ref)) [
    | inl e ↦
        let same = (==_iff r ref).0 e in
        let facts = open_if_listed (rw same at h) in
        record { made = (v.listed r h).made; unflagged = rw e facts.0; channel_open = rw e facts.1 }
    | inr e ↦ record {
      made = (v.listed r h).made;
      unflagged = rw e (v.listed r h).unflagged;
      channel_open = rw e (v.listed r h).channel_open;
    }
  ];
  closing = v.closing;
}

pub cancel-IsValid : (ref : ℕ) (q : Queue) → IsValid q → IsValid (cancel ref q)
unfolding cancel
cancel-IsValid ref q v =
    write-IsValid q ref _ v
      (record { channel_bounded = (v.sound ref).channel_bounded; flag = (v.sound ref).flag })
      λ h. ((v.listed ref h).unflagged, (v.listed ref h).channel_open)

pub receive-IsValid : (ref : ℕ) (q : Queue) → IsValid q → IsValid (receive ref q)
unfolding receive
receive-IsValid ref q v = go (q.info ref).channel refl
  where
    go :
        (ms : List Message)
        → (q.info ref).channel ≡ ms
        → IsValid (elim ms [
          | [] ↦ q
          | m ∷ rest ↦ record q {
            info = update q.info ref (record (q.info ref) { channel = rest });
          }
        ])
    go [] e = v
    go (m ∷ rest) e =
        write-IsValid q ref _ v
          (record {
            channel_bounded = omega (arith, ap length e, (v.sound ref).channel_bounded);
            flag = (v.sound ref).flag;
          })
          λ h. ((v.listed ref h).unflagged, (v.listed ref h).channel_open)

-- A send fails and changes nothing, or it appends to an open channel that has room.
pub safe_send_cases :
    (pick : Bool) (ref : ℕ) (m : Message) (q : Queue)
    → (safe_send pick ref m q ≡ (q, false))
      ⊎ (((q.info ref).closed ≡ false)
          × ((q.info ref).chan_closed ≡ false)
          × (length (q.info ref).channel < q.buffer_size)
          × (safe_send pick ref m q ≡ (push q ref m, true)))
unfolding safe_send
safe_send_cases pick ref m q = ground arith

push-IsValid :
    (ref : ℕ) (m : Message) (q : Queue)
    → length (q.info ref).channel < q.buffer_size
    → IsValid q
    → IsValid (push q ref m)
push-IsValid ref m q room v =
    write-IsValid q ref _ v
      (record {
        channel_bounded = omega (arith, length-append (q.info ref).channel (m ∷ []));
        flag = (v.sound ref).flag;
      })
      λ h. ((v.listed ref h).unflagged, (v.listed ref h).channel_open)

pub safe_send-IsValid :
    (pick : Bool) (ref : ℕ) (m : Message) (q : Queue)
    → IsValid q
    → IsValid (safe_send pick ref m q).0
safe_send-IsValid pick ref m q v = elim (safe_send_cases pick ref m q) [
  | inl e ↦ rw e v
  | inr (_, _, room, e) ↦ rw e (push-IsValid ref m q room v)
]
