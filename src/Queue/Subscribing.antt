-- ===== src/Queue/Subscribing.antt =====
-- pkg/mq/inmemory.go: the invariant and the sections that add, clean up and close subscribers.
use elastic_gpu_telemetry_pi.Common.{
  ℕ, suc, ◌≡◌, refl, inl, inr, Bool, true, false, List, [], ◌∷◌, ◌++◌, arith, Text, is_empty, ◌==◌,
  Bool-cases, if◌then◌else◌, ok, err, Result,
}
use elastic_gpu_telemetry_pi.Queue.{
  Queue, SubscriberInfo, no_subscriber, SubscribeError, missing_consumer_id, queue_closed, update,
  contains_ref, subscribe, clean_up, close_channel,
}
use elastic_gpu_telemetry_pi.Queue.Steps.{act, drop_subscribers, close_all, subscribes}
use elastic_gpu_telemetry_pi.Queue.Invariant.{
  IsSound, IsValid, contains_ref-append, contains_ref-remove_ref, remove_ref-IsDistinct,
  append-IsDistinct,
}

-- A new object at a fresh address is listed last.
enlist-IsValid :
    (q : Queue) (s : SubscriberInfo)
    → IsValid q
    → IsSound q.buffer_size s
    → s.closed ≡ false
    → s.chan_closed ≡ false
    → IsValid (record q {
      info = update q.info q.next_ref s;
      next_ref = suc q.next_ref;
      subscribers = q.subscribers ++ q.next_ref ∷ [];
    })
enlist-IsValid q s v sound unflagged opened = record {
  messages_bounded = v.messages_bounded;
  backlog_bounded = v.backlog_bounded;
  pending_bounded = v.pending_bounded;
  keyed = v.keyed;
  sound =
      λ r. elim (Bool-cases (r == q.next_ref)) [ inl e ↦ rw e sound | inr e ↦ rw e (v.sound r) ];
  distinct = append-IsDistinct q.next_ref q.subscribers fresh v.distinct;
  listed = λ r h. elim (Bool-cases (r == q.next_ref)) [
    | inl e ↦ record { made = ground arith; unflagged = rw e unflagged; channel_open = rw e opened }
    | inr e ↦
        let old = v.listed r (ground (arith, contains_ref-append r q.next_ref q.subscribers)) in
        record {
          made = ground (arith, old.made);
          unflagged = rw e old.unflagged;
          channel_open = rw e old.channel_open;
        }
  ];
  closing = v.closing;
}
  where
    fresh : contains_ref q.next_ref q.subscribers ≡ false
    fresh = elim (Bool-cases (contains_ref q.next_ref q.subscribers)) [
      | inl e ↦ absurd (omega (arith, (v.listed q.next_ref e).made))
      | inr e ↦ e
    ]

pub subscribe-IsValid :
    (consumer_id : Text) (q : Queue) → IsValid q → IsValid (act (subscribes consumer_id) q)
unfolding act subscribe
subscribe-IsValid consumer_id q v = go (is_empty consumer_id) q.closed
  where
    made : SubscriberInfo
    made = record no_subscriber { consumer_id = consumer_id }

    enlisted : Queue
    enlisted = record q {
      info = update q.info q.next_ref made;
      next_ref = suc q.next_ref;
      subscribers = q.subscribers ++ q.next_ref ∷ [];
    }

    go :
        (nameless closed : Bool)
        → let result : Result SubscribeError (Queue × ℕ) =
            if nameless
            then err missing_consumer_id
            else if closed
            then err queue_closed
            else ok (enlisted, q.next_ref) in
          IsValid (elim result [ ok r ↦ r.0 | err e ↦ q ])
    go true closed = v
    go false true = v
    go false false =
        enlist-IsValid q made v (record { channel_bounded = omega arith; flag = λ h. cc }) refl refl

pub clean_up-IsValid : (ref : ℕ) (q : Queue) → IsValid q → IsValid (clean_up ref q)
unfolding clean_up
clean_up-IsValid ref q v = record {
  messages_bounded = v.messages_bounded;
  backlog_bounded = v.backlog_bounded;
  pending_bounded = v.pending_bounded;
  keyed = v.keyed;
  sound = λ r. elim (Bool-cases (r == ref)) [
    | inl e ↦ rw e (record { channel_bounded = (v.sound ref).channel_bounded; flag = λ h. refl })
    | inr e ↦ rw e (v.sound r)
  ];
  distinct = remove_ref-IsDistinct ref q.subscribers v.distinct;
  listed = λ r h.
      let left = contains_ref-remove_ref r ref q.subscribers v.distinct in
      let other : (r == ref) ≡ false = ground (arith, left) in
      let old = v.listed r (ground (arith, left)) in
      record {
        made = old.made;
        unflagged = rw other old.unflagged;
        channel_open = rw other old.channel_open;
      };
  closing = v.closing;
}

-- What closing the channels of a list of subscribers leaves alone.
close_all_frame :
    (size : ℕ) (rs : List ℕ) (info : ℕ → SubscriberInfo)
    → ((r : ℕ) → IsSound size (info r))
    → (r : ℕ) → IsSound size (close_all rs info r)
unfolding close_all
close_all_frame size [] info sound = sound
close_all_frame size (x ∷ rs) info sound =
    close_all_frame size rs (update info x (close_channel (info x))) λ r.
      elim (Bool-cases (r == x)) [
        | inl e ↦ rw e (record { channel_bounded = (sound x).channel_bounded; flag = λ h. refl })
        | inr e ↦ rw e (sound r)
      ]

pub drop_subscribers-IsValid : (q : Queue) → IsValid q → IsValid (drop_subscribers q)
unfolding drop_subscribers
drop_subscribers-IsValid q v = record {
  messages_bounded = v.messages_bounded;
  backlog_bounded = v.backlog_bounded;
  pending_bounded = v.pending_bounded;
  keyed = v.keyed;
  sound = close_all_frame q.buffer_size q.subscribers q.info v.sound;
  distinct = tt;
  listed = λ r h. cc;
  closing = v.closing;
}
