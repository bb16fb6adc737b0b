-- ===== src/Queue/Ledger/Frame.antt =====
-- pkg/mq/inmemory.go: what the sections that move no message leave alone.
use elastic_gpu_telemetry_pi.Common.{
  ℕ, suc, ◌≤◌, ◌≡◌, ◌⊎◌, refl, sym, ap, ◌∙◌, inl, inr, ◌++◌, is_empty, text_eq, Result, ok, err,
  Bool, true, false, some, List, [], ◌∷◌, arith, Text, lookup, lookup-remove, ◌==◌, Bool-cases,
  Option-cases, if◌then◌else◌,
}
use elastic_gpu_telemetry_pi.Queue.{
  Queue, PendingMessage, SubscriberInfo, update, close_channel, no_subscriber, SubscribeError,
  missing_consumer_id, queue_closed, subscribe, cancel, clean_up, ack,
}
use elastic_gpu_telemetry_pi.Queue.Steps.{
  Action, act, sends_message, subscribes, cancels, cleans_up, receives, acks, buffers, selects,
  sends, registers, expires, takes_message, takes_backlog, drops_subscribers, begins_close,
  finishes_close, select, after_select, drop_subscribers, begin_close, finish_close, close_all,
}
use elastic_gpu_telemetry_pi.Queue.Selecting.{select_cases}
use elastic_gpu_telemetry_pi.Queue.Ledger.{moves_nothing}

-- The messages are where they were, and what is pending was. A subscriber may have been made, whose
-- channel is empty.
pub record Frames (q t : Queue) : Type 0 where
  pub messages : t.messages ≡ q.messages
  pub backlog : t.undelivered ≡ q.undelivered
  pub made : q.next_ref ≤ t.next_ref
  pub channels :
      (r : ℕ)
      → ((t.info r).channel ≡ (q.info r).channel) ⊎ ((q.next_ref ≤ r) × ((t.info r).channel ≡ []))
  pub pending :
      (id : Text) (p : PendingMessage) → lookup id t.pending ≡ some p → lookup id q.pending ≡ some p

Frames-refl : (q : Queue) → Frames q q
Frames-refl q = record {
  messages = refl;
  backlog = refl;
  made = omega arith;
  channels = λ r. inl refl;
  pending = λ id p h. h;
}

-- Only the subscribers' flags, the list of subscribers and the index have changed.
same_channels :
    (q t : Queue)
    → t.messages ≡ q.messages
    → t.undelivered ≡ q.undelivered
    → t.next_ref ≡ q.next_ref
    → t.pending ≡ q.pending
    → ((r : ℕ) → (t.info r).channel ≡ (q.info r).channel)
    → Frames q t
same_channels q t m b n p h = record {
  messages = m;
  backlog = b;
  made = omega arith;
  channels = λ r. inl (h r);
  pending = λ id x e. ap (lookup id) (sym p) ∙ e;
}

pub close_all-channel :
    (rs : List ℕ) (info : ℕ → SubscriberInfo) (r : ℕ)
    → (close_all rs info r).channel ≡ (info r).channel
unfolding close_all
close_all-channel [] info r = refl
close_all-channel (x ∷ rs) info r =
    close_all-channel rs (update info x (close_channel (info x))) r ∙ ground arith

subscribe-Frames : (consumer_id : Text) (q : Queue) → Frames q (act (subscribes consumer_id) q)
unfolding act subscribe
subscribe-Frames consumer_id q = go (is_empty consumer_id) q.closed
  where
    made : Queue
    made = record q {
      info = update q.info q.next_ref (record no_subscriber { consumer_id = consumer_id });
      next_ref = suc q.next_ref;
      subscribers = q.subscribers ++ q.next_ref ∷ [];
    }

    go :
        (nameless closed : Bool)
        → let result : Result SubscribeError (Queue × ℕ) =
            if nameless
            then err missing_consumer_id
            else if closed
            then err queue_closed
            else ok (made, q.next_ref) in
          Frames q (elim result [ ok r ↦ r.0 | err e ↦ q ])
    go true closed = Frames-refl q
    go false true = Frames-refl q
    go false false = record {
      messages = refl;
      backlog = refl;
      made = omega arith;
      channels = λ r. elim (Bool-cases (r == q.next_ref)) [
        | inl e ↦ inr (ground arith, rw e refl)
        | inr e ↦ inl (rw e refl)
      ];
      pending = λ id p h. h;
    }

ack-Frames : (id consumer_id : Text) (q : Queue) → Frames q (act (acks id consumer_id) q)
unfolding act ack
ack-Frames id consumer_id q = elim (Option-cases (lookup id q.pending)) [
  | inl e ↦ rw (e, ack, act) (Frames-refl q)
  | inr (p, e) ↦
      rw (e, ack, act)
        (elim (Bool-cases (text_eq p.consumer_id consumer_id)) [
          | inl same ↦ rw same (record {
            messages = refl;
            backlog = refl;
            made = omega arith;
            channels = λ r. inl refl;
            pending = λ j x h. ground (arith, lookup-remove id j q.pending);
          })
          | inr other ↦ rw other (Frames-refl q)
        ])
]

select-Frames : (q : Queue) → Frames q (after_select q (select q))
select-Frames q = elim (select_cases q) [
  | inl (_, e) ↦ rw e (Frames-refl q)
  | inr (ref, c) ↦ rw c.result (same_channels q _ refl refl refl refl (λ r. refl))
]

-- A section that moves no message.
pub act-Frames : (a : Action) (q : Queue) → moves_nothing a ≡ true → Frames q (act a q)
unfolding act moves_nothing cancel clean_up drop_subscribers begin_close finish_close lookup
act-Frames (subscribes consumer_id) q h = subscribe-Frames consumer_id q
act-Frames (cancels ref) q h = same_channels q _ refl refl refl refl (λ r. ground arith)
act-Frames (cleans_up ref) q h = same_channels q _ refl refl refl refl (λ r. ground arith)
act-Frames (acks id consumer_id) q h = ack-Frames id consumer_id q
act-Frames selects q h = select-Frames q
act-Frames drops_subscribers q h =
    same_channels q _ refl refl refl refl (close_all-channel q.subscribers q.info)
act-Frames begins_close q h = elim (Bool-cases q.closed) [
  | inl e ↦ simp e (Frames-refl q)
  | inr e ↦ simp e (same_channels q _ refl refl refl refl (λ r. refl))
]
act-Frames finishes_close q h = record {
  messages = refl;
  backlog = refl;
  made = omega arith;
  channels = λ r. inl (close_all-channel q.subscribers q.info r);
  pending = λ id p e. absurd (nothing_pending id p e);
}
  where
    nothing_pending : (id : Text) (p : PendingMessage) → lookup id [] ≡ some p → ⊥
    nothing_pending id p e = cc
act-Frames (sends_message done pick m) q h = cc
act-Frames (receives ref) q h = cc
act-Frames (buffers m) q h = cc
act-Frames (sends pick ref m) q h = cc
act-Frames (registers ref now m) q h = cc
act-Frames (expires now visits) q h = cc
act-Frames takes_message q h = cc
act-Frames takes_backlog q h = cc
