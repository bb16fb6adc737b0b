-- ===== src/Queue/Flushing.antt =====
-- pkg/mq/inmemory.go: `distribute` with a single subscriber that has room.
pub mod OnClose
mod Tests
use mathlib.Core.List.{append_assoc, append-nil}
use elastic_gpu_telemetry_pi.Common.{
  ℕ, zero, suc, ◌+◌, ◌%◌, ◌<◌, ◌≤◌, ◌≡◌, ◌≢◌, Bool, refl, sym, ap, subst, ◌∙◌, inl, inr, false,
  true, some, List, [], ◌∷◌, ◌++◌, arith, length, length-append, get_elem?, leb, ltb, ◌==◌,
  Bool-cases, if◌then◌else◌,
}
use elastic_gpu_telemetry_pi.Domain.{Time, Message}
use elastic_gpu_telemetry_pi.Queue.{Queue}
use elastic_gpu_telemetry_pi.Queue.Ledger.Frame.{close_all-channel}
use elastic_gpu_telemetry_pi.Queue.Steps.{
  Action, acts, push, safe_send, register, take_backlog, drop_subscribers, begin_close,
  finish_close,
}
use elastic_gpu_telemetry_pi.Queue.Goroutines.{
  Environment, calm, Delivery, delivered, deliver_loop, deliver_message, deliver_all,
  distribute_message, drain, close, max_retries,
}
use elastic_gpu_telemetry_pi.Queue.Selecting.{chosen_index, select-Chooses}
use elastic_gpu_telemetry_pi.Queue.Sending.{attempted, at_index}
use elastic_gpu_telemetry_pi.Queue.Finding.{Accepts, safe_send-Accepts}

-- The only subscriber, which is open, is not cancelled, and has room for `n` messages.
pub record IsReady (n : ℕ) (ref : ℕ) (q : Queue) : Type 0 where
  pub listed : q.subscribers ≡ ref ∷ []
  pub unflagged : (q.info ref).closed ≡ false
  pub channel_open : (q.info ref).chan_closed ≡ false
  pub not_cancelled : (q.info ref).ctx_done ≡ false
  pub room : length (q.info ref).channel + n ≤ q.buffer_size

-- The messages went to the subscriber, in order, and to no other place.
pub record Flushes (n : ℕ) (ref : ℕ) (ms : List Message) (q t : Queue) : Type 0 where
  pub ready : IsReady n ref t
  pub channel : (t.info ref).channel ≡ (q.info ref).channel ++ ms
  pub same_backlog : t.undelivered ≡ q.undelivered
  pub same_messages : t.messages ≡ q.messages

only_ref : (c ref x : ℕ) → get_elem? (ref ∷ []) c ≡ some x → x ≡ ref
only_ref zero ref x e = cc
only_ref (suc c) ref x e = cc

pushed_info :
    (ref : ℕ) (m : Message) (q : Queue)
    → (push q ref m).info ref ≡ record (q.info ref) { channel = (q.info ref).channel ++ m ∷ [] }
pushed_info ref m q = ground arith

push-Flushes :
    (n ref i : ℕ) (m : Message) (q : Queue)
    → IsReady (suc n) ref q
    → Flushes n ref (m ∷ []) q (push (at_index q i) ref m)
push-Flushes n ref i m q r =
    let e = pushed_info ref m (at_index q i) in
    let size = length-append (q.info ref).channel (m ∷ []) in
    record {
      ready = record {
        listed = r.listed;
        unflagged = ap (λ s. s.closed) e ∙ r.unflagged;
        channel_open = ap (λ s. s.chan_closed) e ∙ r.channel_open;
        not_cancelled = ap (λ s. s.ctx_done) e ∙ r.not_cancelled;
        room = omega (arith, r.room, ap (λ s. length s.channel) e, size);
      };
      channel = ap (λ s. s.channel) e;
      same_backlog = refl;
      same_messages = refl;
    }

register-Flushes :
    (n ref : ℕ) (now : Time) (m : Message) (ms : List Message) (q t : Queue)
    → Flushes n ref ms q t
    → Flushes n ref ms q (register ref now m t)
unfolding register
register-Flushes n ref now m ms q t f = elim (Bool-cases (ltb (length t.pending) t.max_pending)) [
  | inl e ↦ rw e (record {
    ready = record {
      listed = f.ready.listed;
      unflagged = f.ready.unflagged;
      channel_open = f.ready.channel_open;
      not_cancelled = f.ready.not_cancelled;
      room = f.ready.room;
    };
    channel = f.channel;
    same_backlog = f.same_backlog;
    same_messages = f.same_messages;
  })
  | inr e ↦ rw e f
]

Flushes-append :
    (n ref : ℕ) (ms ms' : List Message) (q t u : Queue)
    → Flushes (n + length ms') ref ms q t
    → Flushes n ref ms' t u
    → Flushes n ref (ms ++ ms') q u
Flushes-append n ref ms ms' q t u f g = record {
  ready = g.ready;
  channel = g.channel ∙ ap (λ l. l ++ ms') f.channel ∙ append_assoc (q.info ref).channel ms ms';
  same_backlog = g.same_backlog ∙ f.same_backlog;
  same_messages = g.same_messages ∙ f.same_messages;
}

module _ (pick : ℕ → Bool) (now : Time) where
  deliver_message-Flushes :
      (n ref : ℕ) (m : Message) (q : Queue)
      → IsReady (suc n) ref q
      → Flushes n ref (m ∷ []) q (deliver_message (calm pick now) m q).0
  unfolding deliver_message deliver_loop acts
  deliver_message-Flushes n ref m q r =
      let (x, c) = select-Chooses q (omega (arith, ap length r.listed)) in
      let same : x ≡ ref =
        only_ref (chosen_index q) ref x
          (subst (λ l. get_elem? l (chosen_index q) ≡ some x) r.listed c.at_index) in
      let i = (chosen_index q + 1) % length q.subscribers in
      let sent : safe_send (pick 0) ref m (at_index q i) ≡ (push (at_index q i) ref m, true) =
        safe_send-Accepts (pick 0) ref m (at_index q i) (record {
          unflagged = r.unflagged;
          channel_open = r.channel_open;
          not_cancelled = r.not_cancelled;
          room = omega (arith, r.room);
        }) in
      rw (c.result, deliver_loop)
        (subst
          (λ y.
            Flushes n ref (m ∷ []) q
              (attempted (calm pick now) 99 0 m y (safe_send (pick 0) y m (at_index q i))).0)
          (sym same)
          (subst (λ y. Flushes n ref (m ∷ []) q (attempted (calm pick now) 99 0 m ref y).0)
            (sym sent) (register-Flushes n ref now m (m ∷ []) q _ (push-Flushes n ref i m q r))))

pub IsReady-weaken : (n k ref : ℕ) (q : Queue) → n ≤ k → IsReady k ref q → IsReady n ref q
IsReady-weaken n k ref q le r = record {
  listed = r.listed;
  unflagged = r.unflagged;
  channel_open = r.channel_open;
  not_cancelled = r.not_cancelled;
  room = omega (arith, r.room);
}

module _ (picks : ℕ → ℕ → Bool) (nows : ℕ → Time) where
  abbrev pub envs : ℕ → Environment
  envs i = calm (picks i) (nows i)

  deliver_all-Flushes :
      (n ref i : ℕ) (ms : List Message) (q : Queue)
      → IsReady (n + length ms) ref q
      → Flushes n ref ms q (deliver_all envs i ms q)
  unfolding deliver_all
  deliver_all-Flushes n ref i [] q r = record {
    ready = IsReady-weaken n (n + 0) ref q (omega arith) r;
    channel = sym (append-nil (q.info ref).channel);
    same_backlog = refl;
    same_messages = refl;
  }
  deliver_all-Flushes n ref i (m ∷ ms) q r =
      let t = (deliver_message (envs i) m q).0 in
      let first =
        deliver_message-Flushes (picks i) (nows i) (n + length ms) ref m q
          (IsReady-weaken (suc (n + length ms)) (n + length (m ∷ ms)) ref q (omega arith) r) in
      Flushes-append n ref (m ∷ []) ms q t (deliver_all envs (suc i) ms t) first
        (deliver_all-Flushes n ref (suc i) ms t first.ready)

  -- A round of `distribute`: the backlog goes to the subscriber, and then the message.
  pub distribute_message-Flushes :
      (n ref : ℕ) (pick : ℕ → Bool) (now : Time) (m : Message) (q : Queue)
      → IsReady (n + length q.undelivered + 1) ref q
      → Flushes n ref
          (q.undelivered ++ m ∷ [])
          (take_backlog q)
          (distribute_message envs (calm pick now) m q)
  unfolding distribute_message take_backlog
  distribute_message-Flushes n ref pick now m q r =
      let some_listed : (length q.subscribers == 0) ≡ false = ground (arith, ap length r.listed) in
      elim (Bool-cases (ltb 0 (length q.undelivered))) [
        | inl e ↦
            let t = deliver_all envs 0 q.undelivered (record q { undelivered = [] }) in
            let flushed =
              deliver_all-Flushes (n + 1) ref 0 q.undelivered (record q { undelivered = [] })
                (record {
                  listed = r.listed;
                  unflagged = r.unflagged;
                  channel_open = r.channel_open;
                  not_cancelled = r.not_cancelled;
                  room = omega (arith, r.room);
                }) in
            rw (some_listed, e)
              (Flushes-append n ref q.undelivered (m ∷ []) (record q { undelivered = [] }) t _
                flushed
                (deliver_message-Flushes pick now n ref m t
                  (IsReady-weaken (suc n) (n + 1) ref t (omega arith) flushed.ready)))
        | inr e ↦
            let none_left : q.undelivered ≡ [] = empty_of q.undelivered e in
            let c : (q.info ref).channel ++ m ∷ []
                ≡ (q.info ref).channel ++ (q.undelivered ++ m ∷ []) =
              ap (λ l. (q.info ref).channel ++ (l ++ m ∷ [])) (sym none_left) in
            let f =
              deliver_message-Flushes pick now n ref m q
                (IsReady-weaken (suc n) (n + length q.undelivered + 1) ref q (omega arith) r) in
            rw (some_listed, e)
              (record {
                ready = f.ready;
                channel = f.channel ∙ c;
                same_backlog = f.same_backlog ∙ none_left;
                same_messages = f.same_messages;
              })
      ]
    where
      empty_of : (l : List Message) → ltb 0 (length l) ≡ false → l ≡ []
      empty_of [] e = refl
      empty_of (x ∷ l) e = absurd (ground (arith, e))
