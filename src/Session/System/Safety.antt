-- ===== src/Session/System/Safety.antt =====
-- What a user of a session may rely on, however the threads are interleaved.
use etcdv3client.Prelude.{
  ℕ, suc, ◌≤◌, ◌<◌, ◌≡◌, ◌≢◌, refl, Bool, true, false, none, [], arith, subst, sym, ◌∙◌,
}
use etcdv3client.Client.{Client}
use etcdv3client.Session.Options.{SessionOptions}
use etcdv3client.Session.{Session, revoke_rounds}
use etcdv3client.Session.View.{watching}
use etcdv3client.Session.Patience.{patient}
use etcdv3client.Session.Worker.{IsFinished}
use etcdv3client.Session.Calling.{is_joinable, Thread, Shared, calling, follow}
use etcdv3client.Session.System.{
  Setting, Memory, Worker, absent, running, ended, Caller, outside, granting, closing, System,
  Steps, start,
}
use etcdv3client.Session.System.Contracts.{quiet}
use etcdv3client.Session.System.Core.{Handle, none_running, Working}
use etcdv3client.Session.System.Invariant.{Pending, Inv, start-Inv, Steps-Inv}
use etcdv3client.Effect.{Reply, Prog, ret, call, start_thread}
use etcdv3client.Effect.Logic.{Holds-Invariant}
use etcdv3client.Effect.Run.{both}

module _ (x : Setting) where
  -- No worker has been started, or it has ended and left the session as `IsFinished` says.
  abbrev pub IsOver : Worker → Type 0
  IsOver absent = Unit {0}
  IsOver (running o q v) = ⊥
  IsOver (ended o l v) = IsFinished x.first (revoke_rounds o) l v.0

  -- The worker is running, the server has confirmed a lease to it, and it has not asked to revoke one.
  abbrev pub HasLease : Worker → Type 0
  HasLease absent = ⊥
  HasLease (running o q v) = (v.0.lease ≢ none) × (v.0.revoked ≡ [])
  HasLease (ended o l v) = ⊥

  not_joinable : (t : Thread) → t ≢ Thread.running → is_joinable t ≡ false
  not_joinable Thread.absent h = refl
  not_joinable Thread.running h = absurd (h refl)
  not_joinable Thread.joined h = refl

  Pending-quiet :
      (sh : Shared) (s : Session) (c : Caller x) → Pending x sh s true c → quiet.Invariant sh
  Pending-quiet sh s outside h = h.1 refl
  Pending-quiet sh s (granting q) h = Holds-Invariant quiet _ q sh (h.2 refl)
  Pending-quiet sh s (closing q) h = Holds-Invariant quiet _ q sh (h.2 refl)

  worker-IsOver :
      (t : Thread) (w : Worker) (m : Memory)
      → t ≢ Thread.running
      → Handle t w
      → Working x w m
      → IsOver w × (m.alive_set ≡ false) × (m.expired_set ≡ true)
  worker-IsOver Thread.absent absent m h k working = (tt, working.0, working.1)
  worker-IsOver Thread.absent (running o q v) m h k working = absurd k
  worker-IsOver Thread.absent (ended o l v) m h k working = absurd k
  worker-IsOver Thread.running w m h k working = absurd (h refl)
  worker-IsOver Thread.joined absent m h k working = absurd k
  worker-IsOver Thread.joined (running o q v) m h k working = absurd k
  worker-IsOver Thread.joined (ended o l v) m h k working = (
    working.0,
    sym working.1.alive_seen ∙ working.0.not_alive,
    sym working.1.expired_seen ∙ working.0.is_expired,
  )

  alive_lease :
      (w : Worker) (m : Memory)
      → Working x w m
      → m.alive_set ≡ true
      → (m.expired_set ≡ false) × HasLease w
  alive_lease absent m h e = absurd (ground arith)
  alive_lease (running o q v) m h e =
      let sound =
        (Holds-Invariant (both watching patient) (λ l u. IsFinished x.first (revoke_rounds o) l u.0)
          q v h.0).0 in
      let set = h.1.alive_seen ∙ e in
      (sym h.1.expired_seen ∙ sound.exclusive set, (sound.leased set, sound.unrevoked set))
  alive_lease (ended o l v) m h e = absurd (ground (arith, h.0.not_alive, h.1.alive_seen))

  module _ (enough : x.patience < x.rounds) {client : Client} {s : System x}
      (reached : Steps x (start x client) s) where
    inv : Inv x s
    inv = Steps-Inv x enough reached (start-Inv x client)

    -- If the worker's loops have more rounds than the close event is reported unfinished to it
    -- (`patience`): in every state that the threads of a session can reach, in any order of their steps,
    -- once a call of Close has returned: the closed event is set, the alive event is reset and the expired
    -- event is set; no worker was ever started, or it has ended and its lease has been asked to be revoked
    -- as often as `IsFinished` says; no thread is left that can be joined, which the destructor of a thread
    -- object would not allow; and a call of Grant that is about to return, returns SessionAlreadyClosed.
    pub after_close :
        s.returned ≡ true
        → (s.memory.closed_set ≡ true)
          × (s.memory.alive_set ≡ false)
          × (s.memory.expired_set ≡ true)
          × IsOver s.worker
          × (is_joinable s.shared.thread ≡ false)
          × ((r : x.lib.Status × Session) → s.caller ≡ granting (ret r) → x.lib.code r.0 ≡ 1001)
    after_close e =
        let pending = subst (λ b. Pending x s.shared s.session b s.caller) e inv.pending in
        let still = Pending-quiet s.shared s.session s.caller pending in
        let over =
          worker-IsOver s.shared.thread s.worker s.memory still.1 inv.core.handle
            inv.core.working in
        (
          inv.core.known still.0,
          over.1,
          over.2,
          over.0,
          not_joinable s.shared.thread still.1,
          λ r e'. ((subst (Pending x s.shared s.session true) e' pending).2 refl).1,
        )

    -- If the worker's loops have more rounds than the close event is reported unfinished to it
    -- (`patience`): in every state that the threads of a session can reach, if the alive event is set,
    -- then the expired event is not, the worker is running, the server has confirmed a lease to it and it
    -- has made no request to revoke one, and no call of Close has returned.
    pub alive_session :
        s.memory.alive_set ≡ true
        → (s.memory.expired_set ≡ false) × HasLease s.worker × (s.returned ≡ false)
    alive_session e =
        let lease = alive_lease s.worker s.memory inv.core.working e in
        (lease.0, lease.1, not_returned s.returned refl)
      where
        not_returned : (b : Bool) → s.returned ≡ b → s.returned ≡ false
        not_returned true e' = absurd (ground (arith, e, (after_close e').1))
        not_returned false e' = e'

    -- If the worker's loops have more rounds than the close event is reported unfinished to it
    -- (`patience`): in every state that the threads of a session can reach, if a call of Grant is about to
    -- start a thread, then no thread has been started before: no thread object that can be joined is
    -- overwritten.
    pub one_worker :
        (context : ℕ) (options : SessionOptions)
        (k : Reply (start_thread context options) → Prog (x.lib.Status × Session))
        → s.caller ≡ granting (call (start_thread context options) k)
        → (s.worker ≡ absent) × (s.shared.started ≡ 0)
    one_worker context options k e =
        let pending = subst (Pending x s.shared s.session s.returned) e inv.pending in
        let most : suc s.shared.started ≤ 1 =
          Holds-Invariant calling _ (k tt) (follow (start_thread context options) tt s.shared)
            (pending.1.1 tt tt) in
        (
          none_running x s.shared.thread s.worker s.shared.started inv.core.counted most
              inv.core.handle,
          omega arith,
        )
