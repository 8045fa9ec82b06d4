-- ===== src/Election/Watching.antt =====
-- The loops of Watch in every environment: how they end.
pub mod Outcome
use etcdv3client.Prelude.{
  ℕ, zero, suc, ℤ, ◌≡◌, refl, Bool, true, false, ◌||◌, Option, none, some, arith, subst, ◌⊎◌, inl,
  inr, if◌then◌else◌,
}
use etcdv3client.Bytes.{Bytes}
use etcdv3client.Status.{StatusLibrary, make_default, make, code-make_default, code-make}
use etcdv3client.Prefix.{CharKind}
use etcdv3client.Client.{Client}
use etcdv3client.Session.Options.{ContextFunction}
use etcdv3client.Proto.Watch.{EventType}
use etcdv3client.Watch.{WatchOptions}
use etcdv3client.Election.{
  watch_next, get_leader, Fetched, cancelled, fetched, ReadEnd, found, again, stopped, fetch_loop,
  read_failed, read_loop, watch_loop, leader_loop, watch, is_new_leader, watch_event, find_event,
}
use etcdv3client.Election.Node.{ElectionNode, ElectionWatchOptions, is_valid}
use etcdv3client.Effect.{Call, Reply, wait, Prog, ret, ◌>>=◌, get_grpc_client_context}
use etcdv3client.Effect.Logic
use etcdv3client.Effect.Logic.{Model, Holds, Reach, Holds-Reach}

-- Whether a wait for the caller's context has found it done.
abbrev pub notice : (c : Call) → Reply c → Bool → Bool
notice (wait w d) r b = r || b
notice _ r b = b

abbrev pub following : Model
following = record {
  State = Bool;
  observe = notice;
  Allowed = λ c r s. Unit {0};
  Invariant = λ s. Unit {0};
  Starved = λ s. Unit {0};
}

context-following :
    {A : Type 0} (Q : A → Bool → Type 0) (f : Option ContextFunction) (k : ℕ → Prog A) (s : Bool)
    → ((context : ℕ) → Holds following Q (k context) s)
    → Holds following Q (get_grpc_client_context f >>= k) s
unfolding get_grpc_client_context
context-following Q none k s h = (tt, λ r _. h r)
context-following Q (some f) k s h = (tt, λ r _. h r)

abbrev pub FetchEnds : Fetched → Bool → Type 0
FetchEnds (cancelled node) s = s ≡ true
FetchEnds (fetched node) s = Unit {0}

abbrev ReadEnds : ReadEnd → Bool → Type 0
ReadEnds (found revision) s = Unit {0}
ReadEnds again s = Unit {0}
ReadEnds stopped s = s ≡ true

abbrev pub WatchEnds : Option ℤ → Bool → Type 0
WatchEnds none s = s ≡ true
WatchEnds (some revision) s = Unit {0}

module _ (lib : StatusLibrary) (c : CharKind) (client : Client) (ctx : ℕ) (key_prefix : Bytes)
    (options : ElectionWatchOptions) where
  pub fetch_loop-FetchEnds :
      (n backoff : ℕ) (node : ElectionNode) (s : Bool)
      → Holds following FetchEnds (fetch_loop lib c client ctx key_prefix options n backoff node) s
  unfolding fetch_loop
  fetch_loop-FetchEnds zero backoff node s = (tt, tt)
  fetch_loop-FetchEnds (suc n) backoff node s =
      context-following FetchEnds options.get_grpc_client_context_func _ s λ context.
        Logic.bind following (λ _ _. Unit {0}) FetchEnds
          (get_leader lib c client context key_prefix node) _ s (any_leader context)
          (λ r t _ _.
            Logic.branch following FetchEnds t (lib.is_ok r.0) _ _ (λ e. (tt, tt))
              (λ e. (
                tt,
                λ _ _. (
                  tt,
                  λ d _. (
                    tt,
                    λ stop _.
                        Logic.branch following FetchEnds _ stop _ _ (λ e'. (tt, rw e' refl))
                          (λ e'. fetch_loop-FetchEnds n backoff r.1 _),
                  ),
                ),
              )))
    where
      any_leader :
          (context : ℕ)
          → Holds following (λ _ _. Unit {0}) (get_leader lib c client context key_prefix node) s
      any_leader context = (
        tt,
        λ r _.
            Logic.branch following (λ _ _. Unit {0}) s r.0.is_ok _ _ (λ _. (tt, tt))
              (λ _. (tt, tt)),
      )

  read_failed-ReadEnds :
      (backoff stream : ℕ) (s : Bool)
      → Holds following ReadEnds (read_failed lib c client ctx key_prefix options backoff stream) s
  unfolding read_failed
  read_failed-ReadEnds backoff stream s = (
    tt,
    λ _ _. (
      tt,
      λ _ _. (
        tt,
        λ d _. (
          tt,
          λ stop _.
              Logic.branch following ReadEnds _ stop _ _ (λ e. (tt, rw e refl)) (λ e. (tt, tt)),
        ),
      ),
    ),
  )

  read_loop-ReadEnds :
      (n backoff stream : ℕ) (t : EventType) (s : Bool)
      → Holds following ReadEnds
          (read_loop lib c client ctx key_prefix options n backoff stream t)
          s
  unfolding read_loop
  read_loop-ReadEnds zero backoff stream t s = (tt, tt)
  read_loop-ReadEnds (suc n) backoff stream t s = (
    tt,
    λ answer _.
        Logic.branch_option following ReadEnds s answer _ _
          (λ _. read_failed-ReadEnds backoff stream s)
          (λ rsp _.
            Logic.branch_option following ReadEnds s (find_event t rsp.events) _ _
              (λ _. read_loop-ReadEnds n backoff stream t s) (λ revision _. (tt, λ _ _. (tt, tt)))),
  )

  watch_loop-WatchEnds :
      (inner n backoff : ℕ) (o : WatchOptions) (t : EventType) (s : Bool)
      → Holds following WatchEnds
          (watch_loop lib c client ctx key_prefix options inner n backoff o t)
          s
  unfolding watch_loop
  watch_loop-WatchEnds inner zero backoff o t s = (tt, tt)
  watch_loop-WatchEnds inner (suc n) backoff o t s =
      context-following WatchEnds options.get_grpc_client_context_func _ s λ context. (
        tt,
        λ stream _. (
          tt,
          λ _ _.
              Logic.bind following ReadEnds WatchEnds
                (read_loop lib c client ctx key_prefix options inner backoff stream t) _ s
                (read_loop-ReadEnds inner backoff stream t s)
                (after (λ u. watch_loop-WatchEnds inner n backoff o t u)),
        ),
      )
    where
      after :
          ((u : Bool)
            → Holds following WatchEnds
                (watch_loop lib c client ctx key_prefix options inner n backoff o t)
                u)
          → (end : ReadEnd) (u : Bool) → Unit {0}
          → ReadEnds end u
          → Holds following WatchEnds
              (elim end [
                | found revision ↦ ret (some revision)
                | again ↦ watch_loop lib c client ctx key_prefix options inner n backoff o t
                | stopped ↦ ret none
              ])
              u
      after loop (found revision) u _ h = (tt, tt)
      after loop again u _ h = loop u
      after loop stopped u _ h = (tt, h)

  pub watch_next-WatchEnds :
      (inner backoff : ℕ) (node : ElectionNode) (revision : ℤ) (s : Bool)
      → Holds following WatchEnds
          (watch_next lib c client ctx key_prefix options inner backoff node revision)
          s
  unfolding watch_next
  watch_next-WatchEnds inner backoff node revision s =
      (tt, λ _ _. watch_loop-WatchEnds inner inner backoff _ (watch_event node) s)
