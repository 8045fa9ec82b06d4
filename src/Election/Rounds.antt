-- ===== src/Election/Rounds.antt =====
-- The loops of Watch that ask for the leader and that read events end: a model counts how often a wait for the
-- context may still be reported unfinished or a read of a watch may still be answered.
use etcdv3client.Prelude.{
  ℕ, zero, suc, ℤ, ◌-◌, ◌≤◌, ◌<◌, ◌≡◌, ◌≢◌, false, Option, none, some, arith, if◌then◌else◌,
}
use etcdv3client.Bytes.{Bytes}
use etcdv3client.Status.{StatusLibrary}
use etcdv3client.Prefix.{CharKind}
use etcdv3client.Client.{Client}
use etcdv3client.Session.Options.{ContextFunction}
use etcdv3client.Proto.Watch.{EventType}
use etcdv3client.Watch.{WatchOptions}
use etcdv3client.Election.{
  watch_next, get_leader, ReadEnd, found, again, stopped, fetch_loop, read_failed, read_loop,
  watch_loop, find_event, watch_event,
}
use etcdv3client.Election.Node.{ElectionNode, ElectionWatchOptions}
use etcdv3client.Effect.{Call, Reply, wait, watch_read, Prog, ret, ◌>>=◌, get_grpc_client_context}
use etcdv3client.Effect.Logic
use etcdv3client.Effect.Logic.{Model, Holds}

abbrev pub pay : (c : Call) → Reply c → ℕ → ℕ
pay (wait w d) r p = if r then p else p - 1
pay (watch_read stream) r p = elim r [ none ↦ p | some rsp ↦ p - 1 ]
pay _ r p = p

-- "Unfinished", and an answer to a read, are given only while the count is above 0.
abbrev pub Affordable : (c : Call) → Reply c → ℕ → Type 0
Affordable (wait w d) r p = r ≡ false → 0 < p
Affordable (watch_read stream) r p = r ≢ none → 0 < p
Affordable _ r p = Unit {0}

abbrev pub limited : Model
limited = record {
  State = ℕ;
  observe = pay;
  Allowed = Affordable;
  Invariant = λ p. Unit {0};
  Starved = λ p. ⊥;
}

context-limited :
    {A : Type 0} (Q : A → ℕ → Type 0) (f : Option ContextFunction) (k : ℕ → Prog A) (p : ℕ)
    → ((context : ℕ) → Holds limited Q (k context) p)
    → Holds limited Q (get_grpc_client_context f >>= k) p
unfolding get_grpc_client_context
context-limited Q none k p h = (tt, λ r _. h r)
context-limited Q (some f) k p h = (tt, λ r _. h r)

abbrev pub AtMost : {A : Type 0} → ℕ → A → ℕ → Type 0
AtMost b a q = q ≤ b

-- A round that goes on has paid.
abbrev ReadPaid : ℕ → ReadEnd → ℕ → Type 0
ReadPaid b (found revision) q = q < b
ReadPaid b again q = q < b
ReadPaid b stopped q = q ≤ b

abbrev pub WatchPaid : ℕ → Option ℤ → ℕ → Type 0
WatchPaid b (some revision) q = q < b
WatchPaid b none q = q ≤ b

module _ (lib : StatusLibrary) (c : CharKind) (client : Client) (ctx : ℕ) (key_prefix : Bytes)
    (options : ElectionWatchOptions) where
  pub fetch_loop-ends :
      (n backoff : ℕ) (node : ElectionNode) (p b : ℕ)
      → p < n
      → p ≤ b
      → Holds limited (AtMost b) (fetch_loop lib c client ctx key_prefix options n backoff node) p
  unfolding fetch_loop
  fetch_loop-ends zero backoff node p b lt le = absurd (omega arith)
  fetch_loop-ends (suc n) backoff node p b lt le =
      context-limited (AtMost b) options.get_grpc_client_context_func _ p λ context.
        Logic.bind limited (AtMost p) (AtMost b) (get_leader lib c client context key_prefix node) _
          p (any_leader context)
          (λ r q _ le'.
            Logic.branch limited (AtMost b) q (lib.is_ok r.0) _ _ (λ e. (tt, omega arith))
              (λ e. (
                tt,
                λ _ _. (
                  tt,
                  λ d _. (
                    tt,
                    λ stop ok.
                        Logic.branch limited (AtMost b) _ stop _ _ (λ e'. (tt, ground arith))
                          (λ e'. fetch_loop-ends n backoff r.1 _ b (ground arith) (ground arith)),
                  ),
                ),
              )))
    where
      any_leader :
          (context : ℕ)
          → Holds limited (AtMost p) (get_leader lib c client context key_prefix node) p
      any_leader context = (
        tt,
        λ r _.
            Logic.branch limited (AtMost p) p r.0.is_ok _ _ (λ _. (tt, omega arith))
              (λ _. (tt, omega arith)),
      )

  read_failed-ends :
      (backoff stream : ℕ) (p b : ℕ)
      → p ≤ b
      → Holds limited
          (ReadPaid b)
          (read_failed lib c client ctx key_prefix options backoff stream)
          p
  unfolding read_failed
  read_failed-ends backoff stream p b le = (
    tt,
    λ _ _. (
      tt,
      λ _ _. (
        tt,
        λ d _. (
          tt,
          λ stop ok.
              Logic.branch limited (ReadPaid b) _ stop _ _ (λ e. (tt, ground arith))
                (λ e. (tt, ground arith)),
        ),
      ),
    ),
  )

  read_loop-ends :
      (n backoff stream : ℕ) (t : EventType) (p b : ℕ)
      → p < n
      → p ≤ b
      → Holds limited
          (ReadPaid b)
          (read_loop lib c client ctx key_prefix options n backoff stream t)
          p
  unfolding read_loop
  read_loop-ends zero backoff stream t p b lt le = absurd (omega arith)
  read_loop-ends (suc n) backoff stream t p b lt le = (
    tt,
    λ answer ok.
        Logic.branch_option limited (ReadPaid b) _ answer _ _
          (λ e. read_failed-ends backoff stream _ b (ground arith))
          (λ rsp e.
            Logic.branch_option limited (ReadPaid b) _ (find_event t rsp.events) _ _
              (λ e'.
                let positive : 0 < p = ok (λ none_given. ground arith) in
                read_loop-ends n backoff stream t _ b (ground arith) (ground arith))
              (λ revision e'.
                let positive : 0 < p = ok (λ none_given. ground arith) in
                (tt, λ _ _. (tt, ground arith)))),
  )

  watch_loop-ends :
      (inner n backoff : ℕ) (o : WatchOptions) (t : EventType) (p b : ℕ)
      → p < inner
      → p < n
      → p ≤ b
      → Holds limited
          (WatchPaid b)
          (watch_loop lib c client ctx key_prefix options inner n backoff o t)
          p
  unfolding watch_loop
  watch_loop-ends inner zero backoff o t p b lt' lt le = absurd (omega arith)
  watch_loop-ends inner (suc n) backoff o t p b lt' lt le =
      context-limited (WatchPaid b) options.get_grpc_client_context_func _ p λ context. (
        tt,
        λ stream _. (
          tt,
          λ _ _.
              Logic.bind limited (ReadPaid p) (WatchPaid b)
                (read_loop lib c client ctx key_prefix options inner backoff stream t) _ p
                (read_loop-ends inner backoff stream t p p lt' (omega arith))
                (after (λ q less.
                  watch_loop-ends inner n backoff o t q b (omega arith) (omega arith)
                    (omega arith))),
        ),
      )
    where
      after :
          ((q : ℕ)
            → q < p
            → Holds limited
                (WatchPaid b)
                (watch_loop lib c client ctx key_prefix options inner n backoff o t)
                q)
          → (end : ReadEnd) (q : ℕ) → Unit {0}
          → ReadPaid p end q
          → Holds limited
              (WatchPaid b)
              (elim end [
                | found revision ↦ ret (some revision)
                | again ↦ watch_loop lib c client ctx key_prefix options inner n backoff o t
                | stopped ↦ ret none
              ])
              q
      after loop (found revision) q _ h = (tt, omega arith)
      after loop again q _ h = loop q h
      after loop stopped q _ h = (tt, omega arith)

  pub watch_next-ends :
      (inner backoff : ℕ) (node : ElectionNode) (revision : ℤ) (p : ℕ)
      → p < inner
      → Holds limited
          (WatchPaid p)
          (watch_next lib c client ctx key_prefix options inner backoff node revision)
          p
  unfolding watch_next
  watch_next-ends inner backoff node revision p lt =
      (tt, λ _ _. watch_loop-ends inner inner backoff _ (watch_event node) p p lt lt (omega arith))
