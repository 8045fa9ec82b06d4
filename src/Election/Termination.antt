-- ===== src/Election/Termination.antt =====
-- Watch ends: each round of its outer loop but the last waits for the context or reads an answer.
use etcdv3client.Prelude.{
  ℕ, zero, suc, ℤ, ◌≤◌, ◌<◌, Option, none, some, arith, if◌then◌else◌, subst,
}
use etcdv3client.Bytes.{Bytes}
use etcdv3client.Status.{StatusLibrary, make_default, make}
use etcdv3client.Prefix.{CharKind}
use etcdv3client.Client.{Client}
use etcdv3client.Election.{
  watch_next, Fetched, cancelled, fetched, fetch_loop, leader_loop, watch, is_new_leader,
}
use etcdv3client.Election.Node.{ElectionNode, ElectionWatchOptions}
use etcdv3client.Election.Watching.Outcome.{Outcome}
use etcdv3client.Effect.{Prog, ret, ◌>>=◌}
use etcdv3client.Effect.Logic
use etcdv3client.Effect.Logic.{Model, Holds}
use etcdv3client.Election.Rounds.{limited, AtMost, WatchPaid, fetch_loop-ends, watch_next-ends}

module _ (lib : StatusLibrary) where
  abbrev pub Ended : lib.Status × ElectionNode → ℕ → Type 0
  Ended r q = Unit {0}

module _ (lib : StatusLibrary) (c : CharKind) (client : Client) (ctx : ℕ) (key_prefix : Bytes)
    (options : ElectionWatchOptions) where
  leader_loop-ends :
      (inner n backoff : ℕ) (node : ElectionNode) (revision : ℤ) (p : ℕ)
      → p < inner
      → p < n
      → Holds limited
          (Ended lib)
          (leader_loop lib c client ctx key_prefix options inner n backoff node revision)
          p
  unfolding leader_loop
  leader_loop-ends inner zero backoff node revision p lt' lt = absurd (omega arith)
  leader_loop-ends inner (suc n) backoff node revision p lt' lt =
      Logic.bind limited (AtMost p) (Ended lib)
        (fetch_loop lib c client ctx key_prefix options inner backoff node) _ p
        (fetch_loop-ends lib c client ctx key_prefix options inner backoff node p p lt'
          (omega arith))
        (after (λ node' next q less.
          leader_loop-ends inner n backoff node' next q (omega arith) (omega arith)))
    where
      go_on : ElectionNode → Option ℤ → Prog (lib.Status × ElectionNode)
      go_on node' event = elim event [
        | none ↦ ret (make lib lib.cancelled, node')
        | some next ↦ leader_loop lib c client ctx key_prefix options inner n backoff node' next
      ]

      after :
          ((node' : ElectionNode) (next : ℤ) (q : ℕ)
            → q < p
            → Holds limited
                (Ended lib)
                (leader_loop lib c client ctx key_prefix options inner n backoff node' next)
                q)
          → (f : Fetched) (q : ℕ) → Unit {0}
          → q ≤ p
          → Holds limited
              (Ended lib)
              (elim f [
                | cancelled node' ↦ ret (make lib lib.cancelled, node')
                | fetched node' ↦
                    if is_new_leader node' revision
                    then ret (make_default lib, node')
                    else watch_next lib c client ctx key_prefix options inner backoff node' revision
                      >>= go_on node'
              ])
              q
      after loop (cancelled node') q _ h = (tt, tt)
      after loop (fetched node') q _ h =
          Logic.branch limited (Ended lib) q (is_new_leader node' revision) _ _ (λ e. (tt, tt))
            (λ e.
              Logic.bind limited (WatchPaid q) (Ended lib)
                (watch_next lib c client ctx key_prefix options inner backoff node' revision) _ q
                (watch_next-ends lib c client ctx key_prefix options inner backoff node' revision q
                  (omega arith))
                (λ event u _ paid.
                  Logic.branch_option limited (Ended lib) u event _ _ (λ is_none. (tt, tt))
                    (λ next is_some. loop node' next u (
                      let less : u < q = subst (λ o. WatchPaid q o u) is_some paid in
                      omega arith))))

  pub watch-ends :
      (n : ℕ) (node : ElectionNode) (p : ℕ)
      → p < n
      → Holds limited (Ended lib) (watch lib c client ctx key_prefix options n node) p
  unfolding watch
  watch-ends n node p lt =
      (tt, λ backoff _. leader_loop-ends n n backoff node options.revision p lt lt)
