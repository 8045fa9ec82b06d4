-- ===== src/Election/Watching/Outcome.antt =====
-- What the results of Watch mean, in every environment.
use etcdv3client.Prelude.{
  ℕ, zero, suc, ℤ, ◌≡◌, Bool, true, false, Option, none, some, arith, subst, ◌⊎◌, inl, inr,
  if◌then◌else◌,
}
use etcdv3client.Bytes.{Bytes}
use etcdv3client.Status.{StatusLibrary, make_default, make, code-make_default, code-make}
use etcdv3client.Prefix.{CharKind}
use etcdv3client.Client.{Client}
use etcdv3client.Election.{
  watch_next, Fetched, cancelled, fetched, fetch_loop, leader_loop, watch, is_new_leader,
}
use etcdv3client.Election.Node.{ElectionNode, ElectionWatchOptions, is_valid}
use etcdv3client.Effect.{Prog, ret, ◌>>=◌}
use etcdv3client.Effect.Logic
use etcdv3client.Effect.Logic.{Model, Holds, Reach, Holds-Reach}
use etcdv3client.Election.Watching.{
  following, FetchEnds, WatchEnds, fetch_loop-FetchEnds, watch_next-WatchEnds,
}

module _ (lib : StatusLibrary) where
  -- OK with a valid node, or Cancelled after the context was found done.
  abbrev pub Outcome : lib.Status × ElectionNode → Bool → Type 0
  Outcome r s =
      ((lib.code r.0 ≡ 0) × (is_valid r.1 ≡ true)) ⊎ ((lib.code r.0 ≡ lib.cancelled) × (s ≡ true))

module _ (lib : StatusLibrary) (c : CharKind) (client : Client) (ctx : ℕ) (key_prefix : Bytes)
    (options : ElectionWatchOptions) where
  leader_loop-Outcome :
      (inner n backoff : ℕ) (node : ElectionNode) (revision : ℤ) (s : Bool)
      → Holds following
          (Outcome lib)
          (leader_loop lib c client ctx key_prefix options inner n backoff node revision)
          s
  unfolding leader_loop is_new_leader
  leader_loop-Outcome inner zero backoff node revision s = (tt, tt)
  leader_loop-Outcome inner (suc n) backoff node revision s =
      Logic.bind following FetchEnds (Outcome lib)
        (fetch_loop lib c client ctx key_prefix options inner backoff node) _ s
        (fetch_loop-FetchEnds lib c client ctx key_prefix options inner backoff node s)
        (after (λ node' next u. leader_loop-Outcome inner n backoff node' next u))
    where
      decide : (node' : ElectionNode) → is_new_leader node' revision ≡ true → is_valid node' ≡ true
      decide node' h = ground arith

      go_on : ElectionNode → Option ℤ → Prog (lib.Status × ElectionNode)
      go_on node' event = elim event [
        | none ↦ ret (make lib lib.cancelled, node')
        | some next ↦ leader_loop lib c client ctx key_prefix options inner n backoff node' next
      ]

      after :
          ((node' : ElectionNode) (next : ℤ) (u : Bool)
            → Holds following
                (Outcome lib)
                (leader_loop lib c client ctx key_prefix options inner n backoff node' next)
                u)
          → (f : Fetched) (t : Bool) → Unit {0}
          → FetchEnds f t
          → Holds following
              (Outcome lib)
              (elim f [
                | cancelled node' ↦ ret (make lib lib.cancelled, node')
                | fetched node' ↦
                    if is_new_leader node' revision
                    then ret (make_default lib, node')
                    else watch_next lib c client ctx key_prefix options inner backoff node' revision
                      >>= go_on node'
              ])
              t
      after loop (cancelled node') t _ h = (tt, inr (code-make lib lib.cancelled, h))
      after loop (fetched node') t _ h =
          Logic.branch following (Outcome lib) t (is_new_leader node' revision) _ _
            (λ e. (tt, inl (code-make_default lib, decide node' e)))
            (λ e.
              Logic.bind following WatchEnds (Outcome lib)
                (watch_next lib c client ctx key_prefix options inner backoff node' revision) _ t
                (watch_next-WatchEnds lib c client ctx key_prefix options inner backoff node'
                  revision t)
                (λ event u _ ends.
                  Logic.branch_option following (Outcome lib) u event _ _
                    (λ is_none. (
                      tt,
                      inr (code-make lib lib.cancelled, subst (λ o. WatchEnds o u) is_none ends),
                    ))
                    (λ next _. loop node' next u)))

  pub watch-Outcome :
      (n : ℕ) (node : ElectionNode)
      → Holds following (Outcome lib) (watch lib c client ctx key_prefix options n node) false
  unfolding watch
  watch-Outcome n node =
      (tt, λ backoff _. leader_loop-Outcome n n backoff node options.revision false)
