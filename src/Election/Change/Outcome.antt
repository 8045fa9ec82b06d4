-- ===== src/Election/Change/Outcome.antt =====
-- How Watch ends where the candidates of the election change while it watches.
use etcdv3client.Prelude.{
  sym, subst, ℕ, zero, suc, ℤ, ◌≡◌, refl, ◌⊎◌, inl, inr, Bool, true, false, Option, none, some, ◌<◌,
}
use etcdv3client.Bytes.{Bytes}
use etcdv3client.Status.{StatusLibrary, make, make_default}
use etcdv3client.Prefix.{CharKind}
use etcdv3client.Client.{Client}
use etcdv3client.Election.{
  Fetched, cancelled, fetched, fetch_loop, watch_next, leader_loop, is_new_leader, watch,
  watch_event, watch_loop, watch_options, watch_revision,
}
use etcdv3client.Election.Node.{ElectionNode, ElectionWatchOptions}
use etcdv3client.Effect.{Prog, ret}
use etcdv3client.Effect.Logic
use etcdv3client.Effect.Logic.{Holds}
use etcdv3client.Effect.Run.{Environment, run, Returns, Returns-run, both, Holds-both}
use etcdv3client.Election.Rounds.{limited}
use etcdv3client.Election.Termination.{watch-ends, Ended}
use etcdv3client.Election.Change.{
  Turnover, Next, Course, course, changing, led, Led, fetch_loop-Led,
}
use etcdv3client.Election.Change.Heard.{Heard, watch_loop-Heard}

module _ (lib : StatusLibrary) where
  -- Cancelled, after the context has been found done; or OK with the leader, after an event that tells of
  -- it.
  abbrev pub Succeeds : ElectionNode → lib.Status × ElectionNode → Course → Type 0
  Succeeds leader r s =
      ((r.0 ≡ make lib lib.cancelled) × (s.done ≡ true))
      ⊎ ((r.0 ≡ make_default lib) × (r.1 ≡ leader) × (s.changed ≡ true))

module _ (change : Turnover) (lib : StatusLibrary)
    (Q : lib.Status × ElectionNode → Course → Type 0) where
  pub branch-Led :
      ((node : ElectionNode) (t : Course) → t.done ≡ true → Q (make lib lib.cancelled, node) t)
      → (node leader : ElectionNode) (b : Bool) → led change b node ≡ leader
      → (f : Fetched) (t : Course) (go : ElectionNode → Prog (lib.Status × ElectionNode))
      → Led change node b f t
      → ((d : Bool) → Holds (changing change) Q (go leader) (course b d))
      → Holds
          (changing change)
          Q
          (elim f [
            | cancelled node' ↦ ret (make lib lib.cancelled, node')
            | fetched node' ↦ go node'
          ])
          t
  branch-Led stop node leader b e (cancelled node') t go h k = (tt, stop node' t h)
  branch-Led stop node leader b e (fetched node') t go h k =
      rw (h.1, e)
        (subst (λ x. Holds (changing change) Q (go leader) (course x t.done)) (sym h.0) (k t.done))

  -- What holds of the results of Watch holds of what its runs return.
  pub watch-returned :
      (c : CharKind) (client : Client) (ctx : ℕ) (key_prefix : Bytes)
      (options : ElectionWatchOptions) (n : ℕ) (node : ElectionNode)
      → Holds
          (changing change)
          Q
          (watch lib c client ctx key_prefix options n node)
          (course false false)
      → (e : Environment (both (changing change) limited)) (w : e.W) (p : ℕ) → p < n
      → Returns
          (λ r s. Q r s.0)
          (run
            (both (changing change) limited)
            e
            (watch lib c client ctx key_prefix options n node)
            (course false false, p)
            w)
  watch-returned c client ctx key_prefix options n node h e w p lt =
      Returns-run (both (changing change) limited) e (λ s k. k.1) (λ r s. Q r s.0)
        (watch lib c client ctx key_prefix options n node) (course false false, p) w
        (Logic.mono (both (changing change) limited) (λ r s. Q r s.0 × Ended lib r s.1)
          (λ r s. Q r s.0) (watch lib c client ctx key_prefix options n node)
          (course false false, p)
          (Holds-both (changing change) limited Q (Ended lib)
            (watch lib c client ctx key_prefix options n node) (course false false) p h
            (watch-ends lib c client ctx key_prefix options n node p lt))
          (λ r s _ k. k.0))

module _ (change : Turnover) (lib : StatusLibrary) (c : CharKind) (client : Client) (ctx : ℕ)
    (key_prefix : Bytes) (options : ElectionWatchOptions) (old new : ElectionNode)
    (event_is : watch_event old ≡ change.event_type)
    (known : is_new_leader old options.revision ≡ false) (taken : led change true old ≡ new)
    (told : (revision : ℤ) → Next change revision → is_new_leader new revision ≡ true) where
  abbrev Changed : lib.Status × ElectionNode → Course → Type 0
  Changed = Succeeds lib new

  second_round :
      (inner n backoff : ℕ) (revision : ℤ) (d : Bool)
      → Next change revision
      → Holds
          (changing change)
          Changed
          (leader_loop lib c client ctx key_prefix options inner n backoff old revision)
          (course true d)
  unfolding leader_loop
  second_round inner zero backoff revision d next = (tt, tt)
  second_round inner (suc n) backoff revision d next =
      Logic.bind (changing change) (Led change old true) Changed
        (fetch_loop lib c client ctx key_prefix options inner backoff old) _ (course true d)
        (fetch_loop-Led change lib c client ctx key_prefix options inner backoff old true d)
        (λ f t _ h.
          branch-Led change lib Changed (λ _ _ done. inl (refl, done)) old new true taken f t _ h
            (λ d'. rw (told revision next) (tt, inr (refl, refl, refl))))

  branch-Heard :
      (inner n backoff : ℕ) (event : Option ℤ) (t : Course)
      → Heard change event t
      → Holds
          (changing change)
          Changed
          (elim event [
            | none ↦ ret (make lib lib.cancelled, old)
            | some next ↦ leader_loop lib c client ctx key_prefix options inner n backoff old next
          ])
          t
  branch-Heard inner n backoff none t h = (tt, inl (refl, h))
  branch-Heard inner n backoff (some next) t h =
      subst
        (λ x.
          Holds (changing change) Changed
            (leader_loop lib c client ctx key_prefix options inner n backoff old next)
            (course x t.done))
        (sym h.1) (second_round inner n backoff next t.done h.0)

  first_round :
      (inner n backoff : ℕ) (node : ElectionNode) (d : Bool)
      → led change false node ≡ old
      → Holds
          (changing change)
          Changed
          (leader_loop lib c client ctx key_prefix options inner n backoff node options.revision)
          (course false d)
  unfolding leader_loop watch_next
  first_round inner zero backoff node d e = (tt, tt)
  first_round inner (suc n) backoff node d e =
      Logic.bind (changing change) (Led change node false) Changed
        (fetch_loop lib c client ctx key_prefix options inner backoff node) _ (course false d)
        (fetch_loop-Led change lib c client ctx key_prefix options inner backoff node false d)
        (λ f t _ h.
          branch-Led change lib Changed (λ _ _ done. inl (refl, done)) node old false e f t _ h
            λ d'.
              (rw known (
                tt,
                λ _ _.
                    Logic.bind (changing change) (Heard change) Changed
                      (watch_loop lib c client ctx key_prefix options inner inner backoff
                        (watch_options c old (watch_revision old options.revision))
                        (watch_event old))
                      _ (course false d')
                      (rw event_is (
                        watch_loop-Heard change lib c client ctx key_prefix options inner inner
                          backoff (watch_options c old (watch_revision old options.revision)) d'))
                      (λ event u _ heard. branch-Heard inner n backoff event u heard),
              )))

  pub watch-Changed :
      (n : ℕ) (node : ElectionNode)
      → led change false node ≡ old
      → (e : Environment (both (changing change) limited)) (w : e.W) (p : ℕ) → p < n
      → Returns
          (λ r s. Changed r s.0)
          (run
            (both (changing change) limited)
            e
            (watch lib c client ctx key_prefix options n node)
            (course false false, p)
            w)
  unfolding watch
  watch-Changed n node first =
      watch-returned change lib Changed c client ctx key_prefix options n node
        (tt, λ backoff _. first_round n n backoff node false first)
