-- ===== src/Election/Change/Steady.antt =====
-- Watch over a store that answers Range always alike, where requests may fail.
use etcdv3client.Prelude.{
  pos, ◌==ℤ◌, ◌<ℤ◌, [], ◌∷◌, ℕ, zero, suc, ◌≡◌, refl, ◌⊎◌, inl, inr, true, false, ◌<◌,
}
use etcdv3client.Bytes.{Bytes}
use etcdv3client.Status.{StatusLibrary, make, make_default}
use etcdv3client.Prefix.{CharKind}
use etcdv3client.Client.{Client}
use etcdv3client.Proto.Kv.{RangeResponse}
use etcdv3client.Election.{take_leader, fetch_loop, leader_loop, is_new_leader, watch}
use etcdv3client.Election.Node.{set_current_revision, ElectionNode, ElectionWatchOptions}
use etcdv3client.Effect.Logic
use etcdv3client.Effect.Logic.{Holds}
use etcdv3client.Effect.Run.{Environment, run, Returns, both}
use etcdv3client.Election.Rounds.{limited}
use etcdv3client.Election.Change.{Turnover, Course, course, changing, led, Led, fetch_loop-Led}
use etcdv3client.Election.Change.Outcome.{branch-Led, watch-returned}
use etcdv3client.Election.Change.Leaders.{take_leader-kvs, is_new_leader-node}
use etcdv3client.Election.Leader.{node_of}
use etcdv3client.Proto.Kv.{KeyValue, RangeResponse}
use etcdv3client.Proto.Watch.{put}

-- Range requests that succeed are answered by `rsp`; events may be any.
abbrev pub steady : RangeResponse → Turnover
steady rsp = record {
  before = rsp;
  after = rsp;
  event_type = put;
  Told = λ create_revision. Unit {0};
}

module _ (lib : StatusLibrary) where
  -- Cancelled, after the context has been found done; or OK with the leader.
  abbrev pub Answers : ElectionNode → lib.Status × ElectionNode → Course → Type 0
  Answers leader r s =
      ((r.0 ≡ make lib lib.cancelled) × (s.done ≡ true))
      ⊎ ((r.0 ≡ make_default lib) × (r.1 ≡ leader))

module _ (rsp : RangeResponse) (lib : StatusLibrary) (c : CharKind) (client : Client) (ctx : ℕ)
    (key_prefix : Bytes) (options : ElectionWatchOptions) (n : ℕ) (node : ElectionNode)
    (e : Environment (both (changing (steady rsp)) limited)) (w : e.W) (p : ℕ) where
  first_round :
      (inner m backoff : ℕ) (leader : ElectionNode)
      → led (steady rsp) false node ≡ leader
      → is_new_leader leader options.revision ≡ true
      → Holds
          (changing (steady rsp))
          (Answers lib leader)
          (leader_loop lib c client ctx key_prefix options inner m backoff node options.revision)
          (course false false)
  unfolding leader_loop
  first_round inner zero backoff leader taken is_new = (tt, tt)
  first_round inner (suc m) backoff leader taken is_new =
      Logic.bind (changing (steady rsp)) (Led (steady rsp) node false) (Answers lib leader)
        (fetch_loop lib c client ctx key_prefix options inner backoff node) _ (course false false)
        (fetch_loop-Led (steady rsp) lib c client ctx key_prefix options inner backoff node false
          false)
        (λ f t _ h.
          branch-Led (steady rsp) lib (Answers lib leader) (λ _ _ done. inl (refl, done)) node
            leader false taken f t _ h (λ d'. rw is_new (tt, inr (refl, refl))))

  abbrev pub Gives : ElectionNode → Type 0
  Gives leader =
      Returns (λ r s. Answers lib leader r s.0)
        (run (both (changing (steady rsp)) limited) e
          (watch lib c client ctx key_prefix options n node) (course false false, p) w)

  module _ (lt : p < n) where
    watch-Gives :
        (leader : ElectionNode)
        → led (steady rsp) false node ≡ leader
        → is_new_leader leader options.revision ≡ true
        → Gives leader
    unfolding watch
    watch-Gives leader taken is_new =
        watch-returned (steady rsp) lib (Answers lib leader) c client ctx key_prefix options n node
          (tt, λ backoff _. first_round n n backoff leader taken is_new) e w p lt

    -- Range requests that succeed are answered by one key-value pair, with a lease, and the caller's
    -- revision is 0 or below its create revision; requests and waits may fail; and fewer than `n` of the
    -- calls are waits that report the context unfinished or reads that are answered. Then Watch returns:
    -- with Cancelled, after the context has been found done; or with OK and the node of that pair.
    pub leader_found :
        (kv : KeyValue)
        → rsp.kvs ≡ kv ∷ []
        → (kv.lease ==ℤ pos 0) ≡ false
        → ((options.revision ==ℤ pos 0) ≡ true) ⊎ (options.revision <ℤ kv.create_revision)
        → Gives (node_of kv rsp.header.revision)
    leader_found kv one leased new =
        watch-Gives (node_of kv rsp.header.revision) (take_leader-kvs rsp kv node one)
          (is_new_leader-node (node_of kv rsp.header.revision) options.revision leased new)

    -- The node that the caller passes in has a lease, and the caller's revision is 0 or below its create
    -- revision. In such a run where Range requests that succeed are answered by no key-value pair, Watch
    -- returns: with Cancelled, after the context has been found done; or with OK and that old node,
    -- although there is no leader.
    pub old_leader_kept :
        rsp.kvs ≡ []
        → (node.lease ==ℤ pos 0) ≡ false
        → ((options.revision ==ℤ pos 0) ≡ true) ⊎ (options.revision <ℤ node.create_revision)
        → Gives (record node { current_revision = rsp.header.revision })
    unfolding take_leader set_current_revision
    old_leader_kept nobody leased new =
        watch-Gives (record node { current_revision = rsp.header.revision }) (rw nobody refl)
          (is_new_leader-node (record node { current_revision = rsp.header.revision })
            options.revision leased new)
