-- ===== src/Election/Change/Leaders.antt =====
-- The leader that Watch gives after a change: a later one, or the one that is gone.
use etcdv3client.Prelude.{
  ℕ, ℤ, pos, ◌≡◌, ◌⊎◌, inl, inr, refl, sym, subst, ◌-ℤ◌, Bool, true, false, [], ◌∷◌, arith, ◌==ℤ◌,
  ◌≤ℤ◌, ◌<ℤ◌, ◌<◌,
}
use etcdv3client.Bytes.{Bytes}
use etcdv3client.Status.{StatusLibrary}
use etcdv3client.Prefix.{CharKind}
use etcdv3client.Client.{Client}
use etcdv3client.Proto.Kv.{KeyValue, RangeResponse}
use etcdv3client.Election.{is_new_leader, watch, take_leader, watch_event}
use etcdv3client.Election.Node.{
  ElectionNode, ElectionWatchOptions, is_valid, set_bykv, set_current_revision,
}
use etcdv3client.Effect.Run.{Environment, run, Returns, both}
use etcdv3client.Effect.Stalls.{run_stalling, EndsStreams, Returns-stalling}
use etcdv3client.Election.Leader.{node_of}
use etcdv3client.Election.Rounds.{limited}
use etcdv3client.Election.Change.{Turnover, Course, course, changing}
use etcdv3client.Proto.Watch.{put, delete}
use etcdv3client.Election.Change.Outcome.{Succeeds, watch-Changed}

pub take_leader-kvs :
    (rsp : RangeResponse) (kv' : KeyValue) (from : ElectionNode)
    → rsp.kvs ≡ kv' ∷ []
    → take_leader rsp.kvs (set_current_revision from rsp.header.revision)
      ≡ node_of kv' rsp.header.revision
unfolding take_leader set_current_revision set_bykv
take_leader-kvs rsp kv' from e = rw e refl

watch_event-node_of :
    (kv : KeyValue) (revision : ℤ)
    → (kv.lease ==ℤ pos 0) ≡ false
    → watch_event (node_of kv revision) ≡ delete
unfolding watch_event is_valid
watch_event-node_of kv revision h = rw h refl

-- A node with a lease is a new leader for revision 0 and for one below its create revision, and else is
-- not.
pub is_new_leader-node :
    (leader : ElectionNode) (last : ℤ)
    → (leader.lease ==ℤ pos 0) ≡ false
    → ((last ==ℤ pos 0) ≡ true) ⊎ (last <ℤ leader.create_revision)
    → is_new_leader leader last ≡ true
unfolding is_new_leader is_valid
is_new_leader-node leader last leased (inl e) = rw (leased, e) refl
is_new_leader-node leader last leased (inr lt) = rw leased (ground arith)

is_new_leader-known :
    (leader : ElectionNode) (last : ℤ)
    → (last ==ℤ pos 0) ≡ false
    → leader.create_revision ≤ℤ last
    → is_new_leader leader last ≡ false
unfolding is_new_leader is_valid
is_new_leader-known leader last named le = ground arith

below : (a b last : ℤ) → a ≤ℤ b → last ≡ a -ℤ pos 1 → last <ℤ b
below a b last le e = subst (λ x. x <ℤ b) (sym e) (ground arith)

-- A DELETE event has the deleted key with the revision of its deletion; its create revision is unset.
abbrev pub deletion : RangeResponse → RangeResponse → Turnover
deletion before after = record {
  before = before;
  after = after;
  event_type = delete;
  Told = λ create_revision. create_revision ≡ pos 0;
}

-- A PUT event under the prefix was not created after the leader of the later answer.
abbrev pub creation : RangeResponse → RangeResponse → KeyValue → Turnover
creation before after kv = record {
  before = before;
  after = after;
  event_type = put;
  Told = λ create_revision. create_revision ≤ℤ kv.create_revision;
}

module _ (lib : StatusLibrary) (c : CharKind) (client : Client) (ctx : ℕ) (key_prefix : Bytes)
    (options : ElectionWatchOptions) (n : ℕ) (node : ElectionNode) (p : ℕ) where
  -- The run of Watch in an environment that changes so, while `p` waits may still be reported unfinished
  -- or reads be answered, gives the leader.
  abbrev pub Gives :
      (change : Turnover) (e : Environment (both (changing change) limited))
      → e.W
      → ElectionNode
      → Type 0
  Gives change e w leader =
      Returns (λ r s. Succeeds lib leader r s.0)
        (run (both (changing change) limited) e (watch lib c client ctx key_prefix options n node)
          (course false false, p) w)

  -- The same, where Finish of a watch may never be answered.
  abbrev pub StillGives :
      (change : Turnover) (e : Environment (both (changing change) limited))
      → (ℕ → Course × ℕ → e.W → Bool)
      → e.W
      → ElectionNode
      → Type 0
  StillGives change e stalls w leader =
      Returns (λ r s. Succeeds lib leader r s.0)
        (run_stalling (both (changing change) limited) e stalls
          (watch lib c client ctx key_prefix options n node) (course false false, p) w)

  module _ (lt : p < n) where
    -- The first answer gives no key-value pair, and neither does the caller's node have a lease. Range
    -- requests that succeed are answered by `before` until a PUT event has been read, and by `after` from
    -- then on, which has one pair, with a lease, created at the revision of that event or later;
    -- requests, watches and waits may fail; and fewer than `n` of the calls are waits that report the
    -- context unfinished or reads that are answered. Finish of a watch may never be answered (`stalls`),
    -- but the server ends every watch that Watch calls Finish of. Then Watch returns: with Cancelled,
    -- after the context has been found done; or, after a PUT event, with OK and the node of the later
    -- pair.
    pub leader_appears :
        (before after : RangeResponse) (kv : KeyValue)
        → before.kvs ≡ []
        → (node.lease ==ℤ pos 0) ≡ true
        → after.kvs ≡ kv ∷ []
        → (kv.lease ==ℤ pos 0) ≡ false
        → (e : Environment (both (changing (creation before after kv)) limited))
          (stalls : ℕ → Course × ℕ → e.W → Bool) (w : e.W)
        → EndsStreams (both (changing (creation before after kv)) limited) e stalls
        → StillGives (creation before after kv) e stalls w (node_of kv after.header.revision)
    unfolding take_leader set_current_revision watch_event is_new_leader is_valid
    leader_appears before after kv nobody unleased one leased e stalls w ends =
        Returns-stalling (both (changing (creation before after kv)) limited) e stalls
          (λ r s. Succeeds lib (node_of kv after.header.revision) r s.0) ends
          (watch lib c client ctx key_prefix options n node) (course false false, p) w
          (watch-Changed (creation before after kv) lib c client ctx key_prefix options
            (record node { current_revision = before.header.revision })
            (node_of kv after.header.revision) (rw unleased refl) (rw unleased refl)
            (take_leader-kvs after kv (record node { current_revision = before.header.revision })
              one)
            (λ revision next.
              is_new_leader-node (node_of kv after.header.revision) revision leased
                (inr (below next.0 kv.create_revision revision next.1 next.2)))
            n node (rw nobody refl) e w p lt)

    module _ (before after : RangeResponse) (kv : KeyValue) (one : before.kvs ≡ kv ∷ [])
        (leased : (kv.lease ==ℤ pos 0) ≡ false) (named : (options.revision ==ℤ pos 0) ≡ false)
        (reached : kv.create_revision ≤ℤ options.revision)
        (e : Environment (both (changing (deletion before after)) limited)) (w : e.W) where
      -- The first answer gives one key-value pair, with a lease, which the caller's revision rules out:
      -- that is not 0 and not below the create revision. Range requests that succeed are answered by
      -- `before` until a DELETE event has been read, whose pair has no create revision, and by `after`
      -- from then on; requests, watches and waits may fail; fewer than `n` of the calls are waits that
      -- report the context unfinished or reads that are answered; and Finish of a watch is answered. Where
      -- `after` has one pair, with a lease and a create revision that is not negative, Watch returns: with
      -- Cancelled, after the context has been found done; or, after a DELETE event, with OK and the node of
      -- that pair, also where it is the pair that the caller's revision has ruled out.
      pub leader_changes :
          (kv' : KeyValue)
          → after.kvs ≡ kv' ∷ []
          → (kv'.lease ==ℤ pos 0) ≡ false
          → pos 0 ≤ℤ kv'.create_revision
          → Gives (deletion before after) e w (node_of kv' after.header.revision)
      leader_changes kv' one' leased' h =
          watch-Changed (deletion before after) lib c client ctx key_prefix options
            (node_of kv before.header.revision) (node_of kv' after.header.revision)
            (watch_event-node_of kv before.header.revision leased)
            (is_new_leader-known (node_of kv before.header.revision) options.revision named reached)
            (take_leader-kvs after kv' _ one')
            (λ revision next.
              is_new_leader-node (node_of kv' after.header.revision) revision leased' (
                inr (
                  below next.0 kv'.create_revision revision
                    (subst (λ x. x ≤ℤ kv'.create_revision) (sym next.1) h) next.2)))
            n node (take_leader-kvs before kv node one) e w p lt

      -- In such a run where `after` has no pair, and the create revision of the first one is not
      -- negative, Watch returns: with Cancelled, after the context has been found done; or, after a
      -- DELETE event, with OK and the node of the first pair with the revision of the later answer,
      -- although there is no leader any more.
      pub leader_gone :
          after.kvs ≡ []
          → pos 0 ≤ℤ kv.create_revision
          → Gives (deletion before after) e w (record (node_of kv before.header.revision) {
            current_revision = after.header.revision;
          })
      unfolding take_leader set_current_revision
      leader_gone nobody h =
          watch-Changed (deletion before after) lib c client ctx key_prefix options
            (node_of kv before.header.revision) _
            (watch_event-node_of kv before.header.revision leased)
            (is_new_leader-known (node_of kv before.header.revision) options.revision named reached)
            (rw nobody refl)
            (λ revision next.
              is_new_leader-node (node_of kv after.header.revision) revision leased (
                inr (
                  below next.0 kv.create_revision revision
                    (subst (λ x. x ≤ℤ kv.create_revision) (sym next.1) h) next.2)))
            n node (take_leader-kvs before kv node one) e w p lt
