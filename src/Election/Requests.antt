-- ===== src/Election/Requests.antt =====
-- The requests that Watch watches with.
use etcdv3client.Prelude.{
  ℤ, pos, ◌≡◌, refl, true, false, [], ◌∷◌, arith, ◌⊎◌, inl, inr, Bool-cases, ◌≤ℤ◌, ◌<ℤ◌, ◌+ℤ◌,
  max_ℤ,
}
use etcdv3client.Bytes.{Bytes, eq_bytes}
use etcdv3client.Options.{apply}
use etcdv3client.Prefix.{CharKind, get_prefix_range_end}
use etcdv3client.Proto.Watch.{put, delete, noput, nodelete, default_watch_create_request}
use etcdv3client.Election.{watch_revision, watch_options, watch_event}
use etcdv3client.Election.Node.{ElectionNode, is_valid, get_watch_revision}

max_either : (a b : ℤ) → (max_ℤ a b ≡ a) ⊎ (max_ℤ a b ≡ b)
max_either a b = ground arith

max_bounds :
    (a b : ℤ)
    → (a <ℤ max_ℤ (a +ℤ pos 1) b)
      × (b ≤ℤ max_ℤ (a +ℤ pos 1) b)
      × ((max_ℤ (a +ℤ pos 1) b ≡ a +ℤ pos 1) ⊎ (max_ℤ (a +ℤ pos 1) b ≡ b))
max_bounds a b = (ground arith, ground arith, max_either (a +ℤ pos 1) b)

-- The request that Watch watches with, under a prefix that is not empty: with a leader it is for DELETE
-- events, from the earliest revision that is after the one of the answer that named the leader and not before
-- the revision at hand, so that it is one more than the former or the latter itself;
-- without a leader it is for PUT events, from the revision at hand, be it 0, which means from now on.
pub watch_request :
    (c : CharKind) (node : ElectionNode) (revision : ℤ) (key_prefix : Bytes)
    → eq_bytes key_prefix [] ≡ false
    → let req =
        apply
          (watch_options c node (watch_revision node revision))
          (record default_watch_create_request { key = key_prefix }) in
      (req.key ≡ key_prefix)
      × (req.range_end ≡ get_prefix_range_end c key_prefix)
      × (((is_valid node ≡ true)
            × (req.filters ≡ noput ∷ [])
            × (watch_event node ≡ delete)
            × (node.current_revision <ℤ req.start_revision)
            × (revision ≤ℤ req.start_revision)
            × ((req.start_revision ≡ node.current_revision +ℤ pos 1)
                ⊎ (req.start_revision ≡ revision)))
          ⊎ ((is_valid node ≡ false)
              × (req.filters ≡ nodelete ∷ [])
              × (watch_event node ≡ put)
              × (req.start_revision ≡ revision)))
unfolding apply watch_options watch_revision watch_event get_watch_revision
watch_request c node revision key_prefix h = elim (Bool-cases (is_valid node)) [
  | inl v ↦
      rw (v, watch_options, watch_revision, watch_event, h)
        (
          refl,
          refl,
          inl (
            refl,
            refl,
            refl,
            (max_bounds node.current_revision revision).0,
            (max_bounds node.current_revision revision).1,
            (max_bounds node.current_revision revision).2,
          ),
        )
  | inr v ↦
      rw (v, watch_options, watch_revision, watch_event, h)
        (refl, refl, inr (refl, refl, refl, refl))
]
