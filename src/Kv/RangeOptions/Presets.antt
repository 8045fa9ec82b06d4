-- ===== src/Kv/RangeOptions/Presets.antt =====
-- The methods that set several options at once, and repeated prefixes.
use etcdv3client.Prelude.{pos, ◌≡◌, false, [], ◌∷◌}
use etcdv3client.Bytes.{nul, eq_bytes}
use etcdv3client.Options.{Options, push_back, apply, apply-push_back}
use etcdv3client.Prefix.{CharKind, unsigned_char, get_prefix_range_end}
use etcdv3client.Proto.Kv.{
  RangeRequest, SortOrder, ascend, descend, SortTarget, by_create, by_key, by_mod,
}
use etcdv3client.Kv.RangeOptions.{
  RangeOptions, set_prefix, with_prefix, with_first_create, with_last_create, with_first_key,
  with_last_key, with_first_mod, with_last_mod,
}

-- The request restricted to its prefix, sorted by one field, with one key to return.
abbrev pub preset : CharKind → SortTarget → SortOrder → RangeRequest → RangeRequest
preset c by up t = record (set_prefix c t) { sort_target = by; sort_order = up; limit = pos 1 }

apply-push_four :
    {T : Type 0} (o : Options T) (f g h k : T → T) (t : T)
    → apply (push_back (push_back (push_back (push_back o f) g) h) k) t ≡ k (h (g (f (apply o t))))
apply-push_four o f g h k t = rw (
  apply-push_back (push_back (push_back (push_back o f) g) h) k t,
  apply-push_back (push_back (push_back o f) g) h t,
  apply-push_back (push_back o f) g t,
  apply-push_back o f t,
)

-- Whatever options were set before, the six methods named first and last restrict the request to its
-- prefix, ask for the field and the order that their names say, and limit the answer to one key.
pub presets :
    (c : CharKind) (o : RangeOptions) (t : RangeRequest)
    → (apply (with_first_create c o) t ≡ preset c by_create ascend (apply o t))
      × (apply (with_last_create c o) t ≡ preset c by_create descend (apply o t))
      × (apply (with_first_key c o) t ≡ preset c by_key ascend (apply o t))
      × (apply (with_last_key c o) t ≡ preset c by_key descend (apply o t))
      × (apply (with_first_mod c o) t ≡ preset c by_mod ascend (apply o t))
      × (apply (with_last_mod c o) t ≡ preset c by_mod descend (apply o t))
unfolding with_first_create with_last_create with_first_key with_last_key with_first_mod
    with_last_mod
presets c o t = (
  apply-push_four o _ _ _ _ t,
  apply-push_four o _ _ _ _ t,
  apply-push_four o _ _ _ _ t,
  apply-push_four o _ _ _ _ t,
  apply-push_four o _ _ _ _ t,
  apply-push_four o _ _ _ _ t,
)

-- A second WithPrefix changes nothing where the key is not empty.
with_prefix_twice :
    (c : CharKind) (o : RangeOptions) (t : RangeRequest)
    → eq_bytes (apply o t).key [] ≡ false
    → apply (with_prefix c (with_prefix c o)) t ≡ apply (with_prefix c o) t
unfolding with_prefix
with_prefix_twice c o t h =
    rw
      (
        apply-push_back (push_back o (set_prefix c)) (set_prefix c) t,
        apply-push_back o (set_prefix c) t,
      )
      (twice (apply o t) h)
  where
    twice :
        (r : RangeRequest)
        → eq_bytes r.key [] ≡ false
        → set_prefix c (set_prefix c r) ≡ set_prefix c r
    twice r e = rw (e, set_prefix) (rw (e, set_prefix))

-- The key is empty and `char` is unsigned: one WithPrefix asks for every key, and a second one, such as a
-- method named first or last makes after it, cuts that down to the keys that begin with a NUL byte.
pub with_prefix_twice-empty :
    (o : RangeOptions) (t : RangeRequest)
    → (apply o t).key ≡ []
    → ((apply (with_prefix unsigned_char o) t).range_end ≡ nul)
      × ((apply (with_prefix unsigned_char (with_prefix unsigned_char o)) t).key ≡ nul)
      × ((apply (with_prefix unsigned_char (with_prefix unsigned_char o)) t).range_end ≡ 1 ∷ [])
unfolding with_prefix get_prefix_range_end
with_prefix_twice-empty o t h = (
  rw (apply-push_back o (set_prefix unsigned_char) t) (once (apply o t) h),
  rw
      (
        apply-push_back (push_back o (set_prefix unsigned_char)) (set_prefix unsigned_char) t,
        apply-push_back o (set_prefix unsigned_char) t,
      )
      (again (apply o t) h).0,
  rw
      (
        apply-push_back (push_back o (set_prefix unsigned_char)) (set_prefix unsigned_char) t,
        apply-push_back o (set_prefix unsigned_char) t,
      )
      (again (apply o t) h).1,
)
  where
    once : (r : RangeRequest) → r.key ≡ [] → (set_prefix unsigned_char r).range_end ≡ nul
    once r e = rw (e, set_prefix)

    again :
        (r : RangeRequest)
        → r.key ≡ []
        → ((set_prefix unsigned_char (set_prefix unsigned_char r)).key ≡ nul)
          × ((set_prefix unsigned_char (set_prefix unsigned_char r)).range_end ≡ 1 ∷ [])
    again r e = (rw (e, set_prefix), rw (e, set_prefix))
