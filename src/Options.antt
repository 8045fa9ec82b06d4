-- ===== src/Options.antt =====
-- `Options<TargetType>` of etcdv3client/common.h: a vector of setters, applied in order.
use etcdv3client.Prelude.{◌≡◌, refl, List, [], ◌∷◌, ◌++◌}

abbrev pub Options : Type 0 → Type 0
Options T = List (T → T)

-- `setfuncs.push_back(f)`
abbrev pub push_back : {T : Type 0} → Options T → (T → T) → Options T
push_back o f = o ++ f ∷ []

unfoldable pub apply : {T : Type 0} → Options T → T → T
apply [] target = target
apply (f ∷ o) target = apply o (f target)

pub apply-append : {T : Type 0} (o p : Options T) (t : T) → apply (o ++ p) t ≡ apply p (apply o t)
unfolding apply
apply-append [] p t = refl
apply-append (f ∷ o) p t = apply-append o p (f t)

-- The setter that is pushed last runs last, on what the others have made.
pub apply-push_back :
    {T : Type 0} (o : Options T) (f : T → T) (t : T) → apply (push_back o f) t ≡ f (apply o t)
unfolding apply
apply-push_back [] f t = refl
apply-push_back (g ∷ o) f t = apply-push_back o f (g t)
