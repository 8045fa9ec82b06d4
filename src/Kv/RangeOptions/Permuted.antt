-- ===== src/Kv/RangeOptions/Permuted.antt =====
-- Chains of methods of `RangeOptions` in another order.
use mathlib.Core.List.{Permᴰ, Pairwise}
use mathlib.Core.HLevel.{¬_prop}
use mathlib.Core.List.Permᴰ
use mathlib.Core.List.{mem-cons_self}
use etcdv3client.Prelude.{◌≡◌, ◌≢◌, refl, sym, ◌∙◌, ap, List, [], ◌∷◌}
use etcdv3client.Options.{apply}
use etcdv3client.Prefix.{CharKind}
use etcdv3client.Proto.Kv.{RangeRequest}
use etcdv3client.Kv.RangeOptions.{RangeOptions}
use etcdv3client.Kv.RangeOptions.Commute.{
  Method, call_method, field, setter, apply-call_method, setter_comm,
}

-- `options.A().B()...`
abbrev pub chain : CharKind → List Method → RangeOptions → RangeOptions
chain c [] o = o
chain c (m ∷ ms) o = chain c ms (call_method c o m)

-- What they do to a request, the first one first.
abbrev pub setters : CharKind → List Method → RangeRequest → RangeRequest
setters c [] t = t
setters c (m ∷ ms) t = setters c ms (setter c m t)

pub apply-chain :
    (c : CharKind) (ms : List Method) (o : RangeOptions) (t : RangeRequest)
    → apply (chain c ms o) t ≡ setters c ms (apply o t)
apply-chain c [] o t = refl
apply-chain c (m ∷ ms) o t =
    apply-chain c ms (call_method c o m) t ∙ ap (setters c ms) (apply-call_method c o m t)

-- No two methods of the list write the same part of the request.
abbrev pub Distinct : List Method → Type 0
Distinct = Pairwise (λ a b. field a ≢ field b)

setters_perm :
    (c : CharKind) {ms ms' : List Method} (t : RangeRequest)
    → Permᴰ ms ms'
    → Distinct ms
    → setters c ms t ≡ setters c ms' t
setters_perm c t Permᴰ.nil h = refl
setters_perm c t (Permᴰ.cons {l₂ = ms} e p) (Pairwise.cons first rest) =
    setters_perm c (setter c _ t) p rest ∙ ap (λ m. setters c ms (setter c m t)) e
setters_perm c t (Permᴰ.swap {a = a} {b = b} {a' = a'} {b' = b'} {l = ms} e e')
      (Pairwise.cons first rest) =
    ap (setters c ms) (setter_comm c b a t (λ e''. first b mem-cons_self (sym e'')))
    ∙ ap (λ m. setters c ms (setter c m (setter c b t))) e
    ∙ ap (λ m. setters c ms (setter c b' (setter c m t))) e'
setters_perm c t (Permᴰ.trans p q) h =
    setters_perm c t p h
    ∙ setters_perm c t q (Permᴰ.pairwise (λ a b. ¬_prop) (λ a b d e. d (sym e)) p h)

-- A chain of calls of methods that write pairwise different parts of the request makes the same request in
-- every order of the calls.
pub chain_perm :
    (c : CharKind) (ms ms' : List Method) (o : RangeOptions) (t : RangeRequest)
    → Distinct ms
    → Permᴰ ms ms'
    → apply (chain c ms o) t ≡ apply (chain c ms' o) t
chain_perm c ms ms' o t h p =
    apply-chain c ms o t ∙ setters_perm c (apply o t) p h ∙ sym (apply-chain c ms' o t)
