-- ===== src/Kv/RangeOptions/Unordered.antt =====
-- Calls of methods of `RangeOptions` without an order, where no two write the same part of the request.
use mathlib.Core.Quot
use mathlib.Core.Logic.Or
use mathlib.Core.Quot.{Quot}
use mathlib.Core.List.{Permᴰ, Pairwise, Mem, eq-or-mem_of_mem-cons, not-mem-nil}
use mathlib.Core.HLevel.{⊥_prop}
use etcdv3client.Prelude.{
  ℕ, suc, ◌<◌, ◌≤◌, ◌≡◌, refl, sym, ◌∙◌, ap, subst, Bool, true, false, List, [], ◌∷◌, ◌++◌, arith,
}
use etcdv3client.Options.{apply}
use etcdv3client.Prefix.{CharKind}
use etcdv3client.Proto.Kv.{
  RangeRequest, default_range_request, SortOrder, unsorted, ascend, descend, SortTarget, by_key,
  by_version, by_create, by_mod, by_value,
}
use etcdv3client.Kv.RangeOptions.Commute.{
  Method, Field, field, range, limit, revision, order, target, min_mod, max_mod, min_create,
  max_create, serializable, keys_only, count_only,
}
use etcdv3client.Kv.RangeOptions.Permuted.{chain, Distinct, chain_perm}
use etcdv3client.Kv.RangeOptions.Complete.{
  methods_of, optional_methods, order_methods, flag, target_method, methods_of-chain,
}

pub RangeRequest-set : IsSet RangeRequest
RangeRequest-set = hlevel

-- The parts of a request in the order in which `methods_of` writes them.
abbrev rank : Field → ℕ
rank range = 0
rank limit = 1
rank revision = 2
rank min_mod = 3
rank max_mod = 4
rank min_create = 5
rank max_create = 6
rank target = 7
rank order = 8
rank serializable = 9
rank keys_only = 10
rank count_only = 11

abbrev Ascending : ℕ → List Method → Type 0
Ascending k [] = Unit {0}
Ascending k (m ∷ ms) = (k ≤ rank (field m)) × Ascending (suc (rank (field m))) ms

Ascending-mem :
    (k : ℕ) (m : Method) (ms : List Method) → Ascending k ms → rank (field m) < k → ¬ Mem m ms
Ascending-mem k m [] h lt i = not-mem-nil i
Ascending-mem k m (m' ∷ ms) h lt i =
    Or.elim ⊥_prop (eq-or-mem_of_mem-cons i)
      (λ e. let same : rank (field m) ≡ rank (field m') = ap (λ x. rank (field x)) e in omega arith)
      (Ascending-mem (suc (rank (field m'))) m ms h.1 (omega arith))

Ascending-Distinct : (k : ℕ) (ms : List Method) → Ascending k ms → Distinct ms
Ascending-Distinct k [] h = Pairwise.nil
Ascending-Distinct k (m ∷ ms) h =
    Pairwise.cons
      (λ b i e.
        Ascending-mem (suc (rank (field m))) b ms h.1
          (let same : rank (field m) ≡ rank (field b) = ap rank e in omega arith) i)
      (Ascending-Distinct (suc (rank (field m))) ms h.1)

Ascending-weaken : (j k : ℕ) (ms : List Method) → j ≤ k → Ascending k ms → Ascending j ms
Ascending-weaken j k [] le h = tt
Ascending-weaken j k (m ∷ ms) le h = (omega arith, h.1)

-- A flag that is set, and what comes after it.
flag-Ascending :
    (b : Bool) (m : Method) (k : ℕ) (ms : List Method)
    → k ≡ rank (field m)
    → Ascending (suc k) ms
    → Ascending k (flag b m ++ ms)
flag-Ascending true m k ms e h = (omega arith, subst (λ n. Ascending (suc n) ms) e h)
flag-Ascending false m k ms e h = Ascending-weaken k (suc k) ms (omega arith) h

last-Ascending : (b : Bool) (m : Method) (k : ℕ) → k ≡ rank (field m) → Ascending k (flag b m)
last-Ascending true m k e = (omega arith, tt)
last-Ascending false m k e = tt

order-Ascending :
    (x : SortOrder) (ms : List Method) → Ascending 9 ms → Ascending 8 (order_methods x ++ ms)
order-Ascending unsorted ms h = Ascending-weaken 8 9 ms (omega arith) h
order-Ascending ascend ms h = (omega arith, h)
order-Ascending descend ms h = (omega arith, h)

target-Ascending :
    (x : SortTarget) (ms : List Method) → Ascending 8 ms → Ascending 7 (target_method x ∷ ms)
target-Ascending by_key ms h = (omega arith, h)
target-Ascending by_version ms h = (omega arith, h)
target-Ascending by_create ms h = (omega arith, h)
target-Ascending by_mod ms h = (omega arith, h)
target-Ascending by_value ms h = (omega arith, h)

pub methods_of-Distinct : (r : RangeRequest) → Distinct (methods_of r)
methods_of-Distinct r = Ascending-Distinct 0 (methods_of r) (
  omega arith,
  (
    omega arith,
    (
      omega arith,
      (
        omega arith,
        (
          omega arith,
          (
            omega arith,
            (
              omega arith,
              target-Ascending r.sort_target (optional_methods r)
                  (order-Ascending r.sort_order _ flags),
            ),
          ),
        ),
      ),
    ),
  ),
)
  where
    flags : Ascending 9 (
        flag r.serializable serializable
        ++ (flag r.keys_only keys_only ++ flag r.count_only count_only))
    flags = flag-Ascending r.serializable serializable 9 _ refl (
        flag-Ascending r.keys_only keys_only 10 _ refl
          (last-Ascending r.count_only count_only 11 refl))

abbrev pub Calls : Type 0
Calls = (ms : List Method) × Distinct ms

abbrev pub Unordered : Type 0
Unordered = Quot {α = Calls} (λ a b. Permᴰ a.0 b.0)

-- The request that the calls make, in whatever order.
unfoldable pub made : CharKind → RangeRequest → Unordered → RangeRequest
made c t =
    Quot.lift RangeRequest-set (λ calls. apply (chain c calls.0 []) t)
      (λ a b p. chain_perm c a.0 b.0 [] t a.1 p)

abbrev pub unordered_methods_of : RangeRequest → Unordered
unordered_methods_of r = Quot.mk (methods_of r, methods_of-Distinct r)

-- The calls that are read off a request to read a range, without their order, make the request from its key;
-- and so does every chain of these calls, whatever order they come in.
pub unordered_methods_of-made :
    (c : CharKind) (r : RangeRequest)
    → (made c (record default_range_request { key = r.key }) (unordered_methods_of r) ≡ r)
      × ((ms : List Method)
          → Permᴰ (methods_of r) ms
          → apply (chain c ms []) (record default_range_request { key = r.key }) ≡ r)
unfolding made
unordered_methods_of-made c r = (
  methods_of-chain c r,
  λ ms p.
      sym (
        chain_perm c (methods_of r) ms [] (record default_range_request { key = r.key })
          (methods_of-Distinct r) p)
      ∙ methods_of-chain c r,
)
