-- ===== src/Plans/Histories.antt =====
-- What holds of every stored plan over any history of creations, updates and removals.
use Prim.Native.Nat.{ℕ, ◌<◌}
use native.Mathlib.Omega.{arith}
use agapornis_api.Common.{
  String, true, ◌≡◌, refl, ap, ◌∙◌, subst, inl, inr, some, List, [], ◌∷◌, Bool-cases, Result, ok,
  err, Holds, Holds-and_then, Holds-any, Holds-imp, Holds-all, expect-Holds, ◌==◌, ==_iff,
  string_eq, refuse_if, expect,
}
use agapornis_api.Common.Dict.{get, set, delete, has, get-set, get-delete-some}
use agapornis_api.Plans.Fields.{PlanError, server, already_exists, not_found}
use agapornis_api.Plans.Records.{Plan, PlanRequest}
use agapornis_api.Plans.Literals.{new_plan, next_plan}
use agapornis_api.Plans.Drafts.{IsDraft, IsNext, new_plan-IsDraft, next_plan-IsDraft}
use agapornis_api.Plans.Service.{
  Service, create, update, remove, validate_swap, swap_too_large, is_charged,
}

-- Swap that is charged to the server leaves it some disk.
abbrev pub SwapFits : Plan → Type 0
SwapFits p = p.swap_memory_storage ≡ server → 0 < p.swap_memory_mb → p.swap_memory_mb < p.disk_mb

-- Every plan is stored under its own id and passes the checks.
abbrev pub AreValid : List (String × Plan) → Type 0
AreValid plans =
    (k : String) (p : Plan) → get k plans ≡ some p → (p.id ≡ k) × (IsDraft p) × (SwapFits p)

abbrev pub IsValid : Service → Type 0
IsValid s = AreValid s.plans

pub data Event : Type 0 where
  creates : String → ℕ → PlanRequest → Event
  updates : String → ℕ → PlanRequest → Event
  removes : String → Event

abbrev pub after : Service → Result PlanError (Plan × Service) → Service
after s (ok (p, s')) = s'
after s (err e) = s

abbrev pub left : Service → Result PlanError Service → Service
left s (ok s') = s'
left s (err e) = s

unfoldable pub apply : Service → Event → Service
apply s (creates uuid now input) = after s (create s uuid now input)
apply s (updates id now input) = after s (update s id now input)
apply s (removes id) = left s (remove s id)

unfoldable pub run : Service → List Event → Service
run s [] = s
run s (e ∷ es) = run (apply s e) es

validate_swap_lem : (p : Plan) → Holds (λ _. SwapFits p) (validate_swap p)
unfolding validate_swap
validate_swap_lem p = elim (Bool-cases (swap_too_large p)) [
  | inl large ↦ ground arith
  | inr fits ↦
      let charged : p.swap_memory_storage ≡ server → is_charged p.swap_memory_storage ≡ true =
        λ e. ap is_charged e in
      let holds : SwapFits p = λ e some_swap. ground (arith, charged e, fits) in
      Holds-imp (validate_swap p) (Holds-all (validate_swap p)) λ _ _. holds
]

-- Storing a plan that passes the checks under its id.
set-AreValid :
    (plans : List (String × Plan)) (k : String) (p : Plan)
    → AreValid plans
    → p.id ≡ k
    → IsDraft p
    → SwapFits p
    → AreValid (set k p plans)
set-AreValid plans k p valid named draft swap j q h = elim (Bool-cases (k == j)) [
  | inl hit ↦
      let same : p ≡ q = ground (arith, get-set k j p plans) in
      let key : k ≡ j = (==_iff k j).0 hit in
      subst (λ x. (x.id ≡ j) × (IsDraft x) × (SwapFits x)) same (named ∙ key, draft, swap)
  | inr apart ↦
      let old : get j plans ≡ some q = ground (arith, h, get-set k j p plans) in valid j q old
]

delete-AreValid :
    (plans : List (String × Plan)) (k : String) → AreValid plans → AreValid (delete k plans)
delete-AreValid plans k valid j q h = valid j q (get-delete-some k j plans q h)

create-IsValid :
    (s : Service) (uuid : String) (now : ℕ) (input : PlanRequest)
    → IsValid s
    → Holds (λ x. IsValid x.1) (create s uuid now input)
unfolding create
create-IsValid s uuid now input valid =
    let Q : Plan × Service → Type 0 = λ x. IsValid x.1 in
    Holds-and_then IsDraft Q (new_plan uuid now input) _ (new_plan-IsDraft uuid now input)
      λ p draft. Holds-any Q (refuse_if (has p.id s.plans) already_exists) _ λ _.
        Holds-and_then (λ _. SwapFits p) Q (validate_swap p) _ (validate_swap_lem p)
          λ _ swap. set-AreValid s.plans p.id p valid refl draft swap

update-IsValid :
    (s : Service) (id : String) (now : ℕ) (input : PlanRequest)
    → IsValid s
    → Holds (λ x. IsValid x.1) (update s id now input)
unfolding update
update-IsValid s id now input valid =
    let Q : Plan × Service → Type 0 = λ x. IsValid x.1 in
    Holds-and_then (λ old. get id s.plans ≡ some old) Q (expect not_found (get id s.plans)) _
      (expect-Holds not_found (get id s.plans))
      λ old there.
        let (named, draft, _) = valid id old there in
        Holds-and_then (IsNext old) Q (next_plan old now input) _
          (next_plan-IsDraft old now input draft)
          λ p (same, draft').
            Holds-and_then (λ _. SwapFits p) Q (validate_swap p) _ (validate_swap_lem p)
              λ _ swap. set-AreValid s.plans old.id p valid same draft' swap

remove-IsValid : (s : Service) (id : String) → IsValid s → Holds IsValid (remove s id)
unfolding remove
remove-IsValid s id valid = elim (Bool-cases (has id s.plans)) [
  | inl there ↦ rw there (delete-AreValid s.plans id valid)
  | inr gone ↦ rw gone tt
]

after-IsValid :
    (s : Service) (r : Result PlanError (Plan × Service))
    → IsValid s
    → Holds (λ x. IsValid x.1) r
    → IsValid (after s r)
after-IsValid s (ok (p, s')) valid h = h
after-IsValid s (err e) valid h = valid

left-IsValid :
    (s : Service) (r : Result PlanError Service) → IsValid s → Holds IsValid r → IsValid (left s r)
left-IsValid s (ok s') valid h = h
left-IsValid s (err e) valid h = valid

apply-IsValid : (s : Service) (e : Event) → IsValid s → IsValid (apply s e)
unfolding apply
apply-IsValid s (creates uuid now input) valid =
    after-IsValid s (create s uuid now input) valid (create-IsValid s uuid now input valid)
apply-IsValid s (updates id now input) valid =
    after-IsValid s (update s id now input) valid (update-IsValid s id now input valid)
apply-IsValid s (removes id) valid = left-IsValid s (remove s id) valid (remove-IsValid s id valid)

-- From a service whose plans pass the checks, no history of creations, updates and removals, with
-- whatever requests, leads to a plan that does not: each is stored under its own id, which is not
-- empty and made of lower case letters, digits, `_` and `-`; its egg is not empty and one of its
-- allowed eggs; it has at most 32 ports; and swap charged to the server is less than its disk.
pub run-IsValid : (s : Service) (es : List Event) → IsValid s → IsValid (run s es)
unfolding run
run-IsValid s [] valid = valid
run-IsValid s (e ∷ es) valid = run-IsValid (apply s e) es (apply-IsValid s e valid)
