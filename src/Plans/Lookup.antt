-- ===== src/Plans/Lookup.antt =====
-- `findByExternalId`.
use native.Mathlib.Omega.{arith}
use agapornis_api.Common.{
  String, true, false, ◌==◌, ◌≡◌, refl, ap, sym, ◌∙◌, subst, string_eq, ==_iff, ◌⊎◌, inl, inr, none,
  some, any, is_some, find, find_sound, is_some-find, Bool-cases, List, [], ◌∷◌, All, All-imp,
}
use agapornis_api.Common.Dict.{values}
use agapornis_api.Common.Sorting.{any-sort_by, All-sort_by}
use agapornis_api.Common.Text.{is_empty, to_lower, trim}
use agapornis_api.Plans.Records.{Plan}
use agapornis_api.Plans.Service.{
  Service, find_by_external_id, list_plans, carries, normalize_key, by_name,
}

-- The list has the element.
abbrev pub Has : {A : Type 0} → List A → A → Type 0
Has [] x = ⊥
Has (y ∷ ys) x = (y ≡ x) ⊎ Has ys x

-- The plan has the text, but for case and outer white space, as its id or as an external id.
abbrev pub IsNamed : Plan → String → Type 0
IsNamed p value =
    (x : String) × Has (p.id ∷ p.external_ids) x × (to_lower (trim x) ≡ to_lower (trim value))

normalize_key_lem : (x : String) → normalize_key x ≡ to_lower (trim x)
unfolding normalize_key
normalize_key_lem x = refl

any_sound :
    (key : String) (xs : List String)
    → any (λ x. normalize_key x == key) xs ≡ true
    → (x : String) × Has xs x × (normalize_key x ≡ key)
any_sound key [] h = absurd (ground arith)
any_sound key (x ∷ xs) h = elim (Bool-cases (normalize_key x == key)) [
  | inl hit ↦ (x, inl refl, (==_iff (normalize_key x) key).0 hit)
  | inr miss ↦ let (y, m, e) = any_sound key xs (ground arith) in (y, inr m, e)
]

any_complete :
    (key x : String) (xs : List String)
    → Has xs x
    → normalize_key x ≡ key
    → any (λ y. normalize_key y == key) xs ≡ true
any_complete key x [] absent same = absurd absent
any_complete key x (y ∷ ys) (inl e) same =
    let hit : (normalize_key y == key) ≡ true = (==_iff (normalize_key y) key).1 (rw e same) in
    ground (arith, hit)
any_complete key x (y ∷ ys) (inr m) same = ground (arith, any_complete key x ys m same)

carries_sound :
    (value : String) (p : Plan)
    → carries (normalize_key value) p ≡ true
    → (p.enabled ≡ true) × IsNamed p value
carries_sound value p h =
    let (x, m, e) = any_sound (normalize_key value) (p.id ∷ p.external_ids) (ground arith) in
    (ground arith, (x, m, sym (normalize_key_lem x) ∙ e ∙ normalize_key_lem value))

carries_complete :
    (value : String) (p : Plan)
    → p.enabled ≡ true
    → IsNamed p value
    → carries (normalize_key value) p ≡ true
carries_complete value p on (x, m, e) =
    let hit =
      any_complete (normalize_key value) x (p.id ∷ p.external_ids) m
        (normalize_key_lem x ∙ e ∙ sym (normalize_key_lem value)) in
    ground (arith, hit)

any-Has :
    (key : String) (p : Plan) (ps : List Plan)
    → Has ps p
    → carries key p ≡ true
    → any (carries key) ps ≡ true
any-Has key p [] absent h = absurd absent
any-Has key p (q ∷ qs) (inl e) h =
    let here : carries key q ≡ true = ap (carries key) e ∙ h in ground (arith, here)
any-Has key p (q ∷ qs) (inr m) h = ground (arith, any-Has key p qs m h)

-- What holds of all of a list holds of what `find` gives.
find-All :
    (P : Plan → Type 0) (key : String) (ps : List Plan) (p : Plan)
    → All P ps
    → find (carries key) ps ≡ some p
    → P p
find-All P key [] p h e = absurd (ground arith)
find-All P key (q ∷ qs) p (here, later) e = elim (Bool-cases (carries key q)) [
  | inl hit ↦ let same : q ≡ p = ground arith in subst P same here
  | inr miss ↦ find-All P key qs p later (ground arith)
]

All-Has : (ps : List Plan) → All (Has ps) ps
All-Has [] = tt
All-Has (q ∷ qs) = (inl refl, All-imp {Q = Has (q ∷ qs)} (λ x m. inr m) qs (All-Has qs))

find_by_external_id_lem :
    (s : Service) (value : String)
    → is_empty (normalize_key value) ≡ false
    → find_by_external_id s value ≡ find (carries (normalize_key value)) (list_plans s)
unfolding find_by_external_id
find_by_external_id_lem s value there = rw there refl

find_by_external_id_blank :
    (s : Service) (value : String)
    → is_empty (normalize_key value) ≡ true
    → find_by_external_id s value ≡ none
unfolding find_by_external_id
find_by_external_id_blank s value blank = rw blank refl

-- A text that is blank finds no plan. A text that is not finds a plan whenever a stored plan is
-- enabled and has the text as its id or as one of its external ids, but for case and outer white
-- space. The plan that is found is stored, is enabled and has the text in that way.
pub find_by_external_id_iff :
    (s : Service) (value : String)
    → (is_empty (to_lower (trim value)) ≡ true → find_by_external_id s value ≡ none)
      × ((p : Plan)
          → is_empty (to_lower (trim value)) ≡ false
          → Has (values s.plans) p
          → p.enabled ≡ true
          → IsNamed p value
          → is_some (find_by_external_id s value) ≡ true)
      × ((p : Plan)
          → find_by_external_id s value ≡ some p
          → Has (values s.plans) p × (p.enabled ≡ true) × IsNamed p value)
unfolding list_plans
find_by_external_id_iff s value =
    let key = normalize_key value in
    let same = normalize_key_lem value in
    (
      λ blank. find_by_external_id_blank s value (rw same blank),
      λ p there has on named.
          let hit = any-Has key p (values s.plans) has (carries_complete value p on named) in
          ap is_some (find_by_external_id_lem s value (rw same there))
          ∙ is_some-find (carries key) (list_plans s)
          ∙ any-sort_by (by_name s) (carries key) (values s.plans)
          ∙ hit,
      λ p h. elim (Bool-cases (is_empty key)) [
        | inl blank ↦ absurd (ground (arith, find_by_external_id_blank s value blank))
        | inr there ↦
            let at : find (carries key) (list_plans s) ≡ some p =
              sym (find_by_external_id_lem s value there) ∙ h in
            let all =
              All-sort_by (by_name s) (Has (values s.plans)) (values s.plans)
                (All-Has (values s.plans)) in
            let good = carries_sound value p (find_sound (carries key) (list_plans s) {a = p} at) in
            (find-All (Has (values s.plans)) key (list_plans s) p all at, good.0, good.1)
      ],
    )
