-- ===== src/NodeStats/Window.antt =====
-- The samples that are kept of a node.
use Prim.Native.Nat.{ℕ, zero, suc, ◌+◌, ◌-◌, ◌≤◌}
use native.Mathlib.Omega.{arith}
use mathlib.Core.List.{append-nil, append_assoc}
use agapornis_api.Common.{
  String, Bool, ◌≡◌, refl, sym, ap, ◌∙◌, inl, inr, List, [], ◌∷◌, ◌++◌, map, filter, length,
  length-append, drop, length-drop, take_last, ◌==◌, ==_iff, string_eq, Bool-cases, if◌then◌else◌,
  ltb,
}
use agapornis_api.Common.Dict.{get-set}
use agapornis_api.NodeStats.{
  HealthSample, Reading, Service, sample_of, pushed, history_of, with_analytics,
}

drop-append {ℓ} :
    {A : Type ℓ} (n : ℕ) (xs ys : List A) → n ≤ length xs → drop n (xs ++ ys) ≡ drop n xs ++ ys
drop-append zero xs ys h = refl
drop-append (suc n) [] ys h = absurd (omega arith)
drop-append (suc n) (x ∷ xs) ys h = drop-append n xs ys (omega arith)

drop_none {ℓ} : {A : Type ℓ} (n : ℕ) → drop {A = A} n [] ≡ []
drop_none zero = refl
drop_none (suc n) = refl

drop_one-drop {ℓ} : {A : Type ℓ} (m : ℕ) (xs : List A) → drop 1 (drop m xs) ≡ drop (suc m) xs
drop_one-drop zero xs = refl
drop_one-drop (suc m) [] = refl
drop_one-drop (suc m) (x ∷ xs) = drop_one-drop m xs

-- The last `limit` samples, with one more.
pushed-take_last :
    (limit : ℕ) (xs : List HealthSample) (x : HealthSample)
    → pushed limit (take_last limit xs) x ≡ take_last limit (xs ++ x ∷ [])
unfolding pushed
pushed-take_last limit xs x =
    let k = length xs - limit in
    let all = xs ++ x ∷ [] in
    let longer = drop k xs ++ x ∷ [] in
    let same : longer ≡ drop k all = sym (drop-append k xs (x ∷ []) (omega arith)) in
    let size : length longer ≡ length xs - k + 1 =
      omega (arith, length-append (drop k xs) (x ∷ []), length-drop k xs) in
    let whole : length all ≡ length xs + 1 = omega (arith, length-append xs (x ∷ [])) in
    elim (Bool-cases (ltb limit (length longer))) [
      | inl over ↦
          let one : length longer - limit ≡ 1 = ground (arith, over, size) in
          let all_but : suc k ≡ length all - limit = ground (arith, over, size, whole) in
          rw over (
            ap (λ n. drop n longer) one
            ∙ ap (drop 1) same
            ∙ drop_one-drop k all
            ∙ ap (λ n. drop n all) all_but)
      | inr fits ↦
          let none_off : k ≡ length all - limit = ground (arith, fits, size, whole) in
          rw fits (same ∙ ap (λ n. drop n all) none_off)
    ]

-- The readings of one node.
abbrev pub of_node : String → Reading → Bool
of_node id row = row.node_id == id

unfoldable pub run : Service → List Reading → Service
run s [] = s
run s (row ∷ rows) = run (with_analytics s row).1 rows

history_of-with_analytics :
    (s : Service) (row : Reading) (id : String)
    → history_of (with_analytics s row).1 id ≡ (
        if row.node_id == id
        then pushed s.sample_limit (history_of s id) (sample_of row)
        else history_of s id)
unfolding with_analytics
history_of-with_analytics s row id =
    let longer = pushed s.sample_limit (history_of s row.node_id) (sample_of row) in
    elim (Bool-cases (row.node_id == id)) [
      | inl hit ↦
          let same : row.node_id ≡ id = (==_iff row.node_id id).0 hit in
          let moved : longer ≡ pushed s.sample_limit (history_of s id) (sample_of row) =
            ap (λ k. pushed s.sample_limit (history_of s k) (sample_of row)) same in
          ground (arith, hit, moved, get-set row.node_id id longer s.samples)
      | inr apart ↦ ground (arith, apart, get-set row.node_id id longer s.samples)
    ]

run-history :
    (s : Service) (rows : List Reading) (id : String) (old : List HealthSample)
    → history_of s id ≡ take_last s.sample_limit old
    → history_of (run s rows) id
      ≡ take_last s.sample_limit (old ++ map sample_of (filter (of_node id) rows))
unfolding run with_analytics
run-history s [] id old h = h ∙ ap (take_last s.sample_limit) (sym (append-nil old))
run-history s (row ∷ rows) id old h =
    let s' = (with_analytics s row).1 in
    let limit = s.sample_limit in
    let rest = map sample_of (filter (of_node id) rows) in
    let step = history_of-with_analytics s row id in
    elim (Bool-cases (row.node_id == id)) [
      | inl hit ↦
          let x = sample_of row in
          let now : history_of s' id ≡ pushed limit (history_of s id) x =
            ground (arith, hit, step) in
          let more : history_of s' id ≡ take_last limit (old ++ x ∷ []) =
            now ∙ ap (λ xs. pushed limit xs x) h ∙ pushed-take_last limit old x in
          rw hit (
            run-history s' rows id (old ++ x ∷ []) more
            ∙ ap (take_last limit) (append_assoc old (x ∷ []) rest))
      | inr apart ↦
          let now : history_of s' id ≡ history_of s id = ground (arith, apart, step) in
          rw apart (run-history s' rows id old (now ∙ h))
    ]

-- From no samples, after readings of any nodes in any order, the samples of a node are those of its
-- last readings, as many as the limit says, in their order.
pub run_window :
    (s : Service) (rows : List Reading) (id : String)
    → history_of s id ≡ []
    → history_of (run s rows) id
      ≡ take_last s.sample_limit (map sample_of (filter (of_node id) rows))
run_window s rows id h =
    run-history s rows id [] (ground (arith, h, drop_none {A = HealthSample} (0 - s.sample_limit)))
