-- ===== src/Plans/Drafts.antt =====
-- What the checks of `create` and `update` make sure of, but for the swap, which is checked last.
use Prim.Native.Nat.{ℕ, ◌≤◌}
use native.Mathlib.Omega.{arith}
use agapornis_api.Common.{
  String, true, false, not, ◌≡◌, refl, sym, subst, inl, inr, Option, none, some, List, ◌∷◌, map,
  filter, contains, contains-dedupe, Bool-cases, Result, ok, ◌>>=◌, Holds, Holds-and_then,
  Holds-any, Holds-imp, ==_refl, string_eq, get_or, and_then,
}
use agapornis_api.Common.Text.{text_or, trim, to_lower, is_empty, any_char, is_char, strip}
use agapornis_api.Common.Text.Trims.{is_empty-trim, trim_idempotent}
use agapornis_api.Common.Text.Runs.{replace_runs, any_char-replace_runs}
use agapornis_api.Common.Text.Splits.{any_char-strip}
use agapornis_api.Plans.Catalog.{Names, listed, items, text}
use agapornis_api.Plans.Fields.{
  Number, PlanError, required_string, plan_id, is_id_char, not_empty, allowed_egg_ids,
  positive_number, pinned_threads,
}
use agapornis_api.Plans.Records.{Plan, PlanRequest}
use agapornis_api.Plans.Literals.{
  new_plan, next_plan, kept_or, at_most_32, next_eggs, given, range_end, positive_or, zero_or,
  ports_or_one, whole, whole_or_zero,
}

-- The id is made of lower case letters, digits, `_` and `-`; the egg is one of the allowed eggs; a
-- plan has at most 32 ports.
abbrev pub IsDraft : Plan → Type 0
IsDraft p =
    (is_empty p.id ≡ false)
    × (any_char (λ c. not (is_id_char c)) p.id ≡ false)
    × (trim p.egg_id ≡ p.egg_id)
    × (is_empty p.egg_id ≡ false)
    × (contains p.allowed_egg_ids p.egg_id ≡ true)
    × (p.port_count ≤ 32)

-- What `required_string` returns for a value.
abbrev IsTrimmed : Option String → String → Type 0
IsTrimmed value t = (t ≡ trim (get_or value "")) × (is_empty t ≡ false)

abbrev IsPlanId : String → Type 0
IsPlanId t = (is_empty t ≡ false) × (any_char (λ c. not (is_id_char c)) t ≡ false)

required_string_lem :
    (value : Option String) (field : String) → Holds (IsTrimmed value) (required_string value field)
unfolding required_string
required_string_lem value field = elim (Bool-cases (is_empty (trim (get_or value "")))) [
  | inl e ↦ ground arith
  | inr e ↦ ground arith
]

plan_id_lem : (value : String) → Holds IsPlanId (plan_id value)
unfolding plan_id
plan_id_lem value =
    let slug = replace_runs is_id_char "-" (to_lower (trim value)) in
    let plain =
      any_char-strip (λ c. not (is_id_char c)) (is_char b'-') slug
        (any_char-replace_runs is_id_char "-" (to_lower (trim value)) refl) in
    elim (Bool-cases (is_empty (strip (is_char b'-') slug))) [
      | inl e ↦ ground arith
      | inr e ↦ ground arith
    ]

allowed_egg_ids_lem :
    (names : Option Names) (value : Option String)
    → is_empty (trim (get_or value "")) ≡ false
    → contains (allowed_egg_ids names value) (trim (get_or value "")) ≡ true
unfolding allowed_egg_ids
allowed_egg_ids_lem names value h =
    let primary = trim (get_or value "") in
    let ids = filter not_empty (map trim (items (get_or names (text "")))) in
    ground (arith, contains-dedupe (primary ∷ ids) primary, ==_refl primary)

-- The egg of a plan with those that it allows.
abbrev IsEgg : List String → String → Type 0
IsEgg allowed egg = (trim egg ≡ egg) × (is_empty egg ≡ false) × (contains allowed egg ≡ true)

allowed_egg_ids-IsEgg :
    (names : Option Names) (value : Option String) (egg : String)
    → IsTrimmed value egg
    → IsEgg (allowed_egg_ids names value) egg
allowed_egg_ids-IsEgg names value egg (same, there) =
    subst (IsEgg (allowed_egg_ids names value)) (sym same) (
      trim_idempotent (get_or value ""),
      ground arith,
      allowed_egg_ids_lem names value (ground arith),
    )

required-IsEgg :
    (ids : Option Names) (v old : String)
    → Holds
        (IsEgg (allowed_egg_ids ids (some (text_or (some v) old))))
        (required_string (some v) "eggId")
required-IsEgg ids v old =
    Holds-imp {P = IsTrimmed (some v)} (required_string (some v) "eggId")
      (required_string_lem (some v) "eggId")
      λ t trimmed. elim (Bool-cases (is_empty v)) [
        | inl e ↦ absurd (ground (arith, is_empty-trim v e, trimmed))
        | inr e ↦
            let same : text_or (some v) old ≡ v = ground arith in
            subst (λ x. IsEgg (allowed_egg_ids ids (some x)) t) (sym same)
              (allowed_egg_ids-IsEgg ids (some v) t trimmed)
      ]

next_eggs-IsEgg :
    (names : Option Names) (value : Option String) (old : String) (olds : List String)
    → IsEgg olds old
    → Holds
        (IsEgg (next_eggs names value old olds))
        (kept_or value old (λ v. required_string (some v) "eggId"))
next_eggs-IsEgg none none old olds h = h
next_eggs-IsEgg (some names) none old olds (trims, there, _) =
    allowed_egg_ids-IsEgg (some names) (some old) old (sym trims, there)
next_eggs-IsEgg none (some v) old olds h = required-IsEgg (some (listed olds)) v old
next_eggs-IsEgg (some names) (some v) old olds h = required-IsEgg (some names) v old

few_ports_lem :
    (value : Option Number) (old : ℕ)
    → old ≤ 32
    → Holds
        (λ n. n ≤ 32)
        (kept_or value (ports_or_one old) (λ v. whole "portCount" v >>= λ n. ok (at_most_32 n)))
few_ports_lem none old h = ground arith
few_ports_lem (some v) old h = Holds-any (λ n. n ≤ 32) (whole "portCount" v) _ λ n. omega arith

abbrev skip :
    {A : Type 0} (Q : Plan → Type 0) (r : Result PlanError A) (k : A → Result PlanError Plan)
    → ((a : A) → Holds Q (k a))
    → Holds Q (and_then r k)
skip Q = Holds-any Q

pub new_plan-IsDraft :
    (uuid : String) (now : ℕ) (input : PlanRequest) → Holds IsDraft (new_plan uuid now input)
unfolding new_plan
new_plan-IsDraft uuid now input =
    Holds-and_then IsPlanId IsDraft (plan_id (text_or input.id (text_or input.name uuid))) _
      (plan_id_lem _)
      λ id (id_set, id_plain). skip IsDraft (required_string input.name "name") _ λ name.
        Holds-and_then (IsTrimmed input.egg_id) IsDraft (required_string input.egg_id "eggId") _
          (required_string_lem _ _)
          λ egg (trimmed, egg_set).
            skip IsDraft (positive_number (given input.memory_mb) "memoryMb") _ λ memory.
              skip IsDraft (positive_number (given input.disk_mb) "diskMb") _ λ disk.
                skip IsDraft (positive_or input.cpu_limit_percentage 100 "cpuLimitPercentage") _
                  λ cpu. skip IsDraft (pinned_threads input.cpu_pinned_threads) _ λ threads.
                    skip IsDraft (zero_or input.swap_memory_mb "swapMemoryMb") _ λ swap.
                      skip IsDraft (positive_or input.port_count 1 "portCount") _ λ ports.
                        skip IsDraft (zero_or input.database_limit "databaseLimit") _ λ databases.
                          skip IsDraft (positive_or input.database_memory_mb 512 "databaseMemoryMb")
                            _
                            λ db_memory.
                              skip IsDraft
                                (positive_or input.database_disk_mb 1024 "databaseDiskMb") _
                                λ db_disk.
                                  skip IsDraft
                                    (positive_or input.database_cpu_limit_percentage 50
                                      "databaseCpuLimitPercentage")
                                    _
                                    λ db_cpu.
                                      skip IsDraft
                                        (positive_or input.database_port_range_start 33060
                                          "databasePortRangeStart")
                                        _
                                        λ start.
                                          skip IsDraft
                                            (positive_number (range_end input)
                                              "databasePortRangeEnd")
                                            _
                                            λ end.
                                              skip IsDraft
                                                (zero_or input.backup_limit "backupLimit") _
                                                λ backups.
                                                  let (trims, there, allowed) =
                                                    allowed_egg_ids-IsEgg input.allowed_egg_ids
                                                      input.egg_id egg (trimmed, egg_set) in
                                                  (
                                                    id_set,
                                                    id_plain,
                                                    trims,
                                                    there,
                                                    allowed,
                                                    omega arith,
                                                  )

-- An update keeps the id.
abbrev pub IsNext : Plan → Plan → Type 0
IsNext old p = (p.id ≡ old.id) × IsDraft p

pub next_plan-IsDraft :
    (old : Plan) (now : ℕ) (input : PlanRequest)
    → IsDraft old
    → Holds (IsNext old) (next_plan old now input)
unfolding next_plan
next_plan-IsDraft old now input (id_set, id_plain, trims, there, allowed, few) =
    skip (IsNext old) (kept_or input.name old.name (λ v. required_string (some v) "name")) _ λ name.
      Holds-and_then
        (IsEgg (next_eggs input.allowed_egg_ids input.egg_id old.egg_id old.allowed_egg_ids))
        (IsNext old) (kept_or input.egg_id old.egg_id (λ v. required_string (some v) "eggId")) _
        (next_eggs-IsEgg input.allowed_egg_ids input.egg_id old.egg_id old.allowed_egg_ids
          (trims, there, allowed))
        λ egg (trims', there', allowed').
          skip (IsNext old) (kept_or input.memory_mb old.memory_mb (whole "memoryMb")) _ λ memory.
            skip (IsNext old) (kept_or input.disk_mb old.disk_mb (whole "diskMb")) _ λ disk.
              skip (IsNext old)
                (kept_or input.cpu_limit_percentage old.cpu_limit_percentage
                  (whole "cpuLimitPercentage"))
                _
                λ cpu.
                  skip (IsNext old)
                    (kept_or input.cpu_pinned_threads old.cpu_pinned_threads
                      (λ v. pinned_threads (some v)))
                    _
                    λ threads.
                      skip (IsNext old)
                        (kept_or input.swap_memory_mb old.swap_memory_mb
                          (whole_or_zero "swapMemoryMb"))
                        _
                        λ swap.
                          Holds-and_then (λ n. n ≤ 32) (IsNext old)
                            (kept_or input.port_count (ports_or_one old.port_count)
                              (λ v. whole "portCount" v >>= λ n. ok (at_most_32 n)))
                            _ (few_ports_lem input.port_count old.port_count few)
                            λ ports few'.
                              skip (IsNext old)
                                (kept_or input.database_limit old.database_limit
                                  (whole_or_zero "databaseLimit"))
                                _
                                λ databases.
                                  skip (IsNext old)
                                    (kept_or input.database_memory_mb old.database_memory_mb
                                      (whole "databaseMemoryMb"))
                                    _
                                    λ db_memory.
                                      skip (IsNext old)
                                        (kept_or input.database_disk_mb old.database_disk_mb
                                          (whole "databaseDiskMb"))
                                        _
                                        λ db_disk.
                                          skip (IsNext old)
                                            (kept_or input.database_cpu_limit_percentage
                                              old.database_cpu_limit_percentage
                                              (whole "databaseCpuLimitPercentage"))
                                            _
                                            λ db_cpu.
                                              skip (IsNext old)
                                                (kept_or input.database_port_range_start
                                                  old.database_port_range_start
                                                  (whole "databasePortRangeStart"))
                                                _
                                                λ start.
                                                  skip (IsNext old)
                                                    (kept_or input.database_port_range_end
                                                      old.database_port_range_end
                                                      (whole "databasePortRangeEnd"))
                                                    _
                                                    λ end.
                                                      skip (IsNext old)
                                                        (kept_or input.backup_limit old.backup_limit
                                                          (whole_or_zero "backupLimit"))
                                                        _
                                                        λ backups. (
                                                          refl,
                                                          (
                                                            id_set, id_plain, trims', there',
                                                            allowed', few',
                                                          ),
                                                        )
