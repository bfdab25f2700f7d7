-- ===== src/Auth/TwoFactor/Limit.antt =====
-- How many attempts the limit lets through.
use agapornis_api.Common.{
  ℕ, ◌+◌, ◌≤◌, ◌<◌, String, List, [], ◌∷◌, ◌++◌, ◌≡◌, refl, ap, arith, inl, inr, ◌⊎◌, ==_refl,
  string_eq, filter, length, length-append, Bool-cases, leb, ok, err, get_or,
}
use agapornis_api.Common.Dict.{get, set, get-set, get-delete}
use agapornis_api.Auth.TwoFactor.{
  Attempts, too_many_attempts, max_attempts, in_window, recent, enforce_attempt_limit,
  clear_attempt_limit,
}

abbrev times : Attempts → String → List ℕ
times st key = get_or (get key st.attempts) []

-- An attempt for the key at a time, or the clearing of its record, which follows a success.
pub data Event : Type 0 where
  tries : ℕ → Event
  clears : Event

-- The times at which attempts for a key were let through since its record was last cleared, after
-- those of `past`.
unfoldable pub let_through : Attempts → String → List ℕ → List Event → List ℕ
unfolding clear_attempt_limit
let_through st key past [] = past
let_through st key past (clears ∷ rest) = let_through (clear_attempt_limit st key) key [] rest
let_through st key past (tries now ∷ rest) =
    let passed = λ (st' : Attempts). let_through st' key (past ++ now ∷ []) rest in
    let skipped = let_through st key past rest in
    elim (enforce_attempt_limit st key now) [ ok st' ↦ passed st' | err e ↦ skipped ]

-- The clock goes on from `clock` through the times to `now`.
abbrev pub Runs : ℕ → List Event → ℕ → Type 0
Runs clock [] now = clock ≤ now
Runs clock (tries t ∷ rest) now = (clock ≤ t) × Runs t rest now
Runs clock (clears ∷ rest) now = Runs clock rest now

abbrev within : ℕ → List ℕ → ℕ
within now ts = length (filter (in_window now) ts)

within-append : (now : ℕ) (xs ys : List ℕ) → within now (xs ++ ys) ≡ within now xs + within now ys
within-append now [] ys = omega arith
within-append now (x ∷ xs) ys = ground (arith, within-append now xs ys)

-- What is out of the window stays out.
within-filter :
    (now later : ℕ) (ts : List ℕ)
    → now ≤ later
    → within later (filter (in_window now) ts) ≡ within later ts
within-filter now later [] le = refl
within-filter now later (t ∷ ts) le = ground (arith, within-filter now later ts le)

within-le : (now : ℕ) (ts : List ℕ) → within now ts ≤ length ts
within-le now [] = omega arith
within-le now (t ∷ ts) = ground (arith, within-le now ts)

abbrev passed : Attempts → String → ℕ → Attempts
passed st key now = record { attempts = set key (recent st key now ++ now ∷ []) st.attempts }

enforce_lem :
    (st : Attempts) (key : String) (now : ℕ)
    → ((length (recent st key now) < 10)
        × (enforce_attempt_limit st key now ≡ ok (passed st key now)))
      ⊎ (enforce_attempt_limit st key now ≡ err too_many_attempts)
unfolding enforce_attempt_limit
enforce_lem st key now = elim (Bool-cases (leb max_attempts (length (recent st key now)))) [
  | inl full ↦ inr (ground arith)
  | inr room ↦ inl (ground arith, ground arith)
]

times-passed :
    (st : Attempts) (key : String) (now : ℕ)
    → times (passed st key now) key ≡ recent st key now ++ now ∷ []
times-passed st key now =
    ground (arith, get-set key key (recent st key now ++ now ∷ []) st.attempts, ==_refl key)

recent_lem :
    (st : Attempts) (key : String) (now : ℕ)
    → recent st key now ≡ filter (in_window now) (times st key)
unfolding recent
recent_lem st key now = refl

-- The record holds at most ten times, and those of `past` that count from `clock` on.
record Covers (st : Attempts) (key : String) (past : List ℕ) (clock : ℕ) : Type 0 where
  few : length (times st key) ≤ 10
  all : (now : ℕ) → clock ≤ now → within now past ≤ within now (times st key)

passed-Covers :
    (st : Attempts) (key : String) (past : List ℕ) (clock now : ℕ)
    → clock ≤ now
    → length (recent st key now) < 10
    → Covers st key past clock
    → Covers (passed st key now) key (past ++ now ∷ []) now
passed-Covers st key past clock now le room c = record {
  few = rw (times-passed st key now) (omega (arith, length-append (recent st key now) (now ∷ [])));
  all = λ later after. rw (times-passed st key now) (
      omega (
        arith,
        within-append later past (now ∷ []),
        within-append later (recent st key now) (now ∷ []),
        ap (within later) (recent_lem st key now),
        within-filter now later (times st key) after,
        c.all later (omega arith),
      ));
}

cleared-Covers :
    (st : Attempts) (key : String) (clock : ℕ) → Covers (clear_attempt_limit st key) key [] clock
unfolding clear_attempt_limit
cleared-Covers st key clock =
    let gone : times (clear_attempt_limit st key) key ≡ [] =
      ground (arith, get-delete key key st.attempts, ==_refl key) in
    record { few = rw gone (omega arith); all = λ now after. omega arith }

let_through-Covers :
    (st : Attempts) (key : String) (past : List ℕ) (events : List Event) (clock now : ℕ)
    → Runs clock events now
    → Covers st key past clock
    → within now (let_through st key past events) ≤ 10
unfolding let_through
let_through-Covers st key past [] clock now le c =
    omega (arith, c.all now le, c.few, within-le now (times st key))
let_through-Covers st key past (clears ∷ rest) clock now runs c =
    let_through-Covers (clear_attempt_limit st key) key [] rest clock now runs
      (cleared-Covers st key clock)
let_through-Covers st key past (tries t ∷ rest) clock now (le, runs) c =
    elim (enforce_lem st key t) [
      | inr refused ↦
          rw (refused, let_through)
            (let_through-Covers st key past rest t now runs
              (record { few = c.few; all = λ later after. c.all later (omega arith) }))
      | inl (room, fine) ↦
          rw (fine, let_through)
            (let_through-Covers (passed st key t) key (past ++ t ∷ []) rest t now runs
              (passed-Covers st key past clock t le room c))
    ]

-- While the clock goes on, over any sequence of attempts for a key and of clearings of its record,
-- at most ten of the attempts that were let through since the record was last cleared lie within
-- the last five minutes, at whatever time one looks.
pub let_through_le :
    (key : String) (events : List Event) (now : ℕ)
    → Runs 0 events now
    → length (filter (in_window now) (let_through (record { attempts = [] }) key [] events))
      ≤ max_attempts
unfolding get
let_through_le key events now runs =
    let_through-Covers (record { attempts = [] }) key [] events 0 now runs
      (record { few = omega arith; all = λ later after. omega arith })
