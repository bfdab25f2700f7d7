-- ===== src/Auth/TwoFactor.antt =====
-- The second factor: `enforceAttemptLimit` and `clearAttemptLimit` without Redis, of
-- src/modules/auth/two-factor.service.ts. Times are milliseconds.
pub mod Limit
use Prim.Native.String
use Prim.Native.String.{String, [], ◌∷◌}
use agapornis_api.Common.{
  ℕ, zero, suc, ◌+◌, ◌-◌, ◌*◌, ◌/◌, ◌%◌, ◌≡◌, refl, Bool, true, false, not, ◌&&◌, ◌||◌, Option,
  none, some, List, ◌++◌, if◌then◌else◌, ◌==◌, string_eq, nat_eq, nat_beq, ltb, leb, filter, length,
  get_or, Result, ok, err,
}
use agapornis_api.Common.Dict.{get, set, delete}

pub record Attempts : Type 0 where
  pub attempts : List (String × List ℕ)

pub data Refusal : Type 0 where
  too_many_attempts : Refusal

abbrev pub window_ms : ℕ
window_ms = 5 * 60 * 1000

abbrev pub max_attempts : ℕ
max_attempts = 10

-- `now - timestamp < ATTEMPT_WINDOW_SECONDS * 1000`; a clock that went back makes it negative.
abbrev pub in_window : ℕ → ℕ → Bool
in_window now t = ltb (now - t) window_ms

unfoldable pub recent : Attempts → String → ℕ → List ℕ
recent st key now = filter (in_window now) (get_or (get key st.attempts) List.[])

unfoldable pub enforce_attempt_limit : Attempts → String → ℕ → Result Refusal Attempts
unfolding recent
enforce_attempt_limit st key now =
    if leb max_attempts (length (recent st key now))
    then err too_many_attempts
    else ok (record { attempts = set key (recent st key now ++ List.◌∷◌ now List.[]) st.attempts })

unfoldable pub clear_attempt_limit : Attempts → String → Attempts
clear_attempt_limit st key = record { attempts = delete key st.attempts }
