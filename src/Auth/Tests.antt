-- ===== src/Auth/Tests.antt =====
-- Keys, the second factor and passwords at concrete inputs.
use agapornis_api.Common.{
  ℕ, ◌≤◌, String, true, false, Option, none, some, List, [], ◌∷◌, ◌≡◌, refl, arith, string_eq,
  length, filter,
}
use agapornis_api.Common.Dict.{get, set, delete}
use agapornis_api.Auth.Bootstrap.{Tokens, generate, consume}
use agapornis_api.Auth.Bootstrap.SingleUse.{
  Event, generates, consumes, cleans, run, consume-generate, consume_once,
}
use agapornis_api.Auth.Resets
use agapornis_api.Auth.Resets.{Resets}
use agapornis_api.Auth.Resets.Once
use agapornis_api.Auth.Resets.Once.{reset_once}
use agapornis_api.Auth.Invites.{Invite, Invites}
use agapornis_api.Auth.Invites.Attempts.{successes, successes_le}
use agapornis_api.Auth.TwoFactor.{in_window, max_attempts, enforce_attempt_limit, recent}
use agapornis_api.Auth.TwoFactor.Limit
use agapornis_api.Auth.TwoFactor.Limit.{tries, clears, let_through, let_through_le}

abbrev new_digest : String → String
new_digest s = s

abbrev old_digest : String → String
old_digest s = Prim.Native.String.◌++◌ "old-" s

abbrev no_tokens : Tokens
no_tokens = record { tokens = []; file = none }

consume-generate_example :
    (consume new_digest old_digest
      (generate new_digest old_digest no_tokens 5 "abc")
      3600005
      "abc").0
    ≡ true
consume-generate_example = consume-generate new_digest old_digest no_tokens 5 3600005 "abc" refl

abbrev one_token : Tokens
one_token = record {
  tokens = ("abc", record { token_hash = "abc"; expires_at = 3600005; created_at = 5 }) ∷ [];
  file = none;
}

used : (consume new_digest old_digest one_token 10 "abc").0 ≡ true
unfolding consume get
used = refl

unstored : get (old_digest "abc") one_token.tokens ≡ none
unfolding get
unstored = refl

abbrev between : List Event
between = generates 20 "xyz" ∷ consumes 30 "abc" ∷ cleans 40 ∷ []

consume_once_example :
    (consume new_digest old_digest
      (run new_digest old_digest (consume new_digest old_digest one_token 10 "abc").1 between)
      50
      "abc").0
    ≡ false
consume_once_example =
    consume_once new_digest old_digest one_token 10 50 "abc" between used unstored
      ((refl, refl), (tt, (tt, tt)))

abbrev invite : Invite
invite = record {
  id = "i1";
  token_hash = "agi_k";
  label = none;
  email = some "ann@mail.org";
  created_by = none;
  expires_at = 1000;
  created_at = 0;
  used_at = none;
  used_by_email = none;
}

abbrev invites : Invites
invites = record { invites = ("i1", invite) ∷ []; file = none }

abbrev attempted : List (ℕ × Option String)
attempted = (1, some "eve@mail.org") ∷ (2, some "Ann@mail.org") ∷ (3, some "ann@mail.org") ∷ []

successes_le_example : successes new_digest old_digest "agi_k" invites attempted ≤ 1
successes_le_example = successes_le new_digest old_digest "agi_k" invites attempted (refl, tt)

abbrev bursts : List Limit.Event
bursts =
    tries 1
    ∷ tries 2
    ∷ tries 3
    ∷ tries 4
    ∷ tries 5
    ∷ tries 6
    ∷ tries 7
    ∷ tries 8
    ∷ tries 9
    ∷ tries 10
    ∷ tries 11
    ∷ clears
    ∷ tries 12
    ∷ tries 13
    ∷ []

-- The attempts after the clearing are let through.
let_through_after_clear : let_through (record { attempts = [] }) "login" [] bursts ≡ 12 ∷ 13 ∷ []
unfolding let_through enforce_attempt_limit recent get set delete
let_through_after_clear = refl

let_through_le_example :
    length (filter (in_window 14) (let_through (record { attempts = [] }) "login" [] bursts))
    ≤ max_attempts
let_through_le_example = let_through_le "login" bursts 14 (omega arith)

abbrev reset_tokens : Resets
reset_tokens = ("abc", record { user_id = "ann"; expires_at = 1800000 }) ∷ []

unstored_reset : get (old_digest "abc") reset_tokens ≡ none
unfolding get
unstored_reset = refl

abbrev meanwhile : List Once.Event
meanwhile = Once.issues 20 "xyz" "bob" ∷ Once.presents 30 "abc" ∷ []

reset_once_example :
    (Resets.consume new_digest old_digest
      (Once.run new_digest old_digest
        (Resets.consume new_digest old_digest reset_tokens 10 "abc").1
        meanwhile)
      50
      "abc").0
    ≡ none
reset_once_example =
    reset_once new_digest old_digest reset_tokens 10 50 "abc" meanwhile unstored_reset
      (refl, refl, tt)
