-- ===== src/Bans/Tests.antt =====
-- Bans at concrete inputs.
use agapornis_api.Common.{
  ℕ, String, Bool, true, false, ◌≡◌, ◌↔◌, refl, none, some, List, [], ◌∷◌, string_eq, ok, All,
}
use agapornis_api.Common.Dict.{get, set, values}
use agapornis_api.Common.Text.{text_length}
use agapornis_api.Bans.{
  Ban, Bans, BanRequest, Sender, email, create, new_ban, revoke, active_match, assert_allowed,
  sought, parse_type, ban_value, expiry,
}
use agapornis_api.Bans.Matching.{Blocks, assert_allowed_iff}
use agapornis_api.Bans.Unique.{Change, creates, IsUnique, run, run-IsUnique}

abbrev no_ip : String → Bool
no_ip s = false

abbrev anyone : String → Bool
anyone s = true

abbrev open_door : Bans
open_door = record { bans = []; file = none }

abbrev request : BanRequest
request = record {
  kind = "email";
  value = some " Eve@Mail.org";
  reason = some "spam";
  expires_at = none;
  duration_hours = some 1;
}

abbrev ban : Ban
ban = record {
  id = "b1";
  kind = email;
  value = "eve@mail.org";
  reason = "spam";
  created_by = "root";
  created_at = 1000;
  expires_at = some 3601000;
  revoked_at = none;
  revoked_by = none;
}

abbrev closed : Bans
closed = record { bans = ("b1", ban) ∷ []; file = some (ban ∷ []) }

made : create no_ip anyone open_door "b1" 1000 "root" request ≡ ok (ban, closed)
unfolding create new_ban parse_type ban_value expiry active_match set text_length
made = refl

abbrev eve : Sender
eve = record { user_id = none; email = some "EVE@mail.org"; ip = none }

eve-sought : sought no_ip email eve ≡ some "eve@mail.org"
unfolding sought
eve-sought = refl

assert_allowed_iff_example :
    (assert_allowed no_ip closed 2000 eve ≡ ok tt)
    ↔ All (λ b. ¬ Blocks no_ip 2000 eve b) (values closed.bans)
assert_allowed_iff_example = assert_allowed_iff no_ip closed 2000 eve

abbrev lifted : Ban
lifted = record ban { revoked_at = some 5000; revoked_by = some "root" }

abbrev reopened : Bans
reopened = record { bans = ("b1", lifted) ∷ []; file = some (lifted ∷ []) }

lifting : revoke closed "b1" 5000 "root" ≡ ok (lifted, reopened)
unfolding revoke get set
lifting = refl

open_door-IsUnique : IsUnique 0 open_door
unfolding get
open_door-IsUnique i j b c hb hc same ab ac = cc

abbrev changes : List (ℕ × Change)
changes = (1000, creates "b1" "root" request) ∷ (10, creates "b2" "root" request) ∷ []

run-IsUnique_example :
    IsUnique (run no_ip anyone open_door 0 changes).1 (run no_ip anyone open_door 0 changes).0
run-IsUnique_example = run-IsUnique no_ip anyone open_door 0 changes refl open_door-IsUnique
