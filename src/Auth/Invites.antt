-- ===== src/Auth/Invites.antt =====
-- Registration keys: `create`, `consume`, `revoke` and `publicRecord` of
-- src/modules/auth/registration-invites.service.ts, over the JSON store. The digests are parameters.
-- Times are milliseconds; `expiresInHours` is a whole number, or missing.
pub mod Attempts
use mathlib.Core.Option
use agapornis_api.Common.{
  ℕ, suc, zero, ◌+◌, ◌*◌, min, max, String, Bool, true, false, not, ◌&&◌, ◌||◌, Option, none, some,
  List, [], ◌∷◌, if◌then◌else◌, ◌==◌, string_eq, ltb, leb, find, is_some, contains,
}
use agapornis_api.Common.Dict.{get, set, delete, has, values}
use agapornis_api.Common.Text.{is_empty, trim, to_lower, slice_start}

pub record Invite : Type 0 where
  pub id : String
  pub token_hash : String
  pub label : Option String
  pub email : Option String
  pub created_by : Option String
  pub expires_at : ℕ
  pub created_at : ℕ
  pub used_at : Option ℕ
  pub used_by_email : Option String

pub record Invites : Type 0 where
  pub invites : List (String × Invite)
  pub file : Option (List Invite)

abbrev pub save : Invites → Invites
save st = record st { file = some (values st.invites) }

abbrev pub unless_empty : String → Option String
unless_empty s = if is_empty s then none else some s

-- `normalizeEmail`
unfoldable pub normalize_email : Option String → Option String
unfolding trim to_lower
normalize_email none = none
normalize_email (some s) = unless_empty (to_lower (trim s))

-- `Math.min(720, Math.max(1, Math.round(Number(hours) || 168)))`
unfoldable pub lifetime_hours : Option ℕ → ℕ
lifetime_hours none = 168
lifetime_hours (some zero) = 168
lifetime_hours (some (suc n)) = min 720 (max 1 (suc n))

pub record InviteRequest : Type 0 where
  pub label : Option String
  pub email : Option String
  pub expires_in_hours : Option ℕ
  pub created_by : Option String

abbrev label_of : Option String → Option String
label_of none = none
label_of (some s) = unless_empty (slice_start 160 (trim s))

abbrev pub binds : Option String → String → Bool
binds none email = true
binds (some bound) email = bound == email

abbrev pub usable : ℕ → String → Invite → Bool
usable now email i =
    not (is_some i.used_at) && ltb now i.expires_at && binds (normalize_email i.email) email

abbrev pub used : Invite → ℕ → String → Invite
used i now email = record i { used_at = some now; used_by_email = some email }

-- `key.trim()` of `consume` is digested; `create` digests the key as it is.
module _ (digest legacy : String → String) where
  -- `id` and `key` are what the random bytes give.
  unfoldable pub create : Invites → String → String → ℕ → InviteRequest → Invite × Invites
  unfolding normalize_email lifetime_hours slice_start trim
  create st id key now body =
      let invite : Invite = record {
        id = id;
        token_hash = digest key;
        label = label_of body.label;
        email = normalize_email body.email;
        created_by = body.created_by;
        expires_at = now + lifetime_hours body.expires_in_hours * 60 * 60 * 1000;
        created_at = now;
        used_at = none;
        used_by_email = none;
      } in
      (invite, save (record st { invites = set id invite st.invites }))

  abbrev pub fits_key : String → Invite → Bool
  fits_key key i = contains (digest key ∷ legacy key ∷ []) i.token_hash

  unfoldable pub consume : Invites → ℕ → String → Option String → Bool × Invites
  unfolding normalize_email trim
  consume st now key email = if is_empty key then (false, st) else elim (normalize_email email) [
    | none ↦ (false, st)
    | some address ↦ elim (find (fits_key (trim key)) (values st.invites)) [
      | none ↦ (false, st)
      | some i ↦
          if usable now address i
          then (true, save (record st { invites = set i.id (used i now address) st.invites }))
          else (false, st)
    ]
  ]

unfoldable pub revoke : Invites → String → Bool × Invites
revoke st id =
    let revoked = save (record st { invites = delete id st.invites }) in
    if has id st.invites then (true, revoked) else (false, st)

pub data Status : Type 0 where
  used_up expired available : Status

-- The `status` of `publicRecord`.
unfoldable pub status_of : ℕ → Invite → Status
status_of now i =
    if is_some i.used_at then used_up else if leb i.expires_at now then expired else available
