-- ===== src/Bans.antt =====
-- Bans of users, addresses and networks: src/modules/bans/bans.service.ts, over the JSON store. The
-- answers of `users.findById` and of Node's `isIP` are parameters. Times are milliseconds; a ban's
-- duration is a whole number of hours, and `none` stands for one that is missing or no number.
pub mod Matching
pub mod Revoking
pub mod Unique
mod Tests
use Prim.Native.Char.{Char}
use Prim.Native.String
use Prim.Native.String.{String, [], ◌∷◌}
use agapornis_api.Common.{
  ℕ, ◌+◌, ◌*◌, ◌≤◌, Bool, true, false, not, ◌&&◌, ◌||◌, ◌≡◌, ◌↔◌, arith, Option, none, some, List,
  if◌then◌else◌, Key, ◌==◌, string_eq, nat_beq, leb, ltb, find, any, or_else, is_some, Result, ok,
  err, ◌>>=◌, unless, refuse_if, expect,
}
use mathlib.Core.Option
use agapornis_api.Common.Dict.{get, set, values}
use agapornis_api.Common.Text.{
  not_blank, trim, to_lower, text_length, is_empty, any_char, is_char, is_space,
}

pub data BanType : Type 0 where
  user email ip : BanType

index : BanType → ℕ
index user = 0
index email = 1
index ip = 2

unfoldable pub ban_type_beq : BanType → BanType → Bool
unfolding index
ban_type_beq a b = nat_beq (index a) (index b)

pub ban_type_beq_iff : (a b : BanType) → (ban_type_beq a b ≡ true) ↔ (a ≡ b)
unfolding ban_type_beq
ban_type_beq_iff a b = ground arith

instance abbrev pub ban_type_eq : Key BanType
ban_type_eq = record { same = ban_type_beq; same_iff = ban_type_beq_iff }

pub record Ban : Type 0 where
  pub id : String
  pub kind : BanType
  pub value : String
  pub reason : String
  pub created_by : String
  pub created_at : ℕ
  pub expires_at : Option ℕ
  pub revoked_at : Option ℕ
  pub revoked_by : Option String

-- `bans`, and what `save` last wrote.
pub record Bans : Type 0 where
  pub bans : List (String × Ban)
  pub file : Option (List Ban)

pub data BanError : Type 0 where
  bad_type no_value bad_email bad_ip no_reason long_reason user_not_found own_account : BanError
  already_banned past_expiry long_duration not_found suspended : BanError

abbrev pub save : Bans → Bans
save st = record st { file = some (values st.bans) }

unfoldable pub is_active : ℕ → Ban → Bool
is_active now b = elim b.revoked_at [
  | some t ↦ false
  | none ↦ elim b.expires_at [ none ↦ true | some t ↦ ltb now t ]
]

abbrev pub matches : ℕ → BanType → String → Ban → Bool
matches now kind value b = b.kind == kind && b.value == value && is_active now b

unfoldable pub active_match : Bans → ℕ → BanType → String → Option Ban
active_match st now kind value =
    if is_empty value then none else find (matches now kind value) (values st.bans)

unfoldable pub parse_type : String → Result BanError BanType
parse_type t =
    if t == "user"
    then ok user
    else if t == "email"
    then ok email
    else if t == "ip"
    then ok ip
    else err bad_type

-- A dot that is not the last character, and one that is not the first either.
dot_within : String → Bool
dot_within [] = false
dot_within (c ∷ s) = is_char b'.' c && not (is_empty s) || dot_within s

abbrev dot_inside : String → Bool
dot_inside [] = false
dot_inside (c ∷ s) = dot_within s

at_within : String → Bool
at_within [] = false
at_within (c ∷ s) = is_char b'@' c && dot_inside s || at_within s

-- `/^\S+@\S+\.\S+$/.test(s)`
unfoldable pub is_email : String → Bool
unfolding at_within dot_within any_char is_space
is_email [] = false
is_email (c ∷ s) = not (any_char is_space (c ∷ s)) && at_within s

-- `s.startsWith(prefix) ? s.slice(prefix.length) : s`
unfoldable pub without_prefix : String → String → Option String
without_prefix [] s = some s
without_prefix (p ∷ ps) [] = none
without_prefix (p ∷ ps) (c ∷ s) =
    let rest = without_prefix ps s in
    if nat_beq (Prim.Native.Char.code p) (Prim.Native.Char.code c) then rest else none

-- The text before the first `]`, if there is one.
unfoldable pub up_to_bracket : String → Option String
up_to_bracket [] = none
up_to_bracket (c ∷ s) =
    let rest = up_to_bracket s in
    if is_char b']' c then some "" else elim rest [ none ↦ none | some t ↦ some (c ∷ t) ]

abbrev unmapped : String → String
unmapped s = elim (without_prefix "::ffff:" s) [ none ↦ s | some t ↦ t ]

abbrev unbracketed : String → String
unbracketed [] = []
unbracketed (c ∷ s) =
    if is_char b'[' c then (elim (up_to_bracket s) [ none ↦ c ∷ s | some t ↦ t ]) else c ∷ s

module _ (is_ip : String → Bool) where
  unfoldable pub normalize_ip : String → Bool → Result BanError String
  unfolding trim to_lower without_prefix up_to_bracket
  normalize_ip value required =
      let address = unbracketed (unmapped (trim value)) in
      if is_ip address then ok (to_lower address) else if required then err bad_ip else ok ""

  unfoldable pub ban_value : BanType → Option String → Result BanError String
  unfolding normalize_ip trim to_lower is_email
  ban_value kind none = err no_value
  ban_value kind (some v) =
      let text = trim v in
      if is_empty text then err no_value else elim kind [
        | user ↦ ok text
        | email ↦ unless (not (is_email (to_lower text))) bad_email (to_lower text)
        | ip ↦ normalize_ip text true
      ]

  abbrev ip_text : Result BanError String → String
  ip_text (ok s) = s
  ip_text (err e) = ""

  -- `requestIp`, of what the request's `ip` or its socket's address is.
  unfoldable pub request_ip : Option String → String
  unfolding normalize_ip
  request_ip none = ip_text (normalize_ip "" false)
  request_ip (some v) = ip_text (normalize_ip v false)

-- A request's `expiresAt` and `durationHours`. `some none` is a date that cannot be read.
unfoldable pub expiry : ℕ → Option (Option ℕ) → Option ℕ → Result BanError (Option ℕ)
expiry now (some none) hours = err past_expiry
expiry now (some (some t)) hours = unless (leb t now) past_expiry (some t)
expiry now none none = ok none
expiry now none (some hours) =
    if leb hours 0
    then ok none
    else unless (ltb (24 * 365 * 10) hours) long_duration (some (now + hours * 60 * 60 * 1000))

pub record BanRequest : Type 0 where
  pub kind : String
  pub value : Option String
  pub reason : Option String
  pub expires_at : Option (Option ℕ)
  pub duration_hours : Option ℕ

abbrev reason_of : Option String → String
reason_of none = ""
reason_of (some r) = trim r

abbrev is_user : BanType → Bool
is_user user = true
is_user _ = false

module _ (is_ip : String → Bool) (user_exists : String → Bool) where
  -- The ban that `create` makes, before it is stored: `id` is what `randomUUID` gives.
  unfoldable pub new_ban : Bans → String → ℕ → String → BanRequest → Result BanError Ban
  new_ban st id now actor body = do
    kind ← parse_type body.kind
    value ← ban_value is_ip kind body.value
    let reason = reason_of body.reason
    u₁ ← refuse_if (is_empty reason) no_reason
    u₂ ← refuse_if (ltb 500 (text_length reason)) long_reason
    u₃ ← refuse_if (is_user kind && not (user_exists value)) user_not_found
    u₄ ← refuse_if (value == actor && is_user kind) own_account
    u₅ ← refuse_if (is_some (active_match st now kind value)) already_banned
    until ← expiry now body.expires_at body.duration_hours
    ok (record {
      id = id;
      kind = kind;
      value = value;
      reason = reason;
      created_by = actor;
      created_at = now;
      expires_at = until;
      revoked_at = none;
      revoked_by = none;
    })

  unfoldable pub create : Bans → String → ℕ → String → BanRequest → Result BanError (Ban × Bans)
  create st id now actor body = do
    b ← new_ban st id now actor body
    ok (b, save (record st { bans = set id b st.bans }))

unfoldable pub revoke : Bans → String → ℕ → String → Result BanError (Ban × Bans)
revoke st id now actor = do
  b ← expect not_found (get id st.bans)
  let b' = record b {
    revoked_at = or_else b.revoked_at (some now);
    revoked_by = or_else b.revoked_by (some actor);
  }
  ok (b', save (record st { bans = set id b' st.bans }))

-- What a request shows of its sender; a missing part is not looked up.
pub record Sender : Type 0 where
  pub user_id : Option String
  pub email : Option String
  pub ip : Option String

abbrev hit : Bans → ℕ → BanType → Option String → Bool
hit st now kind none = false
hit st now kind (some v) = is_some (active_match st now kind v)

module _ (is_ip : String → Bool) where
  -- What the sender is looked up by.
  unfoldable pub sought : BanType → Sender → Option String
  unfolding trim to_lower request_ip
  sought user s = Option.map trim (not_blank s.user_id)
  sought email s = Option.map (λ e. to_lower (trim e)) (not_blank s.email)
  sought ip s = Option.map (λ a. request_ip is_ip (some a)) (not_blank s.ip)

  unfoldable pub assert_allowed : Bans → ℕ → Sender → Result BanError (Unit {0})
  assert_allowed st now s =
      unless
        (hit st now user (sought user s)
          || hit st now email (sought email s)
          || hit st now ip (sought ip s))
        suspended tt
