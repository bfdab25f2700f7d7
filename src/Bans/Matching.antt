-- ===== src/Bans/Matching.antt =====
-- Whom `assertAllowed` refuses.
use Prim.Native.String.{String, [], ◌∷◌}
use agapornis_api.Common.{
  ℕ, Bool, true, false, not, ◌&&◌, ◌||◌, ◌≡◌, ◌↔◌, refl, sym, ap, ◌∙◌, arith, Option, none, some,
  inl, inr, if◌then◌else◌, ==_iff, string_eq, Bool-cases, any, any-none, any_ext, any-or, any-All,
  is_some-find, All, ok, err, unless, Result-cases,
}
use agapornis_api.Common.Dict.{set, values, find-set_some}
use agapornis_api.Common.Text.{is_empty, trim, to_lower, is_empty-to_lower}
use agapornis_api.Bans.{
  Ban, Bans, BanType, user, email, ip, ban_type_eq, is_active, matches, active_match, hit, sought,
  assert_allowed, Sender, create, new_ban, ban_value, BanRequest, suspended, bad_ip, normalize_ip,
}

-- The ban stands against the sender at this time.
abbrev pub Blocks : (String → Bool) → ℕ → Sender → Ban → Type 0
Blocks is_ip now s b =
    (is_active now b ≡ true) × (sought is_ip b.kind s ≡ some b.value) × (is_empty b.value ≡ false)

-- The test that `activeMatch` makes of one ban, for what the sender is looked up by.
abbrev test : ℕ → BanType → Option String → Ban → Bool
test now kind none b = false
test now kind (some v) b = not (is_empty v) && matches now kind v b

hit-any :
    (st : Bans) (now : ℕ) (kind : BanType) (o : Option String)
    → hit st now kind o ≡ any (test now kind o) (values st.bans)
unfolding active_match
hit-any st now kind none = sym (any-none (values st.bans))
hit-any st now kind (some v) = elim (Bool-cases (is_empty v)) [
  | inl empty ↦ rw empty (
      sym (
        any_ext (test now kind (some v)) (λ b. false) (values st.bans)
          (λ b. ap (λ (e : Bool). not e && matches now kind v b) empty)
        ∙ any-none (values st.bans)))
  | inr full ↦ rw full (
      is_some-find (matches now kind v) (values st.bans)
      ∙ any_ext (matches now kind v) (test now kind (some v)) (values st.bans)
          (λ b. ap (λ (e : Bool). not e && matches now kind v b) (sym full)))
]

abbrev tests : (String → Bool) → ℕ → Sender → Ban → Bool
tests is_ip now s b =
    test now user (sought is_ip user s) b
    || test now email (sought is_ip email s) b
    || test now ip (sought is_ip ip s) b

test_iff :
    (now : ℕ) (kind : BanType) (o : Option String) (b : Ban)
    → (test now kind o b ≡ true) ↔ (
        (is_active now b ≡ true)
        × (b.kind ≡ kind)
        × (o ≡ some b.value)
        × (is_empty b.value ≡ false))
test_iff now kind none b = (λ h. cc, λ h. cc (h.2))
test_iff now kind (some v) b = (
  λ h.
      let e : b.value ≡ v = (==_iff b.value v).0 (ground arith) in
      (ground arith, (==_iff b.kind kind).0 (ground arith), ap some (sym e), rw e (ground arith)),
  λ (active, k, e, full).
      let same : v ≡ b.value = cc in
      rw same (ground (arith, (==_iff b.kind kind).1 k, (==_iff b.value b.value).1 refl)),
)

by_kind :
    (is_ip : String → Bool) (now : ℕ) (s : Sender) (b : Ban) (kind : BanType)
    → test now kind (sought is_ip kind s) b ≡ true
    → tests is_ip now s b ≡ true
by_kind is_ip now s b user h = ground arith
by_kind is_ip now s b email h = ground arith
by_kind is_ip now s b ip h = ground arith

from_kind :
    (is_ip : String → Bool) (now : ℕ) (s : Sender) (b : Ban) (kind : BanType)
    → test now kind (sought is_ip kind s) b ≡ true
    → Blocks is_ip now s b
from_kind is_ip now s b kind h =
    let (active, k, e, full) = (test_iff now kind (sought is_ip kind s) b).0 h in
    (active, rw k e, full)

tests_iff :
    (is_ip : String → Bool) (now : ℕ) (s : Sender) (b : Ban)
    → (tests is_ip now s b ≡ true) ↔ Blocks is_ip now s b
tests_iff is_ip now s b = (
  λ h. elim (Bool-cases (test now user (sought is_ip user s) b)) [
    | inl u ↦ from_kind is_ip now s b user u
    | inr n ↦ elim (Bool-cases (test now email (sought is_ip email s) b)) [
      | inl e ↦ from_kind is_ip now s b email e
      | inr m ↦ from_kind is_ip now s b ip (ground arith)
    ]
  ],
  λ (active, e, full).
      by_kind is_ip now s b b.kind
        ((test_iff now b.kind (sought is_ip b.kind s) b).1 (active, refl, e, full)),
)

refused-any :
    (is_ip : String → Bool) (st : Bans) (now : ℕ) (s : Sender)
    → (hit st now user (sought is_ip user s)
        || hit st now email (sought is_ip email s)
        || hit st now ip (sought is_ip ip s))
      ≡ any (tests is_ip now s) (values st.bans)
refused-any is_ip st now s =
    let bs = values st.bans in
    let u = test now user (sought is_ip user s) in
    let e = test now email (sought is_ip email s) in
    let i = test now ip (sought is_ip ip s) in
    rw
      (
        hit-any st now user (sought is_ip user s),
        hit-any st now email (sought is_ip email s),
        hit-any st now ip (sought is_ip ip s),
      )
      (ap (λ (t : Bool). t || any i bs) (any-or u e bs) ∙ any-or (λ b. u b || e b) i bs)

-- A sender is let through exactly if no ban stands against it: none that is active and has the
-- value that the sender is looked up by for the ban's kind.
pub assert_allowed_iff :
    (is_ip : String → Bool) (st : Bans) (now : ℕ) (s : Sender)
    → (assert_allowed is_ip st now s ≡ ok tt) ↔ All (λ b. ¬ Blocks is_ip now s b) (values st.bans)
unfolding assert_allowed
assert_allowed_iff is_ip st now s =
    let same = refused-any is_ip st now s in
    let (there, back) = any-All (tests is_ip now s) (values st.bans) (tests_iff is_ip now s) in
    (
      λ h. there (sym same ∙ ground arith),
      λ none_blocks.
          let fine = same ∙ back none_blocks in ap (λ (t : Bool). unless t suspended tt) fine,
    )

ip_full :
    (is_ip : String → Bool) (a address : String)
    → is_ip "" ≡ false
    → (if is_ip a then ok (to_lower a) else err bad_ip) ≡ ok address
    → is_empty address ≡ false
ip_full is_ip [] address documented h = absurd (ground arith)
ip_full is_ip (c ∷ a) address documented h = ground (arith, is_empty-to_lower (c ∷ a))

normalize_ip_full :
    (is_ip : String → Bool) (v address : String)
    → is_ip "" ≡ false
    → normalize_ip is_ip v true ≡ ok address
    → is_empty address ≡ false
unfolding normalize_ip
normalize_ip_full is_ip v address documented h = ip_full is_ip _ address documented h

pub ban_value_full :
    (is_ip : String → Bool) (kind : BanType) (o : Option String) (v : String)
    → is_ip "" ≡ false
    → ban_value is_ip kind o ≡ ok v
    → is_empty v ≡ false
unfolding ban_value
ban_value_full is_ip kind none v documented h = cc
ban_value_full is_ip user (some o) v documented h = ground arith
ban_value_full is_ip email (some o) v documented h = ground (arith, is_empty-to_lower (trim o))
ban_value_full is_ip ip (some o) v documented h =
    normalize_ip_full is_ip (trim o) v documented (ground arith)

pub new_ban_lem :
    (is_ip user_exists : String → Bool) (st : Bans) (id actor : String) (now : ℕ)
    (body : BanRequest) (b : Ban)
    → new_ban is_ip user_exists st id now actor body ≡ ok b
    → (b.id ≡ id)
      × (b.created_by ≡ actor)
      × (b.revoked_at ≡ none)
      × (active_match st now b.kind b.value ≡ none)
      × (ban_value is_ip b.kind body.value ≡ ok b.value)
unfolding new_ban
new_ban_lem is_ip user_exists st id actor now body b h = ground arith

pub create_lem :
    (is_ip user_exists : String → Bool) (st st' : Bans) (id actor : String) (now : ℕ)
    (body : BanRequest) (b : Ban)
    → create is_ip user_exists st id now actor body ≡ ok (b, st')
    → (new_ban is_ip user_exists st id now actor body ≡ ok b) × (st'.bans ≡ set id b st.bans)
unfolding create
create_lem is_ip user_exists st st' id actor now body b h =
    elim (Result-cases (new_ban is_ip user_exists st id now actor body)) [
      | inl (x, made) ↦ (ground arith, ground arith)
      | inr (f, failed) ↦ absurd (ground arith)
    ]

-- A ban that `create` made refuses every sender that it is about, at every time before it ends.
pub create_blocks :
    (is_ip user_exists : String → Bool) (st st' : Bans) (id actor : String) (now t : ℕ)
    (body : BanRequest) (b : Ban) (s : Sender)
    → is_ip "" ≡ false
    → create is_ip user_exists st id now actor body ≡ ok (b, st')
    → is_active t b ≡ true
    → sought is_ip b.kind s ≡ some b.value
    → assert_allowed is_ip st' t s ≡ err suspended
unfolding assert_allowed
create_blocks is_ip user_exists st st' id actor now t body b s documented made active e =
    let (new, est) = create_lem is_ip user_exists st st' id actor now body b made in
    let (_, _, _, _, valued) = new_ban_lem is_ip user_exists st id actor now body b new in
    let full = ban_value_full is_ip b.kind body.value b.value documented valued in
    let passes = (tests_iff is_ip t s b).1 (active, e, full) in
    let found : any (tests is_ip t s) (values st'.bans) ≡ true =
      ap (λ m. any (tests is_ip t s) (values m)) est
      ∙ sym (is_some-find (tests is_ip t s) (values (set id b st.bans)))
      ∙ find-set_some (tests is_ip t s) id b st.bans passes in
    ap (λ (x : Bool). unless x suspended tt) (refused-any is_ip st' t s ∙ found)
