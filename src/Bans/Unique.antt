-- ===== src/Bans/Unique.antt =====
-- Of one user, address or network at most one ban is active at a time.
use agapornis_api.Common.{
  ℕ, ◌+◌, ◌≤◌, ◌⊎◌, String, Bool, true, false, ◌≡◌, refl, sym, ap, ◌∙◌, arith, none, some, inl, inr,
  ◌==◌, ==_iff, string_eq, Bool-cases, Result, ok, err, List, [], ◌∷◌, find,
}
use agapornis_api.Common.Dict.{values, get, set, get-set, find-get-none}
use agapornis_api.Common.Text.{is_empty}
use agapornis_api.Bans.{
  Ban, Bans, BanRequest, BanError, BanType, ban_type_eq, create, revoke, is_active, matches,
  active_match,
}
use agapornis_api.Bans.Matching.{create_lem, new_ban_lem, ban_value_full}
use agapornis_api.Bans.Revoking.{revoke_lem, revoked-inactive}

-- The calls that change the bans.
pub data Change : Type 0 where
  creates : String → String → BanRequest → Change
  revokes : String → String → Change

abbrev pub after {ℓ} : {A : Type ℓ} → Bans → Result BanError (A × Bans) → Bans
after st (ok (a, st')) = st'
after st (err e) = st

abbrev pub SameTarget : Ban → Ban → Type 0
SameTarget b c = (b.kind ≡ c.kind) × (b.value ≡ c.value)

-- No two stored bans of the same target are active at this time.
abbrev pub IsUnique : ℕ → Bans → Type 0
IsUnique now st =
    (i j : String) (b c : Ban)
    → get i st.bans ≡ some b
    → get j st.bans ≡ some c
    → SameTarget b c
    → is_active now b ≡ true
    → is_active now c ≡ true
    → i ≡ j

-- A ban that is active later has been active since it was made.
is_active-earlier : (b : Ban) (now t : ℕ) → now ≤ t → is_active t b ≡ true → is_active now b ≡ true
unfolding is_active
is_active-earlier b now t le h = ground arith

later-IsUnique : (st : Bans) (now t : ℕ) → now ≤ t → IsUnique now st → IsUnique t st
later-IsUnique st now t le u i j b c hb hc same ab ac =
    u i j b c hb hc same (is_active-earlier b now t le ab) (is_active-earlier c now t le ac)

-- What is read after a write.
read :
    (st st' : Bans) (id i : String) (new b : Ban)
    → st'.bans ≡ set id new st.bans
    → get i st'.bans ≡ some b
    → ((id ≡ i) × (b ≡ new)) ⊎ (get i st.bans ≡ some b)
read st st' id i new b est h =
    let e = sym (ap (get i) est ∙ get-set id i new st.bans) ∙ h in
    elim (Bool-cases (id == i)) [
      | inl hit ↦ inl ((==_iff id i).0 hit, ground arith)
      | inr miss ↦ inr (ground arith)
    ]

unmatched :
    (st : Bans) (now : ℕ) (kind : BanType) (value i : String) (b : Ban)
    → active_match st now kind value ≡ none
    → is_empty value ≡ false
    → get i st.bans ≡ some b
    → b.kind ≡ kind
    → b.value ≡ value
    → is_active now b ≡ false
unfolding active_match
unmatched st now kind value i b h full found k v =
    let missed : find (matches now kind value) (values st.bans) ≡ none = ground arith in
    let failed = find-get-none (matches now kind value) i b st.bans missed found in
    ground (arith, failed, (==_iff b.kind kind).1 k, (==_iff b.value value).1 v)

create-IsUnique :
    (is_ip user_exists : String → Bool) (st : Bans) (r : Result BanError (Ban × Bans))
    (id actor : String) (now : ℕ) (body : BanRequest)
    → is_ip "" ≡ false
    → r ≡ create is_ip user_exists st id now actor body
    → IsUnique now st
    → IsUnique now (after st r)
create-IsUnique is_ip user_exists st (err e) id actor now body documented h u i j b c = u i j b c
create-IsUnique is_ip user_exists st (ok (new, st')) id actor now body documented h u i j b c =
    let (made, est) = create_lem is_ip user_exists st st' id actor now body new (sym h) in
    let (_, _, _, unmatched_new, valued) =
      new_ban_lem is_ip user_exists st id actor now body new made in
    let full = ban_value_full is_ip new.kind body.value new.value documented valued in
    let miss = λ (k : String) (x : Ban) (found : get k st.bans ≡ some x) (same : SameTarget x new).
      unmatched st now new.kind new.value k x unmatched_new full found same.0 same.1 in
    λ hb hc same ab ac. elim (read st st' id i new b est hb) [
      | inl (ei, eb) ↦ elim (read st st' id j new c est hc) [
        | inl (ej, ec) ↦ sym ei ∙ ej
        | inr old ↦ absurd (cc (miss j c old (cc, cc), ac))
      ]
      | inr old ↦ elim (read st st' id j new c est hc) [
        | inl (ej, ec) ↦ absurd (cc (miss i b old (cc, cc), ab))
        | inr old' ↦ u i j b c old old' same ab ac
      ]
    ]

revoke-IsUnique :
    (st : Bans) (r : Result BanError (Ban × Bans)) (id actor : String) (now : ℕ)
    → r ≡ revoke st id now actor
    → IsUnique now st
    → IsUnique now (after st r)
revoke-IsUnique st (err e) id actor now h u i j b c = u i j b c
revoke-IsUnique st (ok (new, st')) id actor now h u i j b c =
    let (old, found, same, est) = revoke_lem st st' id actor now new (sym h) in
    let over : is_active now new ≡ false =
      ap (is_active now) same ∙ revoked-inactive old now now actor in
    λ hb hc target ab ac. elim (read st st' id i new b est hb) [
      | inl (ei, eb) ↦ absurd (cc)
      | inr there ↦ elim (read st st' id j new c est hc) [
        | inl (ej, ec) ↦ absurd (cc)
        | inr there' ↦ u i j b c there there' target ab ac
      ]
    ]

module _ (is_ip user_exists : String → Bool) where
  abbrev pub step : Bans → ℕ → Change → Bans
  step st now (creates id actor body) = after st (create is_ip user_exists st id now actor body)
  step st now (revokes id actor) = after st (revoke st id now actor)

  -- A history: each change with the time that passes before it. Its end is its last time.
  unfoldable pub run : Bans → ℕ → List (ℕ × Change) → Bans × ℕ
  run st now [] = (st, now)
  run st now ((delay, c) ∷ rest) = run (step st (now + delay) c) (now + delay) rest

  step-IsUnique :
      (st : Bans) (now : ℕ) (c : Change)
      → is_ip "" ≡ false
      → IsUnique now st
      → IsUnique now (step st now c)
  step-IsUnique st now (creates id actor body) documented u =
      create-IsUnique is_ip user_exists st _ id actor now body documented refl u
  step-IsUnique st now (revokes id actor) documented u = revoke-IsUnique st _ id actor now refl u

  -- If no two bans of one target are active, none are after any history of creations and
  -- revocations while the clock goes on, at its end.
  pub run-IsUnique :
      (st : Bans) (now : ℕ) (changes : List (ℕ × Change))
      → is_ip "" ≡ false
      → IsUnique now st
      → IsUnique (run st now changes).1 (run st now changes).0
  unfolding run
  run-IsUnique st now [] documented u = u
  run-IsUnique st now ((delay, c) ∷ rest) documented u =
      run-IsUnique (step st (now + delay) c) (now + delay) rest documented (
        step-IsUnique st (now + delay) c documented
          (later-IsUnique st now (now + delay) (omega arith) u))
