-- ===== src/Auth/Invites/Attempts.antt =====
-- A registration key is used at most once.
use agapornis_api.Common.{
  ℕ, ◌+◌, ◌≤◌, ◌<◌, ◌↔◌, String, Bool, true, false, Option, none, some, List, [], ◌∷◌, ◌≡◌, refl,
  ap, ◌∙◌, arith, inl, inr, ◌⊎◌, if◌then◌else◌, ==_iff, string_eq, find, is_some, Bool-cases,
  Option-cases, find_sound,
}
use agapornis_api.Common.Dict.{set, values}
use agapornis_api.Common.Text.{is_empty, trim}
use agapornis_api.Auth.Invites.{
  Invite, Invites, consume, fits_key, usable, used, binds, normalize_email,
}

-- Every invite stands under its own id.
abbrev pub IsKeyed : List (String × Invite) → Type 0
IsKeyed [] = Unit
IsKeyed ((k, i) ∷ m) = (i.id ≡ k) × IsKeyed m

-- The first invite of a test, replaced by one that passes the test too, stays the first.
find-set_first :
    (p : Invite → Bool) (m : List (String × Invite)) (i j : Invite)
    → IsKeyed m
    → find p (values m) ≡ some i
    → p j ≡ true
    → find p (values (set i.id j m)) ≡ some j
unfolding set
find-set_first p [] i j keyed found passes = absurd (ground arith)
find-set_first p ((k, x) ∷ m) i j (own, keyed) found passes =
    ground (arith, find-set_first p m i j keyed, ==_iff k i.id)

binds_iff :
    (o : Option String) (address : String)
    → (binds o address ≡ true) ↔ ((o ≡ none) ⊎ (o ≡ some address))
binds_iff none address = (λ h. inl refl, λ h. refl)
binds_iff (some bound) address = (
  λ h. inr (ap some ((==_iff bound address).0 h)),
  λ h. elim h [ inl e ↦ absurd (cc) | inr e ↦ (==_iff bound address).1 (cc) ],
)

usable_iff :
    (now : ℕ) (address : String) (i : Invite)
    → (usable now address i ≡ true) ↔ (
        (i.used_at ≡ none)
        × (now < i.expires_at)
        × ((normalize_email i.email ≡ none) ⊎ (normalize_email i.email ≡ some address)))
usable_iff now address i = (
  λ h. (ground arith, ground arith, (binds_iff (normalize_email i.email) address).0 (ground arith)),
  λ (unused, early, free). ground (arith, (binds_iff (normalize_email i.email) address).1 free),
)

module _ (digest legacy : String → String) (key : String) where
  -- The invite that the key opens is used up.
  abbrev Spent : Invites → Type 0
  Spent st =
      (i : Invite) × (find (fits_key digest legacy (trim key)) (values st.invites) ≡ some i)
      × (is_some i.used_at ≡ true)

  Spent-refused :
      (st : Invites) (now : ℕ) (email : Option String)
      → Spent st
      → consume digest legacy st now key email ≡ (false, st)
  unfolding consume
  Spent-refused st now email (i, found, gone) = elim (Option-cases (normalize_email email)) [
    | inl missing ↦ ground arith
    | inr (address, given) ↦ ground arith
  ]

  -- An attempt that succeeds uses up the invite that the key opens.
  consume_lem :
      (st : Invites) (now : ℕ) (email : Option String)
      → IsKeyed st.invites
      → (consume digest legacy st now key email ≡ (false, st))
        ⊎ ((i : Invite) × (address : String) × (find
                (fits_key digest legacy (trim key))
                (values st.invites)
              ≡ some i)
            × (normalize_email email ≡ some address)
            × (usable now address i ≡ true)
            × (consume digest legacy st now key email).0 ≡ true
            × ((consume digest legacy st now key email).1.invites
                ≡ set i.id (used i now address) st.invites))
  unfolding consume
  consume_lem st now email keyed = elim (Bool-cases (is_empty key)) [
    | inl empty ↦ inl (ground arith)
    | inr full ↦ elim (Option-cases (normalize_email email)) [
      | inl missing ↦ inl (ground arith)
      | inr (address, given) ↦
          elim (Option-cases (find (fits_key digest legacy (trim key)) (values st.invites))) [
            | inl unknown ↦ inl (ground arith)
            | inr (i, found) ↦ elim (Bool-cases (usable now address i)) [
              | inl fine ↦ inr (i, address, found, given, fine, ground arith, ground arith)
              | inr refused ↦ inl (ground arith)
            ]
          ]
    ]
  ]

  -- How many of the attempts with the key succeed, each at its time and for its address.
  pub successes : Invites → List (ℕ × Option String) → ℕ
  successes st [] = 0
  successes st ((now, email) ∷ rest) =
      let r = consume digest legacy st now key email in (if r.0 then 1 else 0) + successes r.1 rest

  Spent-successes :
      (st : Invites) (attempts : List (ℕ × Option String)) → Spent st → successes st attempts ≡ 0
  unfolding successes
  Spent-successes st [] spent = refl
  Spent-successes st ((now, email) ∷ rest) spent =
      rw (Spent-refused st now email spent) (ground (arith, Spent-successes st rest spent))

  -- Of all attempts to register with a key, whoever makes them and whenever, at most one succeeds.
  pub successes_le :
      (st : Invites) (attempts : List (ℕ × Option String))
      → IsKeyed st.invites
      → successes st attempts ≤ 1
  unfolding successes
  successes_le st [] keyed = omega arith
  successes_le st ((now, email) ∷ rest) keyed = elim (consume_lem st now email keyed) [
    | inl refused ↦ rw refused (ground (arith, successes_le st rest keyed))
    | inr (i, address, found, given, fine, accepted, stored) ↦
        let st' = (consume digest legacy st now key email).1 in
        let matched = find_sound (fits_key digest legacy (trim key)) (values st.invites) found in
        let spent : Spent st' = (
          used i now address,
          ap (λ m. find (fits_key digest legacy (trim key)) (values m)) stored
              ∙ find-set_first (fits_key digest legacy (trim key)) st.invites i (used i now address)
                  keyed found matched,
          refl,
        ) in
        ground (arith, accepted, Spent-successes st' rest spent)
  ]

  -- An attempt succeeds exactly if the key is given, the address is, and the first invite that the
  -- key opens is unused, not expired, and bound to no other address.
  pub consume_iff :
      (st : Invites) (now : ℕ) (email : Option String)
      → is_empty key ≡ false
      → ((consume digest legacy st now key email).0 ≡ true) ↔ (
          (i : Invite) × (address : String) × (find
              (fits_key digest legacy (trim key))
              (values st.invites)
            ≡ some i)
          × (normalize_email email ≡ some address)
          × (i.used_at ≡ none)
          × (now < i.expires_at)
          × ((normalize_email i.email ≡ none) ⊎ (normalize_email i.email ≡ some address)))
  unfolding consume
  consume_iff st now email full = (
    λ h. elim (Option-cases (normalize_email email)) [
      | inl missing ↦ absurd (ground arith)
      | inr (address, given) ↦
          elim (Option-cases (find (fits_key digest legacy (trim key)) (values st.invites))) [
            | inl unknown ↦ absurd (ground arith)
            | inr (i, found) ↦
                let (unused, early, free) = (usable_iff now address i).0 (ground arith) in
                (i, address, found, given, unused, early, free)
          ]
    ],
    λ (i, address, found, given, unused, early, free).
        ground (arith, (usable_iff now address i).1 (unused, early, free)),
  )
