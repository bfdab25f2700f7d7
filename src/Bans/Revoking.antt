-- ===== src/Bans/Revoking.antt =====
-- What `revoke` does.
use agapornis_api.Common.{
  ℕ, String, Bool, false, ◌≡◌, sym, ap, ◌∙◌, arith, some, inl, inr, if◌then◌else◌, ◌==◌, ==_refl,
  string_eq, Option-cases, or_else, ok,
}
use agapornis_api.Common.Dict.{get, set, get-set}
use agapornis_api.Bans.{Ban, Bans, revoke, is_active}

abbrev pub revoked : Ban → ℕ → String → Ban
revoked b now actor = record b {
  revoked_at = or_else b.revoked_at (some now);
  revoked_by = or_else b.revoked_by (some actor);
}

pub revoke_lem :
    (st st' : Bans) (id actor : String) (now : ℕ) (b' : Ban)
    → revoke st id now actor ≡ ok (b', st')
    → (b : Ban) × (get id st.bans ≡ some b)
      × (b' ≡ revoked b now actor)
      × (st'.bans ≡ set id b' st.bans)
unfolding revoke
revoke_lem st st' id actor now b' h = elim (Option-cases (get id st.bans)) [
  | inl gone ↦ absurd (ground arith)
  | inr (b, found) ↦ (b, found, ground arith, ground arith)
]

pub revoked-inactive :
    (b : Ban) (now t : ℕ) (actor : String) → is_active t (revoked b now actor) ≡ false
unfolding is_active
revoked-inactive b now t actor = ground arith

revoked_twice :
    (b : Ban) (now now' : ℕ) (actor actor' : String)
    → revoked (revoked b now actor) now' actor' ≡ revoked b now actor
revoked_twice b now now' actor actor' = ground arith

-- A revoked ban is active at no time, and every other ban is as it was. A later revocation, by
-- whomever, answers with the same record: the first time and actor stay.
pub revoke_ends :
    (st st' : Bans) (id k actor actor' : String) (now now' t : ℕ) (b' : Ban)
    → revoke st id now actor ≡ ok (b', st')
    → (is_active t b' ≡ false)
      × (get k st'.bans ≡ (if id == k then some b' else get k st.bans))
      × ((b'' : Ban) (st'' : Bans) → revoke st' id now' actor' ≡ ok (b'', st'') → b'' ≡ b')
revoke_ends st st' id k actor actor' now now' t b' h =
    let (b, found, same, est) = revoke_lem st st' id actor now b' h in
    (
      ap (is_active t) same ∙ revoked-inactive b now t actor,
      ap (get k) est ∙ get-set id k b' st.bans,
      λ b'' st'' again.
          let (c, there, same', est') = revoke_lem st' st'' id actor' now' b'' again in
          let now_there : get id st'.bans ≡ some b' =
            ap (get id) est
            ∙ get-set id id b' st.bans
            ∙ ap (λ (x : Bool). if x then some b' else get id st.bans) (==_refl id) in
          let c_is : c ≡ b' = ground (arith, there, now_there) in
          same'
          ∙ ap (λ x. revoked x now' actor') (c_is ∙ same)
          ∙ revoked_twice b now now' actor actor'
          ∙ sym same,
    )
