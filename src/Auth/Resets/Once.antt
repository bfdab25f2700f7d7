-- ===== src/Auth/Resets/Once.antt =====
-- A reset token can be presented once.
use agapornis_api.Common.{
  ℕ, ◌+◌, ◌*◌, String, true, false, none, List, [], ◌∷◌, ◌≡◌, refl, ap, ◌∙◌, arith, inl, inr, ◌⊎◌,
  ◌==◌, ==_iff, string_eq, Option-cases,
}
use agapornis_api.Common.Dict.{get, delete, has, get-set, get-delete}
use agapornis_api.Auth.Resets.{Resets, issue, consume}

-- What may happen to the tokens: one is issued to a user, or presented.
pub data Event : Type 0 where
  issues : ℕ → String → String → Event
  presents : ℕ → String → Event

module _ (digest legacy : String → String) where
  abbrev pub step : Resets → Event → Resets
  step st (issues now token user_id) = issue digest legacy st now token user_id
  step st (presents now token) = (consume digest legacy st now token).1

  unfoldable pub run : Resets → List Event → Resets
  run st [] = st
  run st (e ∷ es) = run (step st e) es

  -- No token with a digest of this one is issued.
  abbrev pub AllSpare : String → List Event → Type 0
  AllSpare token [] = Unit
  AllSpare token (issues now other user_id ∷ es) =
      ((digest token == digest other) ≡ false)
      × ((legacy token == digest other) ≡ false)
      × AllSpare token es
  AllSpare token (presents now other ∷ es) = AllSpare token es

  -- Nothing changes, since neither digest is stored, or one of them that is stored is deleted.
  consume_lem :
      (st : Resets) (now : ℕ) (token : String)
      → (((consume digest legacy st now token).1 ≡ st)
          × (get (digest token) st ≡ none)
          × (get (legacy token) st ≡ none))
        ⊎ ((hash : String) × (has hash st ≡ true)
            × ((hash ≡ digest token) ⊎ (hash ≡ legacy token))
            × ((consume digest legacy st now token).1 ≡ delete hash st))
  unfolding consume
  consume_lem st now token = elim (Option-cases (get (digest token) st)) [
    | inr (r, new) ↦ inr (digest token, ground arith, inl refl, ground arith)
    | inl none_new ↦ elim (Option-cases (get (legacy token) st)) [
      | inr (r, old) ↦ inr (legacy token, ground arith, inr refl, ground arith)
      | inl none_old ↦ inl (ground arith, none_new, none_old)
    ]
  ]

  consume-gone :
      (st : Resets) (now : ℕ) (token k : String)
      → get k st ≡ none
      → get k (consume digest legacy st now token).1 ≡ none
  consume-gone st now token k h = elim (consume_lem st now token) [
    | inl (same, _, _) ↦ ap (get k) same ∙ h
    | inr (hash, _, _, removed) ↦ ap (get k) removed ∙ ground (arith, get-delete hash k st)
  ]

  issue-gone :
      (st : Resets) (now : ℕ) (other user_id k : String)
      → (k == digest other) ≡ false
      → get k st ≡ none
      → get k (issue digest legacy st now other user_id) ≡ none
  unfolding issue
  issue-gone st now other user_id k apart h = ground (
    arith,
    get-set (digest other) k (record { user_id = user_id; expires_at = now + 30 * 60000 }) st,
    ==_iff k (digest other),
    ==_iff (digest other) k,
  )

  run-gone :
      (st : Resets) (es : List Event) (token : String)
      → AllSpare token es
      → get (digest token) st ≡ none
      → get (legacy token) st ≡ none
      → (get (digest token) (run st es) ≡ none) × (get (legacy token) (run st es) ≡ none)
  unfolding run
  run-gone st [] token spares h k = (h, k)
  run-gone st (issues now other user_id ∷ es) token (d, l, spares) h k =
      run-gone (issue digest legacy st now other user_id) es token spares
        (issue-gone st now other user_id (digest token) d h)
        (issue-gone st now other user_id (legacy token) l k)
  run-gone st (presents now other ∷ es) token spares h k =
      run-gone (consume digest legacy st now other).1 es token spares
        (consume-gone st now other (digest token) h) (consume-gone st now other (legacy token) k)

  gone-refused :
      (st : Resets) (now : ℕ) (token : String)
      → get (digest token) st ≡ none
      → get (legacy token) st ≡ none
      → (consume digest legacy st now token).0 ≡ none
  unfolding consume
  gone-refused st now token h k = ground arith

  -- Once a token has been presented, in time or not, it resets no password any more, whatever tokens
  -- are issued and presented in between, if none of those issued has a digest of it. Its older
  -- digest was not stored.
  pub reset_once :
      (st : Resets) (now later : ℕ) (token : String) (es : List Event)
      → get (legacy token) st ≡ none
      → AllSpare token es
      → (consume digest legacy (run (consume digest legacy st now token).1 es) later token).0 ≡ none
  reset_once st now later token es fresh spares =
      let st' = (consume digest legacy st now token).1 in
      let new_gone : get (digest token) st' ≡ none = elim (consume_lem st now token) [
        | inl (same, gone, _) ↦ ap (get (digest token)) same ∙ gone
        | inr (hash, there, inl which, removed) ↦
            ap (get (digest token)) removed
            ∙ ground (arith, get-delete hash (digest token) st, ==_iff hash (digest token))
        | inr (hash, there, inr which, removed) ↦ absurd (ground (arith, ap (λ h. get h st) which))
      ] in
      let (h, k) =
        run-gone st' es token spares new_gone (consume-gone st now token (legacy token) fresh) in
      gone-refused (run st' es) later token h k
