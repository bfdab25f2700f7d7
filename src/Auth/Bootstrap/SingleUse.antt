-- ===== src/Auth/Bootstrap/SingleUse.antt =====
-- A bootstrap token works for an hour, and once.
use agapornis_api.Common.{
  ℕ, ◌+◌, ◌*◌, String, Bool, true, false, none, some, List, [], ◌∷◌, ◌≡◌, refl, ap, ◌∙◌, arith, inl,
  inr, ◌⊎◌, ◌==◌, ==_iff, ==_refl, string_eq, leb, find, Bool-cases, Option-cases,
}
use agapornis_api.Common.Dict.{get, delete, has, get-set, get-delete}
use agapornis_api.Common.Text.{is_empty}
use agapornis_api.Auth.Bootstrap.{
  Token, Tokens, live_tokens, cleanup, generate, consume, candidates,
}

-- A new token is good until an hour has passed, and not a moment longer.
pub consume-generate :
    (digest legacy : String → String) (st : Tokens) (now t : ℕ) (token : String)
    → is_empty token ≡ false
    → (consume digest legacy (generate digest legacy st now token) t token).0
      ≡ leb t (now + 60 * 60 * 1000)
unfolding consume generate
consume-generate digest legacy st now t token full =
    let new : Token = record {
      token_hash = digest token;
      expires_at = now + 60 * 60 * 1000;
      created_at = now;
    } in
    ground (arith, get-set (digest token) (digest token) new st.tokens, ==_refl (digest token))

-- What a consumption did: nothing, or the removal of one of the two digests.
consume_lem :
    (digest legacy : String → String) (st : Tokens) (now : ℕ) (token : String)
    → (consume digest legacy st now token ≡ (false, st))
      ⊎ ((hash : String) × (find (λ c. has c st.tokens) (candidates digest legacy token)
            ≡ some hash)
          × ((consume digest legacy st now token).1.tokens ≡ delete hash st.tokens))
unfolding consume
consume_lem digest legacy st now token = elim (Bool-cases (is_empty token)) [
  | inl empty ↦ inl (ground arith)
  | inr full ↦ elim (Option-cases (find (λ c. has c st.tokens) (candidates digest legacy token))) [
    | inl missing ↦ inl (ground arith)
    | inr (hash, found) ↦ elim (Option-cases (get hash st.tokens)) [
      | inl gone ↦ inl (ground arith)
      | inr (t, there) ↦ inr (hash, found, ground arith)
    ]
  ]
]

consume-gone :
    (digest legacy : String → String) (st : Tokens) (now : ℕ) (token k : String)
    → get k st.tokens ≡ none
    → get k (consume digest legacy st now token).1.tokens ≡ none
consume-gone digest legacy st now token k h = elim (consume_lem digest legacy st now token) [
  | inl same ↦ ap (λ (r : Bool × Tokens). get k r.1.tokens) same ∙ h
  | inr (hash, found, removed) ↦ ap (get k) removed ∙ ground (arith, get-delete hash k st.tokens, h)
]

-- What may happen to the tokens.
pub data Event : Type 0 where
  generates consumes : ℕ → String → Event
  cleans : ℕ → Event

module _ (digest legacy : String → String) where
  abbrev pub step : Tokens → Event → Tokens
  step st (generates now token) = generate digest legacy st now token
  step st (consumes now token) = (consume digest legacy st now token).1
  step st (cleans now) = cleanup st now

  unfoldable pub run : Tokens → List Event → Tokens
  run st [] = st
  run st (e ∷ es) = run (step st e) es

  -- The event makes no token with a digest of `token`.
  abbrev pub Spares : String → Event → Type 0
  Spares token (generates now other) =
      ((digest token == digest other) ≡ false) × ((legacy token == digest other) ≡ false)
  Spares token _ = Unit

  abbrev pub AllSpare : String → List Event → Type 0
  AllSpare token [] = Unit
  AllSpare token (e ∷ es) = Spares token e × AllSpare token es

live_tokens-gone :
    (now : ℕ) (k : String) (m : List (String × Token))
    → get k m ≡ none
    → get k (live_tokens now m) ≡ none
unfolding live_tokens get
live_tokens-gone now k [] h = refl
live_tokens-gone now k ((j, t) ∷ m) h = ground (arith, live_tokens-gone now k m)

cleanup-gone :
    (st : Tokens) (now : ℕ) (k : String)
    → get k st.tokens ≡ none
    → get k (cleanup st now).tokens ≡ none
unfolding cleanup
cleanup-gone st now k h = ground (arith, live_tokens-gone now k st.tokens h)

generate-gone :
    (digest legacy : String → String) (st : Tokens) (now : ℕ) (other k : String)
    → (k == digest other) ≡ false
    → get k st.tokens ≡ none
    → get k (generate digest legacy st now other).tokens ≡ none
unfolding generate
generate-gone digest legacy st now other k apart h = ground (
  arith,
  get-set (digest other) k
      (record { token_hash = digest other; expires_at = now + 60 * 60 * 1000; created_at = now })
      st.tokens,
  ==_iff k (digest other),
  ==_iff (digest other) k,
)

module _ (digest legacy : String → String) (token : String) where
  abbrev IsGone : Tokens → Type 0
  IsGone st = (get (digest token) st.tokens ≡ none) × (get (legacy token) st.tokens ≡ none)

  step-IsGone :
      (st : Tokens) (e : Event)
      → Spares digest legacy token e
      → IsGone st
      → IsGone (step digest legacy st e)
  step-IsGone st (generates now other) (d, l) (h, k) = (
    generate-gone digest legacy st now other (digest token) d h,
    generate-gone digest legacy st now other (legacy token) l k,
  )
  step-IsGone st (consumes now other) spares (h, k) = (
    consume-gone digest legacy st now other (digest token) h,
    consume-gone digest legacy st now other (legacy token) k,
  )
  step-IsGone st (cleans now) spares (h, k) =
      (cleanup-gone st now (digest token) h, cleanup-gone st now (legacy token) k)

  run-IsGone :
      (st : Tokens) (es : List Event)
      → AllSpare digest legacy token es
      → IsGone st
      → IsGone (run digest legacy st es)
  unfolding run
  run-IsGone st [] spares gone = gone
  run-IsGone st (e ∷ es) (spares, rest) gone =
      run-IsGone (step digest legacy st e) es rest (step-IsGone st e spares gone)

gone-refused :
    (digest legacy : String → String) (st : Tokens) (now : ℕ) (token : String)
    → IsGone digest legacy token st
    → consume digest legacy st now token ≡ (false, st)
unfolding consume
gone-refused digest legacy st now token (h, k) = ground arith

-- A token that was accepted is refused ever after, whatever tokens are made, used and cleaned up in
-- between, if none of those made has a digest of it. Its older digest was not stored.
pub consume_once :
    (digest legacy : String → String) (st : Tokens) (now later : ℕ) (token : String)
    (es : List Event)
    → (consume digest legacy st now token).0 ≡ true
    → get (legacy token) st.tokens ≡ none
    → AllSpare digest legacy token es
    → (consume digest legacy
        (run digest legacy (consume digest legacy st now token).1 es)
        later
        token).0
      ≡ false
consume_once digest legacy st now later token es used fresh spares =
    elim (consume_lem digest legacy st now token) [
      | inl same ↦ absurd (cc (ap (λ (r : Bool × Tokens). r.0) same))
      | inr (hash, found, removed) ↦
          let st' = (consume digest legacy st now token).1 in
          let which : hash ≡ digest token = ground arith in
          let gone : IsGone digest legacy token st' = (
            ap (get (digest token)) removed
                ∙ ground
                    (arith, get-delete hash (digest token) st.tokens, ==_iff hash (digest token)),
            consume-gone digest legacy st now token (legacy token) fresh,
          ) in
          ap (λ (r : Bool × Tokens). r.0)
            (gone-refused digest legacy (run digest legacy st' es) later token
              (run-IsGone digest legacy token st' es spares gone))
    ]
