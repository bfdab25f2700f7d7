-- ===== src/Auth/Bootstrap.antt =====
-- The bootstrap tokens of agents: `generateToken`, `consumeToken` and `cleanupExpiredTokens` of
-- src/modules/bootstrap-token/bootstrap-token.service.ts, over the JSON store, with
-- `tokenDigestCandidates` of src/common/security/token-digest.ts. The two digests, SHA3-512 and the
-- older SHA-256, are parameters. Times are milliseconds.
pub mod SingleUse
use agapornis_api.Common.{
  ℕ, ◌+◌, ◌*◌, String, Bool, true, false, not, Option, none, some, List, [], ◌∷◌, if◌then◌else◌,
  string_eq, ltb, find,
}
use agapornis_api.Common.Dict.{get, set, delete, has, values}
use agapornis_api.Common.Text.{is_empty}

pub record Token : Type 0 where
  pub token_hash : String
  pub expires_at : ℕ
  pub created_at : ℕ

pub record Tokens : Type 0 where
  pub tokens : List (String × Token)
  pub file : Option (List Token)

abbrev pub save : Tokens → Tokens
save st = record st { file = some (values st.tokens) }

-- The loop of `cleanupExpiredTokens` over the entries.
unfoldable pub live_tokens : ℕ → List (String × Token) → List (String × Token)
live_tokens now [] = []
live_tokens now ((k, t) ∷ rest) =
    let kept = live_tokens now rest in if ltb t.expires_at now then kept else (k, t) ∷ kept

abbrev any_expired : ℕ → List (String × Token) → Bool
any_expired now [] = false
any_expired now ((k, t) ∷ rest) =
    let later = any_expired now rest in if ltb t.expires_at now then true else later

unfoldable pub cleanup : Tokens → ℕ → Tokens
unfolding live_tokens
cleanup st now =
    let cleaned = save (record st { tokens = live_tokens now st.tokens }) in
    if any_expired now st.tokens then cleaned else st

module _ (digest legacy : String → String) where
  -- `token` is what the random bytes give.
  unfoldable pub generate : Tokens → ℕ → String → Tokens
  generate st now token =
      let t : Token = record {
        token_hash = digest token;
        expires_at = now + 60 * 60 * 1000;
        created_at = now;
      } in
      save (record st { tokens = set (digest token) t st.tokens })

  abbrev pub candidates : String → List String
  candidates token = digest token ∷ legacy token ∷ []

  unfoldable pub consume : Tokens → ℕ → String → Bool × Tokens
  consume st now token =
      if is_empty token
      then (false, st)
      else elim (find (λ c. has c st.tokens) (candidates token)) [
        | none ↦ (false, st)
        | some hash ↦ elim (get hash st.tokens) [
          | none ↦ (false, st)
          | some t ↦
              (not (ltb t.expires_at now), save (record st { tokens = delete hash st.tokens }))
        ]
      ]
