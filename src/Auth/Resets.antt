-- ===== src/Auth/Resets.antt =====
-- Password resets: `issue` and `consume` of src/modules/auth/password-reset.service.ts over the store
-- in memory. The two digests of src/common/security/token-digest.ts are parameters. Times are
-- milliseconds.
pub mod Once
use agapornis_api.Common.{
  ℕ, ◌+◌, ◌*◌, String, Bool, Option, none, some, List, [], ◌∷◌, if◌then◌else◌, string_eq, ltb, find,
}
use agapornis_api.Common.Dict.{get, set, delete, has}

pub record Reset : Type 0 where
  pub user_id : String
  pub expires_at : ℕ

abbrev pub Resets : Type 0
Resets = List (String × Reset)

module _ (digest legacy : String → String) where
  -- `token` is what the random bytes give.
  unfoldable pub issue : Resets → ℕ → String → String → Resets
  issue st now token user_id =
      set (digest token) (record { user_id = user_id; expires_at = now + 30 * 60000 }) st

  -- `tokenDigestCandidates`
  abbrev pub digests : String → List String
  digests token = digest token ∷ legacy token ∷ []

  unfoldable pub consume : Resets → ℕ → String → Option String × Resets
  consume st now token = elim (find (λ c. has c st) (digests token)) [
    | none ↦ (none, st)
    | some hash ↦ elim (get hash st) [
      | none ↦ (none, delete hash st)
      | some r ↦ (if ltb now r.expires_at then some r.user_id else none, delete hash st)
    ]
  ]
