-- ===== src/Registry/Access/Permissions.antt =====
-- `canPerform` against a description of who may do what, and what the grants hold.
use agapornis_api.Common.{
  contains-dedupe, String, true, false, Option, none, some, List, [], ◌∷◌, string_eq, contains, ◌≡◌,
  refl, ◌↔◌, ◌⊎◌, inl, inr, arith, Bool-cases, Option-cases, ==_iff,
}
use agapornis_api.Registry.Types.{
  User, Scope, console_view, files_view, scope_name, all_scopes, scope_eq, Permission, read_only,
  operator, custom, Collaborator, ServerRecord, owned_by, scope_beq, scope_beq_iff,
}
use agapornis_api.Registry.Access.{
  can_perform, collaborator, scopes, listed, is_admin, is_support, parse_scope, parse_scopes,
}

-- The scopes that a collaborator's entry stands for.
pub data Granted (c : Collaborator) : Scope → Type 0 where
  as_operator : {s : Scope} → c.permission ≡ operator → Granted c s
  may_view :
      {s : Scope} → c.permission ≡ read_only → (s ≡ console_view) ⊎ (s ≡ files_view) → Granted c s
  chosen : {s : Scope} → c.permission ≡ custom → contains c.permissions s ≡ true → Granted c s

-- Who may do what: the server's owner and the panel's administrators anything, the support staff
-- nothing, and a collaborator what the entry grants.
pub data MayPerform (server : ServerRecord) (u : User) (s : Scope) : Type 0 where
  by_owner : server.owner_user_id ≡ some u.id → MayPerform server u s
  by_admin : is_admin u.role ≡ true → MayPerform server u s
  by_grant :
      (c : Collaborator)
      → is_support u.role ≡ false
      → collaborator server u.id ≡ some c
      → Granted c s
      → MayPerform server u s

parse-scope_name : (s : Scope) → parse_scope (scope_name s) all_scopes ≡ some s
unfolding parse_scope
parse-scope_name console_view = refl
parse-scope_name _ = refl

-- The names of scopes are read back as the scopes.
pub parse_scopes-listed : (xs : List Scope) → parse_scopes (listed xs) ≡ xs
unfolding parse_scopes
parse_scopes-listed [] = refl
parse_scopes-listed (s ∷ xs) = rw (parse-scope_name s, parse_scopes-listed xs)

pub contains-all : (s : Scope) → contains all_scopes s ≡ true
unfolding scope_beq
contains-all console_view = refl
contains-all _ = refl

owned_by_iff : (o : Option String) (id : String) → (owned_by o id ≡ true) ↔ (o ≡ some id)
owned_by_iff none id = ground arith
owned_by_iff (some o) id = ground (arith, ==_iff o id)

scopes-Granted :
    (c : Collaborator) (p : Permission) (s : Scope)
    → c.permission ≡ p
    → contains (scopes p (listed c.permissions)) s ≡ true
    → Granted c s
unfolding scopes
scopes-Granted c read_only s e h =
    may_view e (ground (arith, scope_beq_iff console_view s, scope_beq_iff files_view s))
scopes-Granted c operator s e h = as_operator e
scopes-Granted c custom s e h = chosen e (
    ground (
      arith,
      contains-dedupe (parse_scopes (listed c.permissions)) s,
      parse_scopes-listed c.permissions,
    ))

Granted-scopes :
    (c : Collaborator) {s : Scope}
    → Granted c s
    → contains (scopes c.permission (listed c.permissions)) s ≡ true
unfolding scopes
Granted-scopes c {s} (as_operator e) = rw e (contains-all s)
Granted-scopes c {s} (may_view e v) =
    rw e (ground (arith, scope_beq_iff console_view s, scope_beq_iff files_view s))
Granted-scopes c {s} (chosen e m) = rw e (
    ground (
      arith,
      contains-dedupe (parse_scopes (listed c.permissions)) s,
      parse_scopes-listed c.permissions,
    ))

can_perform_sound :
    (server : ServerRecord) (u : User) (s : Scope)
    → can_perform (some server) u s ≡ true
    → MayPerform server u s
unfolding can_perform
can_perform_sound server u s h = elim (Bool-cases (owned_by server.owner_user_id u.id)) [
  | inl mine ↦ by_owner ((owned_by_iff server.owner_user_id u.id).0 mine)
  | inr other ↦ elim (Bool-cases (is_admin u.role)) [
    | inl high ↦ by_admin high
    | inr low ↦ elim (Option-cases (collaborator server u.id)) [
      | inl absent ↦ absurd (ground arith)
      | inr (c, found) ↦
          by_grant c (ground arith) found (scopes-Granted c c.permission s refl (ground arith))
    ]
  ]
]

can_perform_complete :
    (server : ServerRecord) (u : User) {s : Scope}
    → MayPerform server u s
    → can_perform (some server) u s ≡ true
unfolding can_perform
can_perform_complete server u (by_owner e) = ground (arith, owned_by_iff server.owner_user_id u.id)
can_perform_complete server u (by_admin a) = ground arith
can_perform_complete server u {s} (by_grant c n found g) = ground (arith, Granted-scopes c g)

-- `canPerform` allows exactly what the description allows.
pub can_perform_iff :
    (server : ServerRecord) (u : User) (s : Scope)
    → (can_perform (some server) u s ≡ true) ↔ MayPerform server u s
can_perform_iff server u s = (can_perform_sound server u s, can_perform_complete server u)
