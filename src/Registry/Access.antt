-- ===== src/Registry/Access.antt =====
-- Who may see a server, and do what with it: `canAccess`, `canWrite`, `canManageAccess`,
-- `canPerform`, `accessFor` and what they call in server-registry.service.ts.
pub mod Permissions
pub mod Consistency
use agapornis_api.Common.{
  dedupe, String, Bool, true, false, not, ◌&&◌, ◌||◌, Option, none, some, List, [], ◌∷◌, map,
  if◌then◌else◌, ◌==◌, string_eq, contains, filter, find, get_or, is_some,
}
use agapornis_api.Registry.Types.{
  Role, admin, support, user, User, Scope, console_view, files_view, scope_name, all_scopes,
  scope_eq, Permission, read_only, operator, custom, Collaborator, ServerRecord, Access,
  Relationship, AccessPermission, granted, owned_by,
}

-- `['owner', 'admin'].includes(role)`
abbrev pub is_admin : Role → Bool
is_admin Role.owner = true
is_admin admin = true
is_admin _ = false

abbrev pub is_support : Role → Bool
is_support support = true
is_support _ = false

unfoldable pub is_staff : Role → Bool
is_staff support = true
is_staff r = is_admin r

-- `allowed.has(value)` for the names of the scopes, as the scope.
unfoldable pub parse_scope : String → List Scope → Option Scope
parse_scope value [] = none
parse_scope value (s ∷ rest) =
    let later = parse_scope value rest in if value == scope_name s then some s else later

abbrev keep_some : Option Scope → List Scope → List Scope
keep_some none rest = rest
keep_some (some s) rest = s ∷ rest

unfoldable pub parse_scopes : List String → List Scope
unfolding parse_scope
parse_scopes [] = []
parse_scopes (v ∷ vs) = keep_some (parse_scope v all_scopes) (parse_scopes vs)

-- `values` holds what a stored row has, which need not name scopes.
unfoldable pub scopes : Permission → List String → List Scope
unfolding parse_scopes dedupe
scopes operator values = all_scopes
scopes read_only values = console_view ∷ files_view ∷ []
scopes custom values = dedupe (parse_scopes values)

abbrev pub listed : List Scope → List String
listed = map scope_name

-- A collaborator that only the old list of ids names is an operator.
unfoldable pub collaborator : ServerRecord → String → Option Collaborator
collaborator server user_id =
    elim (find (λ (c : Collaborator). c.user_id == user_id) (get_or server.collaborators [])) [
      | some c ↦ some c
      | none ↦
          if contains (get_or server.collaborator_user_ids []) user_id
          then some (record { user_id = user_id; permission = operator; permissions = all_scopes })
          else none
    ]

abbrev is_operator : Option Collaborator → Bool
is_operator none = false
is_operator (some c) = elim c.permission [ operator ↦ true | _ ↦ false ]

-- `canAccess`, `canWrite`, `canManageAccess` and `canPerform` are false of a missing server.
unfoldable pub can_access : Option ServerRecord → User → Bool
unfolding is_staff collaborator
can_access none u = false
can_access (some server) u =
    is_staff u.role || owned_by server.owner_user_id u.id || is_some (collaborator server u.id)

unfoldable pub can_write : Option ServerRecord → User → Bool
unfolding collaborator
can_write none u = false
can_write (some server) u =
    if is_admin u.role
    then true
    else if is_support u.role
    then false
    else if owned_by server.owner_user_id u.id
    then true
    else is_operator (collaborator server u.id)

unfoldable pub can_manage_access : Option ServerRecord → User → Bool
can_manage_access none u = false
can_manage_access (some server) u = is_admin u.role || owned_by server.owner_user_id u.id

abbrev grants : Option Collaborator → Scope → Bool
grants none s = false
grants (some c) s = contains (scopes c.permission (listed c.permissions)) s

unfoldable pub can_perform : Option ServerRecord → User → Scope → Bool
unfolding collaborator scopes
can_perform none u s = false
can_perform (some server) u s =
    if owned_by server.owner_user_id u.id || is_admin u.role
    then true
    else if is_support u.role
    then false
    else grants (collaborator server u.id) s

-- The last branch of `accessFor`; `collaborator?.permission || 'read_only'`.
abbrev pub collaborator_access : Option Collaborator → Access
collaborator_access none = record {
  relationship = Relationship.collaborator;
  permission = granted read_only;
  can_write = false;
  can_manage_access = false;
  permissions = scopes read_only [];
}
collaborator_access (some c) = record {
  relationship = Relationship.collaborator;
  permission = granted c.permission;
  can_write = is_operator (some c);
  can_manage_access = false;
  permissions = scopes c.permission (listed c.permissions);
}

unfoldable pub access_for : ServerRecord → User → Access
unfolding collaborator scopes
access_for server u =
    if owned_by server.owner_user_id u.id
    then record {
      relationship = Relationship.owner;
      permission = AccessPermission.owner;
      can_write = true;
      can_manage_access = true;
      permissions = all_scopes;
    }
    else if is_admin u.role
    then record {
      relationship = Relationship.staff;
      permission = AccessPermission.staff;
      can_write = true;
      can_manage_access = true;
      permissions = all_scopes;
    }
    else if is_support u.role
    then record {
      relationship = Relationship.staff;
      permission = AccessPermission.staff;
      can_write = false;
      can_manage_access = false;
      permissions = [];
    }
    else collaborator_access (collaborator server u.id)
