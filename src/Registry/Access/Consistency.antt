-- ===== src/Registry/Access/Consistency.antt =====
-- `accessFor`, which tells a client what it may do, against the checks that decide.
use agapornis_api.Common.{true, not, ◌&&◌, some, contains, ◌≡◌, arith, Option-cases, inl, inr}
use agapornis_api.Registry.Types.{User, Scope, scope_eq, ServerRecord}
use agapornis_api.Registry.Access.{
  can_access, can_write, can_manage_access, can_perform, access_for, is_support, collaborator,
}
use agapornis_api.Registry.Access.Permissions.{contains-all}

-- For whoever may see a server, the scopes that `accessFor` lists are those that `canPerform` allows.
pub access_for-can_perform :
    (server : ServerRecord) (u : User) (s : Scope)
    → can_access (some server) u ≡ true
    → contains (access_for server u).permissions s ≡ can_perform (some server) u s
unfolding can_access can_perform access_for
access_for-can_perform server u s h = elim (Option-cases (collaborator server u.id)) [
  | inl absent ↦ ground (arith, contains-all s)
  | inr (c, found) ↦ ground (arith, contains-all s)
]

-- `canManageAccess` is what `accessFor` says of managing, and `canWrite` is what it says of writing,
-- except that `canWrite` refuses the support staff also on servers of their own.
pub access_for-can_write :
    (server : ServerRecord) (u : User)
    → ((access_for server u).can_manage_access ≡ can_manage_access (some server) u)
      × (can_write (some server) u ≡ (not (is_support u.role) && (access_for server u).can_write))
unfolding can_manage_access can_write access_for
access_for-can_write server u = elim (Option-cases (collaborator server u.id)) [
  | inl absent ↦ ground arith
  | inr (c, found) ↦ ground arith
]
