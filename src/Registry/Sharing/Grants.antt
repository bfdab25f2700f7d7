-- ===== src/Registry/Sharing/Grants.antt =====
-- What sharing and unsharing a server changes in what users may do.
use agapornis_api.Common.{
  String, false, Option, none, some, List, [], ◌∷◌, ◌≡◌, ◌≢◌, refl, ==_iff, string_eq, arith,
  contains, contains-dedupe, ok,
}
use agapornis_api.Common.Dict.{get, get-set}
use agapornis_api.Registry.Types.{
  ServerRecord, Scope, scope_eq, User, Permission, operator, read_only, custom, owned_by,
}
use agapornis_api.Registry.Access.{scopes, listed, can_access, can_perform, is_staff}
use agapornis_api.Registry.Access.Permissions.{parse_scopes-listed}
use agapornis_api.Registry.Store.{Store, lookup}
use agapornis_api.Registry.Sharing.{
  shared_with, unshared_with, add_collaborator, remove_collaborator, remove_user_collaborations,
  unshared_all,
}
use agapornis_api.Registry.Sharing.Entries.{collaborator-shared_with, collaborator-unshared_with}

add_collaborator_inv :
    (st st' : Store) (id u : String) (p : Permission) (ps : List Scope) (r old : ServerRecord)
    → add_collaborator st id u p ps ≡ ok (r, st')
    → lookup st id ≡ some old
    → (owned_by old.owner_user_id u ≡ false) × (lookup st' id ≡ some (shared_with old u p ps))
unfolding add_collaborator
add_collaborator_inv st st' id u p ps r old h found =
    (ground arith, ground (arith, get-set id id (shared_with old u p ps) st.servers, ==_iff id id))

remove_collaborator_inv :
    (st st' : Store) (id u : String) (r old : ServerRecord)
    → remove_collaborator st id u ≡ ok (r, st')
    → lookup st id ≡ some old
    → lookup st' id ≡ some (unshared_with old u)
unfolding remove_collaborator
remove_collaborator_inv st st' id u r old h found =
    ground (arith, get-set id id (unshared_with old u) st.servers, ==_iff id id)

scopes_twice :
    (p : Permission) (ps : List Scope) (s : Scope)
    → contains (scopes p (listed (scopes p (listed ps)))) s ≡ contains (scopes p (listed ps)) s
unfolding scopes
scopes_twice read_only ps s = refl
scopes_twice operator ps s = refl
scopes_twice custom ps s = rw (parse_scopes-listed ps, parse_scopes-listed, contains-dedupe) refl

shared-kept :
    (r : ServerRecord) (u : String) (p : Permission) (ps : List Scope)
    → (shared_with r u p ps).owner_user_id ≡ r.owner_user_id
unfolding shared_with
shared-kept r u p ps = refl

unshared-kept :
    (r : ServerRecord) (u : String) → (unshared_with r u).owner_user_id ≡ r.owner_user_id
unfolding unshared_with
unshared-kept r u = refl

-- After `addCollaborator` the stored server lets the user, who is not of the panel's staff, do just
-- what the permission and the scopes stand for, and lets every other user do what it did before.
pub add_collaborator_grants :
    (st st' : Store) (id : String) (u v : User) (p : Permission) (ps : List Scope) (s : Scope)
    (r old : ServerRecord)
    → add_collaborator st id u.id p ps ≡ ok (r, st')
    → lookup st id ≡ some old
    → is_staff u.role ≡ false
    → u.id ≢ v.id
    → (can_perform (lookup st' id) u s ≡ contains (scopes p (listed ps)) s)
      × (can_perform (lookup st' id) v s ≡ can_perform (lookup st id) v s)
unfolding can_perform is_staff
add_collaborator_grants st st' id u v p ps s r old h found plain other =
    let (mine, there) = add_collaborator_inv st st' id u.id p ps r old h found in
    rw (there, found)
      (
        ground (
          arith,
          collaborator-shared_with old u.id u.id p ps,
          ==_iff u.id u.id,
          scopes_twice p ps s,
          shared-kept old u.id p ps,
        ),
        ground (
          arith,
          collaborator-shared_with old u.id v.id p ps,
          ==_iff u.id v.id,
          shared-kept old u.id p ps,
        ),
      )

can-unshared_with :
    (r : ServerRecord) (u : User) (s : Scope)
    → is_staff u.role ≡ false
    → owned_by r.owner_user_id u.id ≡ false
    → (can_access (some (unshared_with r u.id)) u ≡ false)
      × (can_perform (some (unshared_with r u.id)) u s ≡ false)
unfolding can_access can_perform
can-unshared_with r u s plain mine =
    ground (arith, collaborator-unshared_with r u.id u.id, ==_iff u.id u.id, unshared-kept r u.id)

-- After `removeCollaborator` the user, who neither owns the server nor is of the panel's staff, can
-- not see it nor do anything with it, and every other user may do what it could before.
pub remove_collaborator_revokes :
    (st st' : Store) (id : String) (u v : User) (s : Scope) (r old : ServerRecord)
    → remove_collaborator st id u.id ≡ ok (r, st')
    → lookup st id ≡ some old
    → is_staff u.role ≡ false
    → owned_by old.owner_user_id u.id ≡ false
    → u.id ≢ v.id
    → (can_access (lookup st' id) u ≡ false)
      × (can_perform (lookup st' id) u s ≡ false)
      × (can_perform (lookup st' id) v s ≡ can_perform (lookup st id) v s)
unfolding can_perform
remove_collaborator_revokes st st' id u v s r old h found plain mine other =
    let there = remove_collaborator_inv st st' id u.id r old h found in
    let (blind, idle) = can-unshared_with old u s plain mine in
    rw (there, found)
      (
        blind,
        idle,
        ground (
          arith,
          collaborator-unshared_with old u.id v.id,
          ==_iff u.id v.id,
          unshared-kept old u.id,
        ),
      )

unshared_opt : Option ServerRecord → String → Option ServerRecord
unshared_opt none u = none
unshared_opt (some r) u = some (unshared_with r u)

get-unshared_all :
    (m : List (String × ServerRecord)) (u id : String)
    → get id (unshared_all m u) ≡ unshared_opt (get id m) u
unfolding unshared_all unshared_opt get
get-unshared_all [] u id = refl
get-unshared_all ((k, r) ∷ m) u id = ground (arith, get-unshared_all m u id)

-- After `removeUserCollaborations` the user can see no server that it does not own, if it is not of
-- the panel's staff, nor do anything with one.
pub remove_user_collaborations_revokes :
    (st : Store) (id : String) (u : User) (s : Scope) (old : ServerRecord)
    → lookup st id ≡ some old
    → is_staff u.role ≡ false
    → owned_by old.owner_user_id u.id ≡ false
    → let now = lookup (remove_user_collaborations st u.id) id in
      (can_access now u ≡ false) × (can_perform now u s ≡ false)
unfolding remove_user_collaborations unshared_opt
remove_user_collaborations_revokes st id u s old found plain mine =
    rw (get-unshared_all st.servers u.id id, found) (can-unshared_with old u s plain mine)
