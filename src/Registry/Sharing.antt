-- ===== src/Registry/Sharing.antt =====
-- `addCollaborator`, `removeCollaborator` and `removeUserCollaborations` of
-- server-registry.service.ts.
pub mod Entries
pub mod Grants
use agapornis_api.Common.{
  String, Bool, true, false, not, ◌&&◌, ◌||◌, Option, none, some, List, [], ◌∷◌, ◌++◌, map,
  if◌then◌else◌, ◌==◌, string_eq, dedupe, filter, get_or, Result, ok, err,
}
use agapornis_api.Common.Dict.{set}
use agapornis_api.Registry.Types.{ServerRecord, Scope, Permission, Collaborator, owned_by}
use agapornis_api.Registry.Access.{scopes, listed}
use agapornis_api.Registry.Store.{Store, Failure, not_found, owner_has_access, lookup, save}

abbrev pub without_id : List String → String → List String
without_id ids id = filter (λ i. not (i == id)) ids

abbrev pub without_entry : List Collaborator → String → List Collaborator
without_entry cs id = filter (λ (c : Collaborator). not (c.user_id == id)) cs

unfoldable pub shared_with : ServerRecord → String → Permission → List Scope → ServerRecord
unfolding scopes dedupe
shared_with r user_id permission permissions =
    let entry : Collaborator = record {
      user_id = user_id;
      permission = permission;
      permissions = scopes permission (listed permissions);
    } in
    record r {
      collaborator_user_ids = some (dedupe (get_or r.collaborator_user_ids [] ++ user_id ∷ []));
      collaborators = some (without_entry (get_or r.collaborators []) user_id ++ entry ∷ []);
    }

unfoldable pub unshared_with : ServerRecord → String → ServerRecord
unshared_with r user_id = record r {
  collaborator_user_ids = some (without_id (get_or r.collaborator_user_ids []) user_id);
  collaborators = some (without_entry (get_or r.collaborators []) user_id);
}

unfoldable pub add_collaborator :
    Store → String → String → Permission → List Scope → Result Failure (ServerRecord × Store)
unfolding shared_with
add_collaborator st server_id user_id permission permissions = elim (lookup st server_id) [
  | none ↦ err not_found
  | some server ↦
      let shared = shared_with server user_id permission permissions in
      if owned_by server.owner_user_id user_id
      then err owner_has_access
      else ok (shared, save (record st { servers = set server_id shared st.servers }))
]

unfoldable pub remove_collaborator : Store → String → String → Result Failure (ServerRecord × Store)
unfolding unshared_with
remove_collaborator st server_id user_id = elim (lookup st server_id) [
  | none ↦ err not_found
  | some server ↦
      let left = unshared_with server user_id in
      ok (left, save (record st { servers = set server_id left st.servers }))
]

unfoldable pub unshared_all : List (String × ServerRecord) → String → List (String × ServerRecord)
unfolding unshared_with
unshared_all [] user_id = []
unshared_all ((id, r) ∷ m) user_id = (id, unshared_with r user_id) ∷ unshared_all m user_id

unfoldable pub remove_user_collaborations : Store → String → Store
unfolding unshared_all
remove_user_collaborations st user_id =
    save (record st { servers = unshared_all st.servers user_id })
