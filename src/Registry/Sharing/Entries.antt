-- ===== src/Registry/Sharing/Entries.antt =====
-- Which entry a user has after a server was shared or unshared.
use agapornis_api.Common.{
  String, Option, none, some, List, [], ◌∷◌, ◌++◌, ◌≡◌, refl, if◌then◌else◌, ◌==◌, ==_iff,
  string_eq, arith, find, get_or, or_else, contains-dedupe, contains-append, contains-without,
}
use agapornis_api.Registry.Types.{ServerRecord, Scope, Permission, Collaborator}
use agapornis_api.Registry.Access.{scopes, listed, collaborator}
use agapornis_api.Registry.Sharing.{shared_with, unshared_with, without_entry}

abbrev entry_of : List Collaborator → String → Option Collaborator
entry_of cs v = find (λ (c : Collaborator). c.user_id == v) cs

find-without :
    (u v : String) (cs : List Collaborator)
    → entry_of (without_entry cs u) v ≡ (if u == v then none else entry_of cs v)
find-without u v [] = ground arith
find-without u v (c ∷ cs) =
    ground (arith, find-without u v cs, ==_iff u v, ==_iff c.user_id u, ==_iff c.user_id v)

find-append :
    (v : String) (cs ds : List Collaborator)
    → entry_of (cs ++ ds) v ≡ or_else (entry_of cs v) (entry_of ds v)
find-append v [] ds = refl
find-append v (c ∷ cs) ds = ground (arith, find-append v cs ds)

-- An unshared user has no entry, and the others have theirs.
pub collaborator-unshared_with :
    (r : ServerRecord) (u v : String)
    → collaborator (unshared_with r u) v ≡ (if u == v then none else collaborator r v)
unfolding collaborator unshared_with
collaborator-unshared_with r u v = ground (
  arith,
  find-without u v (get_or r.collaborators []),
  contains-without u v (get_or r.collaborator_user_ids []),
  ==_iff u v,
  ==_iff v u,
)

abbrev pub entry : String → Permission → List Scope → Collaborator
entry u p ps = record { user_id = u; permission = p; permissions = scopes p (listed ps) }

-- A user that a server is shared with has the new entry, and the others have theirs.
pub collaborator-shared_with :
    (r : ServerRecord) (u v : String) (p : Permission) (ps : List Scope)
    → collaborator (shared_with r u p ps) v
      ≡ (if u == v then some (entry u p ps) else collaborator r v)
unfolding collaborator shared_with
collaborator-shared_with r u v p ps = ground (
  arith,
  find-without u v (get_or r.collaborators []),
  find-append v (without_entry (get_or r.collaborators []) u) (entry u p ps ∷ []),
  contains-dedupe (get_or r.collaborator_user_ids [] ++ u ∷ []) v,
  contains-append (get_or r.collaborator_user_ids []) (u ∷ []) v,
  ==_iff u v,
)
