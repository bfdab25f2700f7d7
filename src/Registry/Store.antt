-- ===== src/Registry/Store.antt =====
-- The map of servers, its file and its removal notices: `get`, `upsert`, `remove`, `usedPorts`'s
-- reading of the records, and `save` in server-registry.service.ts.
pub mod Lookup
use agapornis_api.Common.{
  err, ok, Result, String, Bool, true, false, Option, none, some, List, [], ◌∷◌, ◌++◌, string_eq,
}
use agapornis_api.Common.Dict.{get, set, delete, values}
use agapornis_api.Registry.Types.{ServerRecord, normalize_status}

-- `servers`, what `save` last wrote to `servers.json`, and the notices of `notifyServerRemoved`.
pub record Store : Type 0 where
  pub servers : List (String × ServerRecord)
  pub file : Option (List ServerRecord)
  pub removed : List String

pub data Failure : Type 0 where
  not_found not_active still_provisioning needs_provisioning foreign_id owner_has_access : Failure
  already_in frozen_while cannot_finalize_from : String → Failure

abbrev pub lookup : Store → String → Option ServerRecord
lookup st id = get id st.servers

abbrev pub save : Store → Store
save st = record st { file = some (values st.servers) }

unfoldable pub normalized : ServerRecord → ServerRecord
unfolding normalize_status
normalized r = record r { status = normalize_status r.status }

unfoldable pub upsert : Store → ServerRecord → Store
upsert st r = save (record st { servers = set r.id (normalized r) st.servers })

-- `this.servers.delete(id); this.save()`
unfoldable pub drop_server : Store → String → Store
drop_server st id = save (record st { servers = delete id st.servers })

unfoldable pub remove : Store → String → Store
unfolding drop_server
remove st id = let st' = drop_server st id in record st' { removed = st'.removed ++ id ∷ [] }

-- The store after a call: unchanged where it threw.
abbrev pub after {ℓ} : {A : Type ℓ} → Store → Result Failure (A × Store) → Store
after st (ok (a, st')) = st'
after st (err e) = st
