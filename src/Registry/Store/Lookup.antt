-- ===== src/Registry/Store/Lookup.antt =====
-- What the writes of the store leave at each id, and that every record stands under its own id.
use agapornis_api.Common.{
  ap, ◌∙◌, String, none, some, ◌≡◌, refl, if◌then◌else◌, ◌==◌, ==_iff, string_eq, arith,
}
use agapornis_api.Common.Dict.{get-set, get-delete}
use agapornis_api.Registry.Types.{ServerRecord, normalize_status}
use agapornis_api.Registry.Store.{Store, lookup, upsert, normalized, drop_server, remove}

pub lookup-upsert :
    (st : Store) (r : ServerRecord) (id : String)
    → lookup (upsert st r) id ≡ (if r.id == id then some (normalized r) else lookup st id)
unfolding upsert
lookup-upsert st r id = get-set r.id id (normalized r) st.servers

pub lookup-drop_server :
    (st : Store) (k id : String)
    → lookup (drop_server st k) id ≡ (if k == id then none else lookup st id)
unfolding drop_server
lookup-drop_server st k id = get-delete k id st.servers

pub lookup-remove :
    (st : Store) (k id : String)
    → lookup (remove st k) id ≡ (if k == id then none else lookup st id)
unfolding remove
lookup-remove st k id = get-delete k id st.servers

pub normalized_lem :
    (r : ServerRecord) → normalized r ≡ record r { status = normalize_status r.status }
unfolding normalized
normalized_lem r = refl

-- Every record stands under its own id.
abbrev pub IsKeyed : Store → Type 0
IsKeyed st = (id : String) (r : ServerRecord) → lookup st id ≡ some r → r.id ≡ id

pub upsert-IsKeyed : (st : Store) (r : ServerRecord) → IsKeyed st → IsKeyed (upsert st r)
upsert-IsKeyed st r h id x e =
    ground (arith, lookup-upsert st r id, h id x, normalized_lem r, ==_iff r.id id)

pub drop_server-IsKeyed : (st : Store) (k : String) → IsKeyed st → IsKeyed (drop_server st k)
drop_server-IsKeyed st k h id x e = ground (arith, lookup-drop_server st k id, h id x)

pub remove-IsKeyed : (st : Store) (k : String) → IsKeyed st → IsKeyed (remove st k)
remove-IsKeyed st k h id x e = ground (arith, lookup-remove st k id, h id x)

-- A record stored again with another status.
pub lookup-upsert_status :
    (st : Store) (r : ServerRecord) (s id : String)
    → normalize_status s ≡ s
    → lookup (upsert st (record r { status = s })) id
      ≡ (if r.id == id then some (record r { status = s }) else lookup st id)
lookup-upsert_status st r s id h =
    lookup-upsert st (record r { status = s }) id
    ∙ ap (λ (n : ServerRecord). if r.id == id then some n else lookup st id)
        (normalized_lem (record r { status = s }) ∙ ap (λ (t : String). record r { status = t }) h)
