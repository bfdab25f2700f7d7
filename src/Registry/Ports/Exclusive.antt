-- ===== src/Registry/Ports/Exclusive.antt =====
-- A random port that is reserved for a server was no other server's, nor a database's, when the
-- ports in use were read.
use agapornis_api.Common.{
  ℕ, ◌≤◌, min, max, false, not, ◌&&◌, Option, none, some, String, string_eq, nat_eq, List, [], ◌∷◌,
  ◌++◌, if◌then◌else◌, ap, refl, ◌==◌, ==_iff, contains, contains-append, ok, ◌≡◌, ◌≢◌, inl, inr,
  Option-cases, Result-cases, arith, All,
}
use agapornis_api.Common.Dict.{get, values}
use agapornis_api.Registry.Types.{ServerRecord, normalize_status}
use agapornis_api.Registry.Ports.Mappings.{Json, port_mappings, whole_ports}
use agapornis_api.Registry.Store.{Store, lookup, upsert}
use agapornis_api.Registry.Store.Lookup.{lookup-upsert_status}
use agapornis_api.Registry.Lifecycle.{Reservation}
use agapornis_api.Registry.Ports.{
  DatabaseRow, opt_list, used_ports, assigned_ports, mapped_ports, database_ports,
  allocate_random_port, reserve_random_port,
}
use agapornis_api.Registry.Ports.Free.{allocate_random_port_sound}

-- The row is no live database of the node at the port.
abbrev pub Unclaimed : String → ℕ → DatabaseRow → Type 0
Unclaimed node p d =
    (d.node_id == node && not (d.status == "deleting") && contains (opt_list d.port) p) ≡ false

assigned_ports-avoids :
    (node k : String) (m : List (String × ServerRecord)) (p : ℕ) (x : ServerRecord)
    → contains (assigned_ports node (values m)) p ≡ false
    → get k m ≡ some x
    → x.node_id ≡ node
    → contains (opt_list x.assigned_host_port) p ≡ false
unfolding assigned_ports get
assigned_ports-avoids node k [] p x h e n = absurd (ground arith)
assigned_ports-avoids node k ((j, r) ∷ m) p x h e n = ground (
  arith,
  contains-append (opt_list r.assigned_host_port) (assigned_ports node (values m)) p,
  assigned_ports-avoids node k m p x,
  ==_iff r.node_id node,
  ==_iff j k,
)

mapped_ports-avoids :
    (json : Json) (node k : String) (m : List (String × ServerRecord)) (p : ℕ) (x : ServerRecord)
    → contains (mapped_ports json node (values m)) p ≡ false
    → get k m ≡ some x
    → x.node_id ≡ node
    → contains (whole_ports (port_mappings json x.variables)) p ≡ false
unfolding mapped_ports get
mapped_ports-avoids json node k [] p x h e n = absurd (ground arith)
mapped_ports-avoids json node k ((j, r) ∷ m) p x h e n = ground (
  arith,
  contains-append (whole_ports (port_mappings json r.variables)) (mapped_ports json node (values m))
      p,
  mapped_ports-avoids json node k m p x,
  ==_iff r.node_id node,
  ==_iff j k,
)

database_ports-avoids :
    (node : String) (rows : List DatabaseRow) (p : ℕ)
    → contains (database_ports node rows) p ≡ false
    → All (Unclaimed node p) rows
unfolding database_ports
database_ports-avoids node [] p h = tt
database_ports-avoids node (d ∷ ds) p h = ground (
  arith,
  contains-append (opt_list d.port) (database_ports node ds) p,
  database_ports-avoids node ds p,
)

used_ports-avoids :
    (json : Json) (st : Store) (rows : List DatabaseRow) (node : String) (p : ℕ)
    → contains (used_ports json st rows node) p ≡ false
    → (contains (assigned_ports node (values st.servers)) p ≡ false)
      × (contains (mapped_ports json node (values st.servers)) p ≡ false)
      × (contains (database_ports node rows) p ≡ false)
unfolding used_ports
used_ports-avoids json st rows node p h = ground (
  arith,
  contains-append (assigned_ports node (values st.servers))
      (mapped_ports json node (values st.servers) ++ database_ports node rows) p,
  contains-append (mapped_ports json node (values st.servers)) (database_ports node rows) p,
)

reserve_random_port_inv :
    (json : Json) (draw : ℕ → ℕ) (read : Option ServerRecord) (seen st st' : Store)
    (rows : List DatabaseRow) (r : ServerRecord) (start end : ℕ) (res : Reservation)
    → reserve_random_port json draw read seen rows st r start end ≡ ok (res, st')
    → res.replay ≡ false
    → (p : ℕ) × (allocate_random_port draw
          (used_ports json seen rows r.node_id)
          (min start end)
          (max start end)
        ≡ ok p)
      × (res.server ≡ record r { assigned_host_port = some p; status = "provisioning" })
      × (st' ≡ upsert st (record r { assigned_host_port = some p; status = "provisioning" }))
      × (read ≡ none)
unfolding reserve_random_port
reserve_random_port_inv json draw read seen st st' rows r start end res h new =
    elim (Option-cases read) [
      | inr (existing, found) ↦ absurd (ground arith)
      | inl absent ↦
          elim (Result-cases (
            allocate_random_port draw (used_ports json seen rows r.node_id) (min start end)
              (max start end))) [
                | inr (e, failed) ↦ absurd (ground arith)
                | inl (p, given) ↦ (p, given, ground arith, ground arith, absent)
              ]
    ]

-- A port that `reserveRandomPort` gives to a new server lies in the range, and in the store that
-- `usedPorts` read, no server of the node had it assigned, nor as a number among its port mappings,
-- and no live database of the node had it. Whatever the store has become when the call goes on, the
-- record is stored in it with that port, and no other server is changed.
pub reserve_random_port_exclusive :
    (json : Json) (draw : ℕ → ℕ) (read : Option ServerRecord) (seen st st' : Store)
    (rows : List DatabaseRow) (r x : ServerRecord) (start end : ℕ) (res : Reservation)
    (k other : String)
    → reserve_random_port json draw read seen rows st r start end ≡ ok (res, st')
    → res.replay ≡ false
    → lookup seen k ≡ some x
    → x.node_id ≡ r.node_id
    → (p : ℕ) × (res.server.assigned_host_port ≡ some p)
      × (min start end ≤ p)
      × (p ≤ max start end)
      × (x.assigned_host_port ≢ some p)
      × (contains (whole_ports (port_mappings json x.variables)) p ≡ false)
      × All (Unclaimed r.node_id p) rows
      × (lookup st' other ≡ (if r.id == other then some res.server else lookup st other))
unfolding normalize_status
reserve_random_port_exclusive json draw read seen st st' rows r x start end res k other h new found
      here =
    let (p, given, at, stored, _) =
      reserve_random_port_inv json draw read seen st st' rows r start end res h new in
    let (positive, low, high, unused) =
      allocate_random_port_sound draw (used_ports json seen rows r.node_id) (min start end)
        (max start end) p given in
    let (a, m, d) = used_ports-avoids json seen rows r.node_id p unused in
    let fresh = assigned_ports-avoids r.node_id k seen.servers p x a found here in
    (
      p,
      ap (λ (y : ServerRecord). y.assigned_host_port) at,
      omega arith,
      omega arith,
      λ same. ground (arith, fresh, ==_iff p p),
      mapped_ports-avoids json r.node_id k seen.servers p x m found here,
      database_ports-avoids r.node_id rows p d,
      rw (stored, at)
          (lookup-upsert_status st (record r { assigned_host_port = some p }) "provisioning" other
            refl),
    )
