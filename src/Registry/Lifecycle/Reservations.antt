-- ===== src/Registry/Lifecycle/Reservations.antt =====
-- Reservations: a repeated request finds the server that an earlier one made, and no other's.
use agapornis_api.Common.{
  ◌∙◌, String, true, false, Option, none, some, ◌≡◌, refl, ==_iff, string_eq, arith, ok, err,
  Option-cases, inl, inr, ℕ, get_or, ap,
}
use agapornis_api.Registry.Types.{ServerRecord, normalize_status}
use agapornis_api.Registry.Store.{Store, already_in, lookup, after, upsert}
use agapornis_api.Registry.Store.Lookup.{lookup-upsert_status}
use agapornis_api.Registry.Lifecycle.{
  is_stable, Reservation, reserve, finalize_provisioning, port_or,
}

abbrev marked : ServerRecord → String → ServerRecord
marked r s = record r { status = s }

normalize-provisioning : normalize_status "provisioning" ≡ "provisioning"
unfolding normalize_status
normalize-provisioning = refl

normalize-created : normalize_status "created" ≡ "created"
unfolding normalize_status
normalize-created = refl

-- The owner and the egg compare with a missing one as the empty text.
abbrev pub SameIdentity : ServerRecord → ServerRecord → Type 0
SameIdentity a b =
    (a.node_id ≡ b.node_id)
    × (get_or a.owner_user_id "" ≡ get_or b.owner_user_id "")
    × (get_or a.egg_id "" ≡ get_or b.egg_id "")

-- A reservation is answered by an existing server only if that stands under the requested id and
-- has the requested node, owner and egg; nothing is stored then.
pub reserve_replay :
    (st st' : Store) (r : ServerRecord) (res : Reservation)
    → reserve (lookup st r.id) st r ≡ ok (res, st')
    → res.replay ≡ true
    → (lookup st r.id ≡ some res.server) × SameIdentity res.server r × (st' ≡ st)
unfolding reserve
reserve_replay st st' r res h again = elim (Option-cases (lookup st r.id)) [
  | inl absent ↦ absurd (ground arith)
  | inr (x, found) ↦ (
    ground arith,
    ground (
      arith,
      ==_iff x.node_id r.node_id,
      ==_iff (get_or x.owner_user_id "") (get_or r.owner_user_id ""),
      ==_iff (get_or x.egg_id "") (get_or r.egg_id ""),
    ),
    ground arith,
  )
]

reserve_new :
    (st : Store) (r : ServerRecord)
    → lookup st r.id ≡ none
    → reserve (lookup st r.id) st r
      ≡ ok (
        record { server = marked r "provisioning"; replay = false },
        upsert st (marked r "provisioning"),
      )
unfolding reserve
reserve_new st r absent = rw (absent, reserve)

reserve_pending :
    (st : Store) (r x : ServerRecord)
    → lookup st r.id ≡ some x
    → x.status ≡ "provisioning"
    → reserve (lookup st r.id) st r ≡ err (already_in "provisioning")
unfolding reserve
reserve_pending st r x found e =
    let unstable : is_stable x.status ≡ false = ap is_stable e ∙ unfold is_stable in refl in
    ground (arith, ap already_in e)

reserve_settled :
    (st : Store) (r x : ServerRecord)
    → lookup st r.id ≡ some x
    → SameIdentity x r
    → x.status ≡ "created"
    → reserve (lookup st r.id) st r ≡ ok (record { server = x; replay = true }, st)
unfolding reserve
reserve_settled st r x found (n, o, g) e =
    let stable : is_stable x.status ≡ true = ap is_stable e ∙ unfold is_stable in refl in
    ground (
      arith,
      ==_iff x.node_id r.node_id,
      ==_iff (get_or x.owner_user_id "") (get_or r.owner_user_id ""),
      ==_iff (get_or x.egg_id "") (get_or r.egg_id ""),
    )

abbrev pub finished : ServerRecord → Option ℕ → ServerRecord
finished r port = record r {
  assigned_host_port = port_or port r.assigned_host_port;
  status = "created";
}

finalize_pending :
    (st : Store) (id : String) (port : Option ℕ) (x : ServerRecord)
    → lookup st id ≡ some x
    → x.status ≡ "provisioning"
    → finalize_provisioning (lookup st id) st port
      ≡ ok (some (finished x port), upsert st (finished x port))
unfolding finalize_provisioning
finalize_pending st id port x found e = ground (arith, ==_iff x.status "provisioning")

lookup-finished :
    (st : Store) (r : ServerRecord) (port : Option ℕ)
    → lookup (upsert st (finished r port)) r.id ≡ some (finished r port)
lookup-finished st r port = ground (
  arith,
  lookup-upsert_status st (finished r port) "created" r.id normalize-created,
  ==_iff r.id r.id,
)

-- A request for a free id reserves it; repeated before the work is done it is refused, and repeated
-- after `finalizeProvisioning` it is answered with the finished server and changes nothing, where
-- each call reads what the one before left.
pub reserve_retry :
    (st : Store) (r : ServerRecord) (port : Option ℕ)
    → lookup st r.id ≡ none
    → let st₁ = after st (reserve (lookup st r.id) st r) in
      let st₂ = after st₁ (finalize_provisioning (lookup st₁ r.id) st₁ port) in
      (lookup st₁ r.id ≡ some (marked r "provisioning"))
      × (reserve (lookup st₁ r.id) st₁ r ≡ err (already_in "provisioning"))
      × (reserve (lookup st₂ r.id) st₂ r
          ≡ ok (record { server = finished r port; replay = true }, st₂))
reserve_retry st r port absent =
    let st₁ = upsert st (marked r "provisioning") in
    let there : lookup st₁ r.id ≡ some (marked r "provisioning") = ground (
      arith,
      lookup-upsert_status st r "provisioning" r.id normalize-provisioning,
      ==_iff r.id r.id,
    ) in
    rw (reserve_new st r absent) (
      there,
      reserve_pending st₁ r (marked r "provisioning") there refl,
      rw (finalize_pending st₁ r.id port (marked r "provisioning") there refl) (
          reserve_settled (upsert st₁ (finished (marked r "provisioning") port)) r (finished r port)
            (lookup-finished st₁ (marked r "provisioning") port) (refl, refl, refl) refl),
    )
