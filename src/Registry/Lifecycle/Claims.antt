-- ===== src/Registry/Lifecycle/Claims.antt =====
-- Claims: what `claimDeletion` and `claimTransition` answer and store, by what they read, and that
-- the restoring calls give the server back.
use agapornis_api.Common.{
  ap, ◌∙◌, String, Bool, true, false, not, ◌&&◌, Option, Bool-cases, some, ◌≡◌, refl, if◌then◌else◌,
  ◌==◌, ==_iff, string_eq, arith, ok, err, Option-cases, inl, inr,
}
use agapornis_api.Registry.Types.{ServerRecord, normalize_status}
use agapornis_api.Registry.Store.{Store, already_in, lookup, upsert}
use agapornis_api.Registry.Store.Lookup.{lookup-upsert_status, IsKeyed}
use agapornis_api.Registry.Lifecycle.{
  Claim, claim_deletion, restore_deletion, restore_transition, claim_transition, is_busy,
}

normalize-deleting : normalize_status "deleting" ≡ "deleting"
unfolding normalize_status
normalize-deleting = refl

abbrev marked : ServerRecord → String → ServerRecord
marked r s = record r { status = s }

-- What a fresh claim did.
claim_deletion_inv :
    (read : Option ServerRecord) (st st' : Store) (allow : Bool) (c : Claim)
    → claim_deletion read st allow ≡ ok (some c, st')
    → c.replay ≡ false
    → (r : ServerRecord) × (read ≡ some r)
      × (c ≡ record { server = marked r "deleting"; replay = false; previous_status = r.status })
      × (st' ≡ upsert st (marked r "deleting"))
unfolding claim_deletion
claim_deletion_inv read st st' allow c h fresh = elim (Option-cases read) [
  | inl absent ↦ absurd (ground arith)
  | inr (current, found) ↦ (current, found, ground arith, ground arith)
]

claim_deletion_again :
    (read : Option ServerRecord) (st : Store) (again : Bool) (r : ServerRecord)
    → read ≡ some r
    → r.status ≡ "deleting"
    → claim_deletion read st again
      ≡ ok (some (record { server = r; replay = true; previous_status = r.status }), st)
unfolding claim_deletion
claim_deletion_again read st again r found e = ground (arith, ==_iff r.status "deleting")

-- What a claim does depends on the store that it goes on in only as the place of the write.
claim_deletion_elsewhere :
    (read : Option ServerRecord) (st st' later : Store) (allow : Bool) (c : Claim)
    → claim_deletion read st allow ≡ ok (some c, st')
    → c.replay ≡ false
    → claim_deletion read later allow ≡ ok (some c, upsert later c.server)
unfolding claim_deletion
claim_deletion_elsewhere read st st' later allow c h fresh = elim (Option-cases read) [
  | inl absent ↦ absurd (ground arith)
  | inr (r, found) ↦ elim (Bool-cases (r.status == "deleting")) [
    | inl t ↦ absurd (ground arith)
    | inr f ↦ elim (Bool-cases (r.status == "provisioning" && not allow)) [
      | inl t ↦ absurd (ground arith)
      | inr g ↦
          let same : record {
            server = marked r "deleting";
            replay = false;
            previous_status = r.status;
          }
              ≡ c =
            ground arith in
          rw (found, claim_deletion) (rw (f, g) (rw (← same) refl))
    ]
  ]
]

-- `c` and `st'` are what a fresh claim of `r` gives.
claimed_facts :
    (st st' later : Store) (k : String) (again : Bool) (c : Claim) (r : ServerRecord)
    → c ≡ record { server = marked r "deleting"; replay = false; previous_status = r.status }
    → st' ≡ upsert st (marked r "deleting")
    → (lookup st' k ≡ (if c.server.id == k then some c.server else lookup st k))
      × (c.server.status ≡ "deleting")
      × (r ≡ record c.server { status = c.previous_status })
      × (claim_deletion (lookup st' c.server.id) later again
          ≡ ok (
            some (record { server = c.server; replay = true; previous_status = "deleting" }),
            later,
          ))
claimed_facts st st' later k again c r ec est =
    let there : lookup (upsert st (marked r "deleting")) r.id ≡ some (marked r "deleting") =
      ground
        (arith, lookup-upsert_status st r "deleting" r.id normalize-deleting, ==_iff r.id r.id) in
    rw (ec, est)
      (
        lookup-upsert_status st r "deleting" k normalize-deleting,
        refl,
        refl,
        claim_deletion_again _ later again (marked r "deleting") there refl,
      )

-- A fresh claim stores the record that it read, marked, and changes no other server, and it tells
-- the status before. A claim that reads the store right after it is answered as a replay and changes
-- nothing, in whatever store it goes on. But a claim that had read before the mark was stored, with
-- the same permission, is fresh as well, and stores the same record in whatever store it goes on.
pub claim_deletion_fresh :
    (read : Option ServerRecord) (st st' later : Store) (k : String) (allow again : Bool)
    (c : Claim)
    → claim_deletion read st allow ≡ ok (some c, st')
    → c.replay ≡ false
    → (lookup st' k ≡ (if c.server.id == k then some c.server else lookup st k))
      × (c.server.status ≡ "deleting")
      × (read ≡ some (record c.server { status = c.previous_status }))
      × (claim_deletion (lookup st' c.server.id) later again
          ≡ ok (
            some (record { server = c.server; replay = true; previous_status = "deleting" }),
            later,
          ))
      × (claim_deletion read later allow ≡ ok (some c, upsert later c.server))
claim_deletion_fresh read st st' later k allow again c h fresh =
    let (r, found, ec, est) = claim_deletion_inv read st st' allow c h fresh in
    let (stored, mark, before, next) = claimed_facts st st' later k again c r ec est in
    (
      stored,
      mark,
      found ∙ ap some before,
      next,
      claim_deletion_elsewhere read st st' later allow c h fresh,
    )

-- Restoring after a mark leaves every server as it was before the mark.
restore-marked :
    (st : Store) (id k t : String) (r : ServerRecord)
    → r.id ≡ id
    → lookup st id ≡ some r
    → normalize_status r.status ≡ r.status
    → normalize_status t ≡ t
    → lookup
        (restore_transition
          (lookup (upsert st (marked r t)) id)
          (upsert st (marked r t))
          t
          r.status).1
        k
      ≡ lookup st k
unfolding restore_transition
restore-marked st id k t r keyed found normal_r normal_t =
    let there : lookup (upsert st (marked r t)) id ≡ some (marked r t) =
      ground (arith, lookup-upsert_status st r t id normal_t, ==_iff r.id id) in
    rw (there, restore_transition, (==_iff t t).1 refl)
      (ground (
        arith,
        lookup-upsert_status (upsert st (marked r t)) (marked r t) r.status k normal_r,
        lookup-upsert_status st r t k normal_t,
        ==_iff r.id k,
      ))

-- `restoreDeletion` with the status that a fresh claim told made right after it, undoes the claim, if the status of the
-- server was in its normal form, as `upsert` stores it.
pub restore_deletion-claim :
    (st st' : Store) (id k : String) (allow : Bool) (c : Claim)
    → IsKeyed st
    → claim_deletion (lookup st id) st allow ≡ ok (some c, st')
    → c.replay ≡ false
    → normalize_status c.previous_status ≡ c.previous_status
    → lookup (restore_deletion (lookup st' id) st' c.previous_status).1 k ≡ lookup st k
unfolding restore_deletion
restore_deletion-claim st st' id k allow c keyed h fresh normal =
    let (r, found, ec, est) = claim_deletion_inv (lookup st id) st st' allow c h fresh in
    undo r found ec est
  where
    undo :
        (r : ServerRecord)
        → lookup st id ≡ some r
        → c ≡ record { server = marked r "deleting"; replay = false; previous_status = r.status }
        → st' ≡ upsert st (marked r "deleting")
        → lookup (restore_transition (lookup st' id) st' "deleting" c.previous_status).1 k
          ≡ lookup st k
    undo r found ec est =
        let same : c.previous_status ≡ r.status = ap (λ (x : Claim). x.previous_status) ec in
        rw (same, est)
          (restore-marked st id k "deleting" r (keyed id r found) found (rw same at normal)
            normalize-deleting)

claim_transition_inv :
    (st st' : Store) (id t previous : String) (r : ServerRecord)
    → claim_transition (lookup st id) st t ≡ ok ((r, previous), st')
    → (lookup st id ≡ some r)
      × (previous ≡ r.status)
      × (is_busy r.status ≡ false)
      × (st' ≡ upsert st (marked r t))
unfolding claim_transition
claim_transition_inv st st' id t previous r h = elim (Option-cases (lookup st id)) [
  | inl absent ↦ absurd (ground arith)
  | inr (current, found) ↦ (ground arith, ground arith, ground arith, ground arith)
]

-- A claimed transition is taken from a server that is not busy; `restoreTransition` with the same
-- word and the status that the claim told, made right after it, undoes it, if both are in their normal form; and a claim of a
-- transition that reads the store right after a claim to a busy status is refused.
pub claim_transition_exclusive :
    (st st' : Store) (id k t other previous : String) (r : ServerRecord)
    → IsKeyed st
    → claim_transition (lookup st id) st t ≡ ok ((r, previous), st')
    → normalize_status previous ≡ previous
    → normalize_status t ≡ t
    → is_busy t ≡ true
    → (is_busy previous ≡ false)
      × (lookup (restore_transition (lookup st' id) st' t previous).1 k ≡ lookup st k)
      × (claim_transition (lookup st' id) st' other ≡ err (already_in t))
unfolding claim_transition
claim_transition_exclusive st st' id k t other previous r keyed h normal normal_t busy =
    let (found, same, free, est) = claim_transition_inv st st' id t previous r h in
    let mine = keyed id r found in
    let there : lookup (upsert st (marked r t)) id ≡ some (marked r t) =
      ground (arith, lookup-upsert_status st r t id normal_t, ==_iff r.id id) in
    (
      rw same free,
      rw (same, est) (restore-marked st id k t r mine found (rw same at normal) normal_t),
      rw (est, there, claim_transition) (rw busy),
    )
