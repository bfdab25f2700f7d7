-- ===== src/Registry/Lifecycle/Steps/Effects.antt =====
-- What the rest of each call does to the store.
use agapornis_api.Common.{
  String, Bool, true, false, not, ◌&&◌, ◌||◌, Option, none, some, ◌≡◌, refl, ◌==◌, ==_iff,
  string_eq, arith, Option-cases, inl, inr, Bool-cases, ℕ,
}
use agapornis_api.Registry.Types.{ServerRecord, normalize_status}
use agapornis_api.Registry.Store.{Store, after, upsert}
use agapornis_api.Registry.Lifecycle.{
  reserve, finalize_provisioning, port_or, claim_deletion, restore_transition, claim_transition,
  finalize_transfer, set_status, Patch, patched, write_settings, is_busy,
}
use agapornis_api.Registry.Lifecycle.Steps.{
  Call, reserves, finalizes, claims_deletion, restores, claims_transition, transfers, sets_status,
  writes, resume, subject, ends,
}

-- What the rest of a call does to the store: nothing; or it stores the record that it read again,
-- keeping a busy status unless the call may end it; or it makes one, where it read none.
pub data Effect (c : Call) (read : Option ServerRecord) (st st' : Store) : Type 0 where
  nothing : st' ≡ st → Effect c read st st'
  rewrites :
      (old new : ServerRecord)
      → read ≡ some old
      → new.id ≡ old.id
      → st' ≡ upsert st new
      → (is_busy old.status ≡ true
          → ends c old.status (subject c) ≡ false
          → new.status ≡ old.status)
      → Effect c read st st'
  makes :
      (new : ServerRecord)
      → read ≡ none
      → new.id ≡ subject c
      → st' ≡ upsert st new
      → Effect c read st st'

finalize-Effect :
    (read : Option ServerRecord) (st : Store) (id : String) (port : Option ℕ)
    → Effect (finalizes id port) read st (after st (finalize_provisioning read st port))
unfolding finalize_provisioning
finalize-Effect read st id port = elim (Option-cases read) [
  | inl absent ↦ nothing (ground arith)
  | inr (r, found) ↦ elim (Bool-cases (r.status == "provisioning")) [
    | inl t ↦
        rewrites r
          (record r { assigned_host_port = port_or port r.assigned_host_port; status = "created" })
          found refl (ground arith) (λ b o. ground (arith, ==_iff id id))
    | inr f ↦ nothing (ground arith)
  ]
]

claim_deletion-Effect :
    (read : Option ServerRecord) (st : Store) (id : String) (allow : Bool)
    → Effect (claims_deletion id allow) read st (after st (claim_deletion read st allow))
unfolding claim_deletion
claim_deletion-Effect read st id allow = elim (Option-cases read) [
  | inl absent ↦ nothing (ground arith)
  | inr (r, found) ↦
      elim (Bool-cases (r.status == "deleting" || r.status == "provisioning" && not allow)) [
        | inl t ↦ nothing (ground arith)
        | inr f ↦
            rewrites r (record r { status = "deleting" }) found refl (ground arith)
              (λ b o. ground (arith, ==_iff id id))
      ]
]

restore-Effect :
    (read : Option ServerRecord) (st : Store) (id t status : String)
    → Effect (restores id t status) read st (restore_transition read st t status).1
unfolding restore_transition
restore-Effect read st id t status = elim (Option-cases read) [
  | inl absent ↦ nothing (ground arith)
  | inr (r, found) ↦ elim (Bool-cases (r.status == t)) [
    | inl same ↦
        rewrites r (record r { status = status }) found refl (ground arith)
          (λ b o. ground (arith, ==_iff id id))
    | inr f ↦ nothing (ground arith)
  ]
]

claim_transition-Effect :
    (read : Option ServerRecord) (st : Store) (id t : String)
    → Effect (claims_transition id t) read st (after st (claim_transition read st t))
unfolding claim_transition
claim_transition-Effect read st id t = elim (Option-cases read) [
  | inl absent ↦ nothing (ground arith)
  | inr (r, found) ↦ elim (Bool-cases (is_busy r.status)) [
    | inl busy ↦ nothing (ground arith)
    | inr free ↦ rewrites r (record r { status = t }) found refl (ground arith) (λ b o. cc)
  ]
]

transfer-Effect :
    (read : Option ServerRecord) (st : Store) (id target : String) (port : Option ℕ)
    (status : String)
    → Effect
        (transfers id target port status)
        read
        st
        (after st (finalize_transfer read st target port status))
unfolding finalize_transfer
transfer-Effect read st id target port status = elim (Option-cases read) [
  | inl absent ↦ nothing (ground arith)
  | inr (r, found) ↦ elim (Bool-cases (r.status == "transferring")) [
    | inl t ↦
        rewrites r
          (record r {
            node_id = target;
            assigned_host_port = port_or port r.assigned_host_port;
            status = status;
          })
          found refl (ground arith) (λ b o. ground (arith, ==_iff id id))
    | inr f ↦ nothing (ground arith)
  ]
]

set_status-Effect :
    (read : Option ServerRecord) (st : Store) (id status : String)
    → Effect (sets_status id status) read st (set_status read st status).1
unfolding set_status
set_status-Effect read st id status = elim (Option-cases read) [
  | inl absent ↦ nothing (ground arith)
  | inr (r, found) ↦ elim (Bool-cases (is_busy r.status)) [
    | inl busy ↦ nothing (ground arith)
    | inr free ↦
        rewrites r (record r { status = normalize_status status }) found refl (ground arith)
          (λ b o. cc)
  ]
]

patched-kept :
    (r : ServerRecord) (p : Patch) → ((patched r p).id ≡ r.id) × ((patched r p).status ≡ r.status)
unfolding patched
patched-kept r p = (refl, refl)

write_settings-Effect :
    (read : Option ServerRecord) (st : Store) (id : String) (p : Patch) (initial : Bool)
    → Effect (writes id p initial) read st (after st (write_settings read st p initial))
unfolding write_settings
write_settings-Effect read st id p initial = elim (Option-cases read) [
  | inl absent ↦ nothing (ground arith)
  | inr (r, found) ↦
      elim (Bool-cases
        (initial && not (r.status == "provisioning") || not initial && is_busy r.status)) [
          | inl refused ↦ nothing (ground arith)
          | inr fine ↦
              rewrites r (patched r p) found (patched-kept r p).0 (ground arith)
                (λ b o. (patched-kept r p).1)
        ]
]

reserve-Effect :
    (read : Option ServerRecord) (st : Store) (r : ServerRecord)
    → Effect (reserves r) read st (after st (reserve read st r))
unfolding reserve
reserve-Effect read st r = elim (Option-cases read) [
  | inl absent ↦ makes (record r { status = "provisioning" }) absent refl (ground arith)
  | inr (x, found) ↦ nothing (ground arith)
]

pub resume-Effect :
    (c : Call) (read : Option ServerRecord) (st : Store) → Effect c read st (resume c read st)
unfolding resume
resume-Effect (reserves r) read st = reserve-Effect read st r
resume-Effect (finalizes id port) read st = finalize-Effect read st id port
resume-Effect (claims_deletion id allow) read st = claim_deletion-Effect read st id allow
resume-Effect (restores id t status) read st = restore-Effect read st id t status
resume-Effect (claims_transition id t) read st = claim_transition-Effect read st id t
resume-Effect (transfers id target port status) read st =
    transfer-Effect read st id target port status
resume-Effect (sets_status id status) read st = set_status-Effect read st id status
resume-Effect (writes id p initial) read st = write_settings-Effect read st id p initial
