-- ===== src/Registry/Lifecycle/Steps/Busy.antt =====
-- A busy server keeps its status until an event that owns it.
use agapornis_api.Common.{
  ℕ, zero, suc, String, true, false, ◌&&◌, Option, some, List, [], ◌∷◌, ◌≡◌, refl, ap, ◌∙◌, sym,
  if◌then◌else◌, ◌==◌, ==_iff, string_eq, arith, Option-cases, inl, inr, Bool-cases, All, All-imp,
}
use mathlib.Core.Path.{subst}
use agapornis_api.Registry.Types.{ServerRecord, normalize_status}
use agapornis_api.Registry.Store.{Store, lookup, upsert, remove}
use agapornis_api.Registry.Store.Lookup.{
  lookup-upsert, lookup-remove, lookup-drop_server, normalized_lem, IsKeyed, upsert-IsKeyed,
  remove-IsKeyed, drop_server-IsKeyed,
}
use agapornis_api.Registry.Lifecycle.{is_busy, release_provisioning}
use agapornis_api.Registry.Lifecycle.Steps.{
  Call, subject, ends, resume, Waiting, Registry, Event, starts, goes_on, releases, removes, stores,
  nth, without, step, owns, run, status_of,
}
use agapornis_api.Registry.Lifecycle.Steps.Effects.{Effect, nothing, rewrites, makes, resume-Effect}

normal_of_eq :
    (word s : String) → normalize_status word ≡ word → (word == s) ≡ true → normalize_status s ≡ s
normal_of_eq word s h e = subst (λ t. normalize_status t ≡ t) ((==_iff word s).0 e) h

busy_normal : (s : String) → is_busy s ≡ true → normalize_status s ≡ s
unfolding normalize_status
busy_normal s h = elim (Bool-cases ("provisioning" == s)) [
  | inl e ↦ normal_of_eq "provisioning" s refl e
  | inr p ↦ elim (Bool-cases ("deleting" == s)) [
    | inl e ↦ normal_of_eq "deleting" s refl e
    | inr d ↦ normal_of_eq "transferring" s refl (ground arith)
  ]
]

status_of-upsert :
    (st : Store) (r : ServerRecord) (id : String)
    → status_of (upsert st r) id
      ≡ (if r.id == id then some (normalize_status r.status) else status_of st id)
status_of-upsert st r id = elim (Bool-cases (r.id == id)) [
  | inl t ↦
      ground (arith, lookup-upsert st r id, ap (λ (x : ServerRecord). x.status) (normalized_lem r))
  | inr f ↦ ground (arith, lookup-upsert st r id)
]

status_of-some :
    (st : Store) (id s : String)
    → status_of st id ≡ some s
    → (r : ServerRecord) × (lookup st id ≡ some r) × (r.status ≡ s)
status_of-some st id s now = elim (Option-cases (lookup st id)) [
  | inl absent ↦ absurd (ground arith)
  | inr (r, found) ↦ (r, found, ground arith)
]

-- What the call read is the record of its server.
abbrev pub HasRead : Waiting → Type 0
HasRead w = (r : ServerRecord) → w.read ≡ some r → r.id ≡ subject w.call

-- If the call is about the server, it read the status, and may not end it.
abbrev pub Sees : String → String → Waiting → Type 0
Sees id s w =
    subject w.call ≡ id
    → (r : ServerRecord) × (w.read ≡ some r) × (r.status ≡ s) × (ends w.call s id ≡ false)

-- Every record stands under its own id, and every call under way read its own server.
abbrev pub IsSound : Registry → Type 0
IsSound reg = IsKeyed reg.store × All HasRead reg.waiting

Effect-IsKeyed :
    {c : Call} {read : Option ServerRecord} {st st' : Store}
    → Effect c read st st'
    → IsKeyed st
    → IsKeyed st'
Effect-IsKeyed (nothing e) h = subst IsKeyed (sym e) h
Effect-IsKeyed {st = st} (rewrites old new f i e b) h =
    subst IsKeyed (sym e) (upsert-IsKeyed st new h)
Effect-IsKeyed {st = st} (makes new a i e) h = subst IsKeyed (sym e) (upsert-IsKeyed st new h)

upsert-busy :
    (st : Store) (r : ServerRecord) (id s : String)
    → (r.id ≡ id → normalize_status r.status ≡ s)
    → status_of st id ≡ some s
    → status_of (upsert st r) id ≡ some s
upsert-busy st r id s same now = elim (Bool-cases (r.id == id)) [
  | inl t ↦ ground (arith, status_of-upsert st r id, same ((==_iff r.id id).0 t))
  | inr f ↦ ground (arith, status_of-upsert st r id)
]

some-path :
    (read : Option ServerRecord) (a b : ServerRecord) → read ≡ some a → read ≡ some b → a ≡ b
some-path read a b p q = ground arith

Effect-busy :
    (w : Waiting) (st st' : Store) (id s : String)
    → Effect w.call w.read st st'
    → HasRead w
    → Sees id s w
    → is_busy s ≡ true
    → status_of st id ≡ some s
    → status_of st' id ≡ some s
Effect-busy w st st' id s (nothing e) own sees busy now = rw e now
Effect-busy w st st' id s (rewrites old new f i e keep) own sees busy now = rw e (
    upsert-busy st new id s
      (λ there.
        let mine : subject w.call ≡ id = sym (own old f) ∙ sym i ∙ there in
        let (r, read, same, free) = sees mine in
        let was : old.status ≡ s =
          ap (λ (x : ServerRecord). x.status) (some-path w.read old r f read) ∙ same in
        let kept : new.status ≡ old.status = keep (rw was busy) (rw (was, mine) free) in
        rw (kept, was) (busy_normal s busy))
      now)
Effect-busy w st st' id s (makes new a i e) own sees busy now = rw e (
    upsert-busy st new id s
      (λ there.
        let (r, read, same, free) = sees (sym i ∙ there) in absurd (ground (arith, a, read)))
      now)

release-busy :
    (st : Store) (k id s : String)
    → (k == id && s == "provisioning") ≡ false
    → status_of st id ≡ some s
    → status_of (release_provisioning st k) id ≡ some s
unfolding release_provisioning
release-busy st k id s free now = elim (Option-cases (lookup st k)) [
  | inl absent ↦ ground arith
  | inr (r, found) ↦ elim (Bool-cases (r.status == "provisioning")) [
    | inr f ↦ ground arith
    | inl t ↦ elim (Bool-cases (k == id)) [
      | inr other ↦ ground (arith, lookup-drop_server st k id)
      | inl mine ↦
          let here : lookup st id ≡ some r = rw (← (==_iff k id).0 mine) found in
          absurd (ground arith)
    ]
  ]
]

release-IsKeyed : (st : Store) (k : String) → IsKeyed st → IsKeyed (release_provisioning st k)
unfolding release_provisioning
release-IsKeyed st k h id r e = elim (Option-cases (lookup st k)) [
  | inl absent ↦ h id r (ground arith)
  | inr (x, found) ↦ elim (Bool-cases (x.status == "provisioning")) [
    | inr f ↦ h id r (ground arith)
    | inl t ↦ drop_server-IsKeyed st k h id r (ground arith)
  ]
]

remove-busy :
    (st : Store) (k id s : String)
    → (k == id) ≡ false
    → status_of st id ≡ some s
    → status_of (remove st k) id ≡ some s
remove-busy st k id s other now = ground (arith, lookup-remove st k id)

All-without : (P : Waiting → Type 0) (n : ℕ) (ws : List Waiting) → All P ws → All P (without n ws)
All-without P n [] h = tt
All-without P zero (w ∷ ws) h = h.1
All-without P (suc n) (w ∷ ws) h = (h.0, All-without P n ws h.1)

All-nth :
    (P : Waiting → Type 0) (n : ℕ) (ws : List Waiting) (w : Waiting)
    → All P ws
    → nth n ws ≡ some w
    → P w
All-nth P n [] w h e = absurd (ground arith)
All-nth P zero (x ∷ ws) w h e = let same : x ≡ w = ground arith in subst P same h.0
All-nth P (suc n) (x ∷ ws) w h e = All-nth P n ws w h.1 e

-- What is kept: the registry is sound, the server has the status, and every call sees it.
abbrev Keeps : String → String → Registry → Type 0
Keeps id s reg = IsSound reg × (status_of reg.store id ≡ some s) × All (Sees id s) reg.waiting

step-Keeps :
    (reg : Registry) (e : Event) (id s : String)
    → is_busy s ≡ true
    → owns e s id ≡ false
    → Keeps id s reg
    → Keeps id s (step reg e)
unfolding step
step-Keeps reg (starts c) id s busy free ((keyed, own), now, sees) = (
  (keyed, (λ r e. keyed (subject c) r e, own)),
  now,
  (
    λ mine.
        let (r, found, same) = status_of-some reg.store id s now in
        (r, ap (lookup reg.store) mine ∙ found, same, free),
    sees,
  ),
)
step-Keeps reg (goes_on n) id s busy free ((keyed, own), now, sees) =
    elim (Option-cases (nth n reg.waiting)) [
      | inl absent ↦ rw (absent, step) ((keyed, own), now, sees)
      | inr (w, found) ↦
          let effect = resume-Effect w.call w.read reg.store in
          rw (found, step)
            (
              (Effect-IsKeyed effect keyed, All-without HasRead n reg.waiting own),
              Effect-busy w reg.store (resume w.call w.read reg.store) id s effect
                  (All-nth HasRead n reg.waiting w own found)
                  (All-nth (Sees id s) n reg.waiting w sees found) busy now,
              All-without (Sees id s) n reg.waiting sees,
            )
    ]
step-Keeps reg (releases k) id s busy free ((keyed, own), now, sees) =
    ((release-IsKeyed reg.store k keyed, own), release-busy reg.store k id s free now, sees)
step-Keeps reg (removes k) id s busy free ((keyed, own), now, sees) =
    ((remove-IsKeyed reg.store k keyed, own), remove-busy reg.store k id s free now, sees)
step-Keeps reg (stores r) id s busy free ((keyed, own), now, sees) = (
  (upsert-IsKeyed reg.store r keyed, own),
  upsert-busy reg.store r id s
      (λ there. ground (arith, ==_iff r.id id, ==_iff (normalize_status r.status) s)) now,
  sees,
)

run-Keeps :
    (reg : Registry) (es : List Event) (id s : String)
    → is_busy s ≡ true
    → All (λ e. owns e s id ≡ false) es
    → Keeps id s reg
    → Keeps id s (run reg es)
unfolding run
run-Keeps reg [] id s busy free k = k
run-Keeps reg (e ∷ es) id s busy (here, later) k =
    run-Keeps (step reg e) es id s busy later (step-Keeps reg e id s busy here k)

-- Every call is taken apart at the `await` between its reading and its check and write, and the
-- parts come in any order, together with `releaseProvisioning`, `remove` and the public `upsert`. If
-- every record stands under its own id, every call under way read its own server, a server is being
-- provisioned, deleted or moved and no call about it is under way, then it keeps that status as long
-- as none of the calls that are made may end the status and no `upsert` stores it with another one.
pub run-busy :
    (reg : Registry) (es : List Event) (id s : String)
    → IsSound reg
    → All (λ w. (subject w.call == id) ≡ false) reg.waiting
    → status_of reg.store id ≡ some s
    → is_busy s ≡ true
    → All (λ e. owns e s id ≡ false) es
    → status_of (run reg es).store id ≡ some s
run-busy reg es id s sound idle now busy free =
    let sees =
      All-imp {Q = Sees id s} (λ w other mine. absurd (ground (arith, ==_iff (subject w.call) id)))
        reg.waiting idle in
    (run-Keeps reg es id s busy free (sound, now, sees)).1
