-- ===== src/Jobs/Progress.antt =====
-- The progress and the history of a job, over any history of the service.
use agapornis_api.Common.{
  ℕ, zero, suc, ◌-◌, ◌≤◌, String, true, false, ◌≡◌, refl, sym, ap, ◌∙◌, subst, arith, some, inl,
  inr, ◌⊎◌, List, [], ◌∷◌, ◌++◌, ◌==◌, string_eq, length, drop, last?, length-drop, All, All-append,
  All-drop, Bool-cases, Option-cases,
}
use agapornis_api.Common.Dict.{get, set, get-set, get-delete}
use agapornis_api.Common.Text.{is_empty}
use agapornis_api.Jobs.{
  Job, JobStatus, queued, running, complete, failed, ProgressEvent, Jobs, Patch, Presentation,
  in_phase, patched, extended, event_of, update, new_job, progress_of,
}
use agapornis_api.Jobs.Runs.{
  Outcome, returns, throws, is_running, report, begin, beat, finish, expire, last_patch, plain,
}
use agapornis_api.Jobs.Callbacks.{
  begin_lem, beat_lem, finish_lem, expire_lem, subscribe_lem, unsubscribe_lem,
}
use agapornis_api.Jobs.Events.{
  Step, starts, subscribes, unsubscribes, begins, beats, reports, finishes, expires, apply, run,
}

-- No two events in a row are of one phase.
abbrev pub Alternates : List ProgressEvent → Type 0
Alternates [] = Unit
Alternates (e ∷ []) = Unit
Alternates (e ∷ (f ∷ es)) = ((e.phase == f.phase) ≡ false) × Alternates (f ∷ es)

abbrev pub EndsOutside : List ProgressEvent → String → Type 0
EndsOutside es phase = (e : ProgressEvent) → last? es ≡ some e → (e.phase == phase) ≡ false

Alternates-append :
    (es : List ProgressEvent) (new : ProgressEvent)
    → Alternates es
    → EndsOutside es new.phase
    → Alternates (es ++ new ∷ [])
Alternates-append [] new h apart = tt
Alternates-append (e ∷ []) new h apart = (apart e refl, tt)
Alternates-append (e ∷ (f ∷ es)) new (ne, h) apart = (ne, Alternates-append (f ∷ es) new h apart)

Alternates-drop : (n : ℕ) (es : List ProgressEvent) → Alternates es → Alternates (drop n es)
Alternates-drop zero es h = h
Alternates-drop (suc n) [] h = tt
Alternates-drop (suc n) (e ∷ []) h = Alternates-drop n [] tt
Alternates-drop (suc n) (e ∷ (f ∷ es)) (ne, h) = Alternates-drop n (f ∷ es) h

abbrev pub IsBelowHundred : ProgressEvent → Type 0
IsBelowHundred e = e.progress ≤ 99

abbrev pub IsAt : JobStatus → ℕ → Type 0
IsAt queued progress = progress ≤ 99
IsAt running progress = progress ≤ 99
IsAt complete progress = progress ≡ 100
IsAt failed progress = progress ≡ 100

-- The history has at most 30 events, each below 100 and none of the phase before it, and the
-- progress is 100 exactly when the job has ended.
abbrev pub IsSound : Job → Type 0
IsSound j =
    (length j.history ≤ 30)
    × All IsBelowHundred j.history
    × Alternates j.history
    × IsAt j.status j.progress

extended_lem :
    (es : List ProgressEvent) (patch : Patch) (now : ℕ)
    → (extended es patch now ≡ es)
      ⊎ ((extended es patch now ≡ es ++ event_of patch now ∷ []) × EndsOutside es patch.phase)
unfolding extended
extended_lem es patch now = elim (Bool-cases (in_phase (last? es) patch.phase)) [
  | inl stays ↦ inl (ground arith)
  | inr changes ↦ elim (Bool-cases (is_empty patch.phase)) [
    | inl unnamed ↦ inl (ground arith)
    | inr named ↦ elim (Bool-cases (is_empty patch.message)) [
      | inl silent ↦ inl (ground arith)
      | inr told ↦
          inr (ground arith, λ e at_end. sym (ap (λ o. in_phase o patch.phase) at_end) ∙ changes)
    ]
  ]
]

extended_sound :
    (es : List ProgressEvent) (patch : Patch) (now : ℕ)
    → All IsBelowHundred es
    → Alternates es
    → All IsBelowHundred (extended es patch now) × Alternates (extended es patch now)
extended_sound es patch now below alt = elim (extended_lem es patch now) [
  | inl same ↦ (subst (All IsBelowHundred) (sym same) below, subst Alternates (sym same) alt)
  | inr (more, outside) ↦ (
    subst (All IsBelowHundred) (sym more)
        (All-append IsBelowHundred es (event_of patch now ∷ []) below (omega arith, tt)),
    subst Alternates (sym more) (Alternates-append es (event_of patch now) alt outside),
  )
]

patched-IsSound :
    (j : Job) (patch : Patch) (now : ℕ)
    → IsAt patch.status patch.progress
    → IsSound j
    → IsSound (patched j patch now)
unfolding patched
patched-IsSound j patch now at (short, below, alt, old) =
    let (below', alt') = extended_sound j.history patch now below alt in
    let es = extended j.history patch now in
    (
      omega (arith, length-drop (length es - 30) es),
      All-drop IsBelowHundred (length es - 30) es below',
      Alternates-drop (length es - 30) es alt',
      at,
    )

abbrev pub AllSound : Jobs → Type 0
AllSound st = (id : String) (j : Job) → get id st.jobs ≡ some j → IsSound j

set-AllSound :
    (m : List (String × Job)) (id : String) (new : Job)
    → IsSound new
    → ((k : String) (j : Job) → get k m ≡ some j → IsSound j)
    → (k : String) (j : Job) → get k (set id new m) ≡ some j
    → IsSound j
set-AllSound m id new good h k j e = elim (Bool-cases (id == k)) [
  | inl hit ↦ let same : new ≡ j = ground (arith, get-set id k new m) in subst IsSound same good
  | inr miss ↦ h k j (ground (arith, get-set id k new m))
]

update-AllSound :
    (st : Jobs) (id : String) (patch : Patch) (now : ℕ)
    → IsAt patch.status patch.progress
    → AllSound st
    → AllSound (update st id patch now)
unfolding update
update-AllSound st id patch now at h k j e = elim (Option-cases (get id st.jobs)) [
  | inl gone ↦ h k j (ground arith)
  | inr (current, there) ↦
      set-AllSound st.jobs id (patched current patch now)
        (patched-IsSound current patch now at (h id current there)) h k j (ground arith)
]

report-AllSound :
    (st : Jobs) (id phase : String) (progress : ℕ) (message : String) (now : ℕ)
    → AllSound st
    → AllSound (report st id phase progress message now)
unfolding report
report-AllSound st id phase progress message now =
    update-AllSound st id (plain running phase (progress_of progress) message) now (omega arith)

last_patch-IsAt :
    (p : Presentation) (o : Outcome) → IsAt (last_patch p o).status (last_patch p o).progress
unfolding last_patch
last_patch-IsAt p (returns value) = refl
last_patch-IsAt p (throws a b c) = refl

begin-AllSound : (st : Jobs) (id : String) (now : ℕ) → AllSound st → AllSound (begin st id now)
begin-AllSound st id now h = elim (begin_lem st id now) [
  | inl same ↦ subst AllSound (sym same) h
  | inr (r, _, _, moved) ↦ subst AllSound (sym moved) (report-AllSound st id _ _ _ now h)
]

running-IsAt : (s : JobStatus) (n : ℕ) → is_running s ≡ true → IsAt s n → n ≤ 99
running-IsAt queued n e h = h
running-IsAt running n e h = h
running-IsAt complete n e h = absurd (ground arith)
running-IsAt failed n e h = absurd (ground arith)

beat-AllSound : (st : Jobs) (id : String) (now : ℕ) → AllSound st → AllSound (beat st id now)
beat-AllSound st id now h = elim (beat_lem st id now) [
  | inl same ↦ subst AllSound (sym same) h
  | inr (_, j, _, _, there, runs, beaten) ↦
      let (_, _, _, at) = h id j there in
      subst AllSound (sym beaten) (
        update-AllSound st id (plain running j.phase j.progress j.message) now
          (running-IsAt j.status j.progress runs at) h)
]

finish-AllSound :
    (st : Jobs) (id : String) (o : Outcome) (now : ℕ) → AllSound st → AllSound (finish st id o now)
finish-AllSound st id o now h = elim (finish_lem st id o now) [
  | inl same ↦ subst AllSound (sym same) h
  | inr (r, _, _, done) ↦
      subst AllSound (sym done) (
        update-AllSound st id (last_patch r.presentation o) now (last_patch-IsAt r.presentation o)
          h)
]

expire-AllSound : (st : Jobs) (id : String) → AllSound st → AllSound (expire st id)
expire-AllSound st id h = elim (expire_lem st id) [
  | inl same ↦ subst AllSound (sym same) h
  | inr (_, _, _, over) ↦
      subst AllSound (sym over) (λ k j e. h k j (ground (arith, get-delete id k st.jobs)))
]

apply-AllSound : (st : Jobs) (s : Step) → AllSound st → AllSound (apply st s)
unfolding apply new_job
apply-AllSound st (starts id now requester server on_node kind p) h =
    set-AllSound st.jobs id (new_job id now requester server on_node kind p)
      (omega arith, (omega arith, tt), tt, omega arith) h
apply-AllSound st (subscribes id l) h = elim (subscribe_lem st id l) [
  | inl same ↦ subst AllSound (sym same) h
  | inr (_, _, _, more) ↦ subst AllSound (sym more) h
]
apply-AllSound st (unsubscribes id n) h = elim (unsubscribe_lem st id n) [
  | inl same ↦ subst AllSound (sym same) h
  | inr (_, _, inl fewer) ↦ subst AllSound (sym fewer) h
  | inr (_, _, inr fewer) ↦ subst AllSound (sym fewer) h
]
apply-AllSound st (begins id now) h = begin-AllSound st id now h
apply-AllSound st (beats id now) h = beat-AllSound st id now h
apply-AllSound st (reports id phase progress message now) h =
    report-AllSound st id phase progress message now h
apply-AllSound st (finishes id o now) h = finish-AllSound st id o now h
apply-AllSound st (expires id) h = expire-AllSound st id h

-- Over any history of calls and callbacks, in whatever order they come, every stored job is sound if
-- all were before: its history has at most 30 events, all of a progress below 100 and none of the
-- phase of the one before it, and its progress is 100 if the job has ended and below 100 if not.
pub run-AllSound : (st : Jobs) (steps : List Step) → AllSound st → AllSound (run st steps)
unfolding run
run-AllSound st [] h = h
run-AllSound st (s ∷ steps) h = run-AllSound (apply st s) steps (apply-AllSound st s h)
