-- ===== src/Jobs/Endings.antt =====
-- What a job that has ended shows from then on.
use agapornis_api.Common.{
  ℕ, String, true, false, ◌≡◌, refl, sym, ap, ◌∙◌, subst, arith, some, ◌⊎◌, inl, inr, List, [], ◌∷◌,
  ◌==◌, ==_iff, ==_refl, string_eq, Bool-cases, Option-cases,
}
use agapornis_api.Common.Dict.{get, get-set, get-delete}
use agapornis_api.Jobs.{
  Job, JobStatus, complete, failed, Jobs, Patch, Run, Stage, waiting, under_way, ended,
  Presentation, PublicJob, public_job, User, may_see, patched, update, find_for_user, new_job,
}
use agapornis_api.Jobs.Runs.{Outcome, returns, throws, report, finish, last_patch, staged}
use agapornis_api.Jobs.Callbacks.{
  begin_lem, beat_lem, finish_lem, expire_lem, subscribe_lem, unsubscribe_lem,
}
use agapornis_api.Jobs.Events.{
  Step, starts, subscribes, unsubscribes, begins, beats, reports, finishes, expires, apply, run,
}

-- The run of `id` has ended, and its job is `j`.
abbrev pub HasEnded : String → Job → Jobs → Type 0
HasEnded id j st =
    (get id st.jobs ≡ some j) × ((r : Run) × (get id st.runs ≡ some r) × (r.stage ≡ ended))

-- The step is no report of the job, does not clean it up, and starts another one.
abbrev pub Spares : String → Step → Type 0
Spares id (starts other now requester server on_node kind p) = (other == id) ≡ false
Spares id (reports other phase progress message now) = (other == id) ≡ false
Spares id (expires other) = (other == id) ≡ false
Spares id _ = Unit

abbrev pub AllSpare : String → List Step → Type 0
AllSpare id [] = Unit
AllSpare id (s ∷ steps) = Spares id s × AllSpare id steps

update-other :
    (st : Jobs) (other id : String) (patch : Patch) (now : ℕ)
    → (other == id) ≡ false
    → get id (update st other patch now).jobs ≡ get id st.jobs
unfolding update
update-other st other id patch now apart = elim (Option-cases (get other st.jobs)) [
  | inl gone ↦ ground arith
  | inr (j, there) ↦ ground (arith, get-set other id (patched j patch now) st.jobs)
]

update-runs :
    (st : Jobs) (id : String) (patch : Patch) (now : ℕ) → (update st id patch now).runs ≡ st.runs
unfolding update
update-runs st id patch now = elim (Option-cases (get id st.jobs)) [
  | inl gone ↦ ground arith
  | inr (j, there) ↦ ground arith
]

-- An update of another job, alone or with a stage of its run.
update-HasEnded :
    (st : Jobs) (other id : String) (j : Job) (patch : Patch) (now : ℕ)
    → (other == id) ≡ false
    → HasEnded id j st
    → HasEnded id j (update st other patch now)
update-HasEnded st other id j patch now apart (here, (r, runs, at)) = (
  update-other st other id patch now apart ∙ here,
  (r, ap (get id) (update-runs st other patch now) ∙ runs, at),
)

staged-HasEnded :
    (st : Jobs) (other id : String) (j : Job) (r : Run) (stage : Stage)
    → (other == id) ≡ false
    → HasEnded id j st
    → HasEnded id j (staged st other r stage)
staged-HasEnded st other id j r stage apart (here, (r', runs, at)) =
    (here, (r', ground (arith, get-set other id (record r { stage = stage }) st.runs), at))

moved-HasEnded :
    (st : Jobs) (other id : String) (j : Job) (patch : Patch) (now : ℕ) (r : Run) (stage : Stage)
    → (other == id) ≡ false
    → HasEnded id j st
    → HasEnded id j (staged (update st other patch now) other r stage)
moved-HasEnded st other id j patch now r stage apart h =
    staged-HasEnded (update st other patch now) other id j r stage apart
      (update-HasEnded st other id j patch now apart h)

-- A run that has ended is at no other stage.
apart_from :
    (st : Jobs) (other id : String) (j : Job) (r : Run)
    → HasEnded id j st
    → get other st.runs ≡ some r
    → (r.stage ≡ waiting) ⊎ (r.stage ≡ under_way)
    → (other == id) ≡ false
apart_from st other id j r (here, (r', runs, at)) there early = elim (Bool-cases (other == id)) [
  | inr apart ↦ apart
  | inl same ↦
      let e = (==_iff other id).0 same in
      let one : some r ≡ some r' = sym there ∙ ap (λ k. get k st.runs) e ∙ runs in
      absurd (ground arith)
]

apply-HasEnded :
    (st : Jobs) (s : Step) (id : String) (j : Job)
    → Spares id s
    → HasEnded id j st
    → HasEnded id j (apply st s)
unfolding apply report new_job
apply-HasEnded st (starts other now requester server on_node kind p) id j apart
      (here, (r, runs, at)) =
    (
      ground (arith, get-set other id (new_job other now requester server on_node kind p) st.jobs),
      (
        r,
        ground (arith, get-set other id (record { stage = waiting; presentation = p }) st.runs),
        at,
      ),
    )
apply-HasEnded st (subscribes other l) id j spared h = elim (subscribe_lem st other l) [
  | inl same ↦ subst (HasEnded id j) (sym same) h
  | inr (_, _, _, more) ↦ subst (HasEnded id j) (sym more) h
]
apply-HasEnded st (unsubscribes other n) id j spared h = elim (unsubscribe_lem st other n) [
  | inl same ↦ subst (HasEnded id j) (sym same) h
  | inr (_, _, inl fewer) ↦ subst (HasEnded id j) (sym fewer) h
  | inr (_, _, inr fewer) ↦ subst (HasEnded id j) (sym fewer) h
]
apply-HasEnded st (begins other now) id j spared h = elim (begin_lem st other now) [
  | inl same ↦ subst (HasEnded id j) (sym same) h
  | inr (r, there, at, begun) ↦
      let apart = apart_from st other id j r h there (inl at) in
      subst (HasEnded id j) (sym begun) (moved-HasEnded st other id j _ now r under_way apart h)
]
apply-HasEnded st (beats other now) id j spared h = elim (beat_lem st other now) [
  | inl same ↦ subst (HasEnded id j) (sym same) h
  | inr (r, k, there, at, _, _, beaten) ↦
      subst (HasEnded id j) (sym beaten)
        (update-HasEnded st other id j _ now (apart_from st other id j r h there (inr at)) h)
]
apply-HasEnded st (reports other phase progress message now) id j apart h =
    update-HasEnded st other id j _ now apart h
apply-HasEnded st (finishes other o now) id j spared h = elim (finish_lem st other o now) [
  | inl same ↦ subst (HasEnded id j) (sym same) h
  | inr (r, there, at, done) ↦
      let apart = apart_from st other id j r h there (inr at) in
      subst (HasEnded id j) (sym done) (moved-HasEnded st other id j _ now r ended apart h)
]
apply-HasEnded st (expires other) id j apart (here, (r, runs, at)) = elim (expire_lem st other) [
  | inl same ↦ subst (HasEnded id j) (sym same) (here, (r, runs, at))
  | inr (_, _, _, over) ↦ subst (HasEnded id j) (sym over) (
    ground (arith, get-delete other id st.jobs),
    (r, ground (arith, get-delete other id st.runs), at),
  )
]

run-HasEnded :
    (st : Jobs) (steps : List Step) (id : String) (j : Job)
    → AllSpare id steps
    → HasEnded id j st
    → HasEnded id j (run st steps)
unfolding run
run-HasEnded st [] id j spared h = h
run-HasEnded st (s ∷ steps) id j (spared, rest) h =
    run-HasEnded (apply st s) steps id j rest (apply-HasEnded st s id j spared h)

abbrev pub outcome_status : Outcome → JobStatus
outcome_status (returns value) = complete
outcome_status (throws a b c) = failed

last_patch_lem :
    (p : Presentation) (o : Outcome)
    → ((last_patch p o).status ≡ outcome_status o) × ((last_patch p o).progress ≡ 100)
unfolding last_patch
last_patch_lem p (returns value) = (refl, refl)
last_patch_lem p (throws a b c) = (refl, refl)

finish_at :
    (st : Jobs) (id : String) (o : Outcome) (now : ℕ) (r : Run)
    → get id st.runs ≡ some r
    → r.stage ≡ under_way
    → finish st id o now ≡ staged (update st id (last_patch r.presentation o) now) id r ended
unfolding finish
finish_at st id o now r runs at = ground arith

update-same :
    (st : Jobs) (id : String) (patch : Patch) (now : ℕ) (j : Job)
    → get id st.jobs ≡ some j
    → get id (update st id patch now).jobs ≡ some (patched j patch now)
unfolding update
update-same st id patch now j here =
    ground (arith, get-set id id (patched j patch now) st.jobs, ==_refl id)

finish-HasEnded :
    (st : Jobs) (id : String) (o : Outcome) (now : ℕ) (j : Job) (r : Run)
    → get id st.jobs ≡ some j
    → get id st.runs ≡ some r
    → r.stage ≡ under_way
    → HasEnded id (patched j (last_patch r.presentation o) now) (finish st id o now)
finish-HasEnded st id o now j r here runs at =
    let patch = last_patch r.presentation o in
    let over = record r { stage = ended } in
    subst (HasEnded id (patched j patch now)) (sym (finish_at st id o now r runs at)) (
      update-same st id patch now j here,
      (over, ground (arith, get-set id id over (update st id patch now).runs, ==_refl id), refl),
    )

abbrev pub Shows : Outcome → PublicJob → Type 0
Shows o p = (p.status ≡ outcome_status o) × (p.progress ≡ 100)

seen :
    (st : Jobs) (id : String) (j : Job) (u : User)
    → get id st.jobs ≡ some j
    → may_see u j ≡ true
    → find_for_user st id u ≡ some (public_job j)
unfolding find_for_user
seen st id j u here sees = ground arith

-- When the task of a job that is under way ends, whoever may see the job reads that it is complete,
-- or that it failed if the task threw, with a progress of 100. So it stays over any history in which
-- the task reports nothing late and the job is not cleaned up, and no job of the same id is started.
pub finish_stays :
    (st : Jobs) (id : String) (o : Outcome) (now : ℕ) (j : Job) (r : Run) (u : User)
    (steps : List Step)
    → get id st.jobs ≡ some j
    → get id st.runs ≡ some r
    → r.stage ≡ under_way
    → may_see u j ≡ true
    → AllSpare id steps
    → (p : PublicJob) × (find_for_user (run (finish st id o now) steps) id u ≡ some p) × Shows o p
unfolding patched may_see public_job
finish_stays st id o now j r u steps here runs at sees spared =
    let patch = last_patch r.presentation o in
    let (kept, _) =
      run-HasEnded (finish st id o now) steps id (patched j patch now) spared
        (finish-HasEnded st id o now j r here runs at) in
    (
      public_job (patched j patch now),
      seen (run (finish st id o now) steps) id (patched j patch now) u kept sees,
      last_patch_lem r.presentation o,
    )
