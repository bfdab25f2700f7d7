-- ===== src/Jobs/Delivery.antt =====
-- Who is told about a job: the listeners of those who may see it.
use agapornis_api.Common.{
  ℕ, String, true, false, not, ◌≡◌, refl, sym, ap, ◌∙◌, subst, arith, none, some, ◌⊎◌, inl, inr,
  List, [], ◌∷◌, ◌++◌, ◌==◌, ==_iff, ==_refl, string_eq, Bool-cases, Option-cases, All, All-append,
  All-filter, get_or, any,
}
use agapornis_api.Common.Dict.{get, set, delete, get-set, get-delete}
use agapornis_api.Jobs.{
  Job, Jobs, Patch, Run, Stage, under_way, ended, Presentation, Listener, PublicJob, public_job,
  may_see, patched, update, subscribe, unsubscribe, new_job, start, calls, listeners_of, added,
  without, is_number,
}
use agapornis_api.Jobs.Runs.{report, expire, staged}
use agapornis_api.Jobs.Callbacks.{
  begin_lem, beat_lem, finish_lem, expire_lem, subscribe_lem, unsubscribe_lem, subscribed,
}
use agapornis_api.Jobs.Events.{
  Step, starts, subscribes, unsubscribes, begins, beats, reports, finishes, expires, apply, IsFresh,
  AllFresh,
}

abbrev pub MaySee : Job → Listener → Type 0
MaySee j l = may_see l.user j ≡ true

-- Every listener is of a job that is stored, and its user may see it.
abbrev pub AllMaySee : Jobs → Type 0
AllMaySee st =
    (id : String) (ls : List Listener)
    → get id st.listeners ≡ some ls
    → (j : Job) × (get id st.jobs ≡ some j) × All (MaySee j) ls

-- A call of a listener shows a job as it is stored now, which the listener's user may see.
abbrev pub IsDue : Jobs → Listener × PublicJob → Type 0
IsDue st (l, p) =
    (id : String) × (j : Job) × (get id st.jobs ≡ some j) × (p ≡ public_job j) × MaySee j l

-- The calls that lead from the one state to the other are due.
abbrev pub SendsDue : Jobs → Jobs → Type 0
SendsDue st st' =
    (new : List (Listener × PublicJob)) × (st'.sent ≡ st.sent ++ new) × All (IsDue st') new

abbrev StepGood : Jobs → Jobs → Type 0
StepGood st st' = AllMaySee st' × SendsDue st st'

append_nil : {A : Type 0} (xs : List A) → xs ≡ xs ++ []
append_nil [] = refl
append_nil (x ∷ xs) = ap (λ ys. x ∷ ys) (append_nil xs)

unchanged : (st : Jobs) → AllMaySee st → StepGood st st
unchanged st h = (h, ([], append_nil st.sent, tt))

-- A patch leaves the requester.
patched-MaySee :
    (j : Job) (patch : Patch) (now : ℕ) (ls : List Listener)
    → All (MaySee j) ls
    → All (MaySee (patched j patch now)) ls
unfolding patched may_see
patched-MaySee j patch now [] h = tt
patched-MaySee j patch now (l ∷ ls) (p, h) = (p, patched-MaySee j patch now ls h)

calls-IsDue :
    (st : Jobs) (id : String) (j : Job) (ls : List Listener)
    → get id st.jobs ≡ some j
    → All (MaySee j) ls
    → All (IsDue st) (calls ls j)
calls-IsDue st id j [] here h = tt
calls-IsDue st id j (l ∷ ls) here (p, h) = ((id, j, here, refl, p), calls-IsDue st id j ls here h)

listeners_of-MaySee :
    (st : Jobs) (id : String) (j : Job)
    → AllMaySee st
    → get id st.jobs ≡ some j
    → All (MaySee j) (listeners_of st id)
listeners_of-MaySee st id j h here = elim (Option-cases (get id st.listeners)) [
  | inl silent ↦ subst (λ o. All (MaySee j) (get_or o [])) (sym silent) tt
  | inr (ls, there) ↦
      let (k, here', seen) = h id ls there in
      let one : k ≡ j = ground arith in
      subst (λ o. All (MaySee j) (get_or o [])) (sym there)
        (subst (λ i. All (MaySee i) ls) one seen)
]

-- Writing a job that the listeners of its id may see.
set-AllMaySee :
    (st st' : Jobs) (id : String) (new : Job)
    → st'.jobs ≡ set id new st.jobs
    → st'.listeners ≡ st.listeners
    → All (MaySee new) (listeners_of st id)
    → AllMaySee st
    → AllMaySee st'
set-AllMaySee st st' id new ej el sees h k ls e = elim (Bool-cases (id == k)) [
  | inl hit ↦
      let there : get id st.listeners ≡ some ls =
        ap (λ i. get i st.listeners) ((==_iff id k).0 hit) ∙ ap (get k) (sym el) ∙ e in
      (
        new,
        ap (get k) ej ∙ ground (arith, get-set id k new st.jobs),
        subst (λ o. All (MaySee new) (get_or o [])) there sees,
      )
  | inr miss ↦
      let (j, here, seen) = h k ls (ap (get k) (sym el) ∙ e) in
      (j, ap (get k) ej ∙ ground (arith, get-set id k new st.jobs), seen)
]

abbrev updated : Jobs → String → Job → Jobs
updated st id next = record st {
  jobs = set id next st.jobs;
  sent = st.sent ++ calls (listeners_of st id) next;
}

update_lem :
    (st : Jobs) (id : String) (patch : Patch) (now : ℕ)
    → (update st id patch now ≡ st)
      ⊎ ((j : Job) × (get id st.jobs ≡ some j)
          × (update st id patch now ≡ updated st id (patched j patch now)))
unfolding update
update_lem st id patch now = elim (Option-cases (get id st.jobs)) [
  | inl gone ↦ inl (ground arith)
  | inr (j, there) ↦ inr (j, there, ground arith)
]

update-StepGood :
    (st : Jobs) (id : String) (patch : Patch) (now : ℕ)
    → AllMaySee st
    → StepGood st (update st id patch now)
update-StepGood st id patch now h = elim (update_lem st id patch now) [
  | inl same ↦ subst (StepGood st) (sym same) (unchanged st h)
  | inr (j, here, made) ↦
      let next = patched j patch now in
      let ls = listeners_of st id in
      let sees = patched-MaySee j patch now ls (listeners_of-MaySee st id j h here) in
      let st' = updated st id next in
      subst (StepGood st) (sym made) (
        set-AllMaySee st st' id next refl refl sees h,
        (
          calls ls next,
          refl,
          calls-IsDue st' id next ls (ground (arith, get-set id id next st.jobs, ==_refl id)) sees,
        ),
      )
]

moved-StepGood :
    (st : Jobs) (id : String) (patch : Patch) (now : ℕ) (r : Run) (stage : Stage)
    → AllMaySee st
    → StepGood st (staged (update st id patch now) id r stage)
moved-StepGood st id patch now r stage h = update-StepGood st id patch now h

added-MaySee :
    (j : Job) (l : Listener) (ls : List Listener)
    → MaySee j l
    → All (MaySee j) ls
    → All (MaySee j) (added l ls)
added-MaySee j l ls p h = elim (Bool-cases (any (is_number l.number) ls)) [
  | inl there ↦ let same : added l ls ≡ ls = ground arith in subst (All (MaySee j)) (sym same) h
  | inr new ↦
      let more : added l ls ≡ ls ++ l ∷ [] = ground arith in
      subst (All (MaySee j)) (sym more) (All-append (MaySee j) ls (l ∷ []) h (p, tt))
]

-- New listeners of one job, of users who may see it.
heard-AllMaySee :
    (st st' : Jobs) (id : String) (j : Job) (new : List Listener)
    → st'.jobs ≡ st.jobs
    → st'.listeners ≡ set id new st.listeners
    → get id st.jobs ≡ some j
    → All (MaySee j) new
    → AllMaySee st
    → AllMaySee st'
heard-AllMaySee st st' id j new ej el here sees h k ls e = elim (Bool-cases (id == k)) [
  | inl hit ↦
      let one : new ≡ ls = ground (arith, get-set id k new st.listeners) in
      (
        j,
        ap (get k) ej ∙ ap (λ i. get i st.jobs) (sym ((==_iff id k).0 hit)) ∙ here,
        subst (All (MaySee j)) one sees,
      )
  | inr miss ↦
      let (i, there, seen) = h k ls (ground (arith, get-set id k new st.listeners)) in
      (i, ap (get k) ej ∙ there, seen)
]

subscribe-StepGood :
    (st : Jobs) (id : String) (l : Listener) → AllMaySee st → StepGood st (subscribe st id l)
subscribe-StepGood st id l h = elim (subscribe_lem st id l) [
  | inl same ↦ subst (StepGood st) (sym same) (unchanged st h)
  | inr (j, here, p, made) ↦
      let st' = subscribed st id l j in
      let ls = added-MaySee j l (listeners_of st id) p (listeners_of-MaySee st id j h here) in
      subst (StepGood st) (sym made) (
        heard-AllMaySee st st' id j (added l (listeners_of st id)) refl refl here ls h,
        ((l, public_job j) ∷ [], refl, ((id, j, here, refl, p), tt)),
      )
]

-- What is left without the listeners of one job.
deleted-AllMaySee :
    (st : Jobs) (id : String) (k : String) (ls : List Listener)
    → AllMaySee st
    → get k (delete id st.listeners) ≡ some ls
    → ((id == k) ≡ false) × ((j : Job) × (get k st.jobs ≡ some j) × All (MaySee j) ls)
deleted-AllMaySee st id k ls h e = elim (Bool-cases (id == k)) [
  | inl hit ↦ absurd (ground (arith, get-delete id k st.listeners))
  | inr miss ↦ (miss, h k ls (ground (arith, get-delete id k st.listeners)))
]

unsubscribe-StepGood :
    (st : Jobs) (id : String) (n : ℕ) → AllMaySee st → StepGood st (unsubscribe st id n)
unsubscribe-StepGood st id n h = elim (unsubscribe_lem st id n) [
  | inl same ↦ subst (StepGood st) (sym same) (unchanged st h)
  | inr (ls, there, inl none_left) ↦
      subst (StepGood st) (sym none_left)
        ((λ k ks e. (deleted-AllMaySee st id k ks h e).1), ([], append_nil st.sent, tt))
  | inr (ls, there, inr fewer) ↦
      let (j, here, seen) = h id ls there in
      let st' = record st { listeners = set id (without n ls) st.listeners } in
      subst (StepGood st) (sym fewer) (
        heard-AllMaySee st st' id j (without n ls) refl refl here
            (All-filter (MaySee j) (λ l. not (is_number n l)) ls seen) h,
        ([], append_nil st.sent, tt),
      )
]

expire-StepGood : (st : Jobs) (id : String) → AllMaySee st → StepGood st (expire st id)
expire-StepGood st id h = elim (expire_lem st id) [
  | inl same ↦ subst (StepGood st) (sym same) (unchanged st h)
  | inr (_, _, _, over) ↦ subst (StepGood st) (sym over) (
    (λ k ks e.
        let (apart, (j, here, seen)) = deleted-AllMaySee st id k ks h e in
        (j, ground (arith, get-delete id k st.jobs), seen)),
    ([], append_nil st.sent, tt),
  )
]

start-StepGood :
    (st : Jobs) (job : Job) (p : Presentation)
    → get job.id st.listeners ≡ none
    → AllMaySee st
    → StepGood st (start st job p).1
unfolding start
start-StepGood st job p silent h = (
  set-AllMaySee st (start st job p).1 job.id job refl refl
      (subst (λ o. All (MaySee job) (get_or o [])) (sym silent) tt) h,
  ([], append_nil st.sent, tt),
)

apply-StepGood : (st : Jobs) (s : Step) → IsFresh st s → AllMaySee st → StepGood st (apply st s)
unfolding apply report new_job
apply-StepGood st (starts id now requester server on_node kind p) (no_job, silent, no_run) h =
    start-StepGood st (new_job id now requester server on_node kind p) p silent h
apply-StepGood st (subscribes id l) fresh h = subscribe-StepGood st id l h
apply-StepGood st (unsubscribes id n) fresh h = unsubscribe-StepGood st id n h
apply-StepGood st (begins id now) fresh h = elim (begin_lem st id now) [
  | inl same ↦ subst (StepGood st) (sym same) (unchanged st h)
  | inr (r, _, _, begun) ↦
      subst (StepGood st) (sym begun) (moved-StepGood st id _ now r under_way h)
]
apply-StepGood st (beats id now) fresh h = elim (beat_lem st id now) [
  | inl same ↦ subst (StepGood st) (sym same) (unchanged st h)
  | inr (_, _, _, _, _, _, beaten) ↦
      subst (StepGood st) (sym beaten) (update-StepGood st id _ now h)
]
apply-StepGood st (reports id phase progress message now) fresh h = update-StepGood st id _ now h
apply-StepGood st (finishes id o now) fresh h = elim (finish_lem st id o now) [
  | inl same ↦ subst (StepGood st) (sym same) (unchanged st h)
  | inr (r, _, _, done) ↦ subst (StepGood st) (sym done) (moved-StepGood st id _ now r ended h)
]
apply-StepGood st (expires id) fresh h = expire-StepGood st id h

-- Each step of the history makes only calls that are due.
abbrev pub AllSendDue : Jobs → List Step → Type 0
AllSendDue st [] = Unit
AllSendDue st (s ∷ steps) = SendsDue st (apply st s) × AllSendDue (apply st s) steps

-- If every listener is of a stored job that its user may see, then over any history in which new
-- jobs take new ids, a listener is called only for users who may see the job, as an owner, an
-- admin or the one who asked for it, and with the job as it is stored then, less its requester.
pub run-AllSendDue :
    (st : Jobs) (steps : List Step) → AllMaySee st → AllFresh st steps → AllSendDue st steps
run-AllSendDue st [] h fresh = tt
run-AllSendDue st (s ∷ steps) h (fresh, rest) =
    let (later, due) = apply-StepGood st s fresh h in
    (due, run-AllSendDue (apply st s) steps later rest)
