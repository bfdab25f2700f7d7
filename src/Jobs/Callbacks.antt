-- ===== src/Jobs/Callbacks.antt =====
-- What each call and each callback of the jobs changes, case by case.
use agapornis_api.Common.Text.{text_or}
use agapornis_api.Common.{
  ℕ, String, true, ◌≡◌, refl, arith, some, ◌⊎◌, inl, inr, List, [], ◌∷◌, ◌++◌, string_eq, get_or,
  Bool-cases, Option-cases,
}
use agapornis_api.Common.Dict.{get, set, delete}
use agapornis_api.Jobs.{
  Job, running, Jobs, Run, Stage, waiting, under_way, ended, Listener, public_job, update,
  subscribe, unsubscribe, find_for_user, added, listeners_of, without, may_see,
}
use agapornis_api.Jobs.Runs.{
  Outcome, report, begin, beat, finish, expire, last_patch, plain, staged, is_running,
}

Stage-cases : (s : Stage) → (s ≡ waiting) ⊎ ((s ≡ under_way) ⊎ (s ≡ ended))
Stage-cases waiting = inl refl
Stage-cases under_way = inr (inl refl)
Stage-cases ended = inr (inr refl)

List-cases :
    (xs : List Listener) → (xs ≡ []) ⊎ ((x : Listener) × (ys : List Listener) × (xs ≡ x ∷ ys))
List-cases [] = inl refl
List-cases (x ∷ ys) = inr (x, ys, refl)

abbrev pub started_by : Jobs → String → Run → ℕ → Jobs
started_by st id r now =
    staged
      (report st id (text_or r.presentation.starting_phase "validating")
        (get_or r.presentation.starting_progress 15)
        (text_or r.presentation.starting_message "Validating template and resource limits") now)
      id r under_way

pub begin_lem :
    (st : Jobs) (id : String) (now : ℕ)
    → (begin st id now ≡ st)
      ⊎ ((r : Run) × (get id st.runs ≡ some r)
          × (r.stage ≡ waiting)
          × (begin st id now ≡ started_by st id r now))
unfolding begin
begin_lem st id now = elim (Option-cases (get id st.runs)) [
  | inl gone ↦ inl (ground arith)
  | inr (r, there) ↦ elim (Stage-cases r.stage) [
    | inl at ↦ inr (r, there, at, ground arith)
    | inr (inl at) ↦ inl (ground arith)
    | inr (inr at) ↦ inl (ground arith)
  ]
]

pub beat_lem :
    (st : Jobs) (id : String) (now : ℕ)
    → (beat st id now ≡ st)
      ⊎ ((r : Run) × (j : Job) × (get id st.runs ≡ some r)
          × (r.stage ≡ under_way)
          × (get id st.jobs ≡ some j)
          × (is_running j.status ≡ true)
          × (beat st id now ≡ update st id (plain running j.phase j.progress j.message) now))
unfolding beat
beat_lem st id now = elim (Option-cases (get id st.runs)) [
  | inl gone ↦ inl (ground arith)
  | inr (r, there) ↦ elim (Stage-cases r.stage) [
    | inl at ↦ inl (ground arith)
    | inr (inl at) ↦ elim (Option-cases (get id st.jobs)) [
      | inl none_left ↦ inl (ground arith)
      | inr (j, stored) ↦ elim (Bool-cases (is_running j.status)) [
        | inl runs ↦ inr (r, j, there, at, stored, runs, ground arith)
        | inr stopped ↦ inl (ground arith)
      ]
    ]
    | inr (inr at) ↦ inl (ground arith)
  ]
]

pub finish_lem :
    (st : Jobs) (id : String) (o : Outcome) (now : ℕ)
    → (finish st id o now ≡ st)
      ⊎ ((r : Run) × (get id st.runs ≡ some r)
          × (r.stage ≡ under_way)
          × (finish st id o now
              ≡ staged (update st id (last_patch r.presentation o) now) id r ended))
unfolding finish
finish_lem st id o now = elim (Option-cases (get id st.runs)) [
  | inl gone ↦ inl (ground arith)
  | inr (r, there) ↦ elim (Stage-cases r.stage) [
    | inl at ↦ inl (ground arith)
    | inr (inl at) ↦ inr (r, there, at, ground arith)
    | inr (inr at) ↦ inl (ground arith)
  ]
]

abbrev pub expired : Jobs → String → Jobs
expired st id = record st {
  jobs = delete id st.jobs;
  listeners = delete id st.listeners;
  runs = delete id st.runs;
}

pub expire_lem :
    (st : Jobs) (id : String)
    → (expire st id ≡ st)
      ⊎ ((r : Run) × (get id st.runs ≡ some r) × (r.stage ≡ ended) × (expire st id ≡ expired st id))
unfolding expire
expire_lem st id = elim (Option-cases (get id st.runs)) [
  | inl gone ↦ inl (ground arith)
  | inr (r, there) ↦ elim (Stage-cases r.stage) [
    | inl at ↦ inl (ground arith)
    | inr (inl at) ↦ inl (ground arith)
    | inr (inr at) ↦ inr (r, there, at, ground arith)
  ]
]

abbrev pub subscribed : Jobs → String → Listener → Job → Jobs
subscribed st id l j = record st {
  listeners = set id (added l (listeners_of st id)) st.listeners;
  sent = st.sent ++ (l, public_job j) ∷ [];
}

pub subscribe_lem :
    (st : Jobs) (id : String) (l : Listener)
    → (subscribe st id l ≡ st)
      ⊎ ((j : Job) × (get id st.jobs ≡ some j)
          × (may_see l.user j ≡ true)
          × (subscribe st id l ≡ subscribed st id l j))
unfolding subscribe find_for_user
subscribe_lem st id l = elim (Option-cases (get id st.jobs)) [
  | inl gone ↦ inl (ground arith)
  | inr (j, there) ↦ elim (Bool-cases (may_see l.user j)) [
    | inl seen ↦ inr (j, there, seen, ground arith)
    | inr hidden ↦ inl (ground arith)
  ]
]

pub unsubscribe_lem :
    (st : Jobs) (id : String) (n : ℕ)
    → (unsubscribe st id n ≡ st)
      ⊎ ((ls : List Listener) × (get id st.listeners ≡ some ls)
          × ((unsubscribe st id n ≡ record st { listeners = delete id st.listeners })
              ⊎ (unsubscribe st id n
                  ≡ record st { listeners = set id (without n ls) st.listeners })))
unfolding unsubscribe
unsubscribe_lem st id n = elim (Option-cases (get id st.listeners)) [
  | inl gone ↦ inl (ground arith)
  | inr (ls, there) ↦ elim (List-cases (without n ls)) [
    | inl last ↦ inr (ls, there, inl (ground arith))
    | inr (l, rest, left) ↦ inr (ls, there, inr (ground arith))
  ]
]
