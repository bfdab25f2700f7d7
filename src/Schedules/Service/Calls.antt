-- ===== src/Schedules/Service/Calls.antt =====
-- What the calls of server-schedules.service.ts that returned have done.
use agapornis_api.Common.{
  ℕ, String, false, some, ◌≡◌, ◌∙◌, refl, inl, inr, string_eq, arith, ok, Result-cases,
  Option-cases, leb, length,
}
use agapornis_api.Common.Dict.{get, set, delete}
use agapornis_api.Schedules.Config.{max_schedules_per_server}
use agapornis_api.Schedules.Service.{
  Service, Entry, Schedule, Request, clear_timer, arm, store, save, create, update, remove,
  new_schedule, updated_schedule, run_now, get_for_server, execute_exclusive, list_for_server,
}

pub get_for_server_lem :
    (s : Service) (id server_id : String) (e : Entry)
    → get_for_server s id server_id ≡ ok e
    → get id s.schedules ≡ some e
unfolding get_for_server
get_for_server_lem s id server_id e h = elim (Option-cases (get id s.schedules)) [
  | inl gone ↦ absurd (ground arith)
  | inr (x, found) ↦ ground arith
]

pub new_schedule_lem :
    (id : String) (now : ℕ) (server_id node_id : String) (body : Request) (x : Schedule)
    → new_schedule id now server_id node_id body ≡ ok x
    → (x.id ≡ id) × (x.server_id ≡ server_id)
unfolding new_schedule
new_schedule_lem id now server_id node_id body x h = ground arith

pub updated_schedule_lem :
    (old : Schedule) (now : ℕ) (body : Request) (x : Schedule)
    → updated_schedule old now body ≡ ok x
    → (x.id ≡ old.id) × (x.server_id ≡ old.server_id)
unfolding updated_schedule
updated_schedule_lem old now body x h = ground arith

-- What a call that returned has done.
pub create_lem :
    (s s' : Service) (id : String) (now : ℕ) (server_id node_id : String) (body : Request)
    (e : Entry)
    → create s id now server_id node_id body ≡ ok (e, s')
    → (x : Schedule) × (new_schedule id now server_id node_id body ≡ ok x)
      × (leb max_schedules_per_server (length (list_for_server s server_id)) ≡ false)
      × (s' ≡ arm (store s id x).1 (record { object = s.fresh; schedule = x }) now)
unfolding create
create_lem s s' id now server_id node_id body e h =
    elim (Result-cases (new_schedule id now server_id node_id body)) [
      | inl (x, made) ↦ (x, made, ground arith, ground arith)
      | inr (f, failed) ↦ absurd (ground arith)
    ]

pub update_lem :
    (s s' : Service) (id : String) (now : ℕ) (server_id : String) (body : Request) (e : Entry)
    → update s id now server_id body ≡ ok (e, s')
    → (old : Entry) × (x : Schedule) × (get id s.schedules ≡ some old)
      × (updated_schedule old.schedule now body ≡ ok x)
      × (s' ≡ arm (clear_timer (store s id x).1 id) (record { object = s.fresh; schedule = x }) now)
unfolding update
update_lem s s' id now server_id body e h = elim (Result-cases (get_for_server s id server_id)) [
  | inl (old, there) ↦ elim (Result-cases (updated_schedule old.schedule now body)) [
    | inl (x, made) ↦ (old, x, get_for_server_lem s id server_id old there, made, ground arith)
    | inr (f, failed) ↦ absurd (ground arith)
  ]
  | inr (f, failed) ↦ absurd (ground arith)
]

pub remove_lem :
    (s s' : Service) (id server_id : String)
    → remove s id server_id ≡ ok s'
    → s' ≡ save (record s { schedules = delete id s.schedules; timers = delete id s.timers })
unfolding remove
remove_lem s s' id server_id h = elim (Result-cases (get_for_server s id server_id)) [
  | inl (e, there) ↦ ground arith
  | inr (f, failed) ↦ absurd (ground arith)
]

pub run_now_lem :
    (s s' : Service) (id server_id : String)
    → run_now s id server_id ≡ ok s'
    → (e : Entry) × (get id s.schedules ≡ some e) × (execute_exclusive s e false ≡ ok s')
unfolding run_now
run_now_lem s s' id server_id h = elim (Result-cases (get_for_server s id server_id)) [
  | inl (e, there) ↦ (e, get_for_server_lem s id server_id e there, ground arith)
  | inr (f, failed) ↦ absurd (ground arith)
]

-- What the helpers leave of the stored schedules.
pub arm_keeps : (s : Service) (e : Entry) (now : ℕ) → (arm s e now).schedules ≡ s.schedules
unfolding arm clear_timer
arm_keeps s e now = ground arith

pub store_sets :
    (s : Service) (id : String) (x : Schedule)
    → (store s id x).1.schedules ≡ set id (record { object = s.fresh; schedule = x }) s.schedules
unfolding store save
store_sets s id x = refl

pub stored_arm_sets :
    (s : Service) (id : String) (x : Schedule) (e : Entry) (now : ℕ)
    → (arm (store s id x).1 e now).schedules
      ≡ set id (record { object = s.fresh; schedule = x }) s.schedules
stored_arm_sets s id x e now = arm_keeps (store s id x).1 e now ∙ store_sets s id x

pub clear_keeps : (s : Service) (id : String) → (clear_timer s id).schedules ≡ s.schedules
unfolding clear_timer
clear_keeps s id = refl

pub execute_keeps :
    (s s' : Service) (e : Entry) → execute_exclusive s e false ≡ ok s' → s'.schedules ≡ s.schedules
unfolding execute_exclusive
execute_keeps s s' e h = ground arith
