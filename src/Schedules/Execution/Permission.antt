-- ===== src/Schedules/Execution/Permission.antt =====
-- A run reaches the agent only with the permission of its owner.
use agapornis_api.Common.{
  String, true, false, Option, none, some, [], ◌≡◌, ◌≢◌, refl, inl, inr, arith, Bool-cases,
}
use agapornis_api.Registry.Types.{ServerRecord, User, schedules}
use agapornis_api.Registry.Access.{can_perform}
use agapornis_api.Schedules.Config.{Action, required_permission}
use agapornis_api.Schedules.Service.{Schedule}
use agapornis_api.Schedules.Execution.{Agent, execute, is_frozen, actor_of, may_run}

may_run_lem :
    (r : ServerRecord) (o : Option User) (a : Action)
    → may_run r o a ≡ true
    → (u : User) × (o ≡ some u)
      × (can_perform (some r) u schedules ≡ true)
      × (can_perform (some r) u (required_permission a) ≡ true)
may_run_lem r none a h = absurd (cc)
may_run_lem r (some u) a h = (u, refl, ground arith, ground arith)

-- A run makes a call only if its server is registered and not frozen, and its owner is a user who
-- may perform both `schedules` and the permission of the action on that server.
pub execute_permitted :
    (agent : Agent) (server : Option ServerRecord) (find_user : String → Option User) (x : Schedule)
    → (execute agent server find_user x).1 ≢ []
    → (r : ServerRecord) × (u : User) × (server ≡ some r)
      × (is_frozen r ≡ false)
      × (actor_of find_user x.actor_user_id ≡ some u)
      × (can_perform (some r) u schedules ≡ true)
      × (can_perform (some r) u (required_permission x.action) ≡ true)
unfolding execute
execute_permitted agent none find_user x called = absurd (called refl)
execute_permitted agent (some r) find_user x called = elim (Bool-cases (is_frozen r)) [
  | inl frozen ↦ absurd (called (ground arith))
  | inr thawed ↦ elim (Bool-cases (may_run r (actor_of find_user x.actor_user_id) x.action)) [
    | inl allowed ↦
        let (u, found, general, special) =
          may_run_lem r (actor_of find_user x.actor_user_id) x.action allowed in
        (r, u, refl, thawed, found, general, special)
    | inr refused ↦ absurd (called (ground arith))
  ]
]
