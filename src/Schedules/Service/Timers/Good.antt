-- ===== src/Schedules/Service/Timers/Good.antt =====
-- When the schedule, the timer and the execution of one id fit together, and that the helpers of
-- server-schedules.service.ts keep it so.
use agapornis_api.Common.{
  ℕ, String, true, false, Option, none, some, ◌≡◌, sym, if◌then◌else◌, ◌⊎◌, inl, inr, ◌==◌, ==_iff,
  ==_refl, Bool-cases, string_eq, arith, subst,
}
use agapornis_api.Schedules.Service.{Service, Entry, Timer, Execution, Schedule, arm, store}
use agapornis_api.Schedules.Service.Timers.Slots.{Slots, slots, armed, slots-arm, slots-store}

abbrev pub IsKeyed : String → Option Entry → Type 0
IsKeyed k none = Unit
IsKeyed k (some e) = e.schedule.id ≡ k

abbrev pub RunIsKeyed : String → Option Execution → Type 0
RunIsKeyed k none = Unit
RunIsKeyed k (some x) = x.entry.schedule.id ≡ k

-- A timer that may still go off is for the stored object, which is enabled.
abbrev pub IsTimed : Option Entry → Option Timer → Type 0
IsTimed e none = Unit
IsTimed e (some t) = t.pending ≡ true → (e ≡ some t.entry) × (t.entry.schedule.enabled ≡ true)

abbrev pub IsArmed : Entry → Option Timer → Type 0
IsArmed e none = ⊥
IsArmed e (some t) = (t.pending ≡ true) × (t.entry ≡ e)

abbrev pub IsRunning : Entry → Option Execution → Type 0
IsRunning e none = ⊥
IsRunning e (some x) = (x.scheduled ≡ true) × (x.entry ≡ e)

-- An enabled schedule has a timer that may still go off, or its scheduled run is under way.
abbrev pub IsServed : Option Entry → Option Timer → Option Execution → Type 0
IsServed none t x = Unit
IsServed (some e) t x = e.schedule.enabled ≡ true → IsArmed e t ⊎ IsRunning e x

abbrev pub IsGood : String → Slots → Type 0
IsGood k a =
    IsKeyed k a.entry
    × RunIsKeyed k a.execution
    × IsTimed a.entry a.timer
    × IsServed a.entry a.timer a.execution

abbrev pub AllGood : Service → Type 0
AllGood s = (k : String) → IsGood k (slots s k)

-- A new object that is armed at once.
pub armed-IsGood :
    (k : String) (e : Entry) (now : ℕ) (x : Option Execution)
    → e.schedule.id ≡ k
    → RunIsKeyed k x
    → IsGood k (record { entry = some e; timer = armed e now; execution = x })
armed-IsGood k e now x h r = ground (arith, Bool-cases e.schedule.enabled)

-- `AllGood` at every other id.
abbrev pub GoodBut : String → Service → Type 0
GoodBut id s = (k : String) → (id == k) ≡ false → IsGood k (slots s k)

pub AllGood-cases : (s : Service) (id : String) → IsGood id (slots s id) → GoodBut id s → AllGood s
AllGood-cases s id here others k = elim (Bool-cases (id == k)) [
  | inl same ↦ subst (λ j. IsGood j (slots s j)) ((==_iff id k).0 same) here
  | inr differs ↦ others k differs
]

-- A service that holds of `id` what `a` says, and of every other id what it held before.
abbrev pub Sets : String → Slots → Service → Service → Type 0
Sets id a s s' = (k : String) → slots s' k ≡ (if id == k then a else slots s k)

pub Sets-AllGood :
    (s s' : Service) (id : String) (a : Slots)
    → Sets id a s s'
    → IsGood id a
    → GoodBut id s
    → AllGood s'
Sets-AllGood s s' id a sets good others =
    AllGood-cases s' id (subst (IsGood id) (sym (ground (arith, sets id, ==_refl id))) good)
      (λ k differs. subst (IsGood k) (sym (ground (arith, sets k))) (others k differs))

pub Sets-GoodBut :
    (s s' : Service) (id : String) (a : Slots) → Sets id a s s' → AllGood s → GoodBut id s'
Sets-GoodBut s s' id a sets good k differs =
    subst (IsGood k) (sym (ground (arith, sets k))) (good k)

-- Storing a new object and arming it repairs its id.
pub store-arm-Sets :
    (s : Service) (id : String) (x : Schedule) (now : ℕ)
    → x.id ≡ id
    → let e : Entry = record { object = s.fresh; schedule = x } in
      Sets id
        (record { entry = some e; timer = armed e now; execution = (slots s id).execution })
        s
        (arm (store s id x).1 e now)
store-arm-Sets s id x now keyed k = ground (
  arith,
  slots-arm (store s id x).1 (record { object = s.fresh; schedule = x }) now k,
  slots-store s id x k,
  ==_iff id k,
  ==_iff x.id k,
)
