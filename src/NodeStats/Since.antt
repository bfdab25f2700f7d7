-- ===== src/NodeStats/Since.antt =====
-- `observedStatusSince`: when a node came into the state that it is in.
use native.Mathlib.Omega.{arith}
use agapornis_api.Common.{
  ℕ, Bool, not, ◌≡◌, refl, sym, ap, ◌∙◌, subst, ◌⊎◌, inl, inr, some, List, [], ◌∷◌, ◌++◌, All,
}
use agapornis_api.NodeStats.{HealthSample, reversed, since_from, since, observed_status_since}

-- The samples stop at the start of the window or at a sample of the other state.
abbrev pub StopsBefore : Bool → List HealthSample → Type 0
StopsBefore state older =
    (older ≡ [])
    ⊎ ((before : List HealthSample) × (y : HealthSample) × (older ≡ before ++ y ∷ [])
        × (y.healthy ≡ not state))

abbrev InState : Bool → HealthSample → Type 0
InState state x = x.healthy ≡ state

reversed-append :
    (xs ys out : List HealthSample) → reversed (xs ++ ys) out ≡ reversed ys (reversed xs out)
unfolding reversed
reversed-append [] ys out = refl
reversed-append (x ∷ xs) ys out = reversed-append xs ys (x ∷ out)

module _ (state : Bool) (first : HealthSample) (left : List HealthSample)
    (stops : (at : ℕ) → since_from state at left ≡ at) (own : InState state first) where
  since_from-run :
      (at : ℕ) (run : List HealthSample)
      → All (InState state) run
      → since_from state at (run ++ first ∷ left) ≡ first.at
  unfolding since_from
  since_from-run at [] h = ground (arith, own, stops first.at)
  since_from-run at (x ∷ run) (p, h) = ground (arith, p, since_from-run x.at run h)

  since-reversed :
      (later run : List HealthSample)
      → All (InState state) later
      → All (InState state) run
      → since (reversed later (run ++ first ∷ left)) ≡ some first.at
  unfolding reversed
  since-reversed [] [] h k =
      ap some (subst (λ s. since_from s first.at left ≡ first.at) (sym own) (stops first.at))
  since-reversed [] (x ∷ run) h (p, k) = ap some (
      subst (λ s. since_from s x.at (run ++ first ∷ left) ≡ first.at) (sym p)
        (since_from-run x.at run k))
  since-reversed (y ∷ later) run (p, h) k = since-reversed later (y ∷ run) h (p, k)

stops_lem :
    (state : Bool) (older : List HealthSample) (at : ℕ)
    → StopsBefore state older
    → since_from state at (reversed older []) ≡ at
unfolding since_from reversed
stops_lem state older at (inl e) =
    subst (λ o. since_from state at (reversed o []) ≡ at) (sym e) refl
stops_lem state older at (inr (before, y, e, other)) =
    subst (λ o. since_from state at (reversed o []) ≡ at) (sym e)
      (ap (since_from state at) (reversed-append before (y ∷ []) []) ∙ ground (arith, other))

-- The time that is shown is that of the first sample of the last run of samples in one state: all from
-- it on are in that state, and before it there is none, or one in the other state.
pub observed_status_since_run :
    (state : Bool) (older : List HealthSample) (first : HealthSample) (later : List HealthSample)
    → StopsBefore state older
    → All (InState state) (first ∷ later)
    → observed_status_since (older ++ first ∷ later) ≡ some first.at
unfolding observed_status_since reversed
observed_status_since_run state older first later stops (own, h) =
    ap since (reversed-append older (first ∷ later) [])
    ∙ since-reversed state first (reversed older []) (λ at. stops_lem state older at stops) own
        later [] h tt
