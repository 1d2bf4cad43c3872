-- ===== src/Learning.antt =====
-- src/rmp_learning_interface.cpp: batches of observations for a solver, with residuals from a policy. The
-- solver and the policy are parameters: `solve` and `infer` may throw, which is `none`.
pub mod Batches
mod Tests
use rmp_proximity_sensor.Common.{
  ◌>>=◌, ℕ, suc, ◌≡◌, refl, ◌⊎◌, inl, inr, Bool, true, false, not, ◌&&◌, ◌==◌, String, Option, none,
  some, List, [], ◌∷◌, map, arith, length, if◌then◌else◌, Option-cases,
}

-- An observation, a residual for each external feature, and what the solver gives.
pub record Solver (Observation Feature Result : Type 0) : Type 0 where
  pub solve : Observation → List (String × Feature) → Option Result

-- What a policy infers for an observation; the specifications of the features are fixed.
abbrev pub Policy : Type 0 → Type 0 → Type 0
Policy Observation Feature = Observation → Option (List (String × Feature))

module _ {A B : Type 0} where
  -- A loop over a batch, which the first exception ends.
  pub for_each : (A → Option B) → List A → Option (List B)
  for_each f [] = some []
  for_each f (a ∷ batch) = do b ← f a; rest ← for_each f batch; some (b ∷ rest)

module _ {Observation Feature : Type 0} where
  -- `ResidualPolicyInterface::infer_batch`
  pub infer_batch :
      Policy Observation Feature → List Observation → Option (List (List (String × Feature)))
  unfolding for_each
  infer_batch policy observations = for_each policy observations

  -- `NullResidualPolicy::infer`
  pub infer_nothing : Policy Observation Feature
  infer_nothing observation = some []

  pair_up :
      List Observation
      → List (List (String × Feature))
      → List (Observation × List (String × Feature))
  pair_up (observation ∷ observations) (residuals ∷ batches) =
      (observation, residuals) ∷ pair_up observations batches
  pair_up _ _ = []

  -- No residuals at all stand for none at each observation.
  pub make_batch_inputs :
      List Observation
      → List (List (String × Feature))
      → Option (List (Observation × List (String × Feature)))
  unfolding pair_up
  make_batch_inputs observations [] = some (map (λ observation. (observation, [])) observations)
  make_batch_inputs observations (residuals ∷ batches) =
      if not (length (residuals ∷ batches) == length observations)
      then none
      else some (pair_up observations (residuals ∷ batches))

module _ {Observation Feature Result : Type 0} (solver : Solver Observation Feature Result) where
  pub rollout_single : Observation → List (String × Feature) → Option Result
  rollout_single observation residuals = solver.solve observation residuals

  -- `RmpSolverInterface::solve_batch`
  pub solve_batch : List (Observation × List (String × Feature)) → Option (List Result)
  unfolding for_each
  solve_batch batch_inputs = for_each (λ input. solver.solve input.0 input.1) batch_inputs

  -- Without a policy there are no residuals.
  pub rollout_batch : List Observation → Option (Policy Observation Feature) → Option (List Result)
  unfolding infer_batch make_batch_inputs solve_batch
  rollout_batch observations policy = do
    residual_batches ← elim policy [ none ↦ some [] | some p ↦ infer_batch p observations ]
    batch_inputs ← make_batch_inputs observations residual_batches
    solve_batch batch_inputs
