-- ===== src/Learning/Tests.antt =====
-- src/rmp_learning_interface.cpp: the theorem at a batch of two; the solver adds up what it is given.
use rmp_proximity_sensor.Common.{ℕ, ◌+◌, ◌≡◌, refl, String, some, List, [], ◌∷◌}
use rmp_proximity_sensor.Learning.{Solver, Policy, for_each, rollout_batch}
use rmp_proximity_sensor.Learning.Batches.{single, policy_or_nothing, rollout_batch-single}

abbrev total : List (String × ℕ) → ℕ
total [] = 0
total ((key, n) ∷ residuals) = n + total residuals

abbrev solver : Solver ℕ ℕ ℕ
solver = record { solve = λ observation residuals. some (observation + total residuals) }

abbrev policy : Policy ℕ ℕ
policy = λ observation. some (("residual", observation) ∷ [])

rollout_batch-single_example :
    rollout_batch solver (3 ∷ 4 ∷ []) (some policy)
    ≡ for_each (single solver (policy_or_nothing solver (some policy))) (3 ∷ 4 ∷ [])
rollout_batch-single_example = rollout_batch-single solver (3 ∷ 4 ∷ []) (some policy)

rollout_batch_test : rollout_batch solver (3 ∷ 4 ∷ []) (some policy) ≡ some (6 ∷ 8 ∷ [])
unfolding rollout_batch
rollout_batch_test = refl
