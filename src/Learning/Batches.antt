-- ===== src/Learning/Batches.antt =====
-- src/rmp_learning_interface.cpp: a batch against its single observations.
use rmp_proximity_sensor.Common.{
  ◌>>=◌, ◌≡◌, refl, sym, ap, ◌∙◌, inl, inr, ==_iff, String, Option, none, some, List, [], ◌∷◌, map,
  arith, length, Option-cases,
}
use mathlib.Core.Path.{subst}
use rmp_proximity_sensor.Learning.{
  Solver, Policy, for_each, infer_batch, infer_nothing, pair_up, make_batch_inputs, rollout_single,
  solve_batch, rollout_batch,
}

module _ {A B : Type 0} where
  length-for_each :
      (f : A → Option B) (batch : List A) (out : List B)
      → for_each f batch ≡ some out
      → length out ≡ length batch
  unfolding for_each
  length-for_each f [] out e = ground arith
  length-for_each f (a ∷ batch) out e = elim (Option-cases (f a)) [
    | inl thrown ↦ ground arith
    | inr (b, here) ↦ elim (Option-cases (for_each f batch)) [
      | inl thrown ↦ ground arith
      | inr (rest, more) ↦ ground (arith, length-for_each f batch rest more)
    ]
  ]

skip :
    {B : Type 0} (o : Option B) (rest : Option (List B))
    → rest ≡ none
    → none ≡ (o >>= λ b. (rest >>= λ r. some (b ∷ r)))
skip none rest e = refl
skip (some b) rest e = rw e refl

module _ {Observation Feature Result : Type 0} (solver : Solver Observation Feature Result) where
  -- What a policy and the solver make of one observation.
  pub single : Policy Observation Feature → Observation → Option Result
  single policy observation =
      policy observation >>= λ residuals. rollout_single solver observation residuals

  make_batch_inputs-pair_up :
      (observations : List Observation) (batches : List (List (String × Feature)))
      → length batches ≡ length observations
      → make_batch_inputs observations batches ≡ some (pair_up observations batches)
  unfolding make_batch_inputs pair_up
  make_batch_inputs-pair_up [] [] e = refl
  make_batch_inputs-pair_up (o ∷ observations) [] e = absurd (omega arith)
  make_batch_inputs-pair_up observations (residuals ∷ batches) e =
      rw ((==_iff (length (residuals ∷ batches)) (length observations)).1 e) refl

  -- The whole batch is inferred, and then solved.
  for_each-single :
      (policy : Policy Observation Feature) (observations : List Observation)
      → (for_each policy observations >>= λ batches.
          solve_batch solver (pair_up observations batches))
        ≡ for_each (single policy) observations
  unfolding for_each solve_batch single pair_up rollout_single
  for_each-single policy [] = refl
  for_each-single policy (o ∷ observations) = elim (Option-cases (policy o)) [
    | inl thrown ↦ rw thrown refl
    | inr (residuals, inferred) ↦
        let solve_all : List (List (String × Feature)) → Option (List Result) =
          λ batches. solve_batch solver (pair_up observations batches) in
        let ih = for_each-single policy observations in
        elim (Option-cases (for_each policy observations)) [
          | inl thrown ↦
              let later : for_each (single policy) observations ≡ none =
                sym ih ∙ ap (λ batches. batches >>= solve_all) thrown in
              rw (inferred, thrown) (skip (rollout_single solver o residuals) _ later)
          | inr (batches, all) ↦
              let later : for_each (single policy) observations ≡ solve_all batches =
                sym ih ∙ ap (λ batches. batches >>= solve_all) all in
              rw (inferred, all, later) refl
        ]
  ]

  no_residuals :
      (observations : List Observation)
      → solve_batch solver (map (λ observation. (observation, [])) observations)
        ≡ for_each (single infer_nothing) observations
  unfolding solve_batch for_each single infer_nothing rollout_single
  no_residuals [] = refl
  no_residuals (o ∷ observations) = rw (no_residuals observations) refl

  -- The policy, or one that infers nothing.
  abbrev pub policy_or_nothing : Option (Policy Observation Feature) → Policy Observation Feature
  policy_or_nothing none = infer_nothing
  policy_or_nothing (some policy) = policy

  -- Rolling out a batch gives for each observation what inferring and solving give for it alone, in the
  -- batch's order, and throws exactly if one of these throws; the sizes always match. Without a policy
  -- it is the batch of a policy that infers nothing.
  pub rollout_batch-single :
      (observations : List Observation) (policy : Option (Policy Observation Feature))
      → rollout_batch solver observations policy
        ≡ for_each (single (policy_or_nothing policy)) observations
  unfolding rollout_batch infer_batch make_batch_inputs
  rollout_batch-single observations none = no_residuals observations
  rollout_batch-single observations (some policy) =
      let whole = for_each-single policy observations in
      elim (Option-cases (for_each policy observations)) [
        | inl thrown ↦ rw thrown (
            subst
              (λ o.
                (o >>= λ batches. solve_batch solver (pair_up observations batches))
                ≡ for_each (single policy) observations)
              thrown whole)
        | inr (batches, all) ↦
            rw
              (
                all,
                make_batch_inputs-pair_up observations batches
                    (length-for_each policy observations batches all),
              )
              (subst
                (λ o.
                  (o >>= λ batches. solve_batch solver (pair_up observations batches))
                  ≡ for_each (single policy) observations)
                all whole)
      ]
