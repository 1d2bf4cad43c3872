-- ===== src/JointStateAdapter/Published.antt =====
-- src/joint_state_adapter.cpp: what `on_joint_state` publishes.
use rmp_proximity_sensor.Common.{
  ℕ, ◌≡◌, ◌∙◌, ◌≤◌, ◌<◌, ◌⊎◌, refl, inl, inr, String, Option, none, some, List, [], arith, leb, ltb,
  length, length-take, Bool-cases,
}
use rmp_proximity_sensor.JointStateAdapter.{
  Adapter, JointState, OrderedJointState, front_or_empty, try_reorder_by_names,
  try_build_ordered_state, publish_ordered, on_joint_state,
}
use rmp_proximity_sensor.JointStateAdapter.Names.{length-all_beside}
use rmp_proximity_sensor.JointStateAdapter.Reordered.{
  by_name, Reorders, Reordering, try_reorder_by_names-Reordering,
}

-- As many values as joints, or no values at all.
abbrev pub IsFilled : {A : Type 0} → ℕ → List A → Type 0
IsFilled count values = (length values ≡ count) ⊎ (values ≡ [])

module _ {Double : Type 0} where
  pub record IsOrdered (count : ℕ) (state : OrderedJointState Double) : Type 0 where
    pub position_count : length state.position ≡ count
    pub velocity_filled : IsFilled count state.velocity
    pub effort_filled : IsFilled count state.effort

  front_or_empty-IsFilled :
      (count : ℕ) (values : List Double) → IsFilled count (front_or_empty count values)
  front_or_empty-IsFilled count values = elim (Bool-cases (leb count (length values))) [
    | inl long ↦ inl (rw long (length-take count values ∙ ground arith))
    | inr short ↦ inr (rw short refl)
  ]

module _ {Header Double : Type 0} where
  by_name-IsFilled :
      (msg : JointState Header Double) (keys : List String) (values found : List Double)
      → by_name msg keys values ≡ some found
      → IsFilled (length keys) found
  by_name-IsFilled msg keys values found e =
      elim (Bool-cases (leb (length msg.position) (length values))) [
        | inl long ↦ inl (length-all_beside msg.name values keys found (rw long at e))
        | inr short ↦ inr (ground arith)
      ]

  Reorders-IsOrdered :
      (msg : JointState Header Double) (keys : List String) (state : OrderedJointState Double)
      → Reorders msg keys state
      → IsOrdered (length keys) state
  Reorders-IsOrdered msg keys state r = record {
    position_count = length-all_beside msg.name msg.position keys state.position r.position_is;
    velocity_filled = by_name-IsFilled msg keys msg.velocity state.velocity r.velocity_is;
    effort_filled = by_name-IsFilled msg keys msg.effort state.effort r.effort_is;
  }

  -- A message, if any, has the target's names and the header that came in, one position for each
  -- joint, and as many velocities and efforts or none.
  abbrev pub Publishes :
      Adapter → JointState Header Double → Option (JointState Header Double) → Type 0
  Publishes a msg none = length msg.position < length a.target_joint_names
  Publishes a msg (some out) =
      (length a.target_joint_names ≤ length msg.position)
      × (out.header ≡ msg.header)
      × (out.name ≡ a.target_joint_names)
      × (length out.position ≡ length a.target_joint_names)
      × IsFilled (length a.target_joint_names) out.velocity
      × IsFilled (length a.target_joint_names) out.effort

  -- What `try_build_ordered_state` comes to.
  abbrev Built :
      Adapter → JointState Header Double → Option (OrderedJointState Double × String) → Type 0
  Built a msg none = length msg.position < length a.target_joint_names
  Built a msg (some (state, mapping_source)) =
      (length a.target_joint_names ≤ length msg.position)
      × IsOrdered (length a.target_joint_names) state

  reorder_cases :
      (msg : JointState Header Double) (keys : List String)
      → ((state : OrderedJointState Double) × (try_reorder_by_names msg keys ≡ some (some state))
          × IsOrdered (length keys) state)
        ⊎ (try_reorder_by_names msg keys ≡ some none)
  reorder_cases msg keys = let (r, e, d) = try_reorder_by_names-Reordering msg keys in split r e d
    where
      split :
          (r : Option (OrderedJointState Double))
          → try_reorder_by_names msg keys ≡ some r
          → Reordering msg keys r
          → ((state : OrderedJointState Double) × (try_reorder_by_names msg keys
                ≡ some (some state))
              × IsOrdered (length keys) state)
            ⊎ (try_reorder_by_names msg keys ≡ some none)
      split none e d = inr e
      split (some state) e d = inl (state, e, Reorders-IsOrdered msg keys state d)

  try_build_ordered_state-Built :
      (a : Adapter) (msg : JointState Header Double)
      → length a.source_joint_names ≡ length a.target_joint_names
      → (r : Option (OrderedJointState Double × String)) × (try_build_ordered_state a msg ≡ some r)
        × Built a msg r
  unfolding try_build_ordered_state
  try_build_ordered_state-Built a msg same =
      let targets = a.target_joint_names in
      let count = length targets in
      elim (Bool-cases (ltb (length msg.position) count)) [
        | inl few ↦ rw few (none, refl, ground arith)
        | inr enough ↦ elim (reorder_cases msg targets) [
          | inl (state, e, r) ↦
              rw (enough, e) (some (state, "target joint names"), refl, (ground arith, r))
          | inr e ↦ elim (reorder_cases msg a.source_joint_names) [
            | inl (state, e', r') ↦
                rw (enough, e, e')
                  (some (state, "source joint names"), refl, (ground arith, rw same at r'))
            | inr e' ↦
                rw (enough, e, e')
                  (
                    some (_, "positional fallback"),
                    refl,
                    (
                      ground arith,
                      record {
                        position_count = length-take count msg.position ∙ ground arith;
                        velocity_filled = front_or_empty-IsFilled count msg.velocity;
                        effort_filled = front_or_empty-IsFilled count msg.effort;
                      },
                    ),
                  )
          ]
        ]
      ]

  publish_ordered-Publishes :
      (a : Adapter) (msg : JointState Header Double)
      (r : Option (OrderedJointState Double × String))
      → Built a msg r
      → let (a', out) = publish_ordered a msg r in
        Publishes a msg out
        × (a'.source_joint_names ≡ a.source_joint_names)
        × (a'.target_joint_names ≡ a.target_joint_names)
  unfolding publish_ordered
  publish_ordered-Publishes a msg none few = (few, refl, refl)
  publish_ordered-Publishes a msg (some (state, mapping_source)) (enough, o) = (
    (enough, refl, refl, o.position_count, o.velocity_filled, o.effort_filled),
    ground arith,
    ground arith,
  )

  -- The handler never reads outside an array. For lists of names of the same length, which the
  -- constructor checks, it publishes exactly if the message has a position for each joint, whatever
  -- the names in it are; the message published is filled and has the target's names. The adapter's
  -- names stay as they are.
  pub on_joint_state-Publishes :
      (a : Adapter) (msg : JointState Header Double)
      → length a.source_joint_names ≡ length a.target_joint_names
      → (a' : Adapter) × (out : Option (JointState Header Double)) × (on_joint_state a msg
          ≡ some (a', out))
        × Publishes a msg out
        × (a'.source_joint_names ≡ a.source_joint_names)
        × (a'.target_joint_names ≡ a.target_joint_names)
  unfolding on_joint_state
  on_joint_state-Publishes a msg same =
      let (r, e, b) = try_build_ordered_state-Built a msg same in
      let (published, sources, targets) = publish_ordered-Publishes a msg r b in
      rw e (_, _, refl, published, sources, targets)
