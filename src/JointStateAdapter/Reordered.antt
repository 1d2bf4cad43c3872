-- ===== src/JointStateAdapter/Reordered.antt =====
-- src/joint_state_adapter.cpp: what `try_reorder_by_names` returns.
use rmp_proximity_sensor.Common.{
  ◌>>=◌, ℕ, ◌≡◌, ◌≤◌, ◌<◌, ◌⊎◌, refl, inl, inr, String, Option, none, some, List, [], arith, leb,
  ltb, length, if◌then◌else◌, Bool-cases,
}
use rmp_proximity_sensor.JointStateAdapter.{
  JointState, OrderedJointState, index_names, ordered_indices, gather_if, reordered,
  try_reorder_by_names,
}
use rmp_proximity_sensor.JointStateAdapter.Names.{all_beside, Looked, ordered_indices-Looked}

module _ {Header Double : Type 0} (msg : JointState Header Double) (keys : List String) where
  -- The values of the message that a list of them gives for the keys, if it has one for each
  -- position; none otherwise.
  abbrev pub by_name : List Double → Option (List Double)
  by_name values =
      if leb (length msg.position) (length values) then all_beside msg.name values keys else some []

  pub record Reorders (state : OrderedJointState Double) : Type 0 where
    pub enough_names : length keys ≤ length msg.name
    pub position_is : all_beside msg.name msg.position keys ≡ some state.position
    pub velocity_is : by_name msg.velocity ≡ some state.velocity
    pub effort_is : by_name msg.effort ≡ some state.effort

  abbrev pub Reordering : Option (OrderedJointState Double) → Type 0
  Reordering none = (length msg.name < length keys) ⊎ (all_beside msg.name msg.position keys ≡ none)
  Reordering (some state) = Reorders state

  gather_if-by_name :
      (indices : List ℕ) (values : List Double)
      → Looked msg.name msg.position keys (some indices)
      → (found : List Double) × (gather_if
            (leb (length msg.position) (length values))
            values
            indices
          ≡ some found)
        × (by_name values ≡ some found)
  unfolding gather_if
  gather_if-by_name indices values looked =
      elim (Bool-cases (leb (length msg.position) (length values))) [
        | inl long ↦ rw (long, gather_if) (looked values (ground arith))
        | inr short ↦ rw (short, gather_if) ([], refl, refl)
      ]

  after_look_up :
      (o : Option (List ℕ))
      → length keys ≤ length msg.name
      → Looked msg.name msg.position keys o
      → (r : Option (OrderedJointState Double)) × (elim o [
        | none ↦ some none
        | some indices ↦ (reordered msg indices >>= λ state. some (some state))
      ]
          ≡ some r)
        × Reordering r
  unfolding reordered
  after_look_up none named missing = (none, refl, inr missing)
  after_look_up (some indices) named looked =
      let (positions, p, p_is) = looked msg.position (omega arith) in
      let (velocities, v, v_is) = gather_if-by_name indices msg.velocity looked in
      let (efforts, f, f_is) = gather_if-by_name indices msg.effort looked in
      (
        some (record { position = positions; velocity = velocities; effort = efforts }),
        rw (p, v, f) refl,
        record { enough_names = named; position_is = p_is; velocity_is = v_is; effort_is = f_is },
      )

  -- Reordering never reads outside an array. It succeeds exactly if the message has enough names and
  -- each name that is asked for stands beside a position, at its first occurrence; each value is then
  -- the one beside that occurrence. Velocities and efforts come out empty where the message has
  -- fewer of them than positions.
  pub try_reorder_by_names-Reordering :
      (r : Option (OrderedJointState Double)) × (try_reorder_by_names msg keys ≡ some r)
      × Reordering r
  unfolding try_reorder_by_names
  try_reorder_by_names-Reordering = elim (Bool-cases (ltb (length msg.name) (length keys))) [
    | inl few ↦ rw few (none, refl, inl (ground arith))
    | inr named ↦ rw named (
        after_look_up (ordered_indices (index_names 0 msg.name []) (length msg.position) keys)
          (ground arith) (ordered_indices-Looked msg.name msg.position keys))
  ]
