-- ===== src/Controller/Geometry/Known.antt =====
-- src/rmpflow_controller_node.cpp: the comparison with the workspace's limits does not throw where the body
-- obstacles' links are known.
use rmp_proximity_sensor.Common.{
  ℕ, ◌+◌, ◌<◌, ◌≡◌, refl, ◌⊎◌, inl, inr, Bool, true, String, some, List, [], ◌∷◌, arith, length,
  get_elem?-lt, str_eq, Bool-cases, All,
}
use rmp_proximity_sensor.Common.Floats.{Floats}
use rmp_proximity_sensor.Controller.Geometry.{
  Vector, Context, BodyObstacle, FloorLimits, link_names, index_from, link_index_from_name,
  obstacle_frame, body_obstacle_center_world, body_obstacle_min_z_world, all_obstacle_z,
  compute_floor_safety_metrics, below_limits,
}

-- The arrays of the kinematics have a place for each of the twelve links.
pub record IsFull {Double Rotation : Type 0} (context : Context Double Rotation) : Type 0 where
  pub positions_full : length context.link_positions ≡ 12
  pub rotations_full : length context.link_rotations ≡ 12

abbrev pub IsKnown : {Double : Type 0} → BodyObstacle Double → Type 0
IsKnown obstacle =
    (str_eq obstacle.link_name "" ≡ true)
    ⊎ ((i : ℕ) × (link_index_from_name obstacle.link_name ≡ some i))

index_from-lt :
    (index : ℕ) (link_name : String) (names : List String) (i : ℕ)
    → index_from index link_name names ≡ some i
    → i < index + length names
unfolding index_from
index_from-lt index link_name [] i e = ground arith
index_from-lt index link_name (n ∷ names) i e = elim (Bool-cases (str_eq link_name n)) [
  | inl same ↦ ground arith
  | inr other ↦ ground (arith, index_from-lt (index + 1) link_name names i)
]

link_index_from_name-lt :
    (link_name : String) (i : ℕ) → link_index_from_name link_name ≡ some i → i < 12
unfolding link_index_from_name
link_index_from_name-lt link_name i e = index_from-lt 0 link_name link_names i e

module _ {Double Time Rotation : Type 0} (floats : Floats Double Time) (infinity : Double)
    (identity : Rotation) (rotate : Rotation → Vector Double → Vector Double) where
  obstacle_frame-some :
      (obstacle : BodyObstacle Double) (context : Context Double Rotation)
      → IsKnown obstacle
      → IsFull context
      → (frame : Rotation × Vector Double) × (obstacle_frame floats infinity identity rotate
            obstacle context
          ≡ some frame)
  unfolding obstacle_frame
  obstacle_frame-some obstacle context (inl based) full = rw based (_, refl)
  obstacle_frame-some obstacle context (inr (i, e)) full =
      elim (Bool-cases (str_eq obstacle.link_name "")) [
        | inl based ↦ rw based (_, refl)
        | inr linked ↦
            let inside = link_index_from_name-lt obstacle.link_name i e in
            let (rotation, at_rotation) =
              get_elem?-lt context.link_rotations i (omega (arith, full.rotations_full, inside)) in
            let (origin, at_origin) =
              get_elem?-lt context.link_positions i (omega (arith, full.positions_full, inside)) in
            rw (linked, e, at_rotation, at_origin) (_, refl)
      ]

  body_obstacle_center_world-some :
      (obstacle : BodyObstacle Double) (context : Context Double Rotation)
      → IsKnown obstacle
      → IsFull context
      → (center : Vector Double) × (body_obstacle_center_world floats infinity identity rotate
            obstacle context
          ≡ some center)
  unfolding body_obstacle_center_world
  body_obstacle_center_world-some obstacle context (inl based) full = rw based (_, refl)
  body_obstacle_center_world-some obstacle context (inr (i, e)) full =
      elim (Bool-cases (str_eq obstacle.link_name "")) [
        | inl based ↦ rw based (_, refl)
        | inr linked ↦
            let inside = link_index_from_name-lt obstacle.link_name i e in
            let (rotation, at_rotation) =
              get_elem?-lt context.link_rotations i (omega (arith, full.rotations_full, inside)) in
            let (origin, at_origin) =
              get_elem?-lt context.link_positions i (omega (arith, full.positions_full, inside)) in
            rw (linked, e, at_rotation, at_origin) (_, refl)
      ]

  all_obstacle_z-some :
      (obstacles : List (BodyObstacle Double)) (context : Context Double Rotation)
      → All IsKnown obstacles
      → IsFull context
      → (zs : List Double) × (all_obstacle_z floats infinity identity rotate obstacles context
          ≡ some zs)
  unfolding all_obstacle_z body_obstacle_min_z_world
  all_obstacle_z-some [] context known full = ([], refl)
  all_obstacle_z-some (obstacle ∷ obstacles) context known full =
      let (rest, all) = all_obstacle_z-some obstacles context known.1 full in
      let (center, at_center) = body_obstacle_center_world-some obstacle context known.0 full in
      let (frame, at_frame) = obstacle_frame-some obstacle context known.0 full in
      elim (Bool-cases (str_eq obstacle.type_name "ball")) [
        | inl ball ↦ rw (ball, at_center, all) (_, refl)
        | inr box ↦ rw (box, at_frame, all) (_, refl)
      ]

  -- Where every body obstacle stands on a known link or on none, the comparison gives an answer.
  pub below_limits-some :
      (limits : FloorLimits Double) (obstacles : List (BodyObstacle Double))
      (context : Context Double Rotation)
      → All IsKnown obstacles
      → IsFull context
      → (b : Bool) × (below_limits floats infinity identity rotate limits obstacles context
          ≡ some b)
  unfolding below_limits compute_floor_safety_metrics
  below_limits-some limits obstacles context known full =
      let (zs, all) = all_obstacle_z-some obstacles context known full in
      let (link6, at_link6) =
        get_elem?-lt context.link_positions 8 (omega (arith, full.positions_full)) in
      let (gripper, at_gripper) =
        get_elem?-lt context.link_positions 11 (omega (arith, full.positions_full)) in
      rw (all, at_link6, at_gripper) (_, refl)
