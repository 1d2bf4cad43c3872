-- ===== src/Controller/Geometry.antt =====
-- src/rmpflow_controller_node.cpp: how low the robot and its body obstacles reach. The forward kinematics
-- of rb10_model.hpp and the product of a rotation with a vector are parameters; `none` is the exception
-- for an unknown link.
pub mod Floor
pub mod Known
use rmp_proximity_sensor.Common.{
  ℕ, zero, suc, ◌+◌, Bool, true, false, not, ◌||◌, ◌&&◌, String, Option, none, some, List, [], ◌∷◌,
  ◌++◌, ◌>>=◌, map, get_elem?, if◌then◌else◌, str_eq,
}
use rmp_proximity_sensor.Common.Floats.{Floats, min_of}

pub record Vector (Double : Type 0) : Type 0 where
  pub x : Double
  pub y : Double
  pub z : Double

-- The members of `KinematicsContext` that the controller reads; a control point has a radius.
pub record Context (Double Rotation : Type 0) : Type 0 where
  pub link_positions : List (Vector Double)
  pub link_rotations : List Rotation
  pub joint_origins : List (Vector Double)
  pub control_points : List (Vector Double × Double)
  pub tcp_position : Vector Double

pub record BodyObstacle (Double : Type 0) : Type 0 where
  pub type_name : String
  pub link_name : String
  pub mins : Vector Double
  pub maxs : Vector Double
  pub center : Vector Double
  pub radius : Double

pub record FloorSafetyMetrics (Double : Type 0) : Type 0 where
  pub min_link_z : Double
  pub min_joint_z : Double
  pub min_control_point_z : Double
  pub min_body_obstacle_z : Double

-- The limits of the workspace.
pub record FloorLimits (Double : Type 0) : Type 0 where
  pub workspace_floor_z : Double
  pub min_link6_z : Double
  pub min_tcp_z : Double

-- `RB10Model::link_names`
abbrev pub link_names : List String
link_names =
    "base_link" ∷ "link0" ∷ "link1" ∷ "link2" ∷ "link3" ∷ "link3_5" ∷ "link4" ∷ "link5" ∷ "link6"
    ∷ "tcp" ∷ "tcp_rmp" ∷ "tcp_gripper" ∷ []

-- The index of the first of the names from `index` on that is the given one.
pub index_from : ℕ → String → List String → Option ℕ
index_from index link_name [] = none
index_from index link_name (n ∷ names) =
    let later = index_from (index + 1) link_name names in
    if str_eq link_name n then some index else later

pub link_index_from_name : String → Option ℕ
unfolding index_from
link_index_from_name link_name = index_from 0 link_name link_names

module _ {Double : Type 0} where
  -- The eight corners of a box.
  corners : BodyObstacle Double → List (Vector Double)
  corners obstacle =
      let lo = obstacle.mins in
      let hi = obstacle.maxs in
      record { x = lo.x; y = lo.y; z = lo.z }
      ∷ record { x = lo.x; y = lo.y; z = hi.z }
      ∷ record { x = lo.x; y = hi.y; z = lo.z }
      ∷ record { x = lo.x; y = hi.y; z = hi.z }
      ∷ record { x = hi.x; y = lo.y; z = lo.z }
      ∷ record { x = hi.x; y = lo.y; z = hi.z }
      ∷ record { x = hi.x; y = hi.y; z = lo.z }
      ∷ record { x = hi.x; y = hi.y; z = hi.z }
      ∷ []

module _ {Double Time : Type 0} (floats : Floats Double Time) where
  add_vectors : Vector Double → Vector Double → Vector Double
  add_vectors a b = record {
    x = floats.add a.x b.x;
    y = floats.add a.y b.y;
    z = floats.add a.z b.z;
  }

  -- The loop `m = std::min(m, z)`.
  pub lowest : Double → List Double → Double
  lowest m [] = m
  lowest m (z ∷ zs) = lowest (min_of floats m z) zs

-- `infinity` is that of `double`; `rotate` multiplies a rotation with a vector.
module _ {Double Time Rotation : Type 0} (floats : Floats Double Time) (infinity : Double)
    (identity : Rotation) (rotate : Rotation → Vector Double → Vector Double) where
  origin_vector : Vector Double
  origin_vector = record { x = floats.zero_value; y = floats.zero_value; z = floats.zero_value }

  -- The frame of an obstacle's link, or of the base if it has none.
  pub obstacle_frame :
      BodyObstacle Double → Context Double Rotation → Option (Rotation × Vector Double)
  unfolding origin_vector link_index_from_name
  obstacle_frame obstacle context =
      if str_eq obstacle.link_name ""
      then some (identity, origin_vector)
      else (link_index_from_name obstacle.link_name >>= λ link_index.
          (get_elem? context.link_rotations link_index >>= λ rotation.
          (get_elem? context.link_positions link_index >>= λ origin. some (rotation, origin))))

  -- The middle of a box, or the centre of anything else, before it is turned into the world.
  local_center : BodyObstacle Double → Vector Double
  unfolding add_vectors
  local_center obstacle =
      if str_eq obstacle.type_name "box"
      then (let both = add_vectors floats obstacle.mins obstacle.maxs in
          record {
            x = floats.mul floats.half both.x;
            y = floats.mul floats.half both.y;
            z = floats.mul floats.half both.z;
          })
      else obstacle.center

  body_obstacle_center_world :
      BodyObstacle Double → Context Double Rotation → Option (Vector Double)
  unfolding link_index_from_name add_vectors local_center
  body_obstacle_center_world obstacle context =
      if not (str_eq obstacle.link_name "")
      then (link_index_from_name obstacle.link_name >>= λ link_index.
          (get_elem? context.link_rotations link_index >>= λ rotation.
          (get_elem? context.link_positions link_index >>= λ origin.
          some (add_vectors floats origin (rotate rotation (local_center obstacle))))))
      else some (local_center obstacle)

  pub body_obstacle_min_z_world : BodyObstacle Double → Context Double Rotation → Option Double
  unfolding body_obstacle_center_world obstacle_frame corners lowest add_vectors
  body_obstacle_min_z_world obstacle context =
      if str_eq obstacle.type_name "ball"
      then (body_obstacle_center_world obstacle context >>= λ center.
          some (floats.sub center.z obstacle.radius))
      else (obstacle_frame obstacle context >>= λ frame. some (
          lowest floats infinity (
            map (λ corner. (add_vectors floats frame.1 (rotate frame.0 corner)).z)
              (corners obstacle))))

  pub all_obstacle_z : List (BodyObstacle Double) → Context Double Rotation → Option (List Double)
  unfolding body_obstacle_min_z_world
  all_obstacle_z [] context = some []
  all_obstacle_z (obstacle ∷ obstacles) context = do
    z ← body_obstacle_min_z_world obstacle context
    rest ← all_obstacle_z obstacles context
    some (z ∷ rest)

  metrics_of : Context Double Rotation → List Double → FloorSafetyMetrics Double
  unfolding lowest
  metrics_of context obstacle_z = record {
    min_link_z = lowest floats infinity (map (λ p. p.z) context.link_positions);
    min_joint_z = lowest floats infinity (map (λ p. p.z) context.joint_origins);
    min_control_point_z =
        lowest floats infinity (map (λ c. floats.sub c.0.z c.1) context.control_points);
    min_body_obstacle_z = lowest floats infinity obstacle_z;
  }

  pub compute_floor_safety_metrics :
      List (BodyObstacle Double) → Context Double Rotation → Option (FloorSafetyMetrics Double)
  unfolding all_obstacle_z metrics_of
  compute_floor_safety_metrics obstacles context =
      all_obstacle_z obstacles context >>= λ obstacle_z. some (metrics_of context obstacle_z)

  metrics_below :
      FloorLimits Double → FloorSafetyMetrics Double → Vector Double → Vector Double → Bool
  metrics_below limits metrics link6 tcp_gripper =
      floats.lt metrics.min_link_z limits.workspace_floor_z
      || (floats.lt metrics.min_joint_z limits.workspace_floor_z
          || (floats.lt metrics.min_control_point_z limits.workspace_floor_z
              || (floats.lt metrics.min_body_obstacle_z limits.workspace_floor_z
                  || (floats.lt link6.z limits.min_link6_z
                      || floats.lt tcp_gripper.z limits.min_tcp_z))))

  -- The last part of `violates_min_z_safety`; the context has the links `LINK6` and `TCP_GRIPPER`.
  pub below_limits :
      FloorLimits Double → List (BodyObstacle Double) → Context Double Rotation → Option Bool
  unfolding compute_floor_safety_metrics metrics_below
  below_limits limits obstacles context =
      compute_floor_safety_metrics obstacles context >>= λ metrics.
      (get_elem? context.link_positions 8 >>= λ link6.
      (get_elem? context.link_positions 11 >>= λ tcp_gripper.
      some (metrics_below limits metrics link6 tcp_gripper)))
