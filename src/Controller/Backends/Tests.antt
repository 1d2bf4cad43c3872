-- ===== src/Controller/Backends/Tests.antt =====
-- src/rmpflow_controller_node.cpp: the theorems at messages; whole numbers stand for
-- doubles and for times.
use rmp_proximity_sensor.Common.{ℕ, ◌≡◌, refl, true, none, some, [], ◌∷◌, replicate}
use rmp_proximity_sensor.JointStateAdapter.{JointState}
use rmp_proximity_sensor.Controller.{RobotState}
use rmp_proximity_sensor.Controller.Backends.{apply_command_topics, joint_state_to_robot_state}
use rmp_proximity_sensor.Controller.Backends.Converted.{
  joint_values, state_of, joint_state_to_robot_state-joint_values,
}
use rmp_proximity_sensor.Controller.Backends.Newest.{newest_full, expected, after-expected}
use rmp_proximity_sensor.Controller.Backends.Newest

-- A velocity is missing.
abbrev full : JointState ℕ ℕ
full = record {
  header = 0;
  name = "wrist3" ∷ "wrist2" ∷ "wrist1" ∷ "elbow" ∷ "shoulder" ∷ "base" ∷ [];
  position = 1 ∷ 2 ∷ 3 ∷ 4 ∷ 5 ∷ 6 ∷ [];
  velocity = 7 ∷ 8 ∷ [];
  effort = [];
}

abbrev short : JointState ℕ ℕ
short = record full { position = 1 ∷ [] }

abbrev at_rest : RobotState ℕ
at_rest = record { q = replicate 6 0; qd = replicate 6 0 }

joint_state_to_robot_state-joint_values_example :
    joint_state_to_robot_state 0 full at_rest ≡ some (true, state_of 0 full (joint_values 0 full))
joint_state_to_robot_state-joint_values_example =
    joint_state_to_robot_state-joint_values 0 full at_rest refl refl

after-expected_example :
    (Newest.after 0 (replicate 6 3) (short ∷ full ∷ [])
      ≡ some (expected 0 (replicate 6 3) (newest_full (short ∷ full ∷ []))))
    × ((apply_command_topics at_rest
          (expected 0 (replicate 6 3) (newest_full (short ∷ full ∷ [])))).1
        ≡ elim (newest_full (short ∷ full ∷ [])) [ none ↦ [] | some msg ↦ at_rest.q ∷ [] ])
after-expected_example = after-expected 0 (replicate 6 3) (short ∷ full ∷ []) at_rest
