-- ===== src/JointStateAdapter/Tests.antt =====
-- src/joint_state_adapter.cpp: the theorems at messages whose joints stand in another order.
use rmp_proximity_sensor.Common.{ℕ, ◌≡◌, refl, Option, some, List, [], ◌∷◌, String}
use rmp_proximity_sensor.JointStateAdapter.{
  Adapter, JointState, OrderedJointState, find, emplace, construct, try_reorder_by_names,
  on_joint_state,
}
use rmp_proximity_sensor.JointStateAdapter.Reordered.{Reordering, try_reorder_by_names-Reordering}
use rmp_proximity_sensor.JointStateAdapter.Published.{Publishes, on_joint_state-Publishes}

abbrev sources : List String
sources = "joint_1" ∷ "joint_2" ∷ []

abbrev targets : List String
targets = "base" ∷ "shoulder" ∷ []

abbrev adapter : Adapter
adapter = record {
  source_joint_names = sources;
  target_joint_names = targets;
  last_mapping_source = "";
}

construct_two : construct sources targets ≡ some adapter
unfolding construct
construct_two = refl

-- The joints in the wrong order, with a gripper in between.
abbrev swapped : JointState ℕ ℕ
swapped = record {
  header = 7;
  name = "joint_2" ∷ "gripper" ∷ "joint_1" ∷ [];
  position = 20 ∷ 5 ∷ 10 ∷ [];
  velocity = [];
  effort = 2 ∷ 0 ∷ 1 ∷ [];
}

run_swapped :
    on_joint_state adapter swapped
    ≡ some (
      record adapter { last_mapping_source = "source joint names" },
      some (record {
        header = 7;
        name = targets;
        position = 10 ∷ 20 ∷ [];
        velocity = [];
        effort = 1 ∷ 2 ∷ [];
      }),
    )
unfolding on_joint_state find emplace
run_swapped = refl

try_reorder_by_names-Reordering_example :
    (r : Option (OrderedJointState ℕ)) × (try_reorder_by_names swapped sources ≡ some r)
    × Reordering swapped sources r
try_reorder_by_names-Reordering_example = try_reorder_by_names-Reordering swapped sources

on_joint_state-Publishes_example :
    (a' : Adapter) × (out : Option (JointState ℕ ℕ)) × (on_joint_state adapter swapped
      ≡ some (a', out))
    × Publishes adapter swapped out
    × (a'.source_joint_names ≡ sources)
    × (a'.target_joint_names ≡ targets)
on_joint_state-Publishes_example = on_joint_state-Publishes adapter swapped refl
