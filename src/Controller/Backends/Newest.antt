-- ===== src/Controller/Backends/Newest.antt =====
-- src/rmpflow_controller_node.cpp: what the backends that listen to joint states have read.
use rmp_proximity_sensor.Common.{
  ◌>>=◌, ◌≡◌, refl, inl, inr, true, false, Option, none, some, List, [], ◌∷◌, ltb, length,
  if◌then◌else◌, Bool-cases, replicate,
}
use rmp_proximity_sensor.JointStateAdapter.{JointState}
use rmp_proximity_sensor.Controller.{RobotState}
use rmp_proximity_sensor.Controller.Backends.{
  Subscriber, initial_state, on_state, apply_command_topics,
}
use rmp_proximity_sensor.Controller.Backends.Converted.{
  joint_values, joint_state_to_robot_state-joint_values, state_of,
}

-- The newest message with a position for each joint.
pub newest_full :
    {Header Double : Type 0} → List (JointState Header Double) → Option (JointState Header Double)
newest_full [] = none
newest_full (msg ∷ older) = if ltb (length msg.position) 6 then newest_full older else some msg

module _ {Header Double : Type 0} (zero_value : Double) (initial_q : List Double) where
  -- The backend after messages, newest first.
  pub after : List (JointState Header Double) → Option (Subscriber Double)
  unfolding on_state
  after [] = some (initial_state zero_value initial_q)
  after (msg ∷ older) = (after older >>= on_state zero_value msg)

  pub expected : Option (JointState Header Double) → Subscriber Double
  expected none = record {
    state_buffer = record { q = initial_q; qd = replicate 6 zero_value };
    state_received = false;
  }
  expected (some msg) = record {
    state_buffer = state_of zero_value msg (joint_values zero_value msg);
    state_received = true;
  }

  on_state-expected :
      (msg : JointState Header Double) (s : Subscriber Double)
      → on_state zero_value msg s
        ≡ some (if ltb (length msg.position) 6 then s else expected (some msg))
  unfolding on_state expected
  on_state-expected msg s =
      rw
        (joint_state_to_robot_state-joint_values zero_value msg
          (record { q = replicate 6 zero_value; qd = replicate 6 zero_value }) refl refl)
        (elim (Bool-cases (ltb (length msg.position) 6)) [
          | inl few ↦ rw few refl
          | inr enough ↦ rw enough refl
        ])

  after-newest :
      (msgs : List (JointState Header Double)) → after msgs ≡ some (expected (newest_full msgs))
  unfolding after newest_full expected initial_state
  after-newest [] = refl
  after-newest (msg ∷ older) =
      rw (after-newest older, on_state-expected msg)
        (elim (Bool-cases (ltb (length msg.position) 6)) [
          | inl few ↦ rw few refl
          | inr enough ↦ rw enough refl
        ])

  -- No history of joint states makes a backend read outside an array, and after it the backend holds
  -- the values, found by names or in order, of the newest message with a position for each joint;
  -- without such a message it holds the initial position at rest, and the one that waits for a state
  -- is not ready and sends no command.
  pub after-expected :
      (msgs : List (JointState Header Double)) (command_state : RobotState Double)
      → (after msgs ≡ some (expected (newest_full msgs)))
        × ((apply_command_topics command_state (expected (newest_full msgs))).1
            ≡ elim (newest_full msgs) [ none ↦ [] | some msg ↦ command_state.q ∷ [] ])
  unfolding expected apply_command_topics
  after-expected msgs command_state = (after-newest msgs, sent (newest_full msgs))
    where
      sent :
          (o : Option (JointState Header Double))
          → (apply_command_topics command_state (expected o)).1
            ≡ elim o [ none ↦ [] | some msg ↦ command_state.q ∷ [] ]
      sent none = refl
      sent (some msg) = refl
