-- ===== src/RmpflowBridge/Safety.antt =====
-- src/rmpflow_bridge.cpp: what holds of every state that the handlers reach.
use rmp_proximity_sensor.Common.{◌≡◌, true, List, [], ◌∷◌, arith}
use rmp_proximity_sensor.RmpflowBridge.{
  Config, Clock, Bridge, Event, flag, goal, command, init, step, after,
}

-- Commands pass only while the bridge is active and has a goal, and from then on they do.
pub record IsGated {Pose : Type 0} (b : Bridge Pose) : Type 0 where
  pub only_active : b.command_forwarding_enabled ≡ true → b.active ≡ true
  pub only_with_goal : b.command_forwarding_enabled ≡ true → b.goal_received ≡ true
  pub released : b.active ≡ true → b.goal_received ≡ true → b.command_forwarding_enabled ≡ true

module _ {Pose Command : Type 0} (cfg : Config) where
  -- Each handler keeps the gate in step with the flag and the goal.
  pub step-IsGated :
      (b : Bridge Pose) (e : Clock × Event Pose Command) → IsGated b → IsGated (step cfg b e).0
  unfolding step
  step-IsGated b (now, flag v) g = ground arith
  step-IsGated b (now, goal p) g = ground arith
  step-IsGated b (now, command c) g = g

  -- After any history of flags, goals and commands, forwarding is enabled exactly when the bridge
  -- is active and has received a goal.
  pub after-IsGated :
      (nowhere : Pose) (h : List (Clock × Event Pose Command)) → IsGated (after cfg nowhere h)
  unfolding after init
  after-IsGated nowhere [] = ground arith
  after-IsGated nowhere (e ∷ older) =
      step-IsGated (after cfg nowhere older) e (after-IsGated nowhere older)
