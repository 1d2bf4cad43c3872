-- ===== src/RmpflowBridge.antt =====
-- src/rmpflow_bridge.cpp: the node that passes external goals to the controller and lets its joint
-- commands through while the RMP flag is up. The handlers run under one mutex, so a history is a
-- sequence of handler calls. A pose and a command array are opaque values, a clock is read once for
-- each call, and log lines are left out.
pub mod History
pub mod Safety
mod Tests
use rmp_proximity_sensor.Common.{
  ℕ, ◌+◌, ◌≡◌, Bool, true, false, not, ◌||◌, ◌&&◌, String, List, [], ◌∷◌, ◌++◌, if◌then◌else◌, ltb,
  ◌==◌,
}
use rmp_proximity_sensor.Common.Words.{ℤ, pos, negsuc}

-- The parameters that the handlers read; the delay is in the ticks of the steady clock.
pub record Config : Type 0 where
  pub forward_target_q : Bool
  pub goal_frame_id : String
  pub active_flag_value : ℤ
  pub command_forward_delay : ℕ

-- The two clocks: the node's, for stamps, and the steady one.
pub record Clock : Type 0 where
  pub stamp : ℕ
  pub steady : ℕ

pub record Bridge (Pose : Type 0) : Type 0 where
  pub command_forwarding_allowed_after : ℕ
  pub active : Bool
  pub goal_received : Bool
  pub command_forwarding_enabled : Bool
  pub last_flag_value_seen : Bool
  pub last_flag_value : ℕ
  pub latest_goal : Pose

pub data Output (Pose Command : Type 0) : Type 0 where
  goal_pose : ℕ → String → Pose → Output Pose Command
  target_q : Command → Output Pose Command

pub data Event (Pose Command : Type 0) : Type 0 where
  flag : ℕ → Event Pose Command
  goal : Pose → Event Pose Command
  command : Command → Event Pose Command

-- `static_cast<int>(msg->data) == active_flag_value_`
abbrev pub is_active_flag : ℕ → ℤ → Bool
is_active_flag v (pos n) = v == n
is_active_flag v (negsuc n) = false

abbrev eq_bool : Bool → Bool → Bool
eq_bool true b = b
eq_bool false b = not b

module _ {Pose : Type 0} where
  pub init : Pose → Bridge Pose
  init nowhere = record {
    command_forwarding_allowed_after = 0;
    active = false;
    goal_received = false;
    command_forwarding_enabled = false;
    last_flag_value_seen = false;
    last_flag_value = 0;
    latest_goal = nowhere;
  }

  -- The record of the last flag, kept for the log lines.
  remember_flag : ℕ → Bridge Pose → Bridge Pose
  remember_flag v b =
      if not b.last_flag_value_seen || not (v == b.last_flag_value)
      then record b { last_flag_value_seen = true; last_flag_value = v }
      else b

module _ {Pose Command : Type 0} where
  publish_external_goal_locked :
      Config → Clock → Bridge Pose → Bridge Pose × List (Output Pose Command)
  publish_external_goal_locked cfg now b = (
    record b {
      command_forwarding_enabled = true;
      command_forwarding_allowed_after = now.steady + cfg.command_forward_delay;
    },
    goal_pose now.stamp cfg.goal_frame_id b.latest_goal ∷ [],
  )

  -- What `on_flag` does once `active_` has changed.
  switched : Config → Clock → Bridge Pose → Bridge Pose × List (Output Pose Command)
  unfolding publish_external_goal_locked
  switched cfg now b =
      if not b.active
      then (record b { command_forwarding_enabled = false }, [])
      else (if not b.goal_received
          then (record b { command_forwarding_enabled = false }, [])
          else publish_external_goal_locked cfg now b)

  on_flag : Config → Clock → ℕ → Bridge Pose → Bridge Pose × List (Output Pose Command)
  unfolding remember_flag switched
  on_flag cfg now v b =
      let seen = remember_flag v b in
      let requested_active = is_active_flag v cfg.active_flag_value in
      if eq_bool requested_active seen.active
      then (seen, [])
      else switched cfg now (record seen { active = requested_active })

  on_goal : Config → Clock → Pose → Bridge Pose → Bridge Pose × List (Output Pose Command)
  unfolding publish_external_goal_locked
  on_goal cfg now p b =
      let got = record b { latest_goal = p; goal_received = true } in
      if not got.active then (got, []) else publish_external_goal_locked cfg now got

  -- `target_q_pub_` exists exactly when `forward_target_q_` holds.
  pub on_controller_command : Config → Clock → Command → Bridge Pose → List (Output Pose Command)
  on_controller_command cfg now c b =
      if not cfg.forward_target_q
      then []
      else (if not b.command_forwarding_enabled
          then []
          else (if ltb now.steady b.command_forwarding_allowed_after then [] else target_q c ∷ []))

  pub step :
      Config → Bridge Pose → Clock × Event Pose Command → Bridge Pose × List (Output Pose Command)
  unfolding on_flag on_goal on_controller_command
  step cfg b (now, flag v) = on_flag cfg now v b
  step cfg b (now, goal p) = on_goal cfg now p b
  step cfg b (now, command c) = (b, on_controller_command cfg now c b)

  -- The node's state after a history, which lists the newest call first.
  pub after : Config → Pose → List (Clock × Event Pose Command) → Bridge Pose
  after cfg nowhere [] = init nowhere
  after cfg nowhere (e ∷ older) = (step cfg (after cfg nowhere older) e).0

  -- All that it published, newest first.
  pub published : Config → Pose → List (Clock × Event Pose Command) → List (Output Pose Command)
  published cfg nowhere [] = []
  published cfg nowhere (e ∷ older) =
      (step cfg (after cfg nowhere older) e).1 ++ published cfg nowhere older
