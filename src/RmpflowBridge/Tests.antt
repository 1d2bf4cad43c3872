-- ===== src/RmpflowBridge/Tests.antt =====
-- src/rmpflow_bridge.cpp: a run of the bridge, and the theorems at it.
use rmp_proximity_sensor.Common.{ℕ, ◌≡◌, refl, true, List, [], ◌∷◌, some}
use rmp_proximity_sensor.Common.Words.{pos}
use rmp_proximity_sensor.RmpflowBridge.{
  Config, Clock, Event, flag, goal, command, target_q, goal_pose, init, on_controller_command, step,
  after, published,
}
use rmp_proximity_sensor.RmpflowBridge.Safety.{IsGated, after-IsGated}
use rmp_proximity_sensor.RmpflowBridge.History.{
  on_controller_command-after, newest_goal_pose, newest-published,
}

abbrev cfg : Config
cfg = record {
  forward_target_q = true;
  goal_frame_id = "base_link";
  active_flag_value = pos 1;
  command_forward_delay = 100;
}

abbrev at : ℕ → Clock
at t = record { stamp = t; steady = t }

-- A goal, the flag, a command that comes too early and one that passes; newest first.
abbrev life : List (Clock × Event ℕ ℕ)
life = (at 200, command 8) ∷ (at 60, command 7) ∷ (at 50, flag 1) ∷ (at 10, goal 5) ∷ []

published-life : published cfg 0 life ≡ target_q 8 ∷ goal_pose 50 "base_link" 5 ∷ []
unfolding published after init step
published-life = refl

after-IsGated_example : IsGated (after cfg 0 life)
after-IsGated_example = after-IsGated cfg 0 life

on_controller_command-after_example :
    on_controller_command {Command = ℕ} cfg (at 149) 9 (after cfg 0 life) ≡ []
on_controller_command-after_example = on_controller_command-after cfg 0 life (at 149) 9

newest-published_example : newest_goal_pose (published cfg 0 life) ≡ some 5
newest-published_example = newest-published cfg 0 life 5 refl refl
