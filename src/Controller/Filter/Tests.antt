-- ===== src/Controller/Filter/Tests.antt =====
-- src/rmpflow_controller_node.cpp: the theorems at a run of one joint; whole numbers stand for
-- doubles and for times.
use rmp_proximity_sensor.Common.{ℕ, refl, true, false, List, [], ◌∷◌, arith}
use rmp_proximity_sensor.Common.Floats.Whole.{floats}
use rmp_proximity_sensor.Controller.Filter.{Settings, Filter, FilterType}
use rmp_proximity_sensor.Controller.Filter.Window.{since_reset, Windowed, after-Windowed}
use rmp_proximity_sensor.Controller.Filter.Window

abbrev settings : Settings ℕ
settings = record {
  lowpass_alpha = 1;
  filter_type = FilterType.moving_average;
  alpha_beta_beta = 0;
  sync_multiple = 2;
  integer_ratio_aligned = true;
}

abbrev before_start : Filter ℕ ℕ
before_start = record {
  alpha_beta_initialized = false;
  alpha_beta_position = 0 ∷ [];
  initialized = false;
  output_initialized = false;
  accumulated_samples = 0;
  previous_position = 0 ∷ [];
  accumulated_velocity = 0 ∷ [];
  filtered_velocity = 0 ∷ [];
  previous_time = 0;
  accumulated_time_sec = 0;
}

-- Four samples, newest first.
abbrev older : List (List ℕ × ℕ)
older = (9 ∷ [], 12) ∷ (8 ∷ [], 11) ∷ (4 ∷ [], 10) ∷ []

after-Windowed_example :
    Windowed floats settings
      (9 ∷ [])
      13
      (since_reset floats settings 13 older)
      (Window.after floats settings before_start ((9 ∷ [], 13) ∷ older))
after-Windowed_example =
    after-Windowed floats settings before_start (9 ∷ []) 13 older (omega arith) refl
