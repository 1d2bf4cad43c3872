-- ===== src/ProximityObstacleBridge/Run.antt =====
-- src/proximity_obstacle_bridge.cpp: the construction of the node, and a run of it as a list of
-- callbacks. They run one at a time, in the executor's only thread.
pub mod Total
pub mod Inactive
mod Tests
use rmp_proximity_sensor.Common.{
  ℕ, ◌+◌, Bool, true, false, not, ◌&&◌, ◌||◌, String, Option, none, some, List, [], ◌∷◌, ◌++◌, ◌==◌,
  length, get_elem?, replicate, if◌then◌else◌, ◌>>=◌,
}
use rmp_proximity_sensor.Common.Words.{ℤ}
use rmp_proximity_sensor.ProximityObstacleBridge.{
  Geometry, Range, Published, Settings, Sensors, Parameter, refresh_range_subscriptions, on_range,
  on_rmp_flag, on_set_parameters,
}
use rmp_proximity_sensor.ProximityObstacleBridge.Ticks.{publish_obstacles}

-- The declared parameters.
pub record Parameters (Double : Type 0) : Type 0 where
  pub obstacle_radius : Double
  pub trigger_distance : Double
  pub valid_margin : Double
  pub range_scale : Double
  pub minimum_hold_distance : Double
  pub rmp_flag_gate_enabled : Bool
  pub rmp_active_flag_value : ℤ
  pub enable_proximity_distance_1_4 : Bool
  pub range_topics : List String
  pub sensor_frames : List String
  pub obstacle_radii : List Double
  pub trigger_distances : List Double
  pub sensor_enabled : List Bool

-- A tick of the timer has the frames as they are known then.
pub data Event (Double Transform : Type 0) : Type 0 where
  tick : (String → Option Transform) → Event Double Transform
  flag : ℕ → Event Double Transform
  range_message : ℕ → Range Double → Event Double Transform
  set_parameters : List Parameter → Event Double Transform

is_empty : {A : Type 0} → List A → Bool
is_empty [] = true
is_empty (x ∷ xs) = false

-- A list that is empty stands for the same value for each sensor.
or_all : {A : Type 0} → ℕ → A → List A → List A
or_all count a [] = replicate count a
or_all count a (x ∷ xs) = x ∷ xs

module _ {Double : Type 0} where
  -- The constructor throws unless these hold.
  pub sizes_match : Parameters Double → Bool
  unfolding is_empty
  sizes_match p =
      let sensors = length p.sensor_frames in
      (length p.range_topics == sensors)
      && ((is_empty p.obstacle_radii || length p.obstacle_radii == sensors)
          && ((is_empty p.trigger_distances || length p.trigger_distances == sensors)
              && (is_empty p.sensor_enabled || length p.sensor_enabled == sensors)))

module _ {Double Transform Point : Type 0} (geometry : Geometry Double Transform Point) where
  pub settings_of : Parameters Double → Settings Double
  unfolding or_all
  settings_of p =
      let sensors = length p.sensor_frames in
      record {
        valid_margin = p.valid_margin;
        range_scale = p.range_scale;
        minimum_hold_distance = geometry.max p.minimum_hold_distance geometry.zero_m;
        rmp_flag_gate_enabled = p.rmp_flag_gate_enabled;
        rmp_active_flag_value = p.rmp_active_flag_value;
        range_topics = p.range_topics;
        sensor_frames = p.sensor_frames;
        obstacle_radii = or_all sensors p.obstacle_radius p.obstacle_radii;
        trigger_distances = or_all sensors p.trigger_distance p.trigger_distances;
      }

  pub sensors_of : Parameters Double → Sensors Double
  unfolding or_all
  sensors_of p = record {
    rmp_active = not p.rmp_flag_gate_enabled;
    enable_proximity_distance_1_4 = p.enable_proximity_distance_1_4;
    obstacles_cleared_for_inactive = false;
    sensor_enabled = or_all (length p.sensor_frames) true p.sensor_enabled;
    latest_ranges = replicate (length p.range_topics) none;
    range_subs = replicate (length p.range_topics) false;
  }

  -- `some none` is the exception.
  pub construct : Parameters Double → Option (Option (Sensors Double))
  unfolding sizes_match settings_of sensors_of
  construct p =
      if not (sizes_match p)
      then some none
      else (refresh_range_subscriptions (settings_of p) (sensors_of p) >>= λ s. some (some s))

  module _ (settings : Settings Double) where
    -- A message is passed to the callback of its topic only while there is a subscription.
    receive : ℕ → Range Double → Option Bool → Sensors Double → Option (Sensors Double)
    receive index msg (some true) s = on_range settings index msg s
    receive index msg unsubscribed s = some s

    -- One callback.
    pub step :
        Event Double Transform
        → Sensors Double
        → Option (Sensors Double × List (Published Double Point))
    unfolding receive
    step (tick lookup) s = publish_obstacles geometry settings lookup s
    step (flag v) s = some (on_rmp_flag settings v s, [])
    step (range_message index msg) s =
        (receive index msg (get_elem? s.range_subs index) s >>= λ s'. some (s', []))
    step (set_parameters parameters) s =
        (on_set_parameters settings parameters s >>= λ r. some (r.0, []))

    -- All that was published, oldest first.
    pub run :
        List (Event Double Transform)
        → Sensors Double
        → Option (Sensors Double × List (Published Double Point))
    unfolding step
    run [] s = some (s, [])
    run (e ∷ events) s = do r ← step e s; rest ← run events r.0; some (rest.0, r.1 ++ rest.1)
