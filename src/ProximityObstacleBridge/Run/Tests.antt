-- ===== src/ProximityObstacleBridge/Run/Tests.antt =====
-- src/proximity_obstacle_bridge.cpp: the theorems at a node with two sensors; lengths are numbers.
use rmp_proximity_sensor.Common.{
  ℕ, zero, suc, ◌+◌, ◌-◌, ◌*◌, ◌<◌, max, ◌≡◌, refl, Bool, true, false, String, Option, none, some,
  List, [], ◌∷◌, ltb, All, arith,
}
use rmp_proximity_sensor.Common.Words.{pos}
use rmp_proximity_sensor.ProximityObstacleBridge.{
  on_rmp_flag, on_range, set, refresh_range_subscriptions, refresh_from, refresh_at, Geometry,
  Range, Marker, Published, delete_all, markers, delete, add, enable_1_4, Sensors,
  is_proximity_distance_1_4, range_topic_enabled, on_set_parameters,
}
use rmp_proximity_sensor.ProximityObstacleBridge.Ticks.{publish_obstacles}
use rmp_proximity_sensor.ProximityObstacleBridge.Ticks.Justified.{
  IsJustified, Deletes, publish_obstacles-IsJustified,
}
use rmp_proximity_sensor.ProximityObstacleBridge.Masked.{IsMasked, IsMaskedAt, IsAligned}
use rmp_proximity_sensor.ProximityObstacleBridge.Invariant.{IsConfigured}
use rmp_proximity_sensor.ProximityObstacleBridge.Run.{
  Parameters, Event, tick, flag, range_message, set_parameters, construct, settings_of, sizes_match,
  run,
}
use rmp_proximity_sensor.ProximityObstacleBridge.Run.Total.{run-IsMasked}
use rmp_proximity_sensor.ProximityObstacleBridge.Run.Inactive.{run_held_back}

abbrev geometry : Geometry ℕ ℕ ℕ
geometry = record {
  isfinite = λ x. true;
  lt = ltb;
  sub = ◌-◌;
  add = ◌+◌;
  mul = ◌*◌;
  max = max;
  zero_m = 0;
  two = 2;
  center = λ transform distance. transform + distance;
}

abbrev parameters : Parameters ℕ
parameters = record {
  obstacle_radius = 5;
  trigger_distance = 15;
  valid_margin = 1;
  range_scale = 1;
  minimum_hold_distance = 3;
  rmp_flag_gate_enabled = true;
  rmp_active_flag_value = pos 1;
  enable_proximity_distance_1_4 = true;
  range_topics = "/proximity_distance1" ∷ "proximity_distance7" ∷ [];
  sensor_frames = "link1" ∷ "link7" ∷ [];
  obstacle_radii = [];
  trigger_distances = 15 ∷ 20 ∷ [];
  sensor_enabled = [];
}

abbrev frames : String → Option ℕ
frames frame = some 100

abbrev reading : ℕ → Range ℕ
reading r = record { range = r; max_range = 40 }

-- Two readings, an obstacle each, and then the first sensor is switched off.
abbrev life : List (Event ℕ ℕ)
life =
    tick frames
    ∷ flag 1
    ∷ range_message 0 (reading 10)
    ∷ range_message 1 (reading 12)
    ∷ tick frames
    ∷ set_parameters (enable_1_4 false ∷ [])
    ∷ range_message 0 (reading 11)
    ∷ tick frames
    ∷ []

abbrev sensors : Bool → Bool → Option (Range ℕ) → Sensors ℕ
sensors active on first = record {
  rmp_active = active;
  enable_proximity_distance_1_4 = on;
  obstacles_cleared_for_inactive = false;
  sensor_enabled = true ∷ true ∷ [];
  latest_ranges = first ∷ some (reading 12) ∷ [];
  range_subs = on ∷ true ∷ [];
}

run-life :
    run geometry
      (settings_of geometry parameters)
      life
      (record (sensors false true none) { latest_ranges = none ∷ none ∷ [] })
    ≡ some (
      sensors true false none,
      delete_all
          ∷ markers (add 0 "link1" 115 10 ∷ add 1 "link7" 117 10 ∷ [])
          ∷ markers (delete 0 "link1" ∷ add 1 "link7" 117 10 ∷ [])
          ∷ [],
    )
unfolding run settings_of publish_obstacles is_proximity_distance_1_4 on_rmp_flag on_range set
    range_topic_enabled on_set_parameters refresh_range_subscriptions refresh_from refresh_at
run-life = refl

configured : IsConfigured (settings_of geometry parameters)
unfolding settings_of
configured = record { frames_aligned = refl; radii_aligned = refl; triggers_aligned = refl }

busy-IsAligned : IsAligned (settings_of geometry parameters) (sensors true false none)
unfolding settings_of
busy-IsAligned = record { ranges_aligned = refl; subs_aligned = refl; enabled_aligned = refl }

run-IsMasked_example :
    (s : Sensors ℕ) × (s' : Sensors ℕ) × (out : List (Published ℕ ℕ)) × (construct geometry
        parameters
      ≡ some (some s))
    × (run geometry (settings_of geometry parameters) life s ≡ some (s', out))
    × IsMasked (settings_of geometry parameters) s'
unfolding sizes_match
run-IsMasked_example = run-IsMasked geometry parameters life refl

busy-IsMasked : IsMasked (settings_of geometry parameters) (sensors true false none)
unfolding settings_of range_topic_enabled is_proximity_distance_1_4
busy-IsMasked = record { aligned = busy-IsAligned; masked = at_sensor }
  where
    at_sensor :
        (i : ℕ) → i < 2 → IsMaskedAt (settings_of geometry parameters) (sensors true false none) i
    at_sensor zero h = record { subscribed = refl; no_reading = λ off. refl }
    at_sensor (suc zero) h = record { subscribed = refl; no_reading = λ off. cc }
    at_sensor (suc (suc i)) h = absurd (omega arith)

publish_obstacles-IsJustified_example :
    let settings = settings_of geometry parameters in
    let s = sensors true false none in
    (all : List (Marker ℕ ℕ)) × (publish_obstacles geometry settings frames s
      ≡ some (s, markers all ∷ []))
    × All (IsJustified geometry settings frames s) all
    × ((i : ℕ)
        → i < 2
        → range_topic_enabled settings s i ≡ false
        → Deletes geometry settings frames s configured busy-IsAligned all i)
unfolding settings_of
publish_obstacles-IsJustified_example =
    publish_obstacles-IsJustified geometry (settings_of geometry parameters) frames
      (sensors true false none) configured busy-IsAligned refl

run_held_back_example :
    (s' : Sensors ℕ) × (run geometry
        (settings_of geometry parameters)
        (flag 0 ∷ tick frames ∷ range_message 1 (reading 9) ∷ tick frames ∷ [])
        (sensors true false none)
      ≡ some (s', delete_all ∷ []))
unfolding settings_of
run_held_back_example =
    run_held_back geometry (settings_of geometry parameters) 0
      (tick frames ∷ range_message 1 (reading 9) ∷ tick frames ∷ []) (sensors true false none)
      busy-IsMasked refl refl (omega arith)
