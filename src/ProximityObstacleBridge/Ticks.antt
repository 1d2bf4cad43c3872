-- ===== src/ProximityObstacleBridge/Ticks.antt =====
-- src/proximity_obstacle_bridge.cpp: `publish_obstacles`, which the timer calls.
pub mod Justified
pub mod Inactive
use rmp_proximity_sensor.Common.{
  ℕ, zero, suc, ◌+◌, Bool, true, false, not, ◌&&◌, ◌||◌, String, Option, none, some, List, [], ◌∷◌,
  ◌++◌, length, get_elem?, if◌then◌else◌, ◌>>=◌,
}
use rmp_proximity_sensor.ProximityObstacleBridge.{
  Geometry, Range, Marker, delete, add, Published, delete_all, markers, Settings, Sensors,
  range_topic_enabled,
}

module _ {Double Transform Point : Type 0} (geometry : Geometry Double Transform Point)
    (settings : Settings Double) where
  pub range_is_usable : Range Double → Bool
  range_is_usable msg =
      if not (geometry.isfinite msg.range)
      then false
      else (if geometry.lt msg.range geometry.zero_m
          then false
          else geometry.lt msg.range (geometry.sub msg.max_range settings.valid_margin))

  pub effective_range_m : Range Double → Double
  effective_range_m msg =
      geometry.max (geometry.mul msg.range settings.range_scale) settings.minimum_hold_distance

  -- The marker of a sensor whose reading is usable and whose frame is known.
  pub marker_of_reading :
      ℕ → String → Double → Double → Range Double → Transform → Marker Double Point
  unfolding effective_range_m
  marker_of_reading index sensor_frame trigger_distance obstacle_radius range_msg transform =
      let range_m = effective_range_m range_msg in
      if geometry.lt trigger_distance range_m
      then delete index sensor_frame
      else add index sensor_frame (geometry.center transform (geometry.add range_m obstacle_radius))
          (geometry.mul obstacle_radius geometry.two)

  module _ (lookup_sensor_transform : String → Option Transform) where
    -- A reading that is there.
    pub marker_at_reading : ℕ → String → Range Double → Option (List (Marker Double Point))
    unfolding range_is_usable marker_of_reading
    marker_at_reading index sensor_frame range_msg =
        if not (range_is_usable range_msg)
        then some (delete index sensor_frame ∷ [])
        else elim (lookup_sensor_transform sensor_frame) [
          | none ↦ some []
          | some transform ↦ do
            trigger_distance ← get_elem? settings.trigger_distances index
            obstacle_radius ← get_elem? settings.obstacle_radii index
            some (
                marker_of_reading index sensor_frame trigger_distance obstacle_radius range_msg
                  transform
                ∷ [])
        ]

    -- A round of the loop in `publish_obstacles`.
    pub markers_at : Sensors Double → ℕ → Option (List (Marker Double Point))
    unfolding marker_at_reading
    markers_at s index = get_elem? settings.sensor_frames index >>= λ sensor_frame.
        if not (range_topic_enabled settings s index)
        then some (delete index sensor_frame ∷ [])
        else (get_elem? s.latest_ranges index >>= λ latest. elim latest [
          | none ↦ some (delete index sensor_frame ∷ [])
          | some range_msg ↦ marker_at_reading index sensor_frame range_msg
        ])

    -- The rounds from `index` on, `count` of them.
    pub markers_from : Sensors Double → ℕ → ℕ → Option (List (Marker Double Point))
    unfolding markers_at
    markers_from s zero index = some []
    markers_from s (suc count) index = do
      here ← markers_at s index
      rest ← markers_from s count (index + 1)
      some (here ++ rest)

    pub clear_obstacles_once : Sensors Double → Sensors Double × List (Published Double Point)
    clear_obstacles_once s =
        if s.obstacles_cleared_for_inactive
        then (s, [])
        else (record s { obstacles_cleared_for_inactive = true }, delete_all ∷ [])

    unfoldable pub publish_obstacles :
        Sensors Double → Option (Sensors Double × List (Published Double Point))
    unfolding markers_from clear_obstacles_once
    publish_obstacles s =
        if settings.rmp_flag_gate_enabled && not s.rmp_active
        then some (clear_obstacles_once s)
        else (markers_from s (length s.latest_ranges) 0 >>= λ all.
            some (record s { obstacles_cleared_for_inactive = false }, markers all ∷ []))
