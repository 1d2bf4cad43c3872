-- ===== src/ProximityObstacleBridge/Ticks/Inactive.antt =====
-- src/proximity_obstacle_bridge.cpp: a tick while the flag holds the node back.
use rmp_proximity_sensor.Common.{
  ◌≡◌, true, not, ◌&&◌, String, Option, some, [], ◌∷◌, arith, if◌then◌else◌,
}
use rmp_proximity_sensor.ProximityObstacleBridge.{Geometry, Settings, Sensors, delete_all}
use rmp_proximity_sensor.ProximityObstacleBridge.Ticks.{clear_obstacles_once, publish_obstacles}

module _ {Double Transform Point : Type 0} (geometry : Geometry Double Transform Point)
    (settings : Settings Double) (lookup : String → Option Transform) where
  -- The obstacles are cleared, unless that was done before.
  pub publish_obstacles_inactive :
      (s : Sensors Double)
      → settings.rmp_flag_gate_enabled && not s.rmp_active ≡ true
      → publish_obstacles geometry settings lookup s
        ≡ some (
          record s { obstacles_cleared_for_inactive = true },
          if s.obstacles_cleared_for_inactive then [] else delete_all ∷ [],
        )
  unfolding publish_obstacles clear_obstacles_once
  publish_obstacles_inactive s closed = ground arith
