-- ===== src/DirectBridge/Velocity.antt =====
-- src/rb10_direct_bridge_node.cpp: the two velocity estimators, the alpha-beta filter and the plain
-- difference.
use rmp_proximity_sensor.Common.{Bool, true, not, ◌||◌, List, map, zip_with, if◌then◌else◌}
use rmp_proximity_sensor.Common.Floats.{Floats}

pub record Gains (Double : Type 0) : Type 0 where
  pub use_velocity_filter : Bool
  pub alpha : Double
  pub beta : Double
  pub fallback_dt_sec : Double

-- The members of the filter that is in use, or of the node for the plain difference: the last
-- position, the last velocity (of the filter), and the time of both.
pub record Estimator (Double Time : Type 0) : Type 0 where
  pub initialized : Bool
  pub position : List Double
  pub velocity : List Double
  pub previous_time : Time

module _ {Double Time : Type 0} (floats : Floats Double Time) (gains : Gains Double) where
  zeros : List Double → List Double
  zeros values = map (λ v. floats.zero_value) values

  pub reset_velocity_estimator : List Double → Time → Estimator Double Time → Estimator Double Time
  unfolding zeros
  reset_velocity_estimator measured now e = record {
    initialized = true;
    position = measured;
    velocity = if gains.use_velocity_filter then zeros measured else e.velocity;
    previous_time = now;
  }

  -- `dt_sec <= 0.0 || dt_sec > 0.1`
  is_bad_dt : Double → Bool
  is_bad_dt dt_sec = floats.le dt_sec floats.zero_value || floats.lt floats.tenth dt_sec

  predicted_positions : Double → List Double → List Double → List Double
  predicted_positions dt_sec positions velocities =
      zip_with (λ p v. floats.add p (floats.mul v dt_sec)) positions velocities

  -- `AlphaBetaVelocityFilter::update`
  filter_update : List Double → Time → Estimator Double Time → Estimator Double Time × List Double
  unfolding zeros is_bad_dt predicted_positions
  filter_update measured now e =
      if not e.initialized
      then (
        record {
          initialized = true;
          position = measured;
          velocity = zeros measured;
          previous_time = now;
        },
        zeros measured,
      )
      else (let elapsed = floats.seconds now e.previous_time in
          let dt_sec = if is_bad_dt elapsed then gains.fallback_dt_sec else elapsed in
          let predicted = predicted_positions dt_sec e.position e.velocity in
          let residuals = zip_with floats.sub measured predicted in
          let filtered =
            zip_with (λ v r. floats.add v (floats.div (floats.mul gains.beta r) dt_sec)) e.velocity
              residuals in
          (
            record {
              initialized = true;
              position =
                  zip_with (λ p r. floats.add p (floats.mul gains.alpha r)) predicted residuals;
              velocity = filtered;
              previous_time = now;
            },
            filtered,
          ))

  plain_update : List Double → Time → Estimator Double Time → Estimator Double Time × List Double
  unfolding zeros is_bad_dt
  plain_update measured now e =
      let moved = record e { initialized = true; position = measured; previous_time = now } in
      let dt_sec = floats.seconds now e.previous_time in
      if not e.initialized
      then (moved, zeros measured)
      else (if is_bad_dt dt_sec
          then (moved, zeros measured)
          else (moved, zip_with (λ m p. floats.div (floats.sub m p) dt_sec) measured e.position))

  pub estimate_velocity :
      List Double → Time → Estimator Double Time → Estimator Double Time × List Double
  unfolding filter_update plain_update
  estimate_velocity measured now e =
      if gains.use_velocity_filter
      then filter_update measured now e
      else plain_update measured now e
