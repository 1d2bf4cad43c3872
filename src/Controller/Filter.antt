-- ===== src/Controller/Filter.antt =====
-- src/rmpflow_controller_node.cpp: `SynchronizedVelocityFilter`, which turns the velocities of several
-- fast samples into one for each round of the control loop. Vectors are lists of doubles.
pub mod Window
mod Tests
use rmp_proximity_sensor.Common.{
  ℕ, ◌+◌, Bool, true, false, not, ◌&&◌, ◌||◌, String, List, [], ◌∷◌, leb, max, length,
  if◌then◌else◌, str_eq,
}
use rmp_proximity_sensor.Common.Floats.{
  Floats, max_of, clamp, zeros, plus, minus, scaled, divided, blended,
}

pub data FilterType : Type 0 where
  moving_average alpha_beta : FilterType

pub parse_filter_type : String → FilterType
parse_filter_type filter_type =
    if str_eq filter_type "alphabeta"
      || (str_eq filter_type "alpha-beta" || str_eq filter_type "alpha_beta")
    then alpha_beta
    else moving_average

-- The members that the constructor sets.
pub record Settings (Double : Type 0) : Type 0 where
  pub lowpass_alpha : Double
  pub filter_type : FilterType
  pub alpha_beta_beta : Double
  pub sync_multiple : ℕ
  pub integer_ratio_aligned : Bool

-- The members that change.
pub record Filter (Double Time : Type 0) : Type 0 where
  pub alpha_beta_initialized : Bool
  pub alpha_beta_position : List Double
  pub initialized : Bool
  pub output_initialized : Bool
  pub accumulated_samples : ℕ
  pub previous_position : List Double
  pub accumulated_velocity : List Double
  pub filtered_velocity : List Double
  pub previous_time : Time
  pub accumulated_time_sec : Double

module _ {Double Time : Type 0} (floats : Floats Double Time) where
  -- `rounded` is `std::lround`, `truncated` the cast to `int`.
  pub construct : Double → Double → Double → Double → FilterType → Double → Settings Double
  construct input_rate_hz output_rate_hz lowpass_alpha ratio_tolerance filter_type beta =
      let raw_ratio =
        floats.div (max_of floats input_rate_hz floats.one)
          (max_of floats output_rate_hz floats.one) in
      let rounded_ratio = floats.round raw_ratio in
      let aligned =
        floats.le floats.one rounded_ratio
        && floats.le (floats.fabs (floats.sub raw_ratio rounded_ratio))
            (max_of floats ratio_tolerance floats.zero_value) in
      record {
        lowpass_alpha = clamp floats lowpass_alpha floats.zero_value floats.one;
        filter_type = filter_type;
        alpha_beta_beta = clamp floats beta floats.zero_value floats.one;
        sync_multiple =
            if aligned
            then floats.truncated rounded_ratio
            else max 1 (floats.rounded (max_of floats raw_ratio floats.one));
        integer_ratio_aligned = aligned;
      }

  pub reset : List Double → Time → Filter Double Time
  reset position now = record {
    alpha_beta_initialized = false;
    alpha_beta_position = zeros floats position;
    initialized = true;
    output_initialized = false;
    accumulated_samples = 0;
    previous_position = position;
    accumulated_velocity = zeros floats position;
    filtered_velocity = zeros floats position;
    previous_time = now;
    accumulated_time_sec = floats.zero_value;
  }

  -- `dt_sec <= epsilon || dt_sec > 0.1`
  pub is_bad_dt : Double → Bool
  is_bad_dt dt_sec = floats.le dt_sec floats.epsilon || floats.lt floats.tenth dt_sec

  pub accumulate : List Double → Time → Double → Filter Double Time → Filter Double Time
  accumulate position now dt_sec f =
      let raw_velocity = divided floats (minus floats position f.previous_position) dt_sec in
      record f {
        previous_position = position;
        previous_time = now;
        accumulated_velocity = plus floats f.accumulated_velocity raw_velocity;
        accumulated_time_sec = floats.add f.accumulated_time_sec dt_sec;
        accumulated_samples = f.accumulated_samples + 1;
      }

  -- The new velocity at the end of a window.
  filter_window : Settings Double → List Double → Filter Double Time → Filter Double Time
  filter_window s position f =
      let measured_velocity =
        divided floats f.accumulated_velocity (floats.of_int f.accumulated_samples) in
      let synced_dt_sec = max_of floats f.accumulated_time_sec floats.epsilon in
      elim s.filter_type [
        | alpha_beta ↦
            if not f.alpha_beta_initialized
            then record f {
              alpha_beta_position = position;
              filtered_velocity = measured_velocity;
              alpha_beta_initialized = true;
            }
            else (let predicted_position =
                  plus floats f.alpha_beta_position
                    (scaled floats synced_dt_sec f.filtered_velocity) in
                let residual = minus floats position predicted_position in
                record f {
                  alpha_beta_position =
                      plus floats predicted_position (scaled floats s.lowpass_alpha residual);
                  filtered_velocity =
                      plus floats f.filtered_velocity
                        (divided floats (scaled floats s.alpha_beta_beta residual) synced_dt_sec);
                })
        | moving_average ↦
            if not f.output_initialized
            then record f { filtered_velocity = measured_velocity }
            else record f {
              filtered_velocity =
                  blended floats s.lowpass_alpha measured_velocity f.filtered_velocity;
            }
      ]

  pub end_window : Settings Double → List Double → Filter Double Time → Filter Double Time
  unfolding filter_window
  end_window s position f =
      let filtered = filter_window s position f in
      record filtered {
        output_initialized = true;
        accumulated_velocity = zeros floats position;
        accumulated_time_sec = floats.zero_value;
        accumulated_samples = 0;
      }

  pub output : List Double → Filter Double Time → List Double
  output position f =
      if not f.output_initialized then zeros floats position else f.filtered_velocity

  pub update :
      Settings Double → List Double → Time → Filter Double Time → Filter Double Time × List Double
  unfolding accumulate end_window output
  update s position now f =
      let dt_sec = floats.seconds now f.previous_time in
      if not f.initialized
      then (reset position now, zeros floats position)
      else (if is_bad_dt dt_sec
          then (reset position now, zeros floats position)
          else (let more = accumulate position now dt_sec f in
              let next =
                if leb s.sync_multiple more.accumulated_samples
                then end_window s position more
                else more in
              (next, output position next)))
