-- ===== src/ProximityObstacleBridge.antt =====
-- src/proximity_obstacle_bridge.cpp: the node that turns the readings of the proximity sensors into
-- obstacle markers. Operations on a `double` and on frames are a parameter; log lines are left out.
-- `none` stands for an access outside an array, which C++ leaves undefined.
pub mod Ticks
pub mod Run
pub mod Masked
pub mod Invariant
use Prim.Native.Char.{code}
use rmp_proximity_sensor.Common.{
  ℕ, zero, suc, ◌+◌, Bool, true, false, not, ◌&&◌, ◌||◌, String, Option, none, some, List, [], ◌∷◌,
  ◌++◌, ◌==◌, length, get_elem?, replicate, if◌then◌else◌, ◌>>=◌, str_eq,
}
use rmp_proximity_sensor.Common.Words.{ℤ, pos, negsuc}

-- What is used of `double`, of Eigen and of the transform buffer: `center` is the point at a distance
-- along the first axis of a sensor's frame.
pub record Geometry (Double Transform Point : Type 0) : Type 0 where
  pub isfinite : Double → Bool
  pub lt : Double → Double → Bool
  pub sub : Double → Double → Double
  pub add : Double → Double → Double
  pub mul : Double → Double → Double
  pub max : Double → Double → Double
  pub zero_m : Double
  pub two : Double
  pub center : Transform → Double → Point

pub record Range (Double : Type 0) : Type 0 where
  pub range : Double
  pub max_range : Double

pub data Marker (Double Point : Type 0) : Type 0 where
  delete : ℕ → String → Marker Double Point
  add : ℕ → String → Point → Double → Marker Double Point

pub data Published (Double Point : Type 0) : Type 0 where
  delete_all : Published Double Point
  markers : List (Marker Double Point) → Published Double Point

-- The parameters that stay as they are.
pub record Settings (Double : Type 0) : Type 0 where
  pub valid_margin : Double
  pub range_scale : Double
  pub minimum_hold_distance : Double
  pub rmp_flag_gate_enabled : Bool
  pub rmp_active_flag_value : ℤ
  pub range_topics : List String
  pub sensor_frames : List String
  pub obstacle_radii : List Double
  pub trigger_distances : List Double

-- `range_subs` says for each topic whether there is a subscription.
pub record Sensors (Double : Type 0) : Type 0 where
  pub rmp_active : Bool
  pub enable_proximity_distance_1_4 : Bool
  pub obstacles_cleared_for_inactive : Bool
  pub sensor_enabled : List Bool
  pub latest_ranges : List (Option (Range Double))
  pub range_subs : List Bool

-- A parameter that is set; the two that the node looks at have a type each.
pub data Parameter : Type 0 where
  enable_1_4 : Bool → Parameter
  enable_1_4_of_other_type : Parameter
  enabled_list : List Bool → Parameter
  enabled_list_of_other_type : Parameter
  other_parameter : Parameter

-- `static_cast<int>(msg->data) == rmp_active_flag_value_`
abbrev is_active_flag : ℕ → ℤ → Bool
is_active_flag v (pos n) = v == n
is_active_flag v (negsuc n) = false

pub set {ℓ} : {A : Type ℓ} → List A → ℕ → A → Option (List A)
set [] i a = none
set (x ∷ xs) zero a = some (a ∷ xs)
set (x ∷ xs) (suc i) a = (set xs i a >>= λ rest. some (x ∷ rest))

without_slash : String → String
without_slash String.[] = String.[]
without_slash (String.◌∷◌ c s) = if code c == 47 then s else String.◌∷◌ c s

pub is_proximity_distance_1_4 : String → Bool
unfolding without_slash
is_proximity_distance_1_4 topic =
    let normalized_topic = without_slash topic in
    str_eq normalized_topic "proximity_distance1"
    || (str_eq normalized_topic "proximity_distance2"
        || (str_eq normalized_topic "proximity_distance3"
            || str_eq normalized_topic "proximity_distance4"))

module _ {Double : Type 0} (settings : Settings Double) where
  topic_enabled : Bool → Option String → Option Bool → Bool
  topic_enabled all (some topic) (some true) = not (not all && is_proximity_distance_1_4 topic)
  topic_enabled all topic enabled = false

  pub range_topic_enabled : Sensors Double → ℕ → Bool
  unfolding topic_enabled
  range_topic_enabled s index =
      topic_enabled s.enable_proximity_distance_1_4 (get_elem? settings.range_topics index)
        (get_elem? s.sensor_enabled index)

  -- A round of `refresh_range_subscriptions`.
  pub refresh_at : ℕ → Sensors Double → Option (Sensors Double)
  refresh_at index s =
      if not (range_topic_enabled s index)
      then (do
        ranges ← set s.latest_ranges index none
        subs ← set s.range_subs index false
        some (record s { latest_ranges = ranges; range_subs = subs }))
      else (get_elem? s.range_subs index >>= λ subscribed.
          if subscribed
          then some s
          else (set s.range_subs index true >>= λ subs. some (record s { range_subs = subs })))

  -- The rounds from `index` on, `count` of them.
  pub refresh_from : ℕ → ℕ → Sensors Double → Option (Sensors Double)
  refresh_from zero index s = some s
  refresh_from (suc count) index s =
      (refresh_at index s >>= λ s'. refresh_from count (index + 1) s')

  pub refresh_range_subscriptions : Sensors Double → Option (Sensors Double)
  refresh_range_subscriptions s = refresh_from (length settings.range_topics) 0 s

  -- The callback of a subscription.
  pub on_range : ℕ → Range Double → Sensors Double → Option (Sensors Double)
  on_range index msg s =
      (set s.latest_ranges index (some msg) >>= λ ranges.
      some (record s { latest_ranges = ranges }))

  pub on_rmp_flag : ℕ → Sensors Double → Sensors Double
  on_rmp_flag v s =
      let requested_active = is_active_flag v settings.rmp_active_flag_value in
      if not requested_active
      then record s { rmp_active = false; obstacles_cleared_for_inactive = false }
      else record s { rmp_active = true }

  -- The Boolean is the member `successful` of the result.
  pub on_set_parameters : List Parameter → Sensors Double → Option (Sensors Double × Bool)
  on_set_parameters [] s = some (s, true)
  on_set_parameters (other_parameter ∷ parameters) s = on_set_parameters parameters s
  on_set_parameters (enable_1_4_of_other_type ∷ parameters) s = some (s, false)
  on_set_parameters (enabled_list_of_other_type ∷ parameters) s = some (s, false)
  on_set_parameters (enable_1_4 b ∷ parameters) s =
      (refresh_range_subscriptions (record s { enable_proximity_distance_1_4 = b }) >>= λ s'.
      on_set_parameters parameters s')
  on_set_parameters (enabled_list next_sensor_enabled ∷ parameters) s =
      elim (length next_sensor_enabled == length settings.range_topics) [
        | false ↦ some (s, false)
        | true ↦
            (refresh_range_subscriptions (record s { sensor_enabled = next_sensor_enabled })
              >>= λ s'. on_set_parameters parameters s')
      ]
