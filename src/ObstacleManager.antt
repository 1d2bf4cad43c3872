-- ===== src/ObstacleManager.antt =====
-- src/obstacle_manager.cpp: the node that keeps the obstacles which are added, deleted and dragged
-- about. A `double` is opaque. The map of the obstacles is the list of its entries; the markers of the
-- interactive server and all colours and controls are left out. The reading of an `int` from a
-- text is a parameter; `none` is its exception.
pub mod Latest
mod Tests
use rmp_proximity_sensor.Common.{
  ℕ, zero, suc, ◌+◌, ◌*◌, Bool, true, false, String, Option, none, some, List, [], ◌∷◌, ◌++◌, ◌==◌,
  length, get_elem?, if◌then◌else◌, ◌>>=◌, str_eq,
}
use rmp_proximity_sensor.Common.Words.{ℤ, pos, negsuc}
use Prim.Native.Char.{code}

pub record Point (Double : Type 0) : Type 0 where
  pub x : Double
  pub y : Double
  pub z : Double

pub record ObstacleData (Double : Type 0) : Type 0 where
  pub position : Point Double
  pub radius : Double

abbrev pub Obstacles : Type 0 → Type 0
Obstacles Double = List (ℤ × ObstacleData Double)

-- The action of a marker that comes in.
pub data Action : Type 0 where
  add delete other_action : Action

pub data Event (Double : Type 0) : Type 0 where
  marker : Action → ℤ → Point Double → Double → Event Double
  feedback_message : String → Point Double → Event Double

pub eq_int : ℤ → ℤ → Bool
eq_int (pos a) (pos b) = a == b
eq_int (negsuc a) (negsuc b) = a == b
eq_int _ _ = false

-- The text behind a prefix.
pub after_prefix : String → String → Option String
after_prefix String.[] s = some s
after_prefix (String.◌∷◌ p ps) String.[] = none
after_prefix (String.◌∷◌ p ps) (String.◌∷◌ c s) = elim (code p == code c) [
  | true ↦ after_prefix ps s
  | false ↦ none
]

module _ {Double : Type 0} where
  pub find : ℤ → Obstacles Double → Option (ObstacleData Double)
  find id [] = none
  find id ((i, o) ∷ obstacles) = elim (eq_int i id) [ true ↦ some o | false ↦ find id obstacles ]

  -- `obstacles_[id] = data`
  pub assign : ℤ → ObstacleData Double → Obstacles Double → Obstacles Double
  assign id data_ [] = (id, data_) ∷ []
  assign id data_ ((i, o) ∷ obstacles) = elim (eq_int i id) [
    | true ↦ (i, data_) ∷ obstacles
    | false ↦ (i, o) ∷ assign id data_ obstacles
  ]

  pub erase : ℤ → Obstacles Double → Obstacles Double
  erase id [] = []
  erase id ((i, o) ∷ obstacles) = elim (eq_int i id) [
    | true ↦ erase id obstacles
    | false ↦ (i, o) ∷ erase id obstacles
  ]

  pub add_obstacle : ℤ → Point Double → Double → Obstacles Double → Obstacles Double
  unfolding assign
  add_obstacle id at_point r obstacles =
      assign id (record { position = at_point; radius = r }) obstacles

  -- The obstacle is moved if it is there.
  move_to : Point Double → Obstacles Double → ℤ → Option (ObstacleData Double) → Obstacles Double
  unfolding assign
  move_to at_point obstacles id none = obstacles
  move_to at_point obstacles id (some o) = assign id (record o { position = at_point }) obstacles

module _ {Double : Type 0} (half : Double → Double) (stoi : String → Option ℤ) where
  pub on_add_obstacle : Action → ℤ → Point Double → Double → Obstacles Double → Obstacles Double
  unfolding add_obstacle erase
  on_add_obstacle add id at_point scale_x obstacles =
      add_obstacle id at_point (half scale_x) obstacles
  on_add_obstacle delete id at_point scale_x obstacles = erase id obstacles
  on_add_obstacle other_action id at_point scale_x obstacles = obstacles

  -- `none` is the exception of `std::stoi`.
  pub feedback : String → Point Double → Obstacles Double → Option (Obstacles Double)
  feedback name at_point obstacles = elim (after_prefix "obstacle_" name) [
    | none ↦ some obstacles
    | some digits ↦ (stoi digits >>= λ id. some (move_to at_point obstacles id (find id obstacles)))
  ]

  pub step : Event Double → Obstacles Double → Option (Obstacles Double)
  unfolding on_add_obstacle feedback
  step (marker action id at_point scale_x) obstacles =
      some (on_add_obstacle action id at_point scale_x obstacles)
  step (feedback_message name at_point) obstacles = feedback name at_point obstacles

  -- A history, newest first.
  pub after : Obstacles Double → List (Event Double) → Option (Obstacles Double)
  unfolding step
  after start [] = some start
  after start (e ∷ older) = (after start older >>= step e)

-- The array of spheres that is published: number, position and diameter of each.
pub publish_obstacles :
    {Double : Type 0} → (Double → Double) → Obstacles Double → List (ℤ × (Point Double × Double))
publish_obstacles twice [] = []
publish_obstacles twice ((id, o) ∷ obstacles) =
    (id, (o.position, twice o.radius)) ∷ publish_obstacles twice obstacles

-- The loop in the constructor over the first obstacles; `zero_value` is 0.0.
module _ {Double : Type 0} (zero_value : Double) where
  initial_position : List Double → List (Point Double) → ℕ → Point Double
  initial_position configured_positions defaults index =
      let base = index * 3 in
      let fallback : Point Double = elim (get_elem? defaults index) [
        | none ↦ record { x = zero_value; y = zero_value; z = zero_value }
        | some p ↦ p
      ] in
      elim (get_elem? configured_positions (base + 2)) [
        | none ↦ fallback
        | some c ↦ elim (get_elem? configured_positions base) [
          | none ↦ fallback
          | some a ↦ elim (get_elem? configured_positions (base + 1)) [
            | none ↦ fallback
            | some b ↦ record { x = a; y = b; z = c }
          ]
        ]
      ]

  pub add_initial :
      List Double → List (Point Double) → Double → ℕ → ℕ → Obstacles Double → Obstacles Double
  unfolding initial_position add_obstacle
  add_initial configured_positions defaults r zero index obstacles = obstacles
  add_initial configured_positions defaults r (suc count) index obstacles =
      add_initial configured_positions defaults r count (index + 1) (
        add_obstacle (pos index) (initial_position configured_positions defaults index) r obstacles)
