-- ===== src/ObstacleManager/Tests.antt =====
-- src/obstacle_manager.cpp: the theorem at a history of two obstacles; lengths are numbers.
use rmp_proximity_sensor.Common.{
  ℕ, ◌/◌, ◌≡◌, refl, true, false, String, Option, none, some, List, [], ◌∷◌, str_eq,
}
use rmp_proximity_sensor.Common.Words.{ℤ, pos}
use rmp_proximity_sensor.ObstacleManager.{
  Point, Obstacles, Event, marker, add, delete, feedback_message, eq_int, after_prefix, find, after,
  add_initial, assign,
}
use rmp_proximity_sensor.ObstacleManager.Latest.{latest, after-latest}

abbrev at_height : ℕ → Point ℕ
at_height h = record { x = 0; y = 0; z = h }

-- A reader of one-digit numbers.
abbrev stoi : String → Option ℤ
stoi s = elim (str_eq s "1") [
  | true ↦ some (pos 1)
  | false ↦ elim (str_eq s "2") [ true ↦ some (pos 2) | false ↦ none ]
]

abbrev half : ℕ → ℕ
half d = d / 2

-- Newest first: the first obstacle is dragged, the second one deleted.
abbrev history : List (Event ℕ)
history =
    feedback_message "obstacle_1" (at_height 9)
    ∷ marker delete (pos 2) (at_height 0) 0
    ∷ marker add (pos 2) (at_height 6) 20
    ∷ marker add (pos 1) (at_height 5) 10
    ∷ []

after-latest_example :
    (obstacles : Obstacles ℕ) × (after half stoi [] history ≡ some obstacles)
    × ((key : ℤ) → find key obstacles ≡ latest half stoi key [] history)
unfolding after_prefix
after-latest_example = after-latest half stoi [] history ((λ e. cc), (tt, (tt, (tt, tt))))

-- Three obstacles at the start: from the parameter, from the defaults and at the origin.
initial_obstacles :
    find (pos 0) (add_initial 0 (7 ∷ 8 ∷ 9 ∷ []) (at_height 1 ∷ at_height 2 ∷ []) 4 3 0 [])
    ≡ some (record { position = record { x = 7; y = 8; z = 9 }; radius = 4 })
unfolding add_initial find assign eq_int
initial_obstacles = refl
