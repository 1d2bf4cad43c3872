-- ===== src/ObstacleManager/Latest.antt =====
-- src/obstacle_manager.cpp against its history: what the last events said of each obstacle.
use rmp_proximity_sensor.Common.{
  ◌>>=◌, ◌≡◌, ◌≢◌, ◌↔◌, refl, sym, ap, ◌∙◌, inl, inr, true, false, String, Option, none, some, List,
  [], ◌∷◌, arith, All, if◌then◌else◌, Bool-cases, Option-cases,
}
use rmp_proximity_sensor.Common.Words.{ℤ, pos, negsuc}
use rmp_proximity_sensor.ObstacleManager.{
  Point, ObstacleData, Obstacles, add, delete, other_action, Event, marker, feedback_message,
  eq_int, after_prefix, find, assign, erase, add_obstacle, move_to, on_add_obstacle, feedback, step,
  after,
}

eq_int_iff : (a b : ℤ) → (eq_int a b ≡ true) ↔ (a ≡ b)
unfolding eq_int
eq_int_iff (pos a) (pos b) = ground arith
eq_int_iff (negsuc a) (negsuc b) = ground arith
eq_int_iff (pos a) (negsuc b) = (λ e. cc, λ e. cc)
eq_int_iff (negsuc a) (pos b) = (λ e. cc, λ e. cc)

eq_int_same : (i id key : ℤ) → eq_int i id ≡ true → eq_int i key ≡ eq_int id key
eq_int_same i id key e = ap (λ j. eq_int j key) ((eq_int_iff i id).0 e)

eq_int_other : (i id key : ℤ) → eq_int i id ≡ false → eq_int i key ≡ true → eq_int id key ≡ false
eq_int_other i id key e k =
    let same : i ≡ key = (eq_int_iff i key).0 k in
    elim (Bool-cases (eq_int id key)) [
      | inr other ↦ other
      | inl here ↦
          let back : i ≡ id = same ∙ sym ((eq_int_iff id key).0 here) in
          let equal : eq_int i id ≡ true = (eq_int_iff i id).1 back in cc
    ]

module _ {Double : Type 0} where
  find-assign :
      (id key : ℤ) (o : ObstacleData Double) (obstacles : Obstacles Double)
      → find key (assign id o obstacles) ≡ (if eq_int id key then some o else find key obstacles)
  unfolding find assign
  find-assign id key o [] = ground arith
  find-assign id key o ((i, p) ∷ obstacles) = elim (Bool-cases (eq_int i id)) [
    | inl same ↦ ground (arith, eq_int_same i id key same)
    | inr other ↦ elim (Bool-cases (eq_int i key)) [
      | inl here ↦ ground (arith, eq_int_other i id key other here)
      | inr there ↦ ground (arith, find-assign id key o obstacles)
    ]
  ]

  find-erase :
      (id key : ℤ) (obstacles : Obstacles Double)
      → find key (erase id obstacles) ≡ (if eq_int id key then none else find key obstacles)
  unfolding find erase
  find-erase id key [] = ground arith
  find-erase id key ((i, p) ∷ obstacles) = elim (Bool-cases (eq_int i id)) [
    | inl same ↦ ground (arith, eq_int_same i id key same, find-erase id key obstacles)
    | inr other ↦ elim (Bool-cases (eq_int i key)) [
      | inl here ↦ ground (arith, eq_int_other i id key other here)
      | inr there ↦ ground (arith, find-erase id key obstacles)
    ]
  ]

module _ {Double : Type 0} (half : Double → Double) (stoi : String → Option ℤ) where
  -- The obstacle that a feedback message speaks of, or none; `none` outside is the exception.
  abbrev pub id_of : String → Option (Option ℤ)
  id_of name = elim (after_prefix "obstacle_" name) [
    | none ↦ some none
    | some digits ↦ (stoi digits >>= λ id. some (some id))
  ]

  -- Every feedback speaks of an obstacle by its number, or of something else.
  abbrev pub IsReadable : Event Double → Type 0
  IsReadable (feedback_message name at_point) = id_of name ≢ none
  IsReadable _ = Unit

  abbrev pub moved :
      ℤ
      → Option (Option ℤ)
      → Point Double
      → Option (ObstacleData Double)
      → Option (ObstacleData Double)
  moved key (some (some id)) at_point (some o) =
      if eq_int id key then some (record o { position = at_point }) else some o
  moved key id at_point o = o

  -- What the history says of the obstacle `key`: the newest addition or deletion of it counts, and
  -- feedback since then moves it.
  abbrev pub latest : ℤ → Obstacles Double → List (Event Double) → Option (ObstacleData Double)
  latest key start [] = find key start
  latest key start (marker add id at_point scale_x ∷ older) =
      let before = latest key start older in
      if eq_int id key then some (record { position = at_point; radius = half scale_x }) else before
  latest key start (marker delete id at_point scale_x ∷ older) =
      let before = latest key start older in if eq_int id key then none else before
  latest key start (marker other_action id at_point scale_x ∷ older) = latest key start older
  latest key start (feedback_message name at_point ∷ older) =
      moved key (id_of name) at_point (latest key start older)

  find-move_to :
      (key id : ℤ) (at_point : Point Double) (obstacles : Obstacles Double)
      → find key (move_to at_point obstacles id (find id obstacles))
        ≡ moved key (some (some id)) at_point (find key obstacles)
  unfolding move_to
  find-move_to key id at_point obstacles =
      let at_key : eq_int id key ≡ true → find id obstacles ≡ find key obstacles =
        λ e. ap (λ k. find k obstacles) ((eq_int_iff id key).0 e) in
      elim (Option-cases (find id obstacles)) [
        | inl missing ↦ elim (Bool-cases (eq_int id key)) [
          | inl same ↦ ground (arith, at_key same, missing)
          | inr other ↦ elim (Option-cases (find key obstacles)) [
            | inl none_there ↦ ground (arith, missing)
            | inr (o, found) ↦ ground (arith, missing)
          ]
        ]
        | inr (o, there) ↦ elim (Bool-cases (eq_int id key)) [
          | inl same ↦
              ground (
                arith,
                at_key same,
                find-assign id key (record o { position = at_point }) obstacles,
              )
          | inr other ↦ elim (Option-cases (find key obstacles)) [
            | inl none_there ↦
                ground (arith, find-assign id key (record o { position = at_point }) obstacles)
            | inr (o', found) ↦
                ground (arith, find-assign id key (record o { position = at_point }) obstacles)
          ]
        ]
      ]

  -- A map that holds, for every number, what the history says.
  abbrev Holds : Obstacles Double → List (Event Double) → Obstacles Double → Type 0
  Holds start h obstacles = (key : ℤ) → find key obstacles ≡ latest key start h

  feedback-Holds :
      (name : String) (at_point : Point Double) (obstacles : Obstacles Double)
      → id_of name ≢ none
      → (next : Obstacles Double) × (feedback half stoi name at_point obstacles ≡ some next)
        × ((key : ℤ) → find key next ≡ moved key (id_of name) at_point (find key obstacles))
  unfolding feedback
  feedback-Holds name at_point obstacles readable =
      elim (Option-cases (after_prefix "obstacle_" name)) [
        | inl other ↦
            let spoken : id_of name ≡ some none = rw (other, id_of) refl in
            rw (other, feedback)
              (
                obstacles,
                refl,
                λ key. ap (λ i. moved key i at_point (find key obstacles)) (sym spoken),
              )
        | inr (digits, e) ↦ elim (Option-cases (stoi digits)) [
          | inl unreadable ↦ absurd (readable (rw (e, unreadable, id_of) refl))
          | inr (id, number) ↦
              let spoken : id_of name ≡ some (some id) = rw (e, number, id_of) refl in
              rw (e, number, feedback)
                (
                  _,
                  refl,
                  λ key.
                      find-move_to key id at_point obstacles
                      ∙ ap (λ i. moved key i at_point (find key obstacles)) (sym spoken),
                )
        ]
      ]

  step-Holds :
      (start : Obstacles Double) (e : Event Double) (older : List (Event Double))
      (obstacles : Obstacles Double)
      → IsReadable e
      → Holds start older obstacles
      → (next : Obstacles Double) × (step half stoi e obstacles ≡ some next)
        × Holds start (e ∷ older) next
  unfolding step on_add_obstacle add_obstacle
  step-Holds start (marker add id at_point scale_x) older obstacles readable holds =
      (_, refl, λ key. find-assign id key _ obstacles ∙ ground (arith, holds key))
  step-Holds start (marker delete id at_point scale_x) older obstacles readable holds =
      (_, refl, λ key. find-erase id key obstacles ∙ ground (arith, holds key))
  step-Holds start (marker other_action id at_point scale_x) older obstacles readable holds =
      (_, refl, holds)
  step-Holds start (feedback_message name at_point) older obstacles readable holds =
      let (next, e, found) = feedback-Holds name at_point obstacles readable in
      (next, e, λ key. found key ∙ ap (moved key (id_of name) at_point) (holds key))

  -- When the names in the feedback are readable, no event throws, and the node then knows of every
  -- number what the history says: an obstacle is there exactly if its newest addition is newer than
  -- any deletion of it, with the radius of that addition, and it stands where the newest feedback since
  -- then, or else the addition, has put it.
  pub after-latest :
      (start : Obstacles Double) (h : List (Event Double))
      → All IsReadable h
      → (obstacles : Obstacles Double) × (after half stoi start h ≡ some obstacles)
        × ((key : ℤ) → find key obstacles ≡ latest key start h)
  unfolding after
  after-latest start [] readable = (start, refl, λ key. refl)
  after-latest start (e ∷ older) (readable, all) =
      let (obstacles, before, holds) = after-latest start older all in
      let (next, now, holds') = step-Holds start e older obstacles readable holds in
      (next, rw (before, now) refl, holds')
