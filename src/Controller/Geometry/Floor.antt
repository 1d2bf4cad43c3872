-- ===== src/Controller/Geometry/Floor.antt =====
-- src/rmpflow_controller_node.cpp: the comparison of lowest heights with the workspace's limits, against
-- the single points; and that it does not throw where all links are known.
use rmp_proximity_sensor.Common.{
  ◌≡◌, refl, sym, ap, ◌∙◌, inl, inr, Bool, true, false, ◌||◌, Option, none, some, List, [], ◌∷◌,
  ◌++◌, ◌>>=◌, map, arith, get_elem?, if◌then◌else◌, str_eq, Bool-cases, Option-cases,
}
use rmp_proximity_sensor.Common.Floats.{Floats, min_of}
use rmp_proximity_sensor.Controller.Geometry.{
  Vector, Context, BodyObstacle, FloorLimits, add_vectors, obstacle_frame,
  body_obstacle_center_world, corners, lowest, body_obstacle_min_z_world, all_obstacle_z,
  compute_floor_safety_metrics, metrics_of, metrics_below, below_limits,
}

-- The comparison of doubles that are numbers: it is transitive, and what is not above lies below
-- whatever the other lies below.
pub record IsOrder {Double Time : Type 0} (floats : Floats Double Time) : Type 0 where
  pub lt_trans :
      (a b c : Double) → floats.lt a b ≡ true → floats.lt b c ≡ true → floats.lt a c ≡ true
  pub lt_of_not_lt :
      (a b c : Double) → floats.lt b a ≡ false → floats.lt b c ≡ true → floats.lt a c ≡ true

-- Whether one of the values lies below a limit.
abbrev pub any_below : {Double Time : Type 0} → Floats Double Time → Double → List Double → Bool
any_below floats limit [] = false
any_below floats limit (z ∷ zs) = floats.lt z limit || any_below floats limit zs

or_false : (b : Bool) → (b || false) ≡ b
or_false true = refl
or_false false = refl

or_assoc : (a b c : Bool) → ((a || b) || c) ≡ (a || (b || c))
or_assoc true b c = refl
or_assoc false b c = refl

module _ {Double Time : Type 0} (floats : Floats Double Time) (order : IsOrder floats) where
  lt-min_of : (a b c : Double) → floats.lt (min_of floats a b) c ≡ (floats.lt a c || floats.lt b c)
  lt-min_of a b c = elim (Bool-cases (floats.lt b a)) [
    | inl below ↦ elim (Bool-cases (floats.lt a c)) [
      | inl left ↦ rw (below, left) (order.lt_trans b a c below left)
      | inr not_left ↦ rw (below, not_left) refl
    ]
    | inr above ↦ elim (Bool-cases (floats.lt b c)) [
      | inl right ↦ rw (above, right, order.lt_of_not_lt a b c above right) refl
      | inr not_right ↦ rw (above, not_right) (sym (or_false (floats.lt a c)))
    ]
  ]

  lt-lowest_from :
      (limit m : Double) (zs : List Double)
      → floats.lt (lowest floats m zs) limit ≡ (floats.lt m limit || any_below floats limit zs)
  unfolding lowest
  lt-lowest_from limit m [] = sym (or_false (floats.lt m limit))
  lt-lowest_from limit m (z ∷ zs) =
      lt-lowest_from limit (min_of floats m z) zs
      ∙ rw (lt-min_of m z limit)
          (or_assoc (floats.lt m limit) (floats.lt z limit) (any_below floats limit zs))

module _ {Double Time : Type 0} (floats : Floats Double Time) where
  -- Two computations of heights that throw together and are below the same limits.
  data Agree : Option (List Double) → Option (List Double) → Type 0 where
    both_fail : Agree none none
    both :
        (zs hs : List Double)
        → ((limit : Double) → any_below floats limit zs ≡ any_below floats limit hs)
        → Agree (some zs) (some hs)

  any_below-append :
      (limit : Double) (xs ys : List Double)
      → any_below floats limit (xs ++ ys) ≡ (any_below floats limit xs || any_below floats limit ys)
  any_below-append limit [] ys = refl
  any_below-append limit (x ∷ xs) ys = elim (Bool-cases (floats.lt x limit)) [
    | inl below ↦ rw below refl
    | inr above ↦ rw above (any_below-append limit xs ys)
  ]

  Agree-more :
      (z : Option Double) (h rest more : Option (List Double))
      → Agree (z >>= λ z. some (z ∷ [])) h
      → Agree rest more
      → Agree
          (z >>= λ z. (rest >>= λ zs. some (z ∷ zs)))
          (h >>= λ hs. (more >>= λ ms. some (hs ++ ms)))
  Agree-more none h rest more both_fail s = both_fail
  Agree-more (some z) h rest more (both zs hs e) both_fail = both_fail
  Agree-more (some z) h rest more (both zs hs e) (both rs ms f) = both (z ∷ rs) (hs ++ ms) (λ limit.
      ap (λ b. floats.lt z limit || b) (f limit)
      ∙ ap (λ b. b || any_below floats limit ms) (sym (or_false (floats.lt z limit)) ∙ e limit)
      ∙ sym (any_below-append limit hs ms))

module _ {Double Time Rotation : Type 0} (floats : Floats Double Time) (infinity : Double)
    (identity : Rotation) (rotate : Rotation → Vector Double → Vector Double) where
  -- The heights of a ball's lowest point and of a box's corners.
  pub heights : BodyObstacle Double → Context Double Rotation → Option (List Double)
  heights obstacle context =
      if str_eq obstacle.type_name "ball"
      then (body_obstacle_center_world floats infinity identity rotate obstacle context
          >>= λ center. some (floats.sub center.z obstacle.radius ∷ []))
      else (obstacle_frame floats infinity identity rotate obstacle context >>= λ frame. some (
          map (λ corner. (add_vectors floats frame.1 (rotate frame.0 corner)).z)
            (corners obstacle)))

  pub all_heights : List (BodyObstacle Double) → Context Double Rotation → Option (List Double)
  unfolding heights
  all_heights [] context = some []
  all_heights (obstacle ∷ obstacles) context = do
    zs ← heights obstacle context
    rest ← all_heights obstacles context
    some (zs ++ rest)

  points_below :
      FloorLimits Double
      → Context Double Rotation
      → List Double
      → Vector Double
      → Vector Double
      → Bool
  points_below limits context zs link6 tcp_gripper =
      any_below floats limits.workspace_floor_z (
        map (λ p. p.z) context.link_positions
        ++ (map (λ p. p.z) context.joint_origins
            ++ (map (λ c. floats.sub c.0.z c.1) context.control_points ++ zs)))
      || (floats.lt link6.z limits.min_link6_z || floats.lt tcp_gripper.z limits.min_tcp_z)

  -- Whether some point of the robot or of its obstacles is too low.
  pub too_low :
      FloorLimits Double → List (BodyObstacle Double) → Context Double Rotation → Option Bool
  unfolding all_heights points_below
  too_low limits obstacles context = do
    zs ← all_heights obstacles context
    link6 ← get_elem? context.link_positions 8
    tcp_gripper ← get_elem? context.link_positions 11
    some (points_below limits context zs link6 tcp_gripper)

  module _ (order : IsOrder floats) (at_top : (z : Double) → floats.lt infinity z ≡ false) where
    lt-lowest :
        (limit : Double) (zs : List Double)
        → floats.lt (lowest floats infinity zs) limit ≡ any_below floats limit zs
    lt-lowest limit zs = lt-lowest_from floats order limit infinity zs ∙ rw (at_top limit) refl

    body_obstacle_min_z_world-heights :
        (obstacle : BodyObstacle Double) (context : Context Double Rotation)
        → Agree floats
            (body_obstacle_min_z_world floats infinity identity rotate obstacle context >>= λ z.
              some (z ∷ []))
            (heights obstacle context)
    unfolding body_obstacle_min_z_world heights
    body_obstacle_min_z_world-heights obstacle context =
        elim (Bool-cases (str_eq obstacle.type_name "ball")) [
          | inl ball ↦
              elim (Option-cases
                (body_obstacle_center_world floats infinity identity rotate obstacle context)) [
                  | inl thrown ↦ rw (ball, thrown) both_fail
                  | inr (center, found) ↦ rw (ball, found) (both _ _ (λ limit. refl))
                ]
          | inr box ↦
              elim (Option-cases
                (obstacle_frame floats infinity identity rotate obstacle context)) [
                  | inl thrown ↦ rw (box, thrown) both_fail
                  | inr (frame, found) ↦
                      let zs =
                        map (λ corner. (add_vectors floats frame.1 (rotate frame.0 corner)).z)
                          (corners obstacle) in
                      rw (box, found)
                        (both (lowest floats infinity zs ∷ []) zs (λ limit.
                          or_false (floats.lt (lowest floats infinity zs) limit)
                          ∙ lt-lowest limit zs))
                ]
        ]

    all_obstacle_z-heights :
        (obstacles : List (BodyObstacle Double)) (context : Context Double Rotation)
        → Agree floats
            (all_obstacle_z floats infinity identity rotate obstacles context)
            (all_heights obstacles context)
    unfolding all_obstacle_z all_heights
    all_obstacle_z-heights [] context = both [] [] (λ limit. refl)
    all_obstacle_z-heights (obstacle ∷ obstacles) context =
        Agree-more floats
          (body_obstacle_min_z_world floats infinity identity rotate obstacle context)
          (heights obstacle context)
          (all_obstacle_z floats infinity identity rotate obstacles context)
          (all_heights obstacles context) (body_obstacle_min_z_world-heights obstacle context)
          (all_obstacle_z-heights obstacles context)

    joined :
        (limit : Double) (l j p zs hs : List Double) (x : Bool)
        → any_below floats limit zs ≡ any_below floats limit hs
        → (floats.lt (lowest floats infinity l) limit
            || (floats.lt (lowest floats infinity j) limit
                || (floats.lt (lowest floats infinity p) limit
                    || (floats.lt (lowest floats infinity zs) limit || x))))
          ≡ (any_below floats limit (l ++ (j ++ (p ++ hs))) || x)
    joined limit l j p zs hs x e =
        rw
          (
            lt-lowest limit l,
            lt-lowest limit j,
            lt-lowest limit p,
            lt-lowest limit zs,
            e,
            any_below-append floats limit l (j ++ (p ++ hs)),
            any_below-append floats limit j (p ++ hs),
            any_below-append floats limit p hs,
          )
          (spread (any_below floats limit l) (any_below floats limit j) (any_below floats limit p)
            (any_below floats limit hs) x)
      where
        spread : (a b c d x : Bool) → (a || (b || (c || (d || x)))) ≡ ((a || (b || (c || d))) || x)
        spread a b c d x = ground arith

    -- The rest of the comparison, behind the obstacles' heights.
    compared :
        (limits : FloorLimits Double) (context : Context Double Rotation)
        (a b : Option (List Double))
        → Agree floats a b
        → (link6 tcp_gripper : Option (Vector Double))
        → ((a >>= λ zs. some (metrics_of floats infinity identity rotate context zs)) >>= λ metrics.
            (link6 >>= λ link6.
            (tcp_gripper >>= λ tcp_gripper.
            some (metrics_below floats infinity identity rotate limits metrics link6 tcp_gripper))))
          ≡ (b >>= λ hs.
              (link6 >>= λ link6.
              (tcp_gripper >>= λ tcp_gripper.
              some (points_below limits context hs link6 tcp_gripper))))
    unfolding metrics_of metrics_below points_below
    compared limits context none none both_fail g t = refl
    compared limits context none (some hs) d g t = elim d [ ]
    compared limits context (some zs) none d g t = elim d [ ]
    compared limits context (some zs) (some hs) (both _ _ e) none t = refl
    compared limits context (some zs) (some hs) (both _ _ e) (some g) none = refl
    compared limits context (some zs) (some hs) (both _ _ e) (some g) (some t) = ap some (
        joined limits.workspace_floor_z (map (λ p. p.z) context.link_positions)
          (map (λ p. p.z) context.joint_origins)
          (map (λ c. floats.sub c.0.z c.1) context.control_points) zs hs
          (floats.lt g.z limits.min_link6_z || floats.lt t.z limits.min_tcp_z)
          (e limits.workspace_floor_z))

    -- Where the comparison orders the doubles and nothing lies above infinity, comparing the lowest
    -- heights with the limits throws, or reports that the robot is too low, exactly if the single points
    -- do: the links, the joints, the control points' spheres, the balls and the boxes' corners against the
    -- floor, and two links against limits of their own.
    pub below_limits-too_low :
        (limits : FloorLimits Double) (obstacles : List (BodyObstacle Double))
        (context : Context Double Rotation)
        → below_limits floats infinity identity rotate limits obstacles context
          ≡ too_low limits obstacles context
    unfolding below_limits compute_floor_safety_metrics too_low
    below_limits-too_low limits obstacles context =
        compared limits context (all_obstacle_z floats infinity identity rotate obstacles context)
          (all_heights obstacles context) (all_obstacle_z-heights obstacles context)
          (get_elem? context.link_positions 8) (get_elem? context.link_positions 11)
