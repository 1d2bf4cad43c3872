-- ===== src/Controller/Handlers/Sensors.antt =====
-- src/rmpflow_controller_node.cpp: the obstacles after `on_obstacles`, told from the markers.
use rmp_proximity_sensor.Common.{
  ℕ, zero, suc, ◌<◌, ◌≡◌, refl, sym, ap, ◌∙◌, inl, inr, Bool, true, false, ◌&&◌, ◌==◌, Option, none,
  some, List, [], ◌∷◌, ◌++◌, append_assoc, append-nil, arith, get_elem?, replicate, if◌then◌else◌,
  Bool-cases, Option-cases,
}
use rmp_proximity_sensor.Common.Floats.{Floats}
use rmp_proximity_sensor.Controller.Members.{ObstacleSphere, LoopSettings, Members, Model}
use rmp_proximity_sensor.Controller.Handlers.{
  Marker, proximity_marker_control_point_index, assign_at, sphere_of, collect, on_obstacles,
}

module _ {A : Type 0} where
  get_elem?-assign_at :
      (xs : List A) (i j : ℕ) (x y : A)
      → get_elem? xs i ≡ some y
      → get_elem? (assign_at j x xs) i ≡ some (if i == j then x else y)
  unfolding assign_at
  get_elem?-assign_at [] i j x y e = ground arith
  get_elem?-assign_at (a ∷ xs) zero zero x y e = refl
  get_elem?-assign_at (a ∷ xs) zero (suc j) x y e = ground arith
  get_elem?-assign_at (a ∷ xs) (suc i) zero x y e = ground arith
  get_elem?-assign_at (a ∷ xs) (suc i) (suc j) x y e =
      ground (arith, get_elem?-assign_at xs i j x y e)

  get_elem?-replicate : (n i : ℕ) (a : A) → i < n → get_elem? (replicate n a) i ≡ some a
  get_elem?-replicate zero i a h = absurd (omega arith)
  get_elem?-replicate (suc n) zero a h = refl
  get_elem?-replicate (suc n) (suc i) a h = get_elem?-replicate n i a (omega arith)

module _ {Double Time Orientation Rotation : Type 0} (floats : Floats Double Time)
    (model : Model Double Orientation Rotation) (settings : LoopSettings Double) where
  -- The spheres of the markers that add one.
  pub added : List (Marker Double) → List (ObstacleSphere Double)
  added [] = []
  added (marker ∷ markers) =
      let rest = added markers in
      if marker.is_add then sphere_of floats model settings marker ∷ rest else rest

  abbrev is_for : ℕ → Marker Double → Bool
  is_for i marker =
      marker.is_add
      && elim (proximity_marker_control_point_index marker) [ none ↦ false | some j ↦ i == j ]

  -- The sphere of the last marker that adds one for a sensor.
  pub last_for :
      ℕ → List (Marker Double) → Option (ObstacleSphere Double) → Option (ObstacleSphere Double)
  last_for i [] before = before
  last_for i (marker ∷ markers) before =
      last_for i markers
        (if is_for i marker then some (sphere_of floats model settings marker) else before)

  collect-added :
      (marker : Marker Double) (markers : List (Marker Double)) (o : List (ObstacleSphere Double))
      (p : List (Option (ObstacleSphere Double)))
      → marker.is_add ≡ true
      → collect floats model settings (marker ∷ markers) (o, p)
        ≡ collect floats model settings markers (
          o ++ sphere_of floats model settings marker ∷ [],
          elim (proximity_marker_control_point_index marker) [
            | none ↦ p
            | some index ↦ assign_at index (some (sphere_of floats model settings marker)) p
          ],
        )
  unfolding collect
  collect-added marker markers o p adds = rw adds refl

  added-cons :
      (marker : Marker Double) (markers : List (Marker Double))
      → marker.is_add ≡ true
      → added (marker ∷ markers) ≡ sphere_of floats model settings marker ∷ added markers
  unfolding added
  added-cons marker markers adds = rw adds refl

  is_for-added :
      (i : ℕ) (marker : Marker Double)
      → marker.is_add ≡ true
      → is_for i marker
        ≡ elim (proximity_marker_control_point_index marker) [ none ↦ false | some j ↦ i == j ]
  is_for-added i marker adds = rw adds refl

  collect-lem :
      (markers : List (Marker Double)) (o : List (ObstacleSphere Double))
      (p : List (Option (ObstacleSphere Double))) (i : ℕ) (before : Option (ObstacleSphere Double))
      → get_elem? p i ≡ some before
      → ((collect floats model settings markers (o, p)).0 ≡ o ++ added markers)
        × (get_elem? (collect floats model settings markers (o, p)).1 i
            ≡ some (last_for i markers before))
  unfolding collect added last_for
  collect-lem [] o p i before e = (sym (append-nil o), e)
  collect-lem (marker ∷ markers) o p i before e =
      let sphere = sphere_of floats model settings marker in
      elim (Bool-cases marker.is_add) [
        | inl adds ↦ elim (Option-cases (proximity_marker_control_point_index marker)) [
          | inl no_sensor ↦
              let (all, at_i) = collect-lem markers (o ++ sphere ∷ []) p i before e in
              rw
                (
                  collect-added marker markers o p adds,
                  added-cons marker markers adds,
                  is_for-added i marker adds,
                  no_sensor,
                )
                (all ∙ append_assoc o (sphere ∷ []) (added markers), at_i)
          | inr (j, sensor) ↦
              let (all, at_i) =
                collect-lem markers (o ++ sphere ∷ []) (assign_at j (some sphere) p) i
                  (if i == j then some sphere else before)
                  (get_elem?-assign_at p i j (some sphere) before e) in
              rw
                (
                  collect-added marker markers o p adds,
                  added-cons marker markers adds,
                  is_for-added i marker adds,
                  sensor,
                )
                (all ∙ append_assoc o (sphere ∷ []) (added markers), at_i)
        ]
        | inr other ↦ rw other (collect-lem markers o p i before e)
      ]

  -- Whatever markers come in, the controller has then the spheres of those that add one, in their order,
  -- or the far-away default if there is none, and for each of the twenty sensors the sphere of the last
  -- marker that adds one for it, and nothing for a sensor without one: the earlier obstacles are gone.
  pub on_obstacles-added :
      (markers : List (Marker Double)) (m : Members Double Orientation) (i : ℕ)
      → i < 20
      → ((on_obstacles floats model settings markers m).obstacles
          ≡ elim (added markers) [ [] ↦ model.default_obstacle ∷ [] | first ∷ rest ↦ first ∷ rest ])
        × (get_elem? (on_obstacles floats model settings markers m).proximity_sensor_obstacles i
            ≡ some (last_for i markers none))
  unfolding on_obstacles
  on_obstacles-added markers m i h =
      let (all, at_i) =
        collect-lem markers [] (replicate 20 none) i none (get_elem?-replicate 20 i none h) in
      (
        ap (λ o. elim o [ [] ↦ model.default_obstacle ∷ [] | first ∷ rest ↦ first ∷ rest ]) all,
        at_i,
      )
