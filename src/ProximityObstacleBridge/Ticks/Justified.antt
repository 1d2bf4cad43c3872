-- ===== src/ProximityObstacleBridge/Ticks/Justified.antt =====
-- src/proximity_obstacle_bridge.cpp: what a tick of `publish_obstacles` publishes.
use rmp_proximity_sensor.Common.{
  ℕ, zero, suc, ◌+◌, ◌≡◌, ◌≤◌, ◌<◌, refl, sym, ap, ◌∙◌, inl, inr, true, false, not, ◌&&◌, String,
  Option, some, List, [], ◌∷◌, ◌++◌, arith, length, get_elem?, get_elem?-lt, All, All-append,
  append_assoc, ◌==◌, Bool-cases, Option-cases,
}
use rmp_proximity_sensor.ProximityObstacleBridge.{
  Geometry, Range, Marker, delete, add, markers, Settings, Sensors, range_topic_enabled,
}
use rmp_proximity_sensor.ProximityObstacleBridge.Ticks.{
  range_is_usable, effective_range_m, marker_of_reading, marker_at_reading, markers_at,
  markers_from, publish_obstacles,
}
use rmp_proximity_sensor.ProximityObstacleBridge.Masked.{IsAligned}
use rmp_proximity_sensor.ProximityObstacleBridge.Invariant.{IsConfigured}

module _ {Double Transform Point : Type 0} (geometry : Geometry Double Transform Point)
    (settings : Settings Double) (lookup : String → Option Transform) (s : Sensors Double) where
  -- A marker is added only for a sensor that is enabled and has a usable reading that is not beyond
  -- the sensor's trigger distance.
  abbrev pub IsJustified : Marker Double Point → Type 0
  IsJustified (delete index frame) = Unit
  IsJustified (add index frame point diameter) =
      (range_topic_enabled settings s index ≡ true)
      × ((msg : Range Double) × (get_elem? s.latest_ranges index ≡ some (some msg))
          × (range_is_usable geometry settings msg ≡ true)
          × ((d : Double) × (get_elem? settings.trigger_distances index ≡ some d)
              × (geometry.lt d (effective_range_m geometry settings msg) ≡ false)))

  marker_of_reading-IsJustified :
      (index : ℕ) (frame : String) (trigger radius : Double) (msg : Range Double)
      (transform : Transform)
      → range_topic_enabled settings s index ≡ true
      → get_elem? s.latest_ranges index ≡ some (some msg)
      → range_is_usable geometry settings msg ≡ true
      → get_elem? settings.trigger_distances index ≡ some trigger
      → IsJustified (marker_of_reading geometry settings index frame trigger radius msg transform)
  unfolding marker_of_reading
  marker_of_reading-IsJustified index frame trigger radius msg transform on read usable at_index =
      elim (Bool-cases (geometry.lt trigger (effective_range_m geometry settings msg))) [
        | inl beyond ↦ rw beyond tt
        | inr near ↦ rw near (on, (msg, read, usable, (trigger, at_index, near)))
      ]

  module _ (configured : IsConfigured settings) (aligned : IsAligned settings s) where
    marker_at_reading-IsJustified :
        (index : ℕ) (frame : String) (msg : Range Double)
        → index < length settings.range_topics
        → range_topic_enabled settings s index ≡ true
        → get_elem? s.latest_ranges index ≡ some (some msg)
        → (here : List (Marker Double Point)) × (marker_at_reading geometry settings lookup index
              frame msg
            ≡ some here)
          × All IsJustified here
    unfolding marker_at_reading
    marker_at_reading-IsJustified index frame msg h on read =
        elim (Bool-cases (not (range_is_usable geometry settings msg))) [
          | inl useless ↦ rw useless (_, refl, (tt, tt))
          | inr usable ↦ elim (Option-cases (lookup frame)) [
            | inl unknown ↦ rw (usable, unknown) ([], refl, tt)
            | inr (transform, known) ↦
                let (trigger, at_trigger) =
                  get_elem?-lt settings.trigger_distances index
                    (omega (arith, h, configured.triggers_aligned)) in
                let (radius, at_radius) =
                  get_elem?-lt settings.obstacle_radii index
                    (omega (arith, h, configured.radii_aligned)) in
                let fine : range_is_usable geometry settings msg ≡ true = ground arith in
                rw (usable, known, at_trigger, at_radius)
                  (
                    _,
                    refl,
                    (
                      marker_of_reading-IsJustified index frame trigger radius msg transform on read
                          fine at_trigger,
                      tt,
                    ),
                  )
          ]
        ]

    markers_at-IsJustified :
        (index : ℕ)
        → index < length settings.range_topics
        → (here : List (Marker Double Point)) × (markers_at geometry settings lookup s index
            ≡ some here)
          × All IsJustified here
          × (range_topic_enabled settings s index ≡ false
              → (frame : String) × (here ≡ delete index frame ∷ []))
    unfolding markers_at
    markers_at-IsJustified index h =
        let (frame, at_frame) =
          get_elem?-lt settings.sensor_frames index (omega (arith, h, configured.frames_aligned)) in
        elim (Bool-cases (not (range_topic_enabled settings s index))) [
          | inl off ↦ rw (at_frame, off) (_, refl, (tt, tt), λ e. (frame, refl))
          | inr on ↦
              let is_on : range_topic_enabled settings s index ≡ true = ground arith in
              let (latest, at_latest) =
                get_elem?-lt s.latest_ranges index (omega (arith, h, aligned.ranges_aligned)) in
              elim (Option-cases latest) [
                | inl silent ↦
                    rw (at_frame, on, at_latest, silent) (_, refl, (tt, tt), λ e. (frame, refl))
                | inr (msg, spoke) ↦
                    let (here, e, justified) =
                      marker_at_reading-IsJustified index frame msg h is_on
                        (at_latest ∙ ap some spoke) in
                    rw (at_frame, on, at_latest, spoke)
                      (here, e, justified, λ off. absurd (ground arith))
              ]
        ]

    -- The marker of sensor `i` is deleted in `all`.
    abbrev pub Deletes : List (Marker Double Point) → ℕ → Type 0
    Deletes all i =
        (frame : String) × (before : List (Marker Double Point)) × (after : List
          (Marker Double Point))
        × (all ≡ before ++ delete i frame ∷ after)

    markers_from-IsJustified :
        (count index : ℕ)
        → count + index ≡ length settings.range_topics
        → (all : List (Marker Double Point)) × (markers_from geometry settings lookup s count index
            ≡ some all)
          × All IsJustified all
          × ((i : ℕ)
              → index ≤ i
              → i < length settings.range_topics
              → range_topic_enabled settings s i ≡ false
              → Deletes all i)
    unfolding markers_from
    markers_from-IsJustified zero index e = ([], refl, tt, λ i from below off. absurd (omega arith))
    markers_from-IsJustified (suc count) index e =
        let (here, at_index, justified, deleted) = markers_at-IsJustified index (omega arith) in
        let (rest, later, justified', deleted') =
          markers_from-IsJustified count (index + 1) (omega arith) in
        rw (at_index, later)
          (
            here ++ rest,
            refl,
            All-append IsJustified here rest justified justified',
            λ i from below off. elim (Bool-cases (i == index)) [
              | inl now ↦
                  let same : index ≡ i = ground arith in
                  let (frame, only) = deleted (rw same off) in
                  (frame, [], rest, rw (only, same) refl)
              | inr other ↦
                  let (frame, before, after, parts) = deleted' i (ground arith) below off in
                  (
                    frame,
                    here ++ before,
                    after,
                    rw parts (sym (append_assoc here before (delete i frame ∷ after))),
                  )
            ],
          )

    -- While the gate is open, a tick reads nothing outside an array and publishes one list of
    -- markers. A marker is added in it only for a sensor that is enabled and has a usable reading not
    -- beyond the sensor's trigger distance, and the marker of each sensor that is not enabled is
    -- deleted.
    pub publish_obstacles-IsJustified :
        settings.rmp_flag_gate_enabled && not s.rmp_active ≡ false
        → (all : List (Marker Double Point)) × (publish_obstacles geometry settings lookup s
            ≡ some (record s { obstacles_cleared_for_inactive = false }, markers all ∷ []))
          × All IsJustified all
          × ((i : ℕ)
              → i < length settings.range_topics
              → range_topic_enabled settings s i ≡ false
              → Deletes all i)
    unfolding publish_obstacles
    publish_obstacles-IsJustified opened =
        let (all, e, justified, deleted) =
          markers_from-IsJustified (length s.latest_ranges) 0
            (omega (arith, aligned.ranges_aligned)) in
        rw (opened, e) (all, refl, justified, λ i below off. deleted i (omega arith) below off)
