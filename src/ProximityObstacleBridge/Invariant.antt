-- ===== src/ProximityObstacleBridge/Invariant.antt =====
-- src/proximity_obstacle_bridge.cpp: no callback leaves an array's bounds, and each keeps the sensors
-- masked.
use rmp_proximity_sensor.Common.{
  ℕ, ◌≡◌, ◌<◌, refl, sym, ap, ◌∙◌, inl, inr, Bool, true, false, some, List, [], ◌∷◌, arith, ◌==◌,
  length, get_elem?, get_elem?-some, Bool-cases,
}
use rmp_proximity_sensor.ProximityObstacleBridge.{
  Range, Settings, Sensors, Parameter, enable_1_4, enabled_list, enable_1_4_of_other_type,
  enabled_list_of_other_type, other_parameter, range_topic_enabled, on_range, on_set_parameters,
}
use rmp_proximity_sensor.ProximityObstacleBridge.Masked.{
  length-set, IsAligned, IsMaskedAt, SameSwitches, SameGate, same-range_topic_enabled, IsMasked,
  refresh_range_subscriptions-IsMasked,
}

module _ {Double : Type 0} (settings : Settings Double) where
  -- The settings have an entry for each topic.
  pub record IsConfigured : Type 0 where
    pub frames_aligned : length settings.sensor_frames ≡ length settings.range_topics
    pub radii_aligned : length settings.obstacle_radii ≡ length settings.range_topics
    pub triggers_aligned : length settings.trigger_distances ≡ length settings.range_topics

  -- Whatever the parameters set, and also if they are refused in the end, the sensors stay masked.
  pub on_set_parameters-IsMasked :
      (parameters : List Parameter) (s : Sensors Double)
      → IsMasked settings s
      → (s' : Sensors Double) × (successful : Bool) × (on_set_parameters settings parameters s
          ≡ some (s', successful))
        × IsMasked settings s'
        × SameGate settings s s'
  unfolding on_set_parameters
  on_set_parameters-IsMasked [] s m = (s, true, refl, m, (refl, refl))
  on_set_parameters-IsMasked (other_parameter ∷ parameters) s m =
      on_set_parameters-IsMasked parameters s m
  on_set_parameters-IsMasked (enable_1_4_of_other_type ∷ parameters) s m =
      (s, false, refl, m, (refl, refl))
  on_set_parameters-IsMasked (enabled_list_of_other_type ∷ parameters) s m =
      (s, false, refl, m, (refl, refl))
  on_set_parameters-IsMasked (enable_1_4 b ∷ parameters) s m =
      let aligned : IsAligned settings (record s { enable_proximity_distance_1_4 = b }) = record {
        ranges_aligned = m.aligned.ranges_aligned;
        subs_aligned = m.aligned.subs_aligned;
        enabled_aligned = m.aligned.enabled_aligned;
      } in
      let (s1, e1, m1, g1) =
        refresh_range_subscriptions-IsMasked settings
          (record s { enable_proximity_distance_1_4 = b }) aligned in
      let (s', ok, e', m', g') = on_set_parameters-IsMasked parameters s1 m1 in
      rw e1 (s', ok, e', m', (g'.0 ∙ g1.0, g'.1 ∙ g1.1))
  on_set_parameters-IsMasked (enabled_list next ∷ parameters) s m =
      elim (Bool-cases (length next == length settings.range_topics)) [
        | inr other ↦ rw (other, on_set_parameters) (s, false, refl, m, (refl, refl))
        | inl fits ↦
            let aligned : IsAligned settings (record s { sensor_enabled = next }) = record {
              ranges_aligned = m.aligned.ranges_aligned;
              subs_aligned = m.aligned.subs_aligned;
              enabled_aligned = ground arith;
            } in
            let (s1, e1, m1, g1) =
              refresh_range_subscriptions-IsMasked settings (record s { sensor_enabled = next })
                aligned in
            let (s', ok, e', m', g') = on_set_parameters-IsMasked parameters s1 m1 in
            rw (fits, on_set_parameters, e1) (s', ok, e', m', (g'.0 ∙ g1.0, g'.1 ∙ g1.1))
      ]

  on_and_off :
      (j i : ℕ) (s : Sensors Double)
      → IsMasked settings s
      → j < length settings.range_topics
      → get_elem? s.range_subs i ≡ some true
      → range_topic_enabled settings s j ≡ false
      → j ≡ i
      → ⊥
  on_and_off j i s m h subscribed off e =
      let held : get_elem? s.range_subs j ≡ some true = rw e subscribed in
      let lacks : get_elem? s.range_subs j ≡ some false = (m.masked j h).subscribed ∙ ap some off in
      cc

  -- A reading that arrives for a sensor with a subscription.
  pub on_range-IsMasked :
      (i : ℕ) (msg : Range Double) (s : Sensors Double)
      → IsMasked settings s
      → get_elem? s.range_subs i ≡ some true
      → (s' : Sensors Double) × (on_range settings i msg s ≡ some s')
        × IsMasked settings s'
        × SameGate settings s s'
  unfolding on_range
  on_range-IsMasked i msg s m subscribed =
      let inside : i < length s.latest_ranges = omega (
        arith,
        get_elem?-some s.range_subs i true subscribed,
        m.aligned.ranges_aligned,
        m.aligned.subs_aligned,
      ) in
      let (ranges, e, ranges_length, here, others) =
        length-set s.latest_ranges i (some msg) inside in
      let same : SameSwitches settings s (record s { latest_ranges = ranges }) = record {
        enabled_same = refl;
        all_same = refl;
      } in
      let masked : (j : ℕ)
          → j < length settings.range_topics
          → IsMaskedAt settings (record s { latest_ranges = ranges }) j =
        λ j h.
          let switch =
            same-range_topic_enabled settings s (record s { latest_ranges = ranges }) j same in
          record {
            subscribed = (m.masked j h).subscribed ∙ ap some (sym switch);
            no_reading = λ off. elim (Bool-cases (j == i)) [
              | inl at_i ↦
                  absurd (on_and_off j i s m h subscribed (sym switch ∙ off) (ground arith))
              | inr elsewhere ↦
                  others j (λ e. ground arith) ∙ (m.masked j h).no_reading (sym switch ∙ off)
            ];
          } in
      rw e (
        _,
        refl,
        record {
          aligned = record {
            ranges_aligned = ranges_length ∙ m.aligned.ranges_aligned;
            subs_aligned = m.aligned.subs_aligned;
            enabled_aligned = m.aligned.enabled_aligned;
          };
          masked = masked;
        },
        (refl, refl),
      )
