-- ===== src/ProximityObstacleBridge/Run/Total.antt =====
-- src/proximity_obstacle_bridge.cpp: a node that was constructed runs through any callbacks.
use rmp_proximity_sensor.Common.{
  ℕ, zero, suc, ◌≡◌, refl, sym, ap, ◌∙◌, inl, inr, Bool, true, false, not, ◌&&◌, ◌||◌, String,
  Option, none, some, List, [], ◌∷◌, ◌++◌, arith, ◌==◌, length, get_elem?, replicate, Bool-cases,
}
use rmp_proximity_sensor.ProximityObstacleBridge.{
  Geometry, Range, Published, Settings, Sensors, is_active_flag, on_rmp_flag,
}
use rmp_proximity_sensor.ProximityObstacleBridge.Ticks.{publish_obstacles}
use rmp_proximity_sensor.ProximityObstacleBridge.Ticks.Justified.{publish_obstacles-IsJustified}
use rmp_proximity_sensor.ProximityObstacleBridge.Ticks.Inactive.{publish_obstacles_inactive}
use rmp_proximity_sensor.ProximityObstacleBridge.Masked.{
  IsAligned, IsMasked, SameSwitches, same-range_topic_enabled, refresh_range_subscriptions-IsMasked,
}
use rmp_proximity_sensor.ProximityObstacleBridge.Invariant.{
  IsConfigured, on_set_parameters-IsMasked, on_range-IsMasked,
}
use rmp_proximity_sensor.ProximityObstacleBridge.Run.{
  Parameters, Event, tick, flag, range_message, set_parameters, is_empty, sizes_match, or_all,
  settings_of, sensors_of, construct, receive, step, run,
}

length-replicate : {A : Type 0} (n : ℕ) (a : A) → length (replicate n a) ≡ n
length-replicate zero a = refl
length-replicate (suc n) a = omega (arith, length-replicate n a)

length-or_all :
    {A : Type 0} (count : ℕ) (a : A) (xs : List A)
    → is_empty xs || length xs == count ≡ true
    → length (or_all count a xs) ≡ count
unfolding or_all is_empty
length-or_all count a [] e = length-replicate count a
length-or_all count a (x ∷ xs) e = ground arith

module _ {Double Transform Point : Type 0} (geometry : Geometry Double Transform Point) where
  settings_of-IsConfigured :
      (p : Parameters Double) → sizes_match p ≡ true → IsConfigured (settings_of geometry p)
  unfolding settings_of sizes_match
  settings_of-IsConfigured p ok = record {
    frames_aligned = ground arith;
    radii_aligned =
        length-or_all (length p.sensor_frames) p.obstacle_radius p.obstacle_radii (ground arith)
        ∙ ground arith;
    triggers_aligned =
        length-or_all (length p.sensor_frames) p.trigger_distance p.trigger_distances (ground arith)
        ∙ ground arith;
  }

  sensors_of-IsAligned :
      (p : Parameters Double)
      → sizes_match p ≡ true
      → IsAligned (settings_of geometry p) (sensors_of geometry p)
  unfolding settings_of sensors_of sizes_match
  sensors_of-IsAligned p ok = record {
    ranges_aligned = length-replicate (length p.range_topics) none;
    subs_aligned = length-replicate (length p.range_topics) false;
    enabled_aligned =
        length-or_all (length p.sensor_frames) true p.sensor_enabled (ground arith) ∙ ground arith;
  }

  module _ (settings : Settings Double) where
    -- A state that differs in the flag's variables only.
    pub reflag-IsMasked :
        (s : Sensors Double) (active cleared : Bool)
        → IsMasked settings s
        → IsMasked settings
            (record s { rmp_active = active; obstacles_cleared_for_inactive = cleared })
    reflag-IsMasked s active cleared m =
        let s' = record s { rmp_active = active; obstacles_cleared_for_inactive = cleared } in
        let same : SameSwitches settings s s' = record { enabled_same = refl; all_same = refl } in
        record {
          aligned = record {
            ranges_aligned = m.aligned.ranges_aligned;
            subs_aligned = m.aligned.subs_aligned;
            enabled_aligned = m.aligned.enabled_aligned;
          };
          masked = λ i h. record {
            subscribed =
                (m.masked i h).subscribed
                ∙ ap some (sym (same-range_topic_enabled settings s s' i same));
            no_reading = λ off.
                (m.masked i h).no_reading
                  (sym (same-range_topic_enabled settings s s' i same) ∙ off);
          };
        }

    module _ (configured : IsConfigured settings) where
      Steps : Option (Sensors Double × List (Published Double Point)) → Type 0
      Steps r =
          (s' : Sensors Double) × (out : List (Published Double Point)) × (r ≡ some (s', out))
          × IsMasked settings s'

      publish_obstacles-Steps :
          (lookup : String → Option Transform) (s : Sensors Double)
          → IsMasked settings s
          → Steps (publish_obstacles geometry settings lookup s)
      unfolding Steps
      publish_obstacles-Steps lookup s m =
          elim (Bool-cases (settings.rmp_flag_gate_enabled && not s.rmp_active)) [
            | inl closed ↦ (
              _,
              _,
              publish_obstacles_inactive geometry settings lookup s closed,
              reflag-IsMasked s s.rmp_active true m,
            )
            | inr opened ↦
                let (all, e, justified, deleted) =
                  publish_obstacles-IsJustified geometry settings lookup s configured m.aligned
                    opened in
                (_, _, e, reflag-IsMasked s s.rmp_active false m)
          ]

      receive-Steps :
          (index : ℕ) (msg : Range Double) (s : Sensors Double) (subscribed : Option Bool)
          → IsMasked settings s
          → get_elem? s.range_subs index ≡ subscribed
          → (s' : Sensors Double) × (receive geometry settings index msg subscribed s ≡ some s')
            × IsMasked settings s'
      unfolding receive
      receive-Steps index msg s (some true) m e =
          let (s', e', m', gate) = on_range-IsMasked settings index msg s m e in (s', e', m')
      receive-Steps index msg s (some false) m e = (s, refl, m)
      receive-Steps index msg s none m e = (s, refl, m)

      pub on_rmp_flag-IsMasked :
          (v : ℕ) (s : Sensors Double)
          → IsMasked settings s
          → IsMasked settings (on_rmp_flag settings v s)
      unfolding on_rmp_flag
      on_rmp_flag-IsMasked v s m =
          elim (Bool-cases (is_active_flag v settings.rmp_active_flag_value)) [
            | inl up ↦ rw up (reflag-IsMasked s true s.obstacles_cleared_for_inactive m)
            | inr down ↦ rw down (reflag-IsMasked s false false m)
          ]

      step-Steps :
          (e : Event Double Transform) (s : Sensors Double)
          → IsMasked settings s
          → Steps (step geometry settings e s)
      unfolding Steps step
      step-Steps (tick lookup) s m = publish_obstacles-Steps lookup s m
      step-Steps (flag v) s m = (_, _, refl, on_rmp_flag-IsMasked v s m)
      step-Steps (range_message index msg) s m =
          let (s', e, m') = receive-Steps index msg s (get_elem? s.range_subs index) m refl in
          rw e (s', [], refl, m')
      step-Steps (set_parameters parameters) s m =
          let (s', ok, e, m', gate) = on_set_parameters-IsMasked settings parameters s m in
          rw e (s', [], refl, m')

      run-Steps :
          (events : List (Event Double Transform)) (s : Sensors Double)
          → IsMasked settings s
          → Steps (run geometry settings events s)
      unfolding Steps run
      run-Steps [] s m = (s, [], refl, m)
      run-Steps (e ∷ events) s m =
          let (s1, out, e1, m1) = step-Steps e s m in
          let (s', more, e', m') = run-Steps events s1 m1 in rw (e1, e') (s', out ++ more, refl, m')

  -- When the sizes of the parameters match, the constructor succeeds, and whatever callbacks run
  -- then, in whatever order, none of them leaves the bounds of an array. In the state that is
  -- reached, each sensor has a subscription exactly if its switches enable it, and one that is not
  -- enabled has no reading.
  pub run-IsMasked :
      (p : Parameters Double) (events : List (Event Double Transform))
      → sizes_match p ≡ true
      → (s : Sensors Double) × (s' : Sensors Double) × (out : List (Published Double Point))
        × (construct geometry p ≡ some (some s))
        × (run geometry (settings_of geometry p) events s ≡ some (s', out))
        × IsMasked (settings_of geometry p) s'
  unfolding construct Steps
  run-IsMasked p events ok =
      let settings = settings_of geometry p in
      let (s, e, m, gate) =
        refresh_range_subscriptions-IsMasked settings (sensors_of geometry p)
          (sensors_of-IsAligned p ok) in
      let (s', out, e', m') = run-Steps settings (settings_of-IsConfigured p ok) events s m in
      (s, s', out, rw (ok, e) refl, e', m')
