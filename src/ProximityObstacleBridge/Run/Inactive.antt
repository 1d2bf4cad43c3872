-- ===== src/ProximityObstacleBridge/Run/Inactive.antt =====
-- src/proximity_obstacle_bridge.cpp: what is published while the flag holds the node back.
use rmp_proximity_sensor.Common.{
  ℕ, ◌≡◌, refl, ◌∙◌, Bool, true, false, not, ◌&&◌, Option, none, some, List, [], ◌∷◌, arith,
  get_elem?, All, if◌then◌else◌,
}
use rmp_proximity_sensor.ProximityObstacleBridge.{
  Geometry, Range, Published, delete_all, Settings, Sensors, is_active_flag, on_rmp_flag,
}
use rmp_proximity_sensor.ProximityObstacleBridge.Masked.{IsMasked, SameGate}
use rmp_proximity_sensor.ProximityObstacleBridge.Invariant.{
  on_set_parameters-IsMasked, on_range-IsMasked,
}
use rmp_proximity_sensor.ProximityObstacleBridge.Ticks.Inactive.{publish_obstacles_inactive}
use rmp_proximity_sensor.ProximityObstacleBridge.Run.{
  Event, tick, flag, range_message, set_parameters, receive, step, run,
}
use rmp_proximity_sensor.ProximityObstacleBridge.Run.Total.{reflag-IsMasked}

module _ {Double Transform : Type 0} where
  abbrev pub IsNoFlag : Event Double Transform → Type 0
  IsNoFlag (flag v) = ⊥
  IsNoFlag _ = Unit

  abbrev pub has_tick : List (Event Double Transform) → Bool
  has_tick [] = false
  has_tick (tick lookup ∷ events) = true
  has_tick (_ ∷ events) = has_tick events

module _ {Double Transform Point : Type 0} (geometry : Geometry Double Transform Point)
    (settings : Settings Double) where
  receive-SameGate :
      (index : ℕ) (msg : Range Double) (s : Sensors Double) (subscribed : Option Bool)
      → IsMasked settings s
      → get_elem? s.range_subs index ≡ subscribed
      → (s' : Sensors Double) × (receive geometry settings index msg subscribed s ≡ some s')
        × IsMasked settings s'
        × SameGate settings s s'
  unfolding receive
  receive-SameGate index msg s (some true) m e = on_range-IsMasked settings index msg s m e
  receive-SameGate index msg s (some false) m e = (s, refl, m, (refl, refl))
  receive-SameGate index msg s none m e = (s, refl, m, (refl, refl))

  -- What a node that is held back publishes in a run without flags.
  abbrev pub cleared_by : Bool → List (Event Double Transform) → List (Published Double Point)
  cleared_by cleared events = if has_tick events && not cleared then delete_all ∷ [] else []

  run-inactive :
      (events : List (Event Double Transform)) (s : Sensors Double)
      → IsMasked settings s
      → settings.rmp_flag_gate_enabled ≡ true
      → s.rmp_active ≡ false
      → All IsNoFlag events
      → (s' : Sensors Double) × (run geometry settings events s
          ≡ some (s', cleared_by s.obstacles_cleared_for_inactive events))
  unfolding run step
  run-inactive [] s m gated inactive quiet = (s, ground arith)
  run-inactive (tick lookup ∷ events) s m gated inactive (_, quiet) =
      let (s', e) =
        run-inactive events (record s { obstacles_cleared_for_inactive = true })
          (reflag-IsMasked geometry settings s s.rmp_active true m) gated inactive quiet in
      (
        s',
        rw (publish_obstacles_inactive geometry settings lookup s (ground arith), e) (ground arith),
      )
  run-inactive (flag v ∷ events) s m gated inactive (impossible, quiet) = absurd impossible
  run-inactive (range_message index msg ∷ events) s m gated inactive (_, quiet) =
      let (s1, e1, m1, gate) = receive-SameGate index msg s (get_elem? s.range_subs index) m refl in
      let (s', e) = run-inactive events s1 m1 gated (gate.0 ∙ inactive) quiet in
      (s', rw (e1, e, gate.1) refl)
  run-inactive (set_parameters parameters ∷ events) s m gated inactive (_, quiet) =
      let (s1, ok, e1, m1, gate) = on_set_parameters-IsMasked settings parameters s m in
      let (s', e) = run-inactive events s1 m1 gated (gate.0 ∙ inactive) quiet in
      (s', rw (e1, e, gate.1) refl)

  -- While the flag gate is in use: after a flag that is not the active one and until the next flag,
  -- whatever readings and parameters come in, the ticks together publish a single message, which
  -- deletes all obstacles, and nothing if there is no tick.
  pub run_held_back :
      (v : ℕ) (events : List (Event Double Transform)) (s : Sensors Double)
      → IsMasked settings s
      → settings.rmp_flag_gate_enabled ≡ true
      → is_active_flag v settings.rmp_active_flag_value ≡ false
      → All IsNoFlag events
      → (s' : Sensors Double) × (run geometry settings (flag v ∷ events) s
          ≡ some (s', if has_tick events then delete_all ∷ [] else []))
  unfolding run step on_rmp_flag
  run_held_back v events s m gated down quiet =
      let s1 = record s { rmp_active = false; obstacles_cleared_for_inactive = false } in
      let (s', e) =
        run-inactive events s1 (reflag-IsMasked geometry settings s false false m) gated refl
          quiet in
      (s', rw (down, e) (ground arith))
