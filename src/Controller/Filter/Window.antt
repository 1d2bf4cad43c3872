-- ===== src/Controller/Filter/Window.antt =====
-- src/rmpflow_controller_node.cpp: the windows of `SynchronizedVelocityFilter` in a run over samples.
use rmp_proximity_sensor.Common.{
  ℕ, ◌+◌, ◌*◌, ◌<◌, ◌≤◌, ◌≡◌, refl, ap, ◌∙◌, inl, inr, true, false, List, [], ◌∷◌, arith, leb, ltb,
  if◌then◌else◌, Bool-cases,
}
use rmp_proximity_sensor.Common.Floats.{Floats, max_of}
use rmp_proximity_sensor.Controller.Filter.{
  Settings, Filter, FilterType, construct, reset, is_bad_dt, accumulate, filter_window, end_window,
  update,
}

module _ {Double Time : Type 0} (floats : Floats Double Time) where
  -- If the cast to `int` of a number from 1 on is at least 1, a window has at least one sample.
  pub construct-nonempty :
      ((x : Double) → floats.le floats.one x ≡ true → 1 ≤ floats.truncated x)
      → (input_rate_hz output_rate_hz lowpass_alpha ratio_tolerance : Double)
        (filter_type : FilterType) (beta : Double)
      → 1
        ≤ (construct floats input_rate_hz output_rate_hz lowpass_alpha ratio_tolerance filter_type
            beta).sync_multiple
  unfolding construct
  construct-nonempty from_one input_rate output_rate alpha tolerance filter_type beta =
      let raw =
        floats.div (max_of floats input_rate floats.one) (max_of floats output_rate floats.one) in
      ground (arith, from_one (floats.round raw))

module _ {Double Time : Type 0} (floats : Floats Double Time) (s : Settings Double) where
  -- The filter after samples, newest first.
  pub after : Filter Double Time → List (List Double × Time) → Filter Double Time
  unfolding update
  after start [] = start
  after start ((position, now) ∷ older) = (update floats s position now (after start older)).0

  -- The samples since the newest one that made the filter start again, from the times alone.
  pub since_reset : Time → List (List Double × Time) → ℕ
  since_reset now [] = 0
  since_reset now ((position, before) ∷ older) =
      let earlier = since_reset before older in
      if is_bad_dt floats (floats.seconds now before) then 0 else earlier + 1

  -- `windows` is the number of windows that have ended since the filter started again.
  pub record Windowed (position : List Double) (now : Time) (n : ℕ) (f : Filter Double Time)
      : Type 0 where
    pub windows : ℕ
    pub is_started : f.initialized ≡ true
    pub is_newest : (f.previous_position ≡ position) × (f.previous_time ≡ now)
    pub count_is : n ≡ windows * s.sync_multiple + f.accumulated_samples
    pub is_open : f.accumulated_samples < s.sync_multiple
    pub output_is : f.output_initialized ≡ ltb 0 windows

  reset-Windowed :
      (position : List Double) (now : Time)
      → 1 ≤ s.sync_multiple
      → Windowed position now 0 (reset floats position now)
  unfolding reset
  reset-Windowed position now h = record {
    windows = 0;
    is_started = refl;
    is_newest = (refl, refl);
    count_is = omega arith;
    is_open = omega (arith, h);
    output_is = refl;
  }

  -- The end of a window leaves the newest sample alone.
  filter_window-newest :
      (position : List Double) (f : Filter Double Time)
      → ((filter_window floats s position f).initialized ≡ f.initialized)
        × (((filter_window floats s position f).previous_position ≡ f.previous_position)
            × ((filter_window floats s position f).previous_time ≡ f.previous_time))
  unfolding filter_window
  filter_window-newest position f = elim s.filter_type [
    | FilterType.alpha_beta ↦ ground arith
    | FilterType.moving_average ↦ ground arith
  ]

  update-good :
      (position : List Double) (now : Time) (f : Filter Double Time)
      → f.initialized ≡ true
      → is_bad_dt floats (floats.seconds now f.previous_time) ≡ false
      → (update floats s position now f).0 ≡ (
          let more = accumulate floats position now (floats.seconds now f.previous_time) f in
          if leb s.sync_multiple more.accumulated_samples
          then end_window floats s position more
          else more)
  unfolding update
  update-good position now f started good = rw (started, good) refl

  end_window-Windowed :
      (position : List Double) (now : Time) (n windows : ℕ) (f : Filter Double Time)
      → 1 ≤ s.sync_multiple
      → f.initialized ≡ true
      → (f.previous_position ≡ position) × (f.previous_time ≡ now)
      → n ≡ windows * s.sync_multiple + f.accumulated_samples
      → f.accumulated_samples ≡ s.sync_multiple
      → Windowed position now n (end_window floats s position f)
  unfolding end_window
  end_window-Windowed position now n windows f h started (at_position, at_time) count full =
      let (started_still, same) = filter_window-newest position f in
      record {
        windows = windows + 1;
        is_started = started_still ∙ started;
        is_newest = (same.0 ∙ at_position, same.1 ∙ at_time);
        count_is = grind arith;
        is_open = omega (arith, h);
        output_is = ground arith;
      }

  good-Windowed :
      (position older_position : List Double) (now before : Time) (n : ℕ) (f : Filter Double Time)
      → 1 ≤ s.sync_multiple
      → Windowed older_position before n f
      → is_bad_dt floats (floats.seconds now f.previous_time) ≡ false
      → Windowed position now (n + 1) (update floats s position now f).0
  unfolding accumulate
  good-Windowed position older_position now before n f h w good =
      let more = accumulate floats position now (floats.seconds now f.previous_time) f in
      rw (update-good position now f w.is_started good)
        (elim (Bool-cases (leb s.sync_multiple (f.accumulated_samples + 1))) [
          | inl full ↦ rw full (
              end_window-Windowed position now (n + 1) w.windows more h w.is_started (refl, refl)
                (omega arith) (ground arith))
          | inr short ↦ rw short (record {
            windows = w.windows;
            is_started = w.is_started;
            is_newest = (refl, refl);
            count_is = omega (arith, w.count_is);
            is_open = ground arith;
            output_is = w.output_is;
          })
        ])

  update-bad :
      (position : List Double) (now : Time) (f : Filter Double Time)
      → f.initialized ≡ true
      → is_bad_dt floats (floats.seconds now f.previous_time) ≡ true
      → (update floats s position now f).0 ≡ reset floats position now
  unfolding update
  update-bad position now f started bad = rw (started, bad) refl

  update-Windowed :
      (position older_position : List Double) (now before : Time) (n : ℕ) (f : Filter Double Time)
      → 1 ≤ s.sync_multiple
      → Windowed older_position before n f
      → Windowed position now
          (if is_bad_dt floats (floats.seconds now before) then 0 else n + 1)
          (update floats s position now f).0
  update-Windowed position older_position now before n f h w =
      let same : is_bad_dt floats (floats.seconds now f.previous_time)
          ≡ is_bad_dt floats (floats.seconds now before) =
        ap (λ t. is_bad_dt floats (floats.seconds now t)) w.is_newest.1 in
      elim (Bool-cases (is_bad_dt floats (floats.seconds now before))) [
        | inl bad ↦
            rw (bad, update-bad position now f w.is_started (same ∙ bad))
              (reset-Windowed position now h)
        | inr good ↦
            rw good (good-Windowed position older_position now before n f h w (same ∙ good))
      ]

  -- However samples arrive, if a window has at least one sample, the filter knows after each of them
  -- the newest sample, the open window has the samples that whole windows since the last restart
  -- leave over, which are too few for a window, and there is a velocity to give out exactly if a
  -- window has ended since then.
  pub after-Windowed :
      (start : Filter Double Time) (position : List Double) (now : Time)
      (older : List (List Double × Time))
      → 1 ≤ s.sync_multiple
      → start.initialized ≡ false
      → Windowed position now (since_reset now older) (after start ((position, now) ∷ older))
  unfolding after since_reset
  after-Windowed start position now [] h fresh = rw (fresh, update) (reset-Windowed position now h)
  after-Windowed start position now ((older_position, before) ∷ older) h fresh =
      update-Windowed position older_position now before _ _ h
        (after-Windowed start older_position before older h fresh)
