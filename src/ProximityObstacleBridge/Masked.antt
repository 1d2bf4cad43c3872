-- ===== src/ProximityObstacleBridge/Masked.antt =====
-- src/proximity_obstacle_bridge.cpp: a sensor that is not enabled has no reading and no subscription,
-- and the arrays have an entry for each sensor.
use rmp_proximity_sensor.Common.{
  ℕ, zero, suc, ◌+◌, ◌≡◌, ◌≢◌, ◌<◌, refl, sym, ap, ◌∙◌, inl, inr, true, false, not, none, some,
  List, [], ◌∷◌, arith, ◌==◌, length, get_elem?, get_elem?-lt, Bool-cases,
}
use rmp_proximity_sensor.ProximityObstacleBridge.{
  Settings, Sensors, set, range_topic_enabled, refresh_at, refresh_from,
  refresh_range_subscriptions,
}

module _ {A : Type 0} where
  pub length-set :
      (xs : List A) (i : ℕ) (a : A)
      → i < length xs
      → (ys : List A) × (set xs i a ≡ some ys)
        × (length ys ≡ length xs)
        × (get_elem? ys i ≡ some a)
        × ((j : ℕ) → j ≢ i → get_elem? ys j ≡ get_elem? xs j)
  unfolding set
  length-set [] i a h = absurd (omega arith)
  length-set (x ∷ xs) zero a h = (a ∷ xs, refl, refl, refl, λ j other. elsewhere j other)
    where
      elsewhere : (j : ℕ) → j ≢ 0 → get_elem? (a ∷ xs) j ≡ get_elem? (x ∷ xs) j
      elsewhere zero other = absurd (other refl)
      elsewhere (suc j) other = refl
  length-set (x ∷ xs) (suc i) a h =
      let (ys, e, same_length, here, others) = length-set xs i a (omega arith) in
      (x ∷ ys, rw e refl, omega (arith, same_length), here, λ j other. elsewhere ys others j other)
    where
      elsewhere :
          (ys : List A)
          → ((j : ℕ) → j ≢ i → get_elem? ys j ≡ get_elem? xs j)
          → (j : ℕ) → j ≢ suc i
          → get_elem? (x ∷ ys) j ≡ get_elem? (x ∷ xs) j
      elsewhere ys others zero other = refl
      elsewhere ys others (suc j) other = others j (λ e. other (ap suc e))

module _ {Double : Type 0} (settings : Settings Double) where
  -- An entry for each topic.
  pub record IsAligned (s : Sensors Double) : Type 0 where
    pub ranges_aligned : length s.latest_ranges ≡ length settings.range_topics
    pub subs_aligned : length s.range_subs ≡ length settings.range_topics
    pub enabled_aligned : length s.sensor_enabled ≡ length settings.range_topics

  -- The subscription and the reading of one sensor are as its switches say.
  pub record IsMaskedAt (s : Sensors Double) (i : ℕ) : Type 0 where
    pub subscribed : get_elem? s.range_subs i ≡ some (range_topic_enabled settings s i)
    pub no_reading :
        range_topic_enabled settings s i ≡ false → get_elem? s.latest_ranges i ≡ some none

  -- The switches are the same.
  pub record SameSwitches (s s' : Sensors Double) : Type 0 where
    pub enabled_same : s'.sensor_enabled ≡ s.sensor_enabled
    pub all_same : s'.enable_proximity_distance_1_4 ≡ s.enable_proximity_distance_1_4

  -- The refresh does not touch what the flag has set.
  abbrev pub SameGate : Sensors Double → Sensors Double → Type 0
  SameGate s s' =
      (s'.rmp_active ≡ s.rmp_active)
      × (s'.obstacles_cleared_for_inactive ≡ s.obstacles_cleared_for_inactive)

  pub same-range_topic_enabled :
      (s s' : Sensors Double) (i : ℕ)
      → SameSwitches s s'
      → range_topic_enabled settings s' i ≡ range_topic_enabled settings s i
  unfolding range_topic_enabled
  same-range_topic_enabled s s' i e = rw (e.enabled_same, e.all_same) refl

  -- What a round of the refresh does: sensor `i` is masked afterwards, the others are as before.
  record Refreshed (s : Sensors Double) (i : ℕ) (s' : Sensors Double) : Type 0 where
    aligned : IsAligned s'
    switches : SameSwitches s s'
    gate : SameGate s s'
    masked : IsMaskedAt s' i
    others_ranges : (j : ℕ) → j ≢ i → get_elem? s'.latest_ranges j ≡ get_elem? s.latest_ranges j
    others_subs : (j : ℕ) → j ≢ i → get_elem? s'.range_subs j ≡ get_elem? s.range_subs j

  refresh_at-Refreshed :
      (i : ℕ) (s : Sensors Double)
      → IsAligned s
      → i < length settings.range_topics
      → (s' : Sensors Double) × (refresh_at settings i s ≡ some s') × Refreshed s i s'
  unfolding refresh_at
  refresh_at-Refreshed i s a h = elim (Bool-cases (not (range_topic_enabled settings s i))) [
    | inl off ↦
        let (ranges, e, ranges_length, no_range, ranges_same) =
          length-set s.latest_ranges i none (omega (arith, h, a.ranges_aligned)) in
        let (subs, e', subs_length, no_sub, subs_same) =
          length-set s.range_subs i false (omega (arith, h, a.subs_aligned)) in
        let is_off : range_topic_enabled settings s i ≡ false = ground arith in
        let same : SameSwitches s (record s { latest_ranges = ranges; range_subs = subs }) =
          record { enabled_same = refl; all_same = refl } in
        rw (off, e, e')
          (
            _,
            refl,
            record {
              aligned = record {
                ranges_aligned = ranges_length ∙ a.ranges_aligned;
                subs_aligned = subs_length ∙ a.subs_aligned;
                enabled_aligned = a.enabled_aligned;
              };
              switches = same;
              gate = (refl, refl);
              masked = record {
                subscribed = no_sub ∙ ap some (sym (same-range_topic_enabled s _ i same ∙ is_off));
                no_reading = λ _. no_range;
              };
              others_ranges = ranges_same;
              others_subs = subs_same;
            },
          )
    | inr on ↦
        let is_on : range_topic_enabled settings s i ≡ true = ground arith in
        let (subscribed, at_i) = get_elem?-lt s.range_subs i (omega (arith, h, a.subs_aligned)) in
        elim (Bool-cases subscribed) [
          | inl has ↦
              rw (on, at_i, has)
                (
                  s,
                  refl,
                  record {
                    aligned = a;
                    switches = record { enabled_same = refl; all_same = refl };
                    gate = (refl, refl);
                    masked = record {
                      subscribed = at_i ∙ ap some (has ∙ sym is_on);
                      no_reading = λ off. absurd (ground arith);
                    };
                    others_ranges = λ j other. refl;
                    others_subs = λ j other. refl;
                  },
                )
          | inr lacks ↦
              let (subs, e, subs_length, sub, subs_same) =
                length-set s.range_subs i true (omega (arith, h, a.subs_aligned)) in
              let same : SameSwitches s (record s { range_subs = subs }) = record {
                enabled_same = refl;
                all_same = refl;
              } in
              let still_on : range_topic_enabled settings (record s { range_subs = subs }) i
                  ≡ true =
                same-range_topic_enabled s _ i same ∙ is_on in
              rw (on, at_i, lacks, e)
                (
                  _,
                  refl,
                  record {
                    aligned = record {
                      ranges_aligned = a.ranges_aligned;
                      subs_aligned = subs_length ∙ a.subs_aligned;
                      enabled_aligned = a.enabled_aligned;
                    };
                    switches = same;
                    gate = (refl, refl);
                    masked = record {
                      subscribed = sub ∙ ap some (sym still_on);
                      no_reading = λ off. absurd (ground arith);
                    };
                    others_ranges = λ j other. refl;
                    others_subs = subs_same;
                  },
                )
        ]
  ]

  -- The rounds before `index` have masked their sensors.
  abbrev MaskedBelow : ℕ → Sensors Double → Type 0
  MaskedBelow index s = (i : ℕ) → i < index → IsMaskedAt s i

  Refreshed-below :
      (s s' : Sensors Double) (index : ℕ)
      → Refreshed s index s'
      → MaskedBelow index s
      → MaskedBelow (index + 1) s'
  Refreshed-below s s' index r below i h = elim (Bool-cases (i == index)) [
    | inl here ↦ let same : index ≡ i = ground arith in rw same at r.masked
    | inr there ↦
        let other : i ≢ index = λ e. ground arith in
        let m = below i (ground arith) in
        let switch = same-range_topic_enabled s s' i r.switches in
        record {
          subscribed = r.others_subs i other ∙ m.subscribed ∙ ap some (sym switch);
          no_reading = λ off. r.others_ranges i other ∙ m.no_reading (sym switch ∙ off);
        }
  ]

  refresh_from-masks :
      (count index : ℕ) (s : Sensors Double)
      → IsAligned s
      → count + index ≡ length settings.range_topics
      → MaskedBelow index s
      → (s' : Sensors Double) × (refresh_from settings count index s ≡ some s')
        × IsAligned s'
        × MaskedBelow (length settings.range_topics) s'
        × SameGate s s'
  unfolding refresh_from
  refresh_from-masks zero index s a e below =
      (s, refl, a, (λ i h. below i (omega arith)), (refl, refl))
  refresh_from-masks (suc count) index s a e below =
      let (s1, e1, r) = refresh_at-Refreshed index s a (omega arith) in
      let (s', e', aligned, done, (active, cleared)) =
        refresh_from-masks count (index + 1) s1 r.aligned (omega arith)
          (Refreshed-below s s1 index r below) in
      rw (e1, e') (s', refl, aligned, done, (active ∙ r.gate.0, cleared ∙ r.gate.1))

  -- The invariant of the node.
  pub record IsMasked (s : Sensors Double) : Type 0 where
    pub aligned : IsAligned s
    pub masked : (i : ℕ) → i < length settings.range_topics → IsMaskedAt s i

  pub refresh_range_subscriptions-IsMasked :
      (s : Sensors Double)
      → IsAligned s
      → (s' : Sensors Double) × (refresh_range_subscriptions settings s ≡ some s')
        × IsMasked s'
        × SameGate s s'
  unfolding refresh_range_subscriptions
  refresh_range_subscriptions-IsMasked s a =
      let (s', e, aligned, below, gate) =
        refresh_from-masks (length settings.range_topics) 0 s a (omega arith)
          (λ i h. absurd (omega arith)) in
      (s', e, record { aligned = aligned; masked = below }, gate)
