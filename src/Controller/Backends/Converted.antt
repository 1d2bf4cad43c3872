-- ===== src/Controller/Backends/Converted.antt =====
-- src/rmpflow_controller_node.cpp: `joint_state_to_robot_state` against a look-up by names.
use rmp_proximity_sensor.Common.{
  ◌>>=◌, ℕ, zero, suc, ◌+◌, ◌≤◌, ◌<◌, ◌≡◌, refl, sym, ap, ◌∙◌, inl, inr, Bool, true, false, String,
  Option, none, some, List, [], ◌∷◌, ◌++◌, map, arith, ltb, leb, length, get_elem?, get_elem?-ge,
  get_or, if◌then◌else◌, Bool-cases, Option-cases, append_assoc, length-append,
}
use rmp_proximity_sensor.JointStateAdapter.{JointState, find, index_names}
use rmp_proximity_sensor.JointStateAdapter.Names.{beside, beside-find}
use rmp_proximity_sensor.Controller.{RobotState, joint_names}
use rmp_proximity_sensor.Controller.Backends.{
  set_at, set_joint, assign_named, assign_in_order, fall_back, joint_state_to_robot_state,
}

module _ {A : Type 0} where
  set_at-append :
      (i : ℕ) (x y : A) (written rest : List A)
      → length written ≡ i
      → set_at i x (written ++ y ∷ rest) ≡ (written ++ x ∷ []) ++ rest
  unfolding set_at
  set_at-append i x y [] rest h = rw (sym h) refl
  set_at-append zero x y (w ∷ written) rest h = absurd (omega arith)
  set_at-append (suc i) x y (w ∷ written) rest h =
      ap (◌∷◌ w) (set_at-append i x y written rest (omega arith))

  abbrev value_or : A → Option A → A
  value_or d none = d
  value_or d (some x) = x

  get_elem?-get_or :
      (xs : List A) (i : ℕ) (d : A) → i < length xs → get_elem? xs i ≡ some (get_or xs i d)
  get_elem?-get_or [] i d h = absurd (omega arith)
  get_elem?-get_or (x ∷ xs) zero d h = refl
  get_elem?-get_or (x ∷ xs) (suc i) d h = get_elem?-get_or xs i d (omega arith)

  get_or-get_elem? : (xs : List A) (i : ℕ) (d : A) → get_or xs i d ≡ value_or d (get_elem? xs i)
  get_or-get_elem? [] i d = refl
  get_or-get_elem? (x ∷ xs) zero d = refl
  get_or-get_elem? (x ∷ xs) (suc i) d = get_or-get_elem? xs i d

module _ {Double : Type 0} where
  -- The joints from `index` on are set one by one.
  write : ℕ → List (Double × Double) → RobotState Double → RobotState Double
  write index [] state = state
  write index ((x, v) ∷ values) state = write (index + 1) values (set_joint index x v state)

  write-all :
      (i : ℕ) (values : List (Double × Double)) (done vdone rest vrest : List Double)
      → length done ≡ i
      → length vdone ≡ i
      → length rest ≡ length values
      → length vrest ≡ length values
      → write i values (record { q = done ++ rest; qd = vdone ++ vrest })
        ≡ record { q = done ++ map (λ p. p.0) values; qd = vdone ++ map (λ p. p.1) values }
  unfolding write set_joint
  write-all i [] done vdone [] [] h hv e ev = refl
  write-all i [] done vdone (y ∷ rest) vrest h hv e ev = absurd (omega arith)
  write-all i [] done vdone [] (y ∷ vrest) h hv e ev = absurd (omega arith)
  write-all i ((x, v) ∷ values) done vdone [] vrest h hv e ev = absurd (omega arith)
  write-all i ((x, v) ∷ values) done vdone (y ∷ rest) [] h hv e ev = absurd (omega arith)
  write-all i ((x, v) ∷ values) done vdone (y ∷ rest) (u ∷ vrest) h hv e ev =
      rw (set_at-append i x y done rest h, set_at-append i v u vdone vrest hv)
        (write-all (i + 1) values (done ++ x ∷ []) (vdone ++ v ∷ []) rest vrest
            (omega (arith, length-append done (x ∷ [])))
            (omega (arith, length-append vdone (v ∷ []))) (omega arith) (omega arith)
          ∙ rw (append_assoc done, append_assoc vdone) refl)

  length-set_at :
      (i : ℕ) (x : Double) (values : List Double) → length (set_at i x values) ≡ length values
  unfolding set_at
  length-set_at i x [] = refl
  length-set_at zero x (y ∷ values) = refl
  length-set_at (suc i) x (y ∷ values) = omega (arith, length-set_at i x values)

  write-whole :
      (values : List (Double × Double)) (state : RobotState Double)
      → length state.q ≡ length values
      → length state.qd ≡ length values
      → write 0 values state ≡ record { q = map (λ p. p.0) values; qd = map (λ p. p.1) values }
  write-whole values state h hv = write-all 0 values [] [] state.q state.qd refl refl h hv

module _ {Header Double : Type 0} (zero_value : Double) (msg : JointState Header Double) where
  -- The position and velocity beside each name, if there is a position for every name.
  pub named_values : List String → Option (List (Double × Double))
  named_values [] = some []
  named_values (key ∷ keys) = do
    x ← beside msg.name msg.position key
    rest ← named_values keys
    some ((x, value_or zero_value (beside msg.name msg.velocity key)) ∷ rest)

  -- The first six positions and velocities.
  abbrev pub front_values : List (Double × Double)
  front_values =
      map (λ i. (get_or msg.position i zero_value, get_or msg.velocity i zero_value))
        (0 ∷ 1 ∷ 2 ∷ 3 ∷ 4 ∷ 5 ∷ [])

  pub joint_values : List (Double × Double)
  unfolding named_values
  joint_values = elim (if leb 6 (length msg.name) then named_values joint_names else none) [
    | none ↦ front_values
    | some values ↦ values
  ]

  assign_in_order-write :
      (state : RobotState Double)
      → 6 ≤ length msg.position
      → assign_in_order zero_value msg 0 joint_names state ≡ some (write 0 front_values state)
  unfolding assign_in_order write
  assign_in_order-write state h =
      let at_front : (i : ℕ)
          → i < 6
          → get_elem? msg.position i ≡ some (get_or msg.position i zero_value) =
        λ i inside. get_elem?-get_or msg.position i zero_value (omega (arith, h, inside)) in
      rw
        (
          at_front 0 (omega arith),
          at_front 1 (omega arith),
          at_front 2 (omega arith),
          at_front 3 (omega arith),
          at_front 4 (omega arith),
          at_front 5 (omega arith),
        )
        refl

  abbrev Assigned :
      ℕ
      → RobotState Double
      → Option (Bool × RobotState Double)
      → Option (List (Double × Double))
      → Type 0
  Assigned index state result (some values) = result ≡ some (true, write index values state)
  Assigned index state result none =
      (left : RobotState Double) × (result ≡ some (false, left))
      × (length left.q ≡ length state.q)
      × (length left.qd ≡ length state.qd)

  Assigned-more :
      (index at_name : ℕ) (x v : Double) (state : RobotState Double)
      (rest : Option (List (Double × Double))) (result : Option (Bool × RobotState Double))
      → Assigned (index + 1) (set_joint index x v state) result rest
      → Assigned index state result (rest >>= λ values. some ((x, v) ∷ values))
  unfolding write set_joint
  Assigned-more index at_name x v state (some values) result e = e
  Assigned-more index at_name x v state none result (left, e, h, hv) =
      (left, e, h ∙ length-set_at index x state.q, hv ∙ length-set_at index v state.qd)

  assign_named-Assigned :
      (index : ℕ) (keys : List String) (state : RobotState Double)
      → Assigned index state
          (assign_named zero_value msg (index_names 0 msg.name []) index keys state)
          (named_values keys)
  unfolding assign_named named_values write
  assign_named-Assigned index [] state = refl
  assign_named-Assigned index (key ∷ keys) state =
      elim (Option-cases (find key (index_names 0 msg.name []))) [
        | inl missing ↦
            rw (missing, assign_named, beside-find msg.name msg.position key, missing)
              (state, refl, refl, refl)
        | inr (i, found) ↦
            let beside_at : (values : List Double)
                → beside msg.name values key ≡ get_elem? values i =
              λ values. beside-find msg.name values key ∙ ap (λ o. o >>= get_elem? values) found in
            elim (Bool-cases (leb (length msg.position) i)) [
              | inl outside ↦
                  rw
                    (
                      found,
                      outside,
                      assign_named,
                      beside_at msg.position,
                      get_elem?-ge msg.position i (ground arith),
                    )
                    (state, refl, refl, refl)
              | inr inside ↦
                  let x = get_or msg.position i zero_value in
                  let v = get_or msg.velocity i zero_value in
                  rw
                    (
                      found,
                      inside,
                      assign_named,
                      beside_at msg.position,
                      beside_at msg.velocity,
                      sym (get_or-get_elem? msg.velocity i zero_value),
                      get_elem?-get_or msg.position i zero_value (ground arith),
                    )
                    (Assigned-more index i x v state (named_values keys) _
                      (assign_named-Assigned (index + 1) keys (set_joint index x v state)))
            ]
      ]

  length-named_values :
      (keys : List String) (values : List (Double × Double))
      → named_values keys ≡ some values
      → length values ≡ length keys
  unfolding named_values
  length-named_values [] values e = ground arith
  length-named_values (key ∷ keys) values e =
      elim (Option-cases (beside msg.name msg.position key)) [
        | inl missing ↦ ground arith
        | inr (x, here) ↦ elim (Option-cases (named_values keys)) [
          | inl missing ↦ ground arith
          | inr (rest, all) ↦ ground (arith, length-named_values keys rest all)
        ]
      ]

  abbrev pub state_of : List (Double × Double) → RobotState Double
  state_of values = record { q = map (λ p. p.0) values; qd = map (λ p. p.1) values }

  fall_back-front :
      (state : RobotState Double)
      → 6 ≤ length msg.position
      → length state.q ≡ 6
      → length state.qd ≡ 6
      → fall_back zero_value msg (false, state) ≡ some (true, state_of front_values)
  unfolding fall_back
  fall_back-front state h e ev =
      rw (assign_in_order-write state h, write-whole front_values state e ev) refl

  after_names :
      (state : RobotState Double) (o : Option (List (Double × Double)))
      (result : Option (Bool × RobotState Double))
      → Assigned 0 state result o
      → ((values : List (Double × Double)) → o ≡ some values → length values ≡ 6)
      → 6 ≤ length msg.position
      → length state.q ≡ 6
      → length state.qd ≡ 6
      → (result >>= fall_back zero_value msg)
        ≡ some (true, state_of (elim o [ none ↦ front_values | some values ↦ values ]))
  unfolding fall_back
  after_names state none result (left, is, same, vsame) all h e ev =
      rw is (fall_back-front left h (same ∙ e) (vsame ∙ ev))
  after_names state (some values) result is all h e ev =
      let six = all values refl in
      rw (is, write-whole values state (e ∙ sym six) (ev ∙ sym six)) refl

  -- A state of six joints is never read or written outside an array. Whatever joint state comes in, the
  -- conversion refuses it exactly if it has fewer than six positions, and then leaves the state alone.
  -- Otherwise each joint has the position beside its name's first occurrence if every joint's name
  -- has one, else the position of its index; a velocity that is missing there is zero.
  pub joint_state_to_robot_state-joint_values :
      (state : RobotState Double)
      → length state.q ≡ 6
      → length state.qd ≡ 6
      → joint_state_to_robot_state zero_value msg state ≡ (
          if ltb (length msg.position) 6
          then some (false, state)
          else some (true, state_of joint_values))
  unfolding joint_state_to_robot_state joint_values
  joint_state_to_robot_state-joint_values state e ev =
      elim (Bool-cases (ltb (length msg.position) 6)) [
        | inl few ↦ rw few refl
        | inr enough ↦ elim (Bool-cases (leb 6 (length msg.name))) [
          | inl named ↦
              rw (enough, named, joint_values)
                (after_names state (named_values joint_names) _
                  (assign_named-Assigned 0 joint_names state)
                  (λ values all. length-named_values joint_names values all) (ground arith) e ev)
          | inr unnamed ↦
              rw (enough, unnamed, joint_values) (fall_back-front state (ground arith) e ev)
        ]
      ]
