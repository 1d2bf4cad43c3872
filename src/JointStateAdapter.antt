-- ===== src/JointStateAdapter.antt =====
-- src/joint_state_adapter.cpp: the node that brings joint states into the order of the controller's
-- joints. A `double` and a message header are opaque values; log lines are left out. `none` stands for
-- a read outside an array, which C++ leaves undefined.
pub mod Names
pub mod Reordered
pub mod Published
mod Tests
use rmp_proximity_sensor.Common.{
  ℕ, zero, suc, ◌+◌, Bool, true, false, not, String, Option, none, some, List, [], ◌∷◌, ◌++◌, ltb,
  leb, ◌==◌, length, take, get_elem?, if◌then◌else◌, ◌>>=◌, str_eq,
}

pub record JointState (Header Double : Type 0) : Type 0 where
  pub header : Header
  pub name : List String
  pub position : List Double
  pub velocity : List Double
  pub effort : List Double

pub record OrderedJointState (Double : Type 0) : Type 0 where
  pub position : List Double
  pub velocity : List Double
  pub effort : List Double

pub record Adapter : Type 0 where
  pub source_joint_names : List String
  pub target_joint_names : List String
  pub last_mapping_source : String

-- The constructor throws unless the two lists of names have the same length.
pub construct : List String → List String → Option Adapter
construct sources targets =
    if not (length sources == length targets)
    then none
    else some (record {
      source_joint_names = sources;
      target_joint_names = targets;
      last_mapping_source = "";
    })

-- The map from names to indices, as the list of its entries.
abbrev pub Indices : Type 0
Indices = List (String × ℕ)

pub find : String → Indices → Option ℕ
find key [] = none
find key ((k, v) ∷ entries) = elim (str_eq k key) [ true ↦ some v | false ↦ find key entries ]

-- An entry that is there already stays.
pub emplace : String → ℕ → Indices → Indices
emplace key v entries = elim (find key entries) [
  | none ↦ entries ++ (key, v) ∷ []
  | some _ ↦ entries
]

-- The names from `index` on are entered.
pub index_names : ℕ → List String → Indices → Indices
index_names index [] entries = entries
index_names index (n ∷ names) entries = index_names (index + 1) names (emplace n index entries)

-- `none` is the result false of the loop: a name is missing or has no position.
pub ordered_indices : Indices → ℕ → List String → Option (List ℕ)
ordered_indices entries positions [] = some []
ordered_indices entries positions (n ∷ names) = elim (find n entries) [
  | none ↦ none
  | some i ↦ elim (ltb i positions) [
    | false ↦ none
    | true ↦ (ordered_indices entries positions names >>= λ rest. some (i ∷ rest))
  ]
]

module _ {Double : Type 0} where
  pub gather : List Double → List ℕ → Option (List Double)
  gather values [] = some []
  gather values (i ∷ indices) = do
    x ← get_elem? values i
    rest ← gather values indices
    some (x ∷ rest)

  -- Velocities and efforts are taken over if there is one for each position.
  pub gather_if : Bool → List Double → List ℕ → Option (List Double)
  unfolding gather
  gather_if true values indices = gather values indices
  gather_if false values indices = some []

  -- The first `count` values, or none of them.
  abbrev pub front_or_empty : ℕ → List Double → List Double
  front_or_empty count values = if leb count (length values) then take count values else []

module _ {Header Double : Type 0} where
  pub reordered : JointState Header Double → List ℕ → Option (OrderedJointState Double)
  unfolding gather gather_if
  reordered msg indices = do
    positions ← gather msg.position indices
    velocities ← gather_if (leb (length msg.position) (length msg.velocity)) msg.velocity indices
    efforts ← gather_if (leb (length msg.position) (length msg.effort)) msg.effort indices
    some (record { position = positions; velocity = velocities; effort = efforts })

  -- `some none` is the result false, which leaves the ordered state as it is.
  pub try_reorder_by_names :
      JointState Header Double → List String → Option (Option (OrderedJointState Double))
  unfolding ordered_indices index_names reordered
  try_reorder_by_names msg names_to_match =
      if ltb (length msg.name) (length names_to_match)
      then some none
      else elim (ordered_indices (index_names 0 msg.name []) (length msg.position) names_to_match) [
        | none ↦ some none
        | some indices ↦ (reordered msg indices >>= λ state. some (some state))
      ]

  -- The state and the mapping source; `some none` is the result false.
  pub try_build_ordered_state :
      Adapter → JointState Header Double → Option (Option (OrderedJointState Double × String))
  unfolding try_reorder_by_names
  try_build_ordered_state a msg =
      if ltb (length msg.position) (length a.target_joint_names)
      then some none
      else (try_reorder_by_names msg a.target_joint_names >>= λ by_target. elim by_target [
        | some state ↦ some (some (state, "target joint names"))
        | none ↦
            (try_reorder_by_names msg a.source_joint_names >>= λ by_source. elim by_source [
              | some state ↦ some (some (state, "source joint names"))
              | none ↦
                  let count = length a.target_joint_names in
                  some (
                    some (
                      record {
                        position = take count msg.position;
                        velocity = front_or_empty count msg.velocity;
                        effort = front_or_empty count msg.effort;
                      },
                      "positional fallback",
                    ))
            ])
      ])

  -- The rest of `on_joint_state`: the adapter afterwards, and the message that it published, if any.
  pub publish_ordered :
      Adapter
      → JointState Header Double
      → Option (OrderedJointState Double × String)
      → Adapter × Option (JointState Header Double)
  publish_ordered a msg none = (a, none)
  publish_ordered a msg (some (state, mapping_source)) = (
    if not (str_eq a.last_mapping_source mapping_source)
        then record a { last_mapping_source = mapping_source }
        else a,
    some (record {
      header = msg.header;
      name = a.target_joint_names;
      position = state.position;
      velocity = state.velocity;
      effort = state.effort;
    }),
  )

  pub on_joint_state :
      Adapter → JointState Header Double → Option (Adapter × Option (JointState Header Double))
  unfolding try_build_ordered_state publish_ordered
  on_joint_state a msg =
      try_build_ordered_state a msg >>= λ built. some (publish_ordered a msg built)
