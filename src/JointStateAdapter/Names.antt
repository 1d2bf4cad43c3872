-- ===== src/JointStateAdapter/Names.antt =====
-- src/joint_state_adapter.cpp: `try_reorder_by_names` against a look-up in two lists side by side.
use rmp_proximity_sensor.Common.{
  ℕ, suc, ◌+◌, ◌≡◌, ◌≤◌, ◌<◌, refl, sym, ap, ◌∙◌, inl, inr, true, false, String, Option, none, some,
  List, [], ◌∷◌, ◌++◌, arith, ltb, length, get_elem?, get_elem?-lt, get_elem?-ge, if◌then◌else◌,
  ◌>>=◌, str_eq, eq_iff, Bool-cases, Option-cases, ltb→lt,
}
use rmp_proximity_sensor.JointStateAdapter.{
  Indices, find, emplace, index_names, ordered_indices, gather,
}

-- The value that stands beside the first occurrence of a name.
pub beside : {A : Type 0} → List String → List A → String → Option A
beside [] values key = none
beside (n ∷ names) [] key = none
beside (n ∷ names) (x ∷ values) key = elim (str_eq n key) [
  | true ↦ some x
  | false ↦ beside names values key
]

pub all_beside : {A : Type 0} → List String → List A → List String → Option (List A)
all_beside names values [] = some []
all_beside names values (key ∷ keys) = do
  x ← beside names values key
  rest ← all_beside names values keys
  some (x ∷ rest)

pub length-all_beside :
    {A : Type 0} (names : List String) (values : List A) (keys : List String) (found : List A)
    → all_beside names values keys ≡ some found
    → length found ≡ length keys
unfolding all_beside
length-all_beside names values [] found e = ground arith
length-all_beside names values (key ∷ keys) found e =
    elim (Option-cases (beside names values key)) [
      | inl missing ↦ ground arith
      | inr (x, here) ↦ elim (Option-cases (all_beside names values keys)) [
        | inl missing ↦ ground arith
        | inr (rest, all) ↦ ground (arith, length-all_beside names values keys rest all)
      ]
    ]

first_index : List String → String → Option ℕ
first_index [] key = none
first_index (n ∷ names) key = elim (str_eq n key) [
  | true ↦ some 0
  | false ↦ (first_index names key >>= λ i. some (suc i))
]

abbrev or_else : {A : Type 0} → Option A → Option A → Option A
or_else none o = o
or_else (some a) o = some a

abbrev shift : ℕ → Option ℕ → Option ℕ
shift k none = none
shift k (some i) = some (k + i)

or_else-none : {A : Type 0} (o : Option A) → or_else o none ≡ o
or_else-none none = refl
or_else-none (some x) = refl

find-append :
    (key : String) (xs ys : Indices) → find key (xs ++ ys) ≡ or_else (find key xs) (find key ys)
unfolding find
find-append key [] ys = refl
find-append key ((k, v) ∷ xs) ys = elim (Bool-cases (str_eq k key)) [
  | inl same ↦ rw (same, find) refl
  | inr other ↦ rw (other, find) (find-append key xs ys)
]

or_else_assoc : {A : Type 0} (a b c : Option A) → or_else (or_else a b) c ≡ or_else a (or_else b c)
or_else_assoc none b c = refl
or_else_assoc (some x) b c = refl

find-emplace :
    (key n : String) (i : ℕ) (entries : Indices)
    → find key (emplace n i entries)
      ≡ or_else (find key entries) (if str_eq n key then some i else none)
unfolding emplace find
find-emplace key n i entries = elim (Option-cases (find n entries)) [
  | inl new ↦ elim (Bool-cases (str_eq n key)) [
    | inl same ↦
        rw (new, emplace, same) (find-append key entries ((n, i) ∷ []) ∙ rw (same, find) refl)
    | inr other ↦
        rw (new, emplace, other) (find-append key entries ((n, i) ∷ []) ∙ rw (other, find) refl)
  ]
  | inr (v, old) ↦ elim (Bool-cases (str_eq n key)) [
    | inl same ↦
        let found : find key entries ≡ some v =
          ap (λ k. find k entries) (sym ((eq_iff n key).0 same)) ∙ old in
        rw (old, emplace, found) refl
    | inr other ↦ rw (old, emplace, other) (sym (or_else-none (find key entries)))
  ]
]

find-index_names :
    (index : ℕ) (names : List String) (entries : Indices) (key : String)
    → find key (index_names index names entries)
      ≡ or_else (find key entries) (shift index (first_index names key))
unfolding index_names first_index
find-index_names index [] entries key = sym (or_else-none (find key entries))
find-index_names index (n ∷ names) entries key =
    find-index_names (index + 1) names (emplace n index entries) key
    ∙ ap (λ o. or_else o (shift (index + 1) (first_index names key)))
        (find-emplace key n index entries)
    ∙ or_else_assoc (find key entries) (if str_eq n key then some index else none)
        (shift (index + 1) (first_index names key))
    ∙ ap (or_else (find key entries)) (rest n (first_index names key))
  where
    rest :
        (n : String) (o : Option ℕ)
        → or_else (if str_eq n key then some index else none) (shift (index + 1) o)
          ≡ shift index (elim (str_eq n key) [ true ↦ some 0 | false ↦ (o >>= λ i. some (suc i)) ])
    rest n o = elim (Bool-cases (str_eq n key)) [
      | inl same ↦ ground arith
      | inr other ↦ ground arith
    ]

find-index_names_0 :
    (names : List String) (key : String) → find key (index_names 0 names []) ≡ first_index names key
unfolding find
find-index_names_0 names key = find-index_names 0 names [] key ∙ shift_0 (first_index names key)
  where
    shift_0 : (o : Option ℕ) → or_else none (shift 0 o) ≡ o
    shift_0 none = refl
    shift_0 (some i) = ground arith

module _ {A : Type 0} where
  beside-first_index :
      (names : List String) (values : List A) (key : String)
      → beside names values key ≡ (first_index names key >>= get_elem? values)
  unfolding beside first_index
  beside-first_index [] values key = refl
  beside-first_index (n ∷ names) [] key = sym (outside (first_index (n ∷ names) key))
    where
      outside : (o : Option ℕ) → (o >>= get_elem? {A = A} []) ≡ none
      outside none = refl
      outside (some i) = refl
  beside-first_index (n ∷ names) (x ∷ values) key = elim (Bool-cases (str_eq n key)) [
    | inl same ↦ rw (same, beside, first_index) refl
    | inr other ↦
        rw (other, beside, first_index)
          (beside-first_index names values key ∙ later (first_index names key))
  ]
    where
      later :
          (o : Option ℕ)
          → (o >>= get_elem? values) ≡ ((o >>= λ i. some (suc i)) >>= get_elem? (x ∷ values))
      later none = refl
      later (some i) = refl

-- A name's index leads to the value that stands beside it.
pub beside-find :
    {A : Type 0} (names : List String) (values : List A) (key : String)
    → beside names values key ≡ (find key (index_names 0 names []) >>= get_elem? values)
beside-find names values key =
    beside-first_index names values key
    ∙ ap (λ o. o >>= get_elem? values) (sym (find-index_names_0 names key))

module _ {A : Type 0} (names : List String) (positions : List A) where
  -- What the loop over the names comes to.
  abbrev pub Looked : List String → Option (List ℕ) → Type 0
  Looked keys none = all_beside names positions keys ≡ none
  Looked keys (some indices) =
      (values : List A)
      → length positions ≤ length values
      → (found : List A) × (gather values indices ≡ some found)
        × (all_beside names values keys ≡ some found)

  all_none : (o : Option A) → (o >>= λ x. (none >>= λ (rest : List A). some (x ∷ rest))) ≡ none
  all_none none = refl
  all_none (some x) = refl

  Looked-more :
      (key : String) (keys : List String) (i : ℕ) (rest : Option (List ℕ))
      → first_index names key ≡ some i
      → i < length positions
      → Looked keys rest
      → Looked (key ∷ keys) (rest >>= λ is. some (i ∷ is))
  unfolding all_beside gather
  Looked-more key keys i none e h r = rw r (all_none (beside names positions key))
  Looked-more key keys i (some is) e h r = λ values long.
      let (x, at_i) = get_elem?-lt values i (omega (arith, h, long)) in
      let (found, gathered, all) = r values long in
      let here : beside names values key ≡ some x =
        beside-first_index names values key ∙ rw e at_i in
      (x ∷ found, rw (at_i, gathered) refl, rw (here, all) refl)

  pub ordered_indices-Looked :
      (keys : List String)
      → Looked keys (ordered_indices (index_names 0 names []) (length positions) keys)
  unfolding ordered_indices all_beside gather
  ordered_indices-Looked [] = λ values long. ([], refl, refl)
  ordered_indices-Looked (key ∷ keys) = elim (Option-cases (first_index names key)) [
    | inl e ↦
        let missing : find key (index_names 0 names []) ≡ none = find-index_names_0 names key ∙ e in
        rw (missing, ordered_indices)
          (rw (beside-first_index names positions key, e, all_beside) refl)
    | inr (i, e) ↦
        let present : find key (index_names 0 names []) ≡ some i =
          find-index_names_0 names key ∙ e in
        elim (Bool-cases (ltb i (length positions))) [
          | inl inside ↦
              rw (present, inside, ordered_indices)
                (Looked-more key keys i _ e (ltb→lt i (length positions) inside)
                  (ordered_indices-Looked keys))
          | inr outside ↦
              let nothing : get_elem? positions i ≡ none =
                get_elem?-ge positions i (ground arith) in
              rw (present, outside, ordered_indices)
                (rw (beside-first_index names positions key, e, nothing, all_beside) refl)
        ]
  ]
