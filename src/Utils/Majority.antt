-- ===== src/Utils/Majority.antt =====
-- node-implementation/utils.go: findMajorElementInt64, findMajorElementString and sliceContainsInt.
use ssle_dag.Prelude.{
  ℕ, ◌+◌, ◌*◌, ◌/◌, ◌≤◌, ◌<◌, ◌≡◌, refl, inl, inr, Bool, true, false, List, [], ◌∷◌, arith, ltb,
  ◌==◌, if◌then◌else◌, Bytes, bytes_eq, true≢false, bytes_eq→eq, sym, ◌∙◌, length, In, here, there,
  count_if, not-In-nil, Bool-cases,
}
use ssle_dag.Prelude.Int.{ℤ, pos, eqb_ℤ, eq_of_eqb_ℤ}

-- The inner loop: how often the element stands in the list.
abbrev pub occurrences : {A : Type 0} → (A → A → Bool) → A → List A → ℕ
occurrences eqb element list = count_if (eqb element) list

module _ {A : Type 0} (eqb : A → A → Bool) (zero_value : A) where
  -- The outer loop over the rest of the list.
  major_loop : List A → List A → A × Bool
  major_loop list [] = (zero_value, false)
  major_loop list (element ∷ rest) =
      let next = major_loop list rest in
      if ltb (length list / 2) (occurrences eqb element list) then (element, true) else next

  find_major_element : List A → A × Bool
  unfolding major_loop
  find_major_element list = major_loop list list

  major_loop_fails :
      (list rest : List A)
      → (major_loop list rest).1 ≡ false
      → (a : A) → In a rest
      → 2 * occurrences eqb a list ≤ length list
  unfolding major_loop
  major_loop_fails list [] e a stands = absurd (not-In-nil stands)
  major_loop_fails list (x ∷ rest) e a (here same) =
      rw same (elim (Bool-cases (ltb (length list / 2) (occurrences eqb x list))) [
        | inl won ↦ absurd (true≢false (rw (won, major_loop) at e))
        | inr lost ↦ ground arith
      ])
  major_loop_fails list (x ∷ rest) e a (there later) =
      elim (Bool-cases (ltb (length list / 2) (occurrences eqb x list))) [
        | inl won ↦ absurd (true≢false (rw (won, major_loop) at e))
        | inr lost ↦ major_loop_fails list rest (rw (lost, major_loop) at e) a later
      ]

  major_loop_sound :
      (list rest : List A)
      → (major_loop list rest).1 ≡ true
      → length list < 2 * occurrences eqb (major_loop list rest).0 list
  unfolding major_loop
  major_loop_sound list [] e = cc
  major_loop_sound list (x ∷ rest) e = ground (arith, major_loop_sound list rest)

  -- The element that is returned with true stands in the list.
  major_loop-In :
      (list rest : List A) → (major_loop list rest).1 ≡ true → In (major_loop list rest).0 rest
  unfolding major_loop
  major_loop-In list [] e = cc
  major_loop-In list (x ∷ rest) e =
      elim (Bool-cases (ltb (length list / 2) (occurrences eqb x list))) [
        | inl won ↦ rw (won, major_loop) (here refl)
        | inr lost ↦
            rw (lost, major_loop) (there (major_loop-In list rest (rw (lost, major_loop) at e)))
      ]

  -- Two elements that each fill more than half of the list count the same places.
  majority_equal :
      ((a b : A) → eqb a b ≡ true → a ≡ b)
      → (a b : A) (list : List A) → length list < occurrences eqb a list + occurrences eqb b list
      → a ≡ b
  majority_equal reads a b [] h = absurd (omega arith)
  majority_equal reads a b (x ∷ list) h = elim (Bool-cases (eqb a x)) [
    | inl ea ↦ elim (Bool-cases (eqb b x)) [
      | inl eb ↦ reads a x ea ∙ sym (reads b x eb)
      | inr eb ↦ majority_equal reads a b list (ground arith)
    ]
    | inr ea ↦ majority_equal reads a b list (ground arith)
  ]

unfoldable pub find_major_element_int64 : List ℤ → ℤ × Bool
unfolding find_major_element
find_major_element_int64 list = find_major_element eqb_ℤ (pos 0) list

unfoldable pub find_major_element_string : List Bytes → Bytes × Bool
unfolding find_major_element
find_major_element_string list = find_major_element bytes_eq [] list

-- The search for a slot among the node's positions.
unfoldable pub slice_contains_int : List ℕ → ℕ → Bool
slice_contains_int [] element = false
slice_contains_int (e ∷ slice) element =
    if e == element then true else slice_contains_int slice element

-- What the vote promises of a list. An element that fills more than half of the list is the
-- result, with true; with false no element of the list does.
pub record Elects {A : Type 0} (eqb : A → A → Bool) (list : List A) (r : A × Bool) : Type 0 where
  pub sound : r.1 ≡ true → length list < 2 * occurrences eqb r.0 list
  pub fails : r.1 ≡ false → (a : A) → In a list → 2 * occurrences eqb a list ≤ length list
  pub unique : (a : A) → In a list → length list < 2 * occurrences eqb a list → r ≡ (a, true)

pair_eq : {A : Type 0} {p : A × Bool} {a : A} → p.0 ≡ a → p.1 ≡ true → p ≡ (a, true)
pair_eq h k = λ i. (h i, k i)

find_major_element-Elects :
    {A : Type 0} (eqb : A → A → Bool) (zero_value : A)
    → ((a b : A) → eqb a b ≡ true → a ≡ b)
    → (list : List A) → Elects eqb list (find_major_element eqb zero_value list)
unfolding find_major_element
find_major_element-Elects eqb zero_value reads list = record {
  sound = major_loop_sound eqb zero_value list list;
  fails = major_loop_fails eqb zero_value list list;
  unique = λ a stands most. elim (Bool-cases (major_loop eqb zero_value list list).1) [
    | inl won ↦
        pair_eq
          (majority_equal eqb zero_value reads _ a list
            (omega (arith, major_loop_sound eqb zero_value list list won)))
          won
    | inr lost ↦ absurd (omega (arith, major_loop_fails eqb zero_value list list lost a stands))
  ];
}

-- The vote on synchronised times returns (m, true) exactly for the majority m of the received
-- times, and (0, false) only where no received time fills more than half of them.
pub find_major_element_int64-Elects :
    (list : List ℤ) → Elects eqb_ℤ list (find_major_element_int64 list)
unfolding find_major_element_int64
find_major_element_int64-Elects list = find_major_element-Elects eqb_ℤ (pos 0) eq_of_eqb_ℤ list

-- The same vote on strings.
find_major_element_string-Elects :
    (list : List Bytes) → Elects bytes_eq list (find_major_element_string list)
unfolding find_major_element_string
find_major_element_string-Elects list = find_major_element-Elects bytes_eq [] bytes_eq→eq list

pub slice_contains_int-In :
    (slice : List ℕ) (e : ℕ) → slice_contains_int slice e ≡ true → In e slice
unfolding slice_contains_int
slice_contains_int-In [] e h = cc
slice_contains_int-In (x ∷ slice) e h = elim (Bool-cases (x == e)) [
  | inl same ↦ here (ground arith)
  | inr other ↦ there (slice_contains_int-In slice e (rw other at h))
]

In-slice_contains_int : (slice : List ℕ) (e : ℕ) → In e slice → slice_contains_int slice e ≡ true
unfolding slice_contains_int
In-slice_contains_int [] e stands = absurd (not-In-nil stands)
In-slice_contains_int (x ∷ slice) e (here same) = ground arith
In-slice_contains_int (x ∷ slice) e (there later) =
    ground (arith, In-slice_contains_int slice e later)
