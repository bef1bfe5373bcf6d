-- ===== src/Dag/Belongs.antt =====
-- node-implementation/dag.go: doesTxBelongToIndex.
pub mod Partition
use Prim.Native.Nat.{bit_xor}
use native.Mathlib.Nat.{pow-suc, div-div-eq-div-mul}
use ssle_dag.Prelude.{
  ℕ, zero, suc, ◌+◌, ◌-◌, ◌*◌, ◌/◌, ◌%◌, ◌^◌, ◌≤◌, ◌<◌, ◌≡◌, refl, Bool, true, false, arith, ltb,
  true≢false, le→ltb_false, ltb→lt, ◌==◌, if◌then◌else◌, Outcome, ok, panic, Bool-cases, inl, inr,
  ap, sym, ◌∙◌, ==_iff, ==_refl,
}
use ssle_dag.Prelude.Bits.{bit_xor-eq_zero, bit_xor_self, pow_pos, div-pow-add}
use ssle_dag.Messages.{Transaction}
use ssle_dag.Dag.Mask.{hash_hex_len}

-- The loop, `rounds` times from i. A shift by a negative count panics.
unfoldable pub belongs_loop : ℕ → ℕ → ℕ → ℕ → Outcome Bool
belongs_loop mask hash_mask zero i = ok true
belongs_loop mask hash_mask (suc rounds) i = elim (ltb (hash_hex_len - 1) i) [
  | true ↦ panic
  | false ↦
      let shift = hash_hex_len - i - 1 in
      elim (bit_xor (mask / 2 ^ shift) (hash_mask / 2 ^ shift) == 0) [
        | true ↦ belongs_loop mask hash_mask rounds (i + 1)
        | false ↦ ok false
      ]
]

-- `index << 13`, for an index whose shift fits an int.
unfoldable pub does_tx_belong_to_index : Transaction → ℕ → ℕ → Outcome Bool
does_tx_belong_to_index tx depth index =
    if depth == 0
    then ok (index == 0)
    else belongs_loop (index * 2 ^ (hash_hex_len - 2 - 1)) tx.hash_mask depth 0

abbrev pub shifted_eq : ℕ → ℕ → ℕ → Bool
shifted_eq a b shift = a / 2 ^ shift == b / 2 ^ shift

-- The test of one round is the equality of the two shifted numbers.
xor_test_same : (x y : ℕ) → (x == y) ≡ true → (bit_xor x y == 0) ≡ true
xor_test_same x y h = rw ((==_iff x y).0 h, bit_xor_self y)

xor_test_other : (x y : ℕ) → (x == y) ≡ false → (bit_xor x y == 0) ≡ false
xor_test_other x y h = elim (Bool-cases (bit_xor x y == 0)) [
  | inl none_set ↦
      let same : x ≡ y = bit_xor-eq_zero x y ((==_iff _ 0).0 none_set) in
      absurd (true≢false (sym ((==_iff x y).1 same) ∙ h))
  | inr some_set ↦ some_set
]

-- Numbers that differ after a shift differ after a smaller one.
pub shifted_eq_finer : (a b j k : ℕ) → shifted_eq a b (j + k) ≡ false → shifted_eq a b j ≡ false
shifted_eq_finer a b j k h = elim (Bool-cases (shifted_eq a b j)) [
  | inl same ↦
      let equal : a / 2 ^ (j + k) ≡ b / 2 ^ (j + k) =
        div-pow-add a j k ∙ ap (λ x. x / 2 ^ k) ((==_iff _ _).0 same) ∙ sym (div-pow-add b j k) in
      absurd (true≢false (sym ((==_iff _ _).1 equal) ∙ h))
  | inr other ↦ other
]

belongs_loop_same :
    (mask hash_mask rounds i : ℕ)
    → i < 16
    → shifted_eq mask hash_mask (15 - i) ≡ true
    → belongs_loop mask hash_mask (suc rounds) i ≡ belongs_loop mask hash_mask rounds (i + 1)
unfolding belongs_loop
belongs_loop_same mask hash_mask rounds i h same =
    let in_range : ltb 15 i ≡ false = le→ltb_false 15 i (omega arith) in
    let shift : 16 - i - 1 ≡ 15 - i = omega arith in
    rw (in_range, shift, xor_test_same _ _ same, belongs_loop)

belongs_loop_other :
    (mask hash_mask rounds i : ℕ)
    → i < 16
    → shifted_eq mask hash_mask (15 - i) ≡ false
    → belongs_loop mask hash_mask (suc rounds) i ≡ ok false
unfolding belongs_loop
belongs_loop_other mask hash_mask rounds i h other =
    let in_range : ltb 15 i ≡ false = le→ltb_false 15 i (omega arith) in
    let shift : 16 - i - 1 ≡ 15 - i = omega arith in
    rw (in_range, shift, xor_test_other _ _ other, belongs_loop)

belongs_loop_end : (mask hash_mask i : ℕ) → belongs_loop mask hash_mask 0 i ≡ ok true
unfolding belongs_loop
belongs_loop_end mask hash_mask i = refl

-- The rounds together test the last shift alone.
belongs_loop_lem :
    (mask hash_mask n i : ℕ)
    → i + suc n ≤ 16
    → belongs_loop mask hash_mask (suc n) i ≡ ok (shifted_eq mask hash_mask (15 - i - n))
belongs_loop_lem mask hash_mask zero i h =
    let last : 15 - i - 0 ≡ 15 - i = omega arith in
    rw last (elim (Bool-cases (shifted_eq mask hash_mask (15 - i))) [
      | inl same ↦
          belongs_loop_same mask hash_mask 0 i (omega arith) same
          ∙ belongs_loop_end mask hash_mask (i + 1)
          ∙ ap ok (sym same)
      | inr other ↦ belongs_loop_other mask hash_mask 0 i (omega arith) other ∙ ap ok (sym other)
    ])
belongs_loop_lem mask hash_mask (suc n) i h =
    elim (Bool-cases (shifted_eq mask hash_mask (15 - i))) [
      | inl same ↦
          let last : 15 - (i + 1) - n ≡ 15 - i - suc n = omega arith in
          belongs_loop_same mask hash_mask (suc n) i (omega arith) same
          ∙ belongs_loop_lem mask hash_mask n (i + 1) (omega arith)
          ∙ ap (λ shift. ok (shifted_eq mask hash_mask shift)) last
      | inr other ↦
          let sum : 15 - i - suc n + suc n ≡ 15 - i = omega arith in
          belongs_loop_other mask hash_mask (suc n) i (omega arith) other
          ∙ ap ok (sym (shifted_eq_finer mask hash_mask (15 - i - suc n) (suc n) (rw sum other)))
    ]

-- At a depth from 1 to 16 a transaction belongs to a row exactly when the top `depth` bits of its
-- mask are those of the row, moved to the top of 16 bits by the fixed shift of 13.
pub does_tx_belong_to_index_lem :
    (tx : Transaction) (depth index : ℕ)
    → 0 < depth
    → depth ≤ 16
    → does_tx_belong_to_index tx depth index
      ≡ ok (index * 2 ^ 13 / 2 ^ (16 - depth) == tx.hash_mask / 2 ^ (16 - depth))
unfolding does_tx_belong_to_index
does_tx_belong_to_index_lem tx zero index h k = absurd (omega arith)
does_tx_belong_to_index_lem tx (suc d) index h k =
    let last : 15 - 0 - d ≡ 16 - suc d = omega arith in
    let positive : (suc d == 0) ≡ false = ground arith in
    rw positive (
      belongs_loop_lem (index * 2 ^ 13) tx.hash_mask d 0 (omega arith)
      ∙ ap (λ shift. ok (shifted_eq (index * 2 ^ 13) tx.hash_mask shift)) last)
