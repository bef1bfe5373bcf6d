-- ===== src/Utils/Point.antt =====
-- node-implementation/utils.go: compressPoint, which turns the big-endian y coordinate of a curve
-- point into its little-endian compressed form and marks the sign in the last byte.
use Prim.Native.Nat.{bit_or}
use ssle_dag.Prelude.{
  ℕ, zero, suc, ◌+◌, ◌-◌, ◌%◌, ◌≤◌, ◌<◌, ◌≡◌, refl, ◌≢◌, true, [], none, some, arith, ltb, ltb→lt,
  ◌==◌, ◌⊎◌, if◌then◌else◌, Outcome, ok, panic, ◌>>=◌, Bytes, length, get_elem?, set, length-set,
  get_elem?-some, Bool-cases, inl, inr, get_elem?-set_self, get_elem?-set_ne, ok_injective,
  >>=-eq-ok, sym, ap, ◌∙◌, ◌∷◌,
}

abbrev pub size_point_compressed : ℕ
size_point_compressed = 32

abbrev pub m_compressed_positive : ℕ
m_compressed_positive = 0

-- y[i]; an index out of range panics.
unfoldable pub read : Bytes → ℕ → Outcome ℕ
read y i = elim (get_elem? y i) [ none ↦ panic | some b ↦ ok b ]

-- `y[i], y[j] = y[j], y[i]`
unfoldable pub swap : Bytes → ℕ → ℕ → Outcome Bytes
unfolding read
swap y i j = do a ← read y i; b ← read y j; ok (set (set y i b) j a)

-- `for i, j := 0, 31; i < j; i, j = i+1, j-1`; sixteen rounds are enough.
unfoldable pub reverse_loop : ℕ → ℕ → ℕ → Bytes → Outcome Bytes
unfolding swap
reverse_loop zero i j y = ok y
reverse_loop (suc fuel) i j y =
    let round = swap y i j >>= λ y'. reverse_loop fuel (i + 1) (j - 1) y' in
    if ltb i j then round else ok y

-- ConstantTimeCopy of crypto/subtle into the 32 bytes of the result panics at another length.
unfoldable pub compress_point : Bytes → ℕ → Outcome Bytes
unfolding reverse_loop
compress_point y mask = do
  first ← read y 0
  reversed ←
      reverse_loop size_point_compressed 0 (size_point_compressed - 1)
        (set y 0 (bit_or first (mask % 256)))
  if length reversed == size_point_compressed then ok reversed else panic

-- A swap in range keeps the length; out of range it panics.
swap-ok :
    (y : Bytes) (i j : ℕ)
    → i < length y
    → j < length y
    → (z : Bytes) × (swap y i j ≡ ok z) × (length z ≡ length y)
unfolding swap
swap-ok y i j h k =
    let (a, ea) = get_elem?-some y i h in
    let (b, eb) = get_elem?-some y j k in
    (
      set (set y i b) j a,
      rw (ea, read, eb),
      omega (arith, length-set {0} (set y i b) j a, length-set {0} y i b),
    )

reverse_loop-ok :
    (fuel i j : ℕ) (y : Bytes)
    → j < length y
    → i ≤ j + 1
    → (z : Bytes) × (reverse_loop fuel i j y ≡ ok z) × (length z ≡ length y)
unfolding reverse_loop
reverse_loop-ok zero i j y h k = (y, refl, refl)
reverse_loop-ok (suc fuel) i j y h k = elim (Bool-cases (ltb i j)) [
  | inl more ↦
      let inside = ltb→lt i j more in
      let (y', e, same) = swap-ok y i j (omega arith) h in
      let (z, e', same') = reverse_loop-ok fuel (i + 1) (j - 1) y' (omega arith) (omega arith) in
      (z, rw (more, e) e', omega arith)
  | inr done ↦ (y, rw done, refl)
]

pub compress_point-nil : (mask : ℕ) → compress_point [] mask ≡ panic
unfolding compress_point
compress_point-nil mask = refl

Nat-cases : (m n : ℕ) → (m ≡ n) ⊎ (m ≢ n)
Nat-cases m n = elim (Bool-cases (m == n)) [
  | inl e ↦ inl (ground arith)
  | inr e ↦ inr (ground arith)
]

-- A swap exchanges two elements and leaves the others.
swap-get_elem? :
    (y z : Bytes) (i j k : ℕ)
    → i < length y
    → j < length y
    → i ≢ j
    → swap y i j ≡ ok z
    → (get_elem? z i ≡ get_elem? y j)
      × (get_elem? z j ≡ get_elem? y i)
      × (k ≢ i → k ≢ j → get_elem? z k ≡ get_elem? y k)
unfolding swap
swap-get_elem? y z i j k hi hj other e =
    let (a, ea) = get_elem?-some y i hi in
    let (b, eb) = get_elem?-some y j hj in
    let is : set (set y i b) j a ≡ z = ok_injective (rw (ea, read, eb) at e) in
    let inner = length-set {0} y i b in
    (
      ap (λ x. get_elem? x i) (sym is)
          ∙ get_elem?-set_ne (set y i b) j i a (λ same. other (sym same))
          ∙ get_elem?-set_self y i b hi
          ∙ sym eb,
      ap (λ x. get_elem? x j) (sym is) ∙ get_elem?-set_self (set y i b) j a (omega arith) ∙ sym ea,
      λ hk hk'.
          ap (λ x. get_elem? x k) (sym is)
          ∙ get_elem?-set_ne (set y i b) j k a (λ same. hk' (sym same))
          ∙ get_elem?-set_ne y i k b (λ same. hk (sym same)),
    )

-- The loop reverses what stands from i to j.
reverse_loop-get_elem? :
    (fuel i j k : ℕ) (y z : Bytes)
    → i + j ≡ 31
    → 16 ≤ i + fuel
    → length y ≡ 32
    → k < 32
    → reverse_loop fuel i j y ≡ ok z
    → (i ≤ k → k ≤ j → get_elem? z k ≡ get_elem? y (31 - k))
      × (k < i → get_elem? z k ≡ get_elem? y k)
      × (j < k → get_elem? z k ≡ get_elem? y k)
unfolding reverse_loop
reverse_loop-get_elem? zero i j k y z sum enough whole inside e =
    let same = ap (λ x. get_elem? x k) (sym (ok_injective e)) in
    (λ low high. absurd (omega arith), λ low. same, λ high. same)
reverse_loop-get_elem? (suc fuel) i j k y z sum enough whole inside e =
    elim (Bool-cases (ltb i j)) [
      | inr done ↦
          let same = ap (λ x. get_elem? x k) (sym (ok_injective (rw done at e))) in
          (λ low high. absurd (ground arith), λ low. same, λ high. same)
      | inl more ↦
          let below = ltb→lt i j more in
          let (y', swapped, later) =
            >>=-eq-ok (swap y i j) (λ x. reverse_loop fuel (i + 1) (j - 1) x) (rw more at e) in
          let (x, swapped', kept) = swap-ok y i j (omega arith) (omega arith) in
          let length' : length y' ≡ 32 =
            ap length (ok_injective (sym swapped ∙ swapped')) ∙ kept ∙ whole in
          let (mirrored, under, over) =
            reverse_loop-get_elem? fuel (i + 1) (j - 1) k y' z (omega arith) (omega arith) length'
              inside later in
          let at = λ (m : ℕ).
            swap-get_elem? y y' i j m (omega arith) (omega arith) (omega arith) swapped in
          let partner : 31 - i ≡ j = omega arith in
          let partner' : 31 - j ≡ i = omega arith in
          (
            λ low high. elim (Nat-cases k i) [
              | inl first ↦
                  under (omega arith)
                  ∙ ap (get_elem? y') first
                  ∙ (at k).0
                  ∙ ap (get_elem? y) (omega arith)
              | inr later_k ↦ elim (Nat-cases k j) [
                | inl last ↦
                    over (omega arith)
                    ∙ ap (get_elem? y') last
                    ∙ (at k).1
                    ∙ ap (get_elem? y) (omega arith)
                | inr between ↦
                    mirrored (omega arith) (omega arith)
                    ∙ (at (31 - k)).2 (omega arith) (omega arith)
              ]
            ],
            λ low. under (omega arith) ∙ (at k).2 (omega arith) (omega arith),
            λ high. over (omega arith) ∙ (at k).2 (omega arith) (omega arith),
          )
    ]

-- Compressing a point whose Y has 32 bytes, first and the rest, returns 32 bytes: those of Y in the opposite
-- order, where the first byte, which comes last, has the bits of the mask's lowest byte set.
pub compress_point-returns :
    (first : ℕ) (rest : Bytes) (mask k : ℕ)
    → length rest ≡ 31
    → k < 32
    → (z : Bytes) × (compress_point (first ∷ rest) mask ≡ ok z)
      × (length z ≡ 32)
      × (get_elem? z k ≡ get_elem? (bit_or first (mask % 256) ∷ rest) (31 - k))
unfolding compress_point
compress_point-returns first rest mask k h inside =
    let marked : Bytes = bit_or first (mask % 256) ∷ rest in
    let (z, e, same) = reverse_loop-ok 32 0 31 marked (omega arith) (omega arith) in
    let whole : (length z == 32) ≡ true = ground arith in
    (
      z,
      rw (read, e, whole),
      omega arith,
      (reverse_loop-get_elem? 32 0 31 k marked z refl (omega arith) (omega arith) inside e).0
          (omega arith) (omega arith),
    )
