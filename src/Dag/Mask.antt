-- ===== src/Dag/Mask.antt =====
-- node-implementation/dag.go: calculateTxHashMasks. The mask of a transaction has one bit for each
-- of the first 16 hexadecimal digits of its hash, the first digit's bit on top.
use native.Mathlib.Nat.{pow-suc, div-div-eq-div-mul}
use ssle_dag.Prelude.{
  ℕ, zero, suc, ◌+◌, ◌-◌, ◌*◌, ◌/◌, ◌%◌, ◌^◌, ◌≤◌, ◌<◌, ◌≡◌, refl, List, [], ◌∷◌, none, some, arith,
  ltb, if◌then◌else◌, Outcome, ok, panic, ◌>>=◌, Bytes, length, get_elem?, get_elem?-some,
  get_elem?-lt, All, In, here, there, not-In-nil, panic≢ok, ap, ◌⊎◌, Bool-cases, sym, ◌∙◌,
  Option-cases, inl, inr,
}
use ssle_dag.Messages.{Transaction}

abbrev pub hash_hex_len : ℕ
hash_hex_len = 16

-- The digit's bit: 0 below '8', 1 for '8' and what stands behind it.
abbrev pub digit_bit : ℕ → ℕ
digit_bit c = if ltb c b'8' then 0 else 1

-- The inner loop, `rounds` times from position i. `tx.Hash[i:][0]` panics on a shorter hash, and
-- `(txInput << 1) | b` is twice the input and b.
unfoldable pub mask_loop : Bytes → ℕ → ℕ → ℕ → Outcome ℕ
mask_loop hash zero i tx_input = ok tx_input
mask_loop hash (suc rounds) i tx_input = elim (get_elem? hash i) [
  | none ↦ panic
  | some c ↦ mask_loop hash rounds (i + 1) (tx_input * 2 + digit_bit c)
]

-- The outer loop. The source writes through the pointers; the model returns the new transactions.
unfoldable pub calculate_tx_hash_masks : List Transaction → Outcome (List Transaction)
calculate_tx_hash_masks [] = ok []
calculate_tx_hash_masks (tx ∷ txs) = do
  mask ← mask_loop tx.hash hash_hex_len 0 0
  masked ← calculate_tx_hash_masks txs
  ok (record tx { hash_mask = mask } ∷ masked)

-- The accumulated bits stay on top of those that the remaining rounds add.
mask_loop-top :
    (hash : Bytes) (rounds i acc m : ℕ) → mask_loop hash rounds i acc ≡ ok m → m / 2 ^ rounds ≡ acc
unfolding mask_loop
mask_loop-top hash zero i acc m e = ground arith
mask_loop-top hash (suc rounds) i acc m e = elim (Option-cases (get_elem? hash i)) [
  | inl missing ↦ absurd (panic≢ok (rw (missing, mask_loop) at e))
  | inr (c, found) ↦
      let step = mask_loop-top hash rounds (i + 1) _ m (rw (found, mask_loop) at e) in
      rw (pow-suc 2 rounds, ← div-div-eq-div-mul m (2 ^ rounds) 2, step) (ground arith)
]

mask_loop_bit :
    (hash : Bytes) (rounds i acc m k c : ℕ)
    → mask_loop hash rounds i acc ≡ ok m
    → k < rounds
    → get_elem? hash (i + k) ≡ some c
    → m / 2 ^ (rounds - 1 - k) % 2 ≡ digit_bit c
unfolding mask_loop
mask_loop_bit hash zero i acc m k c e h d = absurd (omega arith)
mask_loop_bit hash (suc rounds) i acc m zero c e h d =
    let at : i + 0 ≡ i = omega arith in
    let found = rw at at d in
    let top = mask_loop-top hash rounds (i + 1) _ m (rw (found, mask_loop) at e) in
    let shift : suc rounds - 1 - 0 ≡ rounds = omega arith in rw (shift, top) (ground arith)
mask_loop_bit hash (suc rounds) i acc m (suc k) c e h d = elim (Option-cases (get_elem? hash i)) [
  | inl missing ↦ absurd (panic≢ok (rw (missing, mask_loop) at e))
  | inr (c', found) ↦
      let at : i + suc k ≡ i + 1 + k = omega arith in
      let shift : suc rounds - 1 - suc k ≡ rounds - 1 - k = omega arith in
      rw shift (
        mask_loop_bit hash rounds (i + 1) _ m k c (rw (found, mask_loop) at e) (omega arith)
          (rw at at d))
]

mask_loop_total :
    (hash : Bytes) (rounds i acc : ℕ)
    → i + rounds ≤ length hash
    → (m : ℕ) × (mask_loop hash rounds i acc ≡ ok m)
unfolding mask_loop
mask_loop_total hash zero i acc h = (acc, refl)
mask_loop_total hash (suc rounds) i acc h =
    let (c, found) = get_elem?-some hash i (omega arith) in
    let (m, e) = mask_loop_total hash rounds (i + 1) (acc * 2 + digit_bit c) (omega arith) in
    (m, rw (found, mask_loop) e)

mask_loop_short :
    (hash : Bytes) (rounds i acc : ℕ)
    → length hash < i + rounds
    → i ≤ length hash
    → mask_loop hash rounds i acc ≡ panic
unfolding mask_loop
mask_loop_short hash zero i acc h k = absurd (omega arith)
mask_loop_short hash (suc rounds) i acc h k = elim (Option-cases (get_elem? hash i)) [
  | inl missing ↦ rw (missing, mask_loop)
  | inr (c, found) ↦
      rw (found, mask_loop)
        (mask_loop_short hash rounds (i + 1) (acc * 2 + digit_bit c) (omega arith)
          (omega (arith, get_elem?-lt hash i c found)))
]

-- The second transaction is the first with the mask of its hash: below 2 ^ 16, and its bit
-- 15 - k says whether digit k is '8' or stands behind it.
pub record IsMasked (tx masked : Transaction) : Type 0 where
  pub same : masked ≡ record tx { hash_mask = masked.hash_mask }
  pub small : masked.hash_mask < 2 ^ 16
  pub bits :
      (k c : ℕ)
      → k < 16
      → get_elem? tx.hash k ≡ some c
      → masked.hash_mask / 2 ^ (15 - k) % 2 ≡ digit_bit c

mask_loop-IsMasked :
    (tx : Transaction) (m : ℕ)
    → mask_loop tx.hash 16 0 0 ≡ ok m
    → IsMasked tx (record tx { hash_mask = m })
mask_loop-IsMasked tx m e = record {
  same = refl;
  small = ground (arith, mask_loop-top tx.hash 16 0 0 m e);
  bits = λ k c h found.
      mask_loop_bit tx.hash 16 0 0 m k c e h (let at : 0 + k ≡ k = omega arith in rw at found);
}

-- The same for two lists, place by place.
abbrev pub AllMasked : List Transaction → List Transaction → Type 0
AllMasked [] [] = Unit
AllMasked (tx ∷ txs) (masked ∷ out) = IsMasked tx masked × AllMasked txs out
AllMasked _ _ = ⊥

calculate_tx_hash_masks-AllMasked :
    (txs : List Transaction)
    → All (λ tx. 16 ≤ length tx.hash) txs
    → (out : List Transaction) × (calculate_tx_hash_masks txs ≡ ok out) × AllMasked txs out
unfolding calculate_tx_hash_masks
calculate_tx_hash_masks-AllMasked [] h = ([], refl, tt)
calculate_tx_hash_masks-AllMasked (t ∷ txs) (long, rest) =
    let (m, e) = mask_loop_total t.hash 16 0 0 (omega arith) in
    let (out, eo, masked) = calculate_tx_hash_masks-AllMasked txs rest in
    (record t { hash_mask = m } ∷ out, rw (e, eo), (mask_loop-IsMasked t m e, masked))

-- A loop that panics after another that may not have returned.
>>=_panic {ℓ κ} :
    {A : Type ℓ} {B : Type κ} (m : Outcome A) (f : A → Outcome B)
    → ((m ≡ panic) ⊎ ((a : A) × (m ≡ ok a)))
    → ((a : A) → f a ≡ panic)
    → (m >>= f) ≡ panic
>>=_panic m f (inl e) h = rw e
>>=_panic m f (inr (a, e)) h = rw e (h a)

mask_loop_cases :
    (hash : Bytes) → (mask_loop hash 16 0 0 ≡ panic) ⊎ ((m : ℕ) × (mask_loop hash 16 0 0 ≡ ok m))
mask_loop_cases hash = elim (Bool-cases (ltb (length hash) 16)) [
  | inl short ↦ inl (mask_loop_short hash 16 0 0 (ground arith) (omega arith))
  | inr long ↦ inr (mask_loop_total hash 16 0 0 (ground arith))
]

calculate_tx_hash_masks_short :
    (txs : List Transaction) (tx : Transaction)
    → In tx txs
    → length tx.hash < 16
    → calculate_tx_hash_masks txs ≡ panic
unfolding calculate_tx_hash_masks
calculate_tx_hash_masks_short [] tx stands short = absurd (not-In-nil stands)
calculate_tx_hash_masks_short (t ∷ txs) tx (here same) short =
    let fails = mask_loop_short tx.hash 16 0 0 (omega arith) (omega arith) in
    rw (ap (λ x. mask_loop x.hash 16 0 0) (sym same) ∙ fails)
calculate_tx_hash_masks_short (t ∷ txs) tx (there later) short =
    let rest = calculate_tx_hash_masks_short txs tx later short in
    >>=_panic (mask_loop t.hash 16 0 0) _ (mask_loop_cases t.hash) (λ m. rw rest)

-- On hashes of at least 16 digits the masks are computed for every transaction, in order; a single
-- shorter hash among them panics.
pub calculate_tx_hash_masks_lem :
    (txs : List Transaction)
    → (All (λ tx. 16 ≤ length tx.hash) txs
        → (out : List Transaction) × (calculate_tx_hash_masks txs ≡ ok out) × AllMasked txs out)
      × ((tx : Transaction) → In tx txs → length tx.hash < 16 → calculate_tx_hash_masks txs ≡ panic)
calculate_tx_hash_masks_lem txs =
    (calculate_tx_hash_masks-AllMasked txs, calculate_tx_hash_masks_short txs)

-- On transactions whose hashes have at least 16 characters the masks are computed: the result holds
-- the same transactions in their order, each with a mask of 16 bits, of which bit 15 - k says whether
-- character k of the hash is '8' or a later one.
pub calculate_tx_hash_masks-returns :
    (txs : List Transaction)
    → All (λ tx. 16 ≤ length tx.hash) txs
    → (out : List Transaction) × (calculate_tx_hash_masks txs ≡ ok out) × AllMasked txs out
calculate_tx_hash_masks-returns txs h = (calculate_tx_hash_masks_lem txs).0 h
