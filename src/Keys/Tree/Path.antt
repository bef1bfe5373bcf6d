-- ===== src/Keys/Tree/Path.antt =====
-- What the path of a leaf is worth: the circuit gets from the leaf to the root of the tree.
use Prim.Native.Nat.{bit_and, bit_xor}
use ssle_dag.Prelude.{
  ℕ, zero, suc, ◌+◌, ◌*◌, ◌/◌, ◌%◌, ◌^◌, ◌<◌, ◌≡◌, refl, List, [], ◌∷◌, some, arith, if◌then◌else◌,
  ◌==◌, ok, Bytes, length, get_elem?, get_elem?-some, get_elem?-lt, true, false,
}
use native.Mathlib.Decide.{ℕ_discrete}
use native.Mathlib.Nat.{pow-suc}
use ssle_dag.Prelude.Bits.{bit_xor_one, bit_and_one}
use ssle_dag.Keys.Tree.{hash_pairs, build_levels, node_at, path_loop, circuit_root}

module _ (mimc : List Bytes → Bytes) where
  -- A level of two nodes each becomes a level with the hashes of the pairs.
  hash_pairs-even :
      (n : ℕ) (prev : List Bytes)
      → length prev ≡ n * 2
      → (curr : List Bytes) × (hash_pairs mimc prev ≡ ok curr)
        × (length curr ≡ n)
        × ((k : ℕ) (l r : Bytes)
            → get_elem? prev (k * 2) ≡ some l
            → get_elem? prev (k * 2 + 1) ≡ some r
            → get_elem? curr k ≡ some (mimc (l ∷ r ∷ [])))
  unfolding hash_pairs
  hash_pairs-even zero [] e = ([], refl, refl, λ k l r f g. cc)
  hash_pairs-even (suc n) [] e = absurd (omega arith)
  hash_pairs-even zero (a ∷ prev) e = absurd (omega arith)
  hash_pairs-even (suc n) (a ∷ []) e = absurd (omega arith)
  hash_pairs-even (suc n) (a ∷ b ∷ prev) e =
      let (curr, h, len, at) = hash_pairs-even n prev (omega arith) in
      (mimc (a ∷ b ∷ []) ∷ curr, rw h refl, omega arith, shift curr at)
    where
      shift :
          (curr : List Bytes)
          → ((k : ℕ) (l r : Bytes)
              → get_elem? prev (k * 2) ≡ some l
              → get_elem? prev (k * 2 + 1) ≡ some r
              → get_elem? curr k ≡ some (mimc (l ∷ r ∷ [])))
          → (k : ℕ) (l r : Bytes) → get_elem? (a ∷ b ∷ prev) (k * 2) ≡ some l
          → get_elem? (a ∷ b ∷ prev) (k * 2 + 1) ≡ some r
          → get_elem? (mimc (a ∷ b ∷ []) ∷ curr) k ≡ some (mimc (l ∷ r ∷ []))
      shift curr at zero l r f g = cc
      shift curr at (suc k) l r f g =
          let double : suc k * 2 ≡ suc (suc (k * 2)) = omega arith in
          let next : suc k * 2 + 1 ≡ suc (suc (k * 2 + 1)) = omega arith in
          at k l r (rw double at f) (rw next at g)

  path_loop-cons :
      (level : List Bytes) (levels : List (List Bytes)) (i idx n : ℕ)
      → path_loop (level ∷ levels) (suc i) idx n ≡ path_loop levels i idx n
  unfolding path_loop node_at
  path_loop-cons level levels i idx zero = refl
  path_loop-cons level levels i idx (suc n) =
      rw (path_loop-cons level levels (suc i) (idx / 2) n, path_loop) refl

  -- The step of the circuit from a node to the one above it.
  circuit_step :
      (hash_pair : Bytes → Bytes → Bytes) (level curr : List Bytes) (idx : ℕ) (x y : Bytes)
      → ((l r : Bytes) → hash_pair l r ≡ mimc (l ∷ r ∷ []))
      → ((k : ℕ) (l r : Bytes)
          → get_elem? level (k * 2) ≡ some l
          → get_elem? level (k * 2 + 1) ≡ some r
          → get_elem? curr k ≡ some (mimc (l ∷ r ∷ [])))
      → get_elem? level idx ≡ some x
      → get_elem? level (bit_xor idx 1) ≡ some y
      → get_elem? curr (idx / 2)
        ≡ some
            (hash_pair (if bit_and idx 1 == 0 then x else y) (if bit_and idx 1 == 0 then y else x))
  circuit_step hash_pair level curr idx x y same at ex ey = elim (ℕ_discrete (idx % 2) 0) [
    | yes even ↦
        let here : idx ≡ idx / 2 * 2 = omega arith in
        let there : bit_xor idx 1 ≡ idx / 2 * 2 + 1 = omega (arith, bit_xor_one idx) in
        let low : (bit_and idx 1 == 0) ≡ true = rw (bit_and_one idx, even) refl in
        rw (low, same x y) (at (idx / 2) x y (rw here at ex) (rw there at ey))
    | no odd ↦
        let here : idx ≡ idx / 2 * 2 + 1 = omega arith in
        let there : bit_xor idx 1 ≡ idx / 2 * 2 = omega (arith, bit_xor_one idx) in
        let one : idx % 2 ≡ 1 = omega arith in
        let low : (bit_and idx 1 == 0) ≡ false = rw (bit_and_one idx, one) refl in
        rw (low, same y x) (at (idx / 2) y x (rw there at ey) (rw here at ex))
  ]

  -- Building the levels above a level of 2 ^ n nodes returns; so does collecting the path of each node
  -- of the level, and the circuit gets from the node along the path to the top.
  pub build_levels-path :
      (hash_pair : Bytes → Bytes → Bytes) (n : ℕ) (level : List Bytes)
      → ((l r : Bytes) → hash_pair l r ≡ mimc (l ∷ r ∷ []))
      → length level ≡ 2 ^ n
      → (levels : List (List Bytes)) × (root : Bytes) × (build_levels mimc n level ≡ ok levels)
        × (node_at levels n 0 ≡ ok root)
        × ((idx : ℕ) (x : Bytes)
            → get_elem? level idx ≡ some x
            → (nodes : List Bytes) × (indices : List ℕ) × (path_loop levels 0 idx n
                ≡ ok (nodes, indices))
              × (circuit_root hash_pair x nodes indices ≡ root))
  unfolding build_levels node_at path_loop circuit_root
  build_levels-path hash_pair zero [] same e = absurd (omega arith)
  build_levels-path hash_pair zero (x ∷ y ∷ level) same e = absurd (omega arith)
  build_levels-path hash_pair zero (x ∷ []) same e =
      ((x ∷ []) ∷ [], x, refl, refl, λ idx y f. ([], [], refl, single idx y f))
    where
      single : (idx : ℕ) (y : Bytes) → get_elem? (x ∷ []) idx ≡ some y → y ≡ x
      single zero y f = cc
      single (suc idx) y f = cc
  build_levels-path hash_pair (suc n) level same e =
      let (curr, paired, len, at) = hash_pairs-even (2 ^ n) level (omega (arith, pow-suc 2 n)) in
      let (levels, root, built, top, paths) = build_levels-path hash_pair n curr same len in
      (
        level ∷ levels,
        root,
        rw (paired, built) refl,
        top,
        λ idx x f.
            let pair = pow-suc 2 n in
            let inside : idx < length level = get_elem?-lt level idx x f in
            let (y, g) = get_elem?-some level (bit_xor idx 1) (omega (arith, bit_xor_one idx)) in
            let step = circuit_step hash_pair level curr idx x y same at f g in
            let (nodes, indices, walked, closed) = paths (idx / 2) _ step in
            (
              y ∷ nodes,
              bit_and idx 1 ∷ indices,
              rw (g, path_loop-cons level levels 0 (idx / 2) n, walked, path_loop, node_at) refl,
              closed,
            ),
      )
