-- ===== src/Dag/Rows/Alignment.antt =====
-- node-implementation/dag.go: what getSplitSecondIndex and getMergeSecondIndex compute together.
use native.Mathlib.Nat.{pow-suc, mul-div_cancel}
use native.Mathlib.Decide.{ℕ_discrete}
use ssle_dag.Prelude.{
  ℕ, zero, suc, ◌+◌, ◌-◌, ◌*◌, ◌/◌, ◌%◌, ◌^◌, ◌≤◌, ◌<◌, ◌≡◌, refl, ◌≢◌, Bool, true, false, arith,
  ltb, leb, ◌==◌, le→ltb_false, lt→leb_false, if◌then◌else◌, ◌||◌, [], ap, ◌∙◌, subst,
}
use ssle_dag.Prelude.Int.{ℤ, pos, negsuc, eqb_ℤ, eq_of_eqb_ℤ}
use ssle_dag.Prelude.Bits.{pow_pos, pow-add, pow_mono}
use ssle_dag.Config.{Settings, IsConfigured}
use ssle_dag.Dag.Rows.{get_split_second_index, get_merge_second_index}

-- The settings with a maximal depth and nothing else.
abbrev depth_only : ℕ → Settings
depth_only k = record {
  num_of_nodes = 0;
  num_of_other_nodes = pos 0;
  min_commitment_var = 0;
  max_commitment_var = 0;
  block_time_seconds = 0;
  dag_parallel_len = 2 ^ k;
  epoch_size_rounds = 0;
  epoch_size = 0;
  processed_tx_per_block = 0;
  min_tx_to_split = 0;
  min_tx_to_merge = 0;
  random_shuffle_hex = [];
  dag_max_depth = k;
}

get_merge_second_index-depth_only :
    (c : Settings) (index depth : ℕ)
    → IsConfigured c
    → get_merge_second_index c index depth
      ≡ get_merge_second_index (depth_only c.dag_max_depth) index depth
unfolding get_merge_second_index get_split_second_index
get_merge_second_index-depth_only c index depth h = rw h.parallel

-- A row starts a merge at a depth when it is a multiple of twice the distance of the pair.
abbrev expected_merge : ℕ → ℕ → ℕ → ℤ
expected_merge max index depth =
    if index % 2 ^ (max - depth + 1) == 0 then pos (index + 2 ^ (max - depth)) else negsuc 0

-- A test passes on every number from a first one on, as many as given.
range_passes : (ℕ → Bool) → ℕ → ℕ → Bool
range_passes test first zero = true
range_passes test first (suc count) =
    let later = range_passes test (first + 1) count in if test first then later else false

range_passes-at :
    (test : ℕ → Bool) (first count i : ℕ)
    → range_passes test first count ≡ true
    → first ≤ i
    → i < first + count
    → test i ≡ true
unfolding range_passes
range_passes-at test first zero i passes low high = absurd (omega arith)
range_passes-at test first (suc count) i passes low high = elim (ℕ_discrete first i) [
  | yes here ↦ subst (λ n. test n ≡ true) here (ground arith)
  | no past ↦ range_passes-at test (first + 1) count i (ground arith) (omega arith) (omega arith)
]

abbrev row_agrees : ℕ → ℕ → ℕ → Bool
row_agrees max depth index =
    depth == 0
    || ltb max depth
    || leb (2 ^ max) index
    || eqb_ℤ (get_merge_second_index (depth_only max) index depth) (expected_merge max index depth)

abbrev depth_agrees : ℕ → ℕ → Bool
depth_agrees max depth = range_passes (row_agrees max depth) 0 64

abbrev max_agrees : ℕ → Bool
max_agrees max = range_passes (depth_agrees max) 0 7

merge_table : range_passes max_agrees 0 7 ≡ true
unfolding range_passes get_merge_second_index get_split_second_index
merge_table = refl

fourth : (a b d e : Bool) → a || b || d || e ≡ true → a ≡ false → b ≡ false → d ≡ false → e ≡ true
fourth a b d e h ha hb hd = ground arith

-- In a graph of at most 64 rows a row starts a merge at a depth exactly when its index is a multiple
-- of twice the distance 2 ^ (dagMaxDepth - depth); the other row stands at that distance. Every
-- other row gets -1.
pub get_merge_second_index_lem :
    (c : Settings) (index depth : ℕ)
    → IsConfigured c
    → c.dag_max_depth ≤ 6
    → 0 < depth
    → depth ≤ c.dag_max_depth
    → index < 2 ^ c.dag_max_depth
    → get_merge_second_index c index depth ≡ (
        if index % 2 ^ (c.dag_max_depth - depth + 1) == 0
        then pos (index + 2 ^ (c.dag_max_depth - depth))
        else negsuc 0)
get_merge_second_index_lem c index depth h small low high inside =
    let max : ℕ = c.dag_max_depth in
    let bound : index < 64 = omega (arith, pow_mono max 6 small) in
    let depths : max_agrees max ≡ true =
      range_passes-at max_agrees 0 7 max merge_table (omega arith) (omega arith) in
    let rows : depth_agrees max depth ≡ true =
      range_passes-at (depth_agrees max) 0 7 depth depths (omega arith) (omega arith) in
    let row : row_agrees max depth index ≡ true =
      range_passes-at (row_agrees max depth) 0 64 index rows (omega arith) (omega arith) in
    get_merge_second_index-depth_only c index depth h
    ∙ eq_of_eqb_ℤ _ _ (
        fourth (depth == 0) _ _ _ row (ground arith) (le→ltb_false max depth high)
          (lt→leb_false (2 ^ max) index inside))

-- Splitting at a positive depth moves by the distance of the pair.
get_split_second_index_lem :
    (c : Settings) (index depth : ℕ)
    → IsConfigured c
    → 0 < depth
    → depth ≤ c.dag_max_depth
    → get_split_second_index c index depth ≡ index + 2 ^ (c.dag_max_depth - depth)
unfolding get_split_second_index
get_split_second_index_lem c index depth h low high =
    let positive : (depth == 0) ≡ false = ground arith in
    let same : depth - 1 + 1 ≡ depth = omega arith in
    let sum : c.dag_max_depth ≡ c.dag_max_depth - depth + depth = omega arith in
    rw (positive, same)
      (ap (λ x. index + x)
        (rw h.parallel (
          ap (λ x. 2 ^ x / 2 ^ depth) sum
          ∙ rw (pow-add (c.dag_max_depth - depth) depth)
              (mul-div_cancel (2 ^ (c.dag_max_depth - depth)) (pow_pos depth)))))

pow-suc_add : (k : ℕ) → 2 ^ (k + 1) ≡ 2 ^ k * 2
pow-suc_add k = let e : k + 1 ≡ suc k = omega arith in rw e (pow-suc 2 k)

aligned_second : (i m : ℕ) → 0 < m → i % (m * 2) ≡ 0 → (i + m) % (m * 2) ≢ 0
aligned_second i m p h e = grind arith

-- In a graph of at most 64 rows, a split at depth d of a row that starts 2 ^ (dagMaxDepth - d) rows makes a
-- pair of rows of depth d + 1. At that depth the first row of the pair would merge with the second row and with no other
-- row, and the second row starts no merge.
pub merge_undoes_split :
    (c : Settings) (index depth : ℕ)
    → IsConfigured c
    → c.dag_max_depth ≤ 6
    → depth < c.dag_max_depth
    → index % 2 ^ (c.dag_max_depth - depth) ≡ 0
    → index < 2 ^ c.dag_max_depth
    → get_split_second_index c index (depth + 1) < 2 ^ c.dag_max_depth
    → let second = get_split_second_index c index (depth + 1) in
      (get_merge_second_index c index (depth + 1) ≡ pos second)
      × (get_merge_second_index c second (depth + 1) ≡ negsuc 0)
merge_undoes_split c index depth h small deep aligned inside fits = (first, other)
  where
    distance : ℕ
    distance = 2 ^ (c.dag_max_depth - (depth + 1))

    second_lem : get_split_second_index c index (depth + 1) ≡ index + distance
    second_lem = get_split_second_index_lem c index (depth + 1) h (omega arith) (omega arith)

    double : 2 ^ (c.dag_max_depth - (depth + 1) + 1) ≡ distance * 2
    double = pow-suc_add (c.dag_max_depth - (depth + 1))

    aligned' : index % (distance * 2) ≡ 0
    aligned' =
        let whole : c.dag_max_depth - depth ≡ c.dag_max_depth - (depth + 1) + 1 = omega arith in
        rw (whole, double) at aligned

    first :
        get_merge_second_index c index (depth + 1)
        ≡ pos (get_split_second_index c index (depth + 1))
    first =
        get_merge_second_index_lem c index (depth + 1) h small (omega arith) (omega arith) inside
        ∙ rw (double, aligned', second_lem) refl

    other :
        get_merge_second_index c (get_split_second_index c index (depth + 1)) (depth + 1) ≡ negsuc 0
    other =
        let apart : (((index + distance) % (distance * 2)) == 0) ≡ false =
          ground (arith, aligned_second index distance (pow_pos _) aligned') in
        get_merge_second_index_lem c _ (depth + 1) h small (omega arith) (omega arith) fits
        ∙ rw (double, second_lem, apart) refl
