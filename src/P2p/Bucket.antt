-- ===== src/P2p/Bucket.antt =====
-- node-implementation/p2p_communication.go: initializeBucketSort, randomBucketShuffle and
-- identifyCommitmentPositions, by which all nodes bring the epoch's commitments into one order.
pub mod Agreement
pub mod Members
use ssle_dag.Prelude.{
  ℕ, zero, suc, ◌+◌, ◌*◌, ◌-◌, ◌%◌, ◌^◌, ◌≡◌, refl, Bool, true, false, not, ◌&&◌, ◌||◌, List, [],
  ◌∷◌, ◌++◌, Option, none, some, map, arith, if◌then◌else◌, ◌==◌, ltb, Bytes, bytes_eq, bytes_lt,
  codes, length, get_elem?, set, Outcome, ok, panic,
}
use Prim.Native.Nat.{bit_xor}
use ssle_dag.Config.{Settings}
use ssle_dag.Utils.Encoding.{encode_to_string, decode_string}
use ssle_dag.Messages.{CommitmentInfo}

-- sort.Strings of the standard library, by insertion: on strings every stable or unstable sort gives
-- the same result.
unfoldable pub insert_string : Bytes → List Bytes → List Bytes
insert_string x [] = x ∷ []
insert_string x (y ∷ ys) =
    let rest = insert_string x ys in if bytes_lt y x then y ∷ rest else x ∷ y ∷ ys

unfoldable pub sort_strings : List Bytes → List Bytes
sort_strings [] = []
sort_strings (x ∷ xs) = insert_string x (sort_strings xs)

unfoldable pub initialize_bucket_sort : List Bytes → List Bytes
initialize_bucket_sort commitments_bucket = sort_strings commitments_bucket

-- hash/fnv, New64a.
unfoldable pub fnv_loop : ℕ → Bytes → ℕ
fnv_loop h [] = h
fnv_loop h (b ∷ bytes) = fnv_loop (bit_xor h b * 1099511628211 % 2 ^ 64) bytes

unfoldable pub fnv64a : Bytes → ℕ
fnv64a = fnv_loop 14695981039346656037

-- `bucket[i], bucket[j] = bucket[j], bucket[i]`; an index out of range is left alone.
unfoldable pub swap_at : List Bytes → ℕ → ℕ → List Bytes
swap_at bucket i j = elim (get_elem? bucket i) [
  | none ↦ bucket
  | some x ↦ elim (get_elem? bucket j) [ none ↦ bucket | some y ↦ set (set bucket i y) j x ]
]

-- `for ; i > 0; i--` of rng.Shuffle, with the number that the generator gives for it.
unfoldable pub shuffle_loop : (ℕ → ℕ) → ℕ → List Bytes → List Bytes
shuffle_loop draw zero bucket = bucket
shuffle_loop draw (suc i) bucket = shuffle_loop draw i (swap_at bucket (suc i) (draw (suc i)))

-- The log line `commitmentsBucket[0][:8], ...` of the first four panics on a short entry.
unfoldable pub short_prefix : ℕ → List Bytes → Bool
short_prefix zero bucket = false
short_prefix (suc n) [] = false
short_prefix (suc n) (h ∷ bucket) = ltb (length h) 8 || short_prefix n bucket

-- math/rand's generator is `draws`: from the seed and the length of the list, the index that
-- Shuffle draws in round i. `last_hash` is `blockchain[len(blockchain)-1].Hash`, if there is one.
module _ (draws : ℕ → ℕ → ℕ → ℕ) where
  -- Steps 1 to 4. int64(hashFnv.Sum64()) keeps the bits of the sum.
  unfoldable pub shuffle_from : Bytes → List Bytes → List Bytes
  shuffle_from block_hash_bytes bucket =
      let sorted = initialize_bucket_sort bucket in
      let seed = fnv64a block_hash_bytes in
      shuffle_loop (draws seed (length sorted)) (length sorted - 1) sorted

  unfoldable pub random_bucket_shuffle :
      Settings → Option Bytes → Bool → List Bytes → Outcome (List Bytes)
  random_bucket_shuffle c last_hash from_init bucket =
      if from_init
      then elim last_hash [
        | none ↦ panic
        | some hash ↦ elim (decode_string hash) [
          | none ↦ ok bucket
          | some bytes ↦ ok (shuffle_from bytes bucket)
        ]
      ]
      else elim (decode_string c.random_shuffle_hex) [
        | none ↦ ok bucket
        | some bytes ↦
            if ltb 3 (length bucket) && short_prefix 4 bucket
            then panic
            else if length bucket == c.max_commitment_var * c.num_of_nodes
            then ok (shuffle_from bytes bucket)
            else ok bucket
      ]

-- `for _, nodeCommitment := range submittedCommitments`, up to the first of that hash.
unfoldable pub is_submitted : List CommitmentInfo → Bytes → Bool
is_submitted [] hash = false
is_submitted (own ∷ submitted) hash =
    if bytes_eq hash own.hash then true else is_submitted submitted hash

-- `for i, sharedCommitmentHash := range commitmentsBucket`, from index i on.
unfoldable pub positions_from : List CommitmentInfo → ℕ → List Bytes → List ℕ
positions_from submitted i [] = []
positions_from submitted i (hash ∷ bucket) =
    let rest = positions_from submitted (i + 1) bucket in
    if is_submitted submitted hash then i ∷ rest else rest

-- strings.Join(bucket, "")
unfoldable pub join : List Bytes → Bytes
join [] = []
join (s ∷ strings) = s ++ join strings

unfoldable pub identify_commitment_positions :
    (Bytes → Bytes) → List CommitmentInfo → List Bytes → Bytes × List ℕ
identify_commitment_positions keccak256 submitted bucket =
    (encode_to_string (keccak256 (join bucket)), positions_from submitted 0 bucket)
