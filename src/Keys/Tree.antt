-- ===== src/Keys/Tree.antt =====
-- node-implementation/p2p_communication.go: the Merkle tree in processNetworkMessage on
-- PUB_KEY_EXCHANGE, from the leaves to the path of one of them; node-implementation/zkp.go: the loop of
-- Define, the circuit, that walks such a path.
pub mod Path
use Prim.Native.Nat.{bit_and, bit_xor}
use ssle_dag.Prelude.{
  ℕ, zero, suc, ◌+◌, ◌/◌, Bool, true, false, List, [], ◌∷◌, Option, none, some, if◌then◌else◌, ◌==◌,
  ltb, Outcome, ok, panic, ◌>>=◌, Bytes, bytes_eq, codes, length, get_elem?, set,
}

-- PUB_KEY_MERKLE_TREE_SIZE and PUB_KEY_MERKLE_TREE_DEPTH of constants.go.
abbrev pub tree_size : ℕ
tree_size = 512

abbrev pub tree_depth : ℕ
tree_depth = 9

-- `for i := 0; i < PUB_KEY_MERKLE_TREE_SIZE; i++` for the last rounds, over the keys that are left.
unfoldable pub new_leaves : ℕ → List Bytes → List Bytes
new_leaves zero keys = []
new_leaves (suc rounds) [] = codes "0" ∷ new_leaves rounds []
new_leaves (suc rounds) (key ∷ keys) = key ∷ new_leaves rounds keys

-- The search for the node's own key, from index i on; without it the old index stays.
unfoldable pub key_index : Bytes → ℕ → List Bytes → ℕ → ℕ
key_index own old [] i = old
key_index own old (key ∷ keys) i =
    let rest = key_index own old keys (i + 1) in if bytes_eq key own then i else rest

-- `mimc` gives the sum of the MiMC hasher after a Reset and these writes.
module _ (mimc : List Bytes → Bytes) where
  -- `for i, v := range pubKeysMerkleLeaves`, from index i on.
  unfoldable pub leaf_loop : ℕ → List Bytes → List Bytes → Outcome (List Bytes)
  leaf_loop i [] leaf_hashes = ok leaf_hashes
  leaf_loop i (v ∷ leaves) leaf_hashes =
      let rest = leaf_loop (i + 1) leaves (set leaf_hashes i (mimc (v ∷ []))) in
      if ltb i (length leaf_hashes) then rest else panic

  -- One level from the one before it; prev[i+1] is out of range behind an odd number of nodes.
  unfoldable pub hash_pairs : List Bytes → Outcome (List Bytes)
  hash_pairs [] = ok []
  hash_pairs (l ∷ []) = panic
  hash_pairs (l ∷ r ∷ prev) = do curr ← hash_pairs prev; ok (mimc (l ∷ r ∷ []) ∷ curr)

  -- The levels from a level on, up to the given number of levels above it.
  unfoldable pub build_levels : ℕ → List Bytes → Outcome (List (List Bytes))
  build_levels zero level = ok (level ∷ [])
  build_levels (suc above) level = do
    next ← hash_pairs level
    levels ← build_levels above next
    ok (level ∷ levels)

-- levels[i][j], which panics out of range.
unfoldable pub node_at : List (List Bytes) → ℕ → ℕ → Outcome Bytes
node_at levels i j = elim (get_elem? levels i) [
  | none ↦ panic
  | some level ↦ elim (get_elem? level j) [ none ↦ panic | some node ↦ ok node ]
]

-- `for i := 0; i < PUB_KEY_MERKLE_TREE_DEPTH; i++` for the last rounds: pathNodes and pathIndices.
unfoldable pub path_loop : List (List Bytes) → ℕ → ℕ → ℕ → Outcome (List Bytes × List ℕ)
path_loop levels i idx zero = ok ([], [])
path_loop levels i idx (suc rounds) = do
  node ← node_at levels i (bit_xor idx 1)
  path ← path_loop levels (suc i) (idx / 2) rounds
  ok (node ∷ path.0, bit_and idx 1 ∷ path.1)

-- The loop of Define over PathNodes and PathIndices; `hash_pair` is the sum of the circuit's MiMC after
-- a Reset and the two writes.
unfoldable pub circuit_root : (Bytes → Bytes → Bytes) → Bytes → List Bytes → List ℕ → Bytes
circuit_root hash_pair current [] indices = current
circuit_root hash_pair current (node ∷ nodes) [] = current
circuit_root hash_pair current (node ∷ nodes) (index ∷ indices) =
    let left = if index == 0 then current else node in
    let right = if index == 0 then node else current in
    circuit_root hash_pair (hash_pair left right) nodes indices
