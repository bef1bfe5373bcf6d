-- ===== src/Dag/Belongs/Partition.antt =====
-- node-implementation/dag.go: which rows a transaction belongs to, and where the fixed shift of
-- doesTxBelongToIndex loses transactions.
use ssle_dag.Prelude.{
  ℕ, zero, suc, ◌+◌, ◌-◌, ◌*◌, ◌/◌, ◌%◌, ◌^◌, ◌≤◌, ◌<◌, ◌≡◌, Bool, false, arith, ◌==◌, ◌&&◌, ◌||◌,
  ok, ap, ◌∙◌, ◌≢◌,
}
use ssle_dag.Config.{Settings}
use ssle_dag.Messages.{Transaction}
use ssle_dag.Dag.Belongs.{
  does_tx_belong_to_index, does_tx_belong_to_index_lem, shifted_eq, shifted_eq_finer,
}
use ssle_dag.Dag.Rows.{get_split_second_index}

-- The row of depth d that holds the mask, in a graph of eight rows.
abbrev home : ℕ → ℕ → ℕ
home depth mask = mask / 2 ^ (16 - depth) * 2 ^ (3 - depth)

-- In a graph of eight rows, a transaction belongs at each depth to one row among the rows that stand
-- at that depth, the multiples of 2 ^ (3 - depth).
does_tx_belong_to_index-home :
    (tx : Transaction) (depth index : ℕ)
    → tx.hash_mask < 2 ^ 16
    → depth ≤ 3
    → index < 8
    → index % 2 ^ (3 - depth) ≡ 0
    → does_tx_belong_to_index tx depth index ≡ ok (index == home depth tx.hash_mask)
unfolding does_tx_belong_to_index
does_tx_belong_to_index-home tx zero index small h inside aligned = ap ok (ground arith)
does_tx_belong_to_index-home tx (suc zero) index small h inside aligned =
    does_tx_belong_to_index_lem tx 1 index (omega arith) (omega arith) ∙ ap ok (ground arith)
does_tx_belong_to_index-home tx (suc (suc zero)) index small h inside aligned =
    does_tx_belong_to_index_lem tx 2 index (omega arith) (omega arith) ∙ ap ok (ground arith)
does_tx_belong_to_index-home tx (suc (suc (suc zero))) index small h inside aligned =
    does_tx_belong_to_index_lem tx 3 index (omega arith) (omega arith) ∙ ap ok (ground arith)
does_tx_belong_to_index-home tx (suc (suc (suc (suc d)))) index small h inside aligned =
    absurd (omega arith)

split_eight :
    (c : Settings) (index d : ℕ)
    → c.dag_parallel_len ≡ 8
    → get_split_second_index c index (suc d) ≡ index + 8 / 2 ^ (suc d)
unfolding get_split_second_index
split_eight c index d eight =
    let positive : (suc d == 0) ≡ false = ground arith in
    let same : suc d - 1 + 1 ≡ suc d = omega arith in rw (eight, positive, same)

-- The numbers of a split at each of the three depths: where the new row stands, that both rows
-- are rows of the new depth, and which of them holds a mask.
pair_numbers :
    (mask depth index : ℕ)
    → mask < 2 ^ 16
    → depth < 3
    → index < 8
    → index % 2 ^ (3 - depth) ≡ 0
    → let second = index + 8 / 2 ^ (depth + 1) in
      (index % 2 ^ (3 - (depth + 1)) ≡ 0)
      × (second < 8)
      × (second % 2 ^ (3 - (depth + 1)) ≡ 0)
      × ((index == home depth mask)
          ≡ (index == home (depth + 1) mask) || (second == home (depth + 1) mask))
      × ((index == home (depth + 1) mask) && (second == home (depth + 1) mask) ≡ false)
pair_numbers mask zero index small deep inside aligned =
    (omega arith, omega arith, omega arith, ground arith, ground arith)
pair_numbers mask (suc zero) index small deep inside aligned =
    (omega arith, omega arith, omega arith, ground arith, ground arith)
pair_numbers mask (suc (suc zero)) index small deep inside aligned =
    (omega arith, omega arith, omega arith, ground arith, ground arith)
pair_numbers mask (suc (suc (suc d))) index small deep inside aligned = absurd (omega arith)

-- The row and the row at the new distance, next to the row before the split.
children :
    (tx : Transaction) (depth index : ℕ)
    → tx.hash_mask < 2 ^ 16
    → depth < 3
    → index < 8
    → index % 2 ^ (3 - depth) ≡ 0
    → (b b' : Bool) × (does_tx_belong_to_index tx (depth + 1) index ≡ ok b)
      × (does_tx_belong_to_index tx (depth + 1) (index + 8 / 2 ^ (depth + 1)) ≡ ok b')
      × (does_tx_belong_to_index tx depth index ≡ ok (b || b'))
      × (b && b' ≡ false)
children tx depth index small deep inside aligned =
    let (first, fits, second, either, apart) =
      pair_numbers tx.hash_mask depth index small deep inside aligned in
    (
      index == home (depth + 1) tx.hash_mask,
      index + 8 / 2 ^ (depth + 1) == home (depth + 1) tx.hash_mask,
      does_tx_belong_to_index-home tx (depth + 1) index small (omega arith) inside first,
      does_tx_belong_to_index-home tx (depth + 1) (index + 8 / 2 ^ (depth + 1)) small (omega arith)
          fits second,
      does_tx_belong_to_index-home tx depth index small (omega arith) inside aligned ∙ ap ok either,
      apart,
    )

-- A split in a graph of eight rows divides the transactions of the row: each belongs to the row
-- itself or to the second row at the new depth, never to both, and no other transaction joins.
pub split_partition :
    (c : Settings) (tx : Transaction) (depth index : ℕ)
    → c.dag_parallel_len ≡ 8
    → tx.hash_mask < 2 ^ 16
    → depth < 3
    → index < 8
    → index % 2 ^ (3 - depth) ≡ 0
    → (b b' : Bool) × (does_tx_belong_to_index tx (depth + 1) index ≡ ok b)
      × (does_tx_belong_to_index tx (depth + 1) (get_split_second_index c index (depth + 1))
          ≡ ok b')
      × (does_tx_belong_to_index tx depth index ≡ ok (b || b'))
      × (b && b' ≡ false)
split_partition c tx zero index eight small deep inside aligned =
    rw (split_eight c index 0 eight) (children tx 0 index small deep inside aligned)
split_partition c tx (suc d) index eight small deep inside aligned =
    let next : suc d + 1 ≡ suc (suc d) = omega arith in
    rw (next, split_eight c index (suc d) eight)
      (rw next at (children tx (suc d) index small deep inside aligned))

-- Numbers that differ in bit 15 and above differ at every depth.
apart_on_top :
    (a b depth : ℕ)
    → 0 < depth
    → depth ≤ 16
    → a / 2 ^ 15 ≢ b / 2 ^ 15
    → shifted_eq a b (16 - depth) ≡ false
apart_on_top a b depth low high other =
    let sum : 16 - depth + (depth - 1) ≡ 15 = omega arith in
    let top : shifted_eq a b 15 ≡ false = ground arith in
    shifted_eq_finer a b (16 - depth) (depth - 1) (rw sum top)

-- A row of index 8 or more, which a graph of more than eight rows has, gets no transaction at any
-- positive depth.
pub row_past_eight :
    (tx : Transaction) (depth index : ℕ)
    → tx.hash_mask < 2 ^ 16
    → 0 < depth
    → depth ≤ 16
    → 8 ≤ index
    → does_tx_belong_to_index tx depth index ≡ ok false
row_past_eight tx depth index small low high past =
    does_tx_belong_to_index_lem tx depth index low high
    ∙ ap ok (apart_on_top (index * 2 ^ 13) tx.hash_mask depth low high (omega arith))

-- In a graph of at most four rows, a transaction whose hash begins with '8' or a later digit belongs
-- to no row at any positive depth.
pub row_below_four :
    (tx : Transaction) (depth index : ℕ)
    → 2 ^ 15 ≤ tx.hash_mask
    → tx.hash_mask < 2 ^ 16
    → 0 < depth
    → depth ≤ 16
    → index < 4
    → does_tx_belong_to_index tx depth index ≡ ok false
row_below_four tx depth index large small low high few =
    does_tx_belong_to_index_lem tx depth index low high
    ∙ ap ok (apart_on_top (index * 2 ^ 13) tx.hash_mask depth low high (omega arith))
