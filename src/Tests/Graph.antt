-- ===== src/Tests/Graph.antt =====
-- node-implementation/dag.go on a graph of eight rows.
use ssle_dag.Prelude.{
  ℕ, zero, suc, ◌<◌, ◌≡◌, refl, ap, Bool, false, ◌||◌, ◌&&◌, List, [], ◌∷◌, none, some, arith, ok,
  codes, some_injective,
}
use ssle_dag.Prelude.Int.{pos, negsuc}
use ssle_dag.Config.{Settings, IsConfigured}
use ssle_dag.Messages.{Transaction, Block}
use ssle_dag.Dag.Belongs.{does_tx_belong_to_index}
use ssle_dag.Dag.Belongs.Partition.{split_partition}
use ssle_dag.Dag.Rows.{get_split_second_index, get_merge_second_index}
use ssle_dag.Dag.Rows.Alignment.{merge_undoes_split}
use ssle_dag.Dag.Decide.{decide_action}
use ssle_dag.Dag.Decide.Search.{IsColumnSorted}
use ssle_dag.Dag.Decide.Actions.{Decision, decide_action-Decision}

abbrev config : Settings
config = record {
  num_of_nodes = 4;
  num_of_other_nodes = pos 3;
  min_commitment_var = 1;
  max_commitment_var = 1;
  block_time_seconds = 10;
  dag_parallel_len = 8;
  epoch_size_rounds = 2;
  epoch_size = 16;
  processed_tx_per_block = 2;
  min_tx_to_split = 1;
  min_tx_to_merge = 1;
  random_shuffle_hex = codes "0a";
  dag_max_depth = 3;
}

config-IsConfigured : IsConfigured config
config-IsConfigured = record { parallel = refl; epoch = refl }

-- Its mask is 1010 0000 0000 0000.
abbrev transaction : Transaction
transaction = record {
  hash = codes "f0a0000000000000";
  hash_mask = 40960;
  created_at = pos 5;
  recipient = codes "01";
  sender = codes "02";
  amount = pos 7;
}

abbrev block_at : ℕ → List Transaction → Block
block_at column transactions = record {
  hash = codes "aa";
  number = 1;
  created_at = pos 0;
  transactions = transactions;
  merkle_root = [];
  author = [];
  previous_block = none;
  previous_block_hash = [];
  previous_second_block = none;
  previous_second_block_hash = [];
  depth = 0;
  row = 0;
  col = column;
  commitment_hash = [];
  commitment_secret = [];
  commitment_sig = [];
}

abbrev blocks : List Block
blocks = block_at 0 [] ∷ block_at 1 (transaction ∷ []) ∷ []

col_of : {a b : Block} → some a ≡ some b → a.col ≡ b.col
col_of e = ap (λ x. x.col) (some_injective e)

blocks-IsColumnSorted : IsColumnSorted blocks
blocks-IsColumnSorted zero zero a b h e f = omega (arith, col_of e, col_of f)
blocks-IsColumnSorted zero (suc zero) a b h e f = omega (arith, col_of e, col_of f)
blocks-IsColumnSorted (suc zero) (suc zero) a b h e f = omega (arith, col_of e, col_of f)
blocks-IsColumnSorted (suc zero) zero a b h e f = absurd (omega arith)
blocks-IsColumnSorted zero (suc (suc j)) a b h e f = cc
blocks-IsColumnSorted (suc zero) (suc (suc j)) a b h e f = cc
blocks-IsColumnSorted (suc (suc i)) j a b h e f = cc

split_partition_example :
    (b b' : Bool) × (does_tx_belong_to_index transaction 1 0 ≡ ok b)
    × (does_tx_belong_to_index transaction 1 (get_split_second_index config 0 1) ≡ ok b')
    × (does_tx_belong_to_index transaction 0 0 ≡ ok (b || b'))
    × (b && b' ≡ false)
split_partition_example =
    split_partition config transaction 0 0 refl (omega arith) (omega arith) (omega arith) refl

second_row : get_split_second_index config 4 2 < 8
unfolding get_split_second_index
second_row = omega arith

merge_undoes_split_example :
    let second = get_split_second_index config 4 2 in
    (get_merge_second_index config 4 2 ≡ pos second)
    × (get_merge_second_index config second 2 ≡ negsuc 0)
merge_undoes_split_example =
    merge_undoes_split config 4 1 config-IsConfigured (omega arith) (omega arith) refl (omega arith)
      second_row

decide_action-Decision_example : Decision config blocks 2 0 (decide_action config blocks 0 2)
decide_action-Decision_example = decide_action-Decision config blocks 2 0 blocks-IsColumnSorted
