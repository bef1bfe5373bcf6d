-- ===== src/P2p/Schedule.antt =====
-- node-implementation/p2p_communication.go: one round of blockGenerationSchedule: the actions of the
-- rows, the slots that are the node's own, and what it puts into the blocks for them.
pub mod Handover
pub mod Clock
pub mod Round
use ssle_dag.Prelude.{
  ℕ, zero, suc, ◌+◌, ◌-◌, ◌%◌, Bool, true, false, ◌&&◌, not, List, [], ◌∷◌, Option, none, some, map,
  if◌then◌else◌, Outcome, ok, panic, ◌>>=◌, Bytes, bytes_eq, length, get_elem?, set,
}
use ssle_dag.Prelude.Dict.{values}
use ssle_dag.Config.{Settings}
use ssle_dag.Messages.{
  Transaction, Block, BlockTransfer, BlockRef, BlockCreation, CommitmentInfo, DagStructureAction,
  DagActionType, split, split_snd, merge, continue, skip,
}
use ssle_dag.Utils.Majority.{slice_contains_int}
use ssle_dag.Dag.Belongs.{does_tx_belong_to_index}
use ssle_dag.Dag.Rows.{get_split_second_index}
use ssle_dag.Dag.Decide.{decide_action}

-- `for i := 0; i < DAG_PARALLEL_LEN; i++`: the slots from a first one on.
unfoldable pub epoch_indexes : ℕ → ℕ → List ℕ
epoch_indexes slot zero = []
epoch_indexes slot (suc n) = slot ∷ epoch_indexes (slot + 1) n

unfoldable pub epoch_actions : Settings → List Block → List ℕ → ℕ → List DagActionType
epoch_actions c blockchain indexes abs_round =
    map (λ idx. decide_action c blockchain (idx % c.dag_parallel_len) (abs_round + 1)) indexes

-- A write to `epochActions[j]`, which panics out of range.
unfoldable pub update_action :
    List DagActionType → ℕ → (DagActionType → DagActionType) → Outcome (List DagActionType)
update_action actions j f = elim (get_elem? actions j) [
  | none ↦ panic
  | some a ↦ ok (set actions j (f a))
]

-- One round of the marking loop, for the row idx.
unfoldable pub mark_action :
    Settings → List DagActionType → ℕ → DagActionType → Outcome (List DagActionType)
mark_action c actions idx a = elim a.action [
  | merge ↦ elim a.second [
    | none ↦ panic
    | some s ↦ update_action actions s.block.row (λ x. record x { action = skip })
  ]
  | split ↦ elim a.parent [
    | none ↦ panic
    | some p ↦
        update_action actions (get_split_second_index c idx (p.block.depth + 1))
          (λ x. record x { action = split_snd; parent = some p })
  ]
  | split_snd ↦ ok actions
  | continue ↦ ok actions
  | skip ↦ ok actions
]

-- `for idx, action := range epochActions`, for the last rounds: each reads its element when it
-- begins, so the marks of the earlier rounds are seen.
unfoldable pub mark_loop : Settings → List DagActionType → ℕ → ℕ → Outcome (List DagActionType)
mark_loop c actions idx zero = ok actions
mark_loop c actions idx (suc rounds) = elim (get_elem? actions idx) [
  | none ↦ ok actions
  | some a ↦ mark_action c actions idx a >>= (λ marked. mark_loop c marked (idx + 1) rounds)
]

abbrev pub is_skip : DagStructureAction → Bool
is_skip skip = true
is_skip _ = false

-- An entry of filteredEpochIndexes, filteredEpochActions and filteredOriginalIndexMapping.
pub record OwnSlot : Type 0 where
  pub row : ℕ
  pub action : DagActionType
  pub original : ℕ

-- The loop over the actions, with the slots that stand beside them.
unfoldable pub own_slots : Settings → List ℕ → List ℕ → List DagActionType → List OwnSlot
own_slots c positions [] actions = []
own_slots c positions (idx ∷ indexes) [] = []
own_slots c positions (idx ∷ indexes) (a ∷ actions) =
    let rest = own_slots c positions indexes actions in
    if not (is_skip a.action) && slice_contains_int positions idx
    then record { row = idx % c.dag_parallel_len; action = a; original = idx } ∷ rest
    else rest

-- The slots of the round in which the node creates blocks.
unfoldable pub plan_round : Settings → List Block → List ℕ → ℕ → ℕ → Outcome (List OwnSlot)
plan_round c blockchain positions slot abs_round = do
  let indexes = epoch_indexes slot c.dag_parallel_len
  let actions = epoch_actions c blockchain indexes abs_round
  marked ← mark_loop c actions 0 (length actions)
  ok (own_slots c positions indexes marked)

-- The depth of the new block. A merge has a parent of positive depth; the default case logs.
unfoldable pub block_depth : DagActionType → Outcome ℕ
block_depth a = elim a.action [
  | continue ↦ elim a.parent [ none ↦ panic | some p ↦ ok p.block.depth ]
  | split ↦ elim a.parent [ none ↦ panic | some p ↦ ok (p.block.depth + 1) ]
  | split_snd ↦ elim a.parent [ none ↦ panic | some p ↦ ok (p.block.depth + 1) ]
  | merge ↦ elim a.parent [ none ↦ panic | some p ↦ ok (p.block.depth - 1) ]
  | skip ↦ ok 0
]

-- `for _, tx := range mempool`
unfoldable pub included_transactions : List Transaction → ℕ → ℕ → Outcome (List Transaction)
included_transactions [] depth index = ok []
included_transactions (tx ∷ txs) depth index = do
  belongs ← does_tx_belong_to_index tx depth index
  rest ← included_transactions txs depth index
  ok (if belongs then tx ∷ rest else rest)

abbrev pub no_commitment : CommitmentInfo
no_commitment = record { commitment = []; hash = []; secret = []; secret_sig = [] }

-- CommitmentInfo{} where the hash is not among the node's own, which is only logged.
unfoldable pub get_commitment_info_by_hash : List CommitmentInfo → Bytes → CommitmentInfo
get_commitment_info_by_hash [] hash = no_commitment
get_commitment_info_by_hash (info ∷ submitted) hash =
    if bytes_eq info.hash hash then info else get_commitment_info_by_hash submitted hash

-- What is passed to createBlock for one slot. The index into runCommitmentsBucket panics out of range.
unfoldable pub block_creation :
    List CommitmentInfo
    → List Bytes
    → List (Bytes × Transaction)
    → ℕ
    → OwnSlot
    → Outcome BlockCreation
block_creation submitted bucket mempool abs_round s = do
  depth ← block_depth s.action
  transactions ← included_transactions (values mempool) depth s.row
  elim (get_elem? bucket s.original) [
    | none ↦ panic
    | some hash ↦
        let info = get_commitment_info_by_hash submitted hash in
        ok (record {
          commitment_hash = info.hash;
          commitment_secret = info.secret;
          commitment_secret_signature = info.secret_sig;
          transactions = transactions;
          depth = depth;
          parent_block = s.action.parent;
          second_parent_block = s.action.second;
          row = s.row;
          col = abs_round + 1;
        })
  ]

-- The BlockTransfer of a new block.
unfoldable pub new_block_transfer : Block → Bytes → BlockTransfer
new_block_transfer b secret_sig = record {
  hash = b.hash;
  number = b.number;
  created_at = b.created_at;
  transactions = b.transactions;
  merkle_root = b.merkle_root;
  author = b.author;
  previous_block_hash = b.previous_block_hash;
  previous_second_block_hash = b.previous_second_block_hash;
  depth = b.depth;
  row = b.row;
  col = b.col;
  commitment_hash = b.commitment_hash;
  commitment_secret = b.commitment_secret;
  commitment_sig = secret_sig;
}
