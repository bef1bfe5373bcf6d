-- ===== src/Dag/Decide.antt =====
-- node-implementation/dag.go: decideAction.
pub mod Search
pub mod Actions
use ssle_dag.Prelude.{
  ℕ, zero, suc, ◌+◌, ◌-◌, ◌*◌, ◌≤◌, ◌<◌, ◌≡◌, refl, Bool, true, false, List, [], ◌∷◌, Option, none,
  some, arith, ltb, leb, ◌==◌, if◌then◌else◌, ◌&&◌, ◌||◌, not, length, get_elem?,
}
use ssle_dag.Prelude.Int.{ℤ, pos, negsuc}
use ssle_dag.Config.{Settings}
use ssle_dag.Messages.{
  Block, BlockRef, DagActionType, DagStructureAction, split, merge, continue, skip,
}
use ssle_dag.Dag.Rows.{get_merge_second_index}

-- The search for a block of the column before the current one, from index i - 1 down. The tests
-- `Col == currentColumn-1` and `Col < currentColumn-1` compare ints, so the 1 is added on the left.
unfoldable pub find_from : List Block → ℕ → ℕ → ℕ → Option BlockRef
find_from blockchain current_column row zero = none
find_from blockchain current_column row (suc i) = elim (get_elem? blockchain i) [
  | none ↦ none
  | some b ↦
      let further = find_from blockchain current_column row i in
      if b.col + 1 == current_column && b.row == row
      then some (record { position = i; block = b })
      else if ltb (b.col + 1) current_column
      then none
      else further
]

unfoldable pub find_block : List Block → ℕ → ℕ → Option BlockRef
unfolding find_from
find_block blockchain current_column row =
    find_from blockchain current_column row (length blockchain)

-- The row to merge with, when the merge is allowed by depth, column and row.
unfoldable pub merge_row : Settings → BlockRef → ℕ → Option ℕ
merge_row c parent current_column =
    elim (get_merge_second_index c parent.block.row parent.block.depth) [
      | pos second_index ↦
          if ltb 0 parent.block.depth && ltb 0 current_column then some second_index else none
      | negsuc _ ↦ none
    ]

-- The conditions on the block of that row.
unfoldable pub fits_merge : Settings → BlockRef → BlockRef → Bool
fits_merge c parent second =
    parent.block.depth == second.block.depth
    && leb (length parent.block.transactions + length second.block.transactions) c.min_tx_to_merge

-- The second and third part: merge with the block of that row if there is one that fits, else
-- continue.
unfoldable pub merge_or_continue : Settings → List Block → ℕ → BlockRef → DagActionType
unfolding merge_row fits_merge
merge_or_continue c blockchain current_column parent =
    let go_on : DagActionType = record { action = continue; parent = some parent; second = none } in
    elim (merge_row c parent current_column) [
      | none ↦ go_on
      | some second_index ↦ elim (find_block blockchain current_column second_index) [
        | none ↦ go_on
        | some second ↦
            if fits_merge c parent second
            then record { action = merge; parent = some parent; second = some second }
            else go_on
      ]
    ]

unfoldable pub decide_action : Settings → List Block → ℕ → ℕ → DagActionType
decide_action c blockchain index current_column =
    elim (find_block blockchain current_column index) [
      | none ↦ record { action = skip; parent = none; second = none }
      | some parent ↦
          if leb c.min_tx_to_split (length parent.block.transactions)
            && ltb parent.block.depth c.dag_max_depth
          then record { action = split; parent = some parent; second = none }
          else merge_or_continue c blockchain current_column parent
    ]
