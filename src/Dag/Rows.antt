-- ===== src/Dag/Rows.antt =====
-- node-implementation/dag.go: getSplitSecondIndex and getMergeSecondIndex.
pub mod Alignment
use ssle_dag.Prelude.{
  ℕ, zero, suc, ◌+◌, ◌-◌, ◌*◌, ◌/◌, ◌%◌, ◌^◌, ◌≤◌, ◌<◌, ◌≡◌, refl, Bool, true, false, arith, ltb,
  leb, ◌==◌, if◌then◌else◌, ◌&&◌, ◌||◌, not,
}
use ssle_dag.Prelude.Int.{ℤ, pos, negsuc}
use ssle_dag.Config.{Settings}

-- The range checks of the source only write to the log. `1 << (depth+1)` is a power of two for
-- every depth below 63; the program's depths are at most dagMaxDepth + 1.
unfoldable pub get_split_second_index : Settings → ℕ → ℕ → ℕ
get_split_second_index c index depth =
    let depth' = if depth == 0 then c.dag_max_depth else depth - 1 in
    index + c.dag_parallel_len / 2 ^ (depth' + 1)

-- -1 where the row does not start a merge. `depth < dagMaxDepth-k` is a comparison of ints, so
-- k is added on the left.
unfoldable pub get_merge_second_index : Settings → ℕ → ℕ → ℤ
get_merge_second_index c index depth =
    let second = pos (get_split_second_index c index depth) in
    let unless_below = λ (k : ℕ). if ltb (depth + k) c.dag_max_depth then negsuc 0 else second in
    if depth == 0 || not (index % 2 == 0)
    then negsuc 0
    else if index == 0
    then second
    else if index % 32 == 0
    then unless_below 4
    else if index % 16 == 0
    then unless_below 3
    else if index % 8 == 0
    then unless_below 2
    else if index % 4 == 0
    then unless_below 1
    else if index % 2 == 0
    then unless_below 0
    else negsuc 0
