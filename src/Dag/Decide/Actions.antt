-- ===== src/Dag/Decide/Actions.antt =====
-- node-implementation/dag.go: which action decideAction returns, and when.
use ssle_dag.Prelude.{
  none≢some, some_injective, ℕ, ◌+◌, ◌≤◌, ◌<◌, ◌≡◌, refl, ◌≢◌, true, false, List, none, some, arith,
  ltb, leb, ◌&&◌, length, Bool-cases, Option-cases, inl, inr, lt→ltb, ltb→lt, sym, ◌∙◌, ◌⊎◌, ap,
  subst,
}
use ssle_dag.Prelude.Int.{ℤ, pos, negsuc}
use ssle_dag.Config.{Settings}
use ssle_dag.Messages.{Block, BlockRef, DagActionType, split, merge, continue, skip}
use ssle_dag.Dag.Rows.{get_merge_second_index}
use ssle_dag.Dag.Decide.{find_block, merge_row, fits_merge, merge_or_continue, decide_action}
use ssle_dag.Dag.Decide.Search.{IsAt, IsColumnSorted, find_block_lem}

pos_injective : {m n : ℕ} → pos m ≡ pos n → m ≡ n
pos_injective h = cc

-- Why decideAction returns an action for a row.
module _ (c : Settings) (blockchain : List Block) (current_column : ℕ) where
  -- The first condition: enough transactions, and room for another level.
  abbrev pub Splittable : Block → Type 0
  Splittable b = (c.min_tx_to_split ≤ length b.transactions) × (b.depth < c.dag_max_depth)

  -- The second condition, on the block and the one that its row would merge with.
  pub record Mergeable (b : Block) (second : BlockRef) : Type 0 where
    pub partner : get_merge_second_index c b.row b.depth ≡ pos second.block.row
    pub found : find_block blockchain current_column second.block.row ≡ some second
    pub deep : 0 < b.depth
    pub level : b.depth ≡ second.block.depth
    pub small : length b.transactions + length second.block.transactions ≤ c.min_tx_to_merge

  pub data Decision (row : ℕ) (r : DagActionType) : Type 0 where
    skips :
        ((b : BlockRef) → ¬ IsAt blockchain current_column row b)
        → r ≡ record { action = skip; parent = none; second = none }
        → Decision row r
    splits :
        (p : BlockRef)
        → IsAt blockchain current_column row p
        → Splittable p.block
        → r ≡ record { action = split; parent = some p; second = none }
        → Decision row r
    merges :
        (p s : BlockRef)
        → IsAt blockchain current_column row p
        → ¬ Splittable p.block
        → IsAt blockchain current_column s.block.row s
        → Mergeable p.block s
        → r ≡ record { action = merge; parent = some p; second = some s }
        → Decision row r
    continues :
        (p : BlockRef)
        → IsAt blockchain current_column row p
        → ¬ Splittable p.block
        → ((s : BlockRef) → ¬ Mergeable p.block s)
        → r ≡ record { action = continue; parent = some p; second = none }
        → Decision row r

  merge_row_cases :
      (p : BlockRef) (z : ℤ)
      → get_merge_second_index c p.block.row p.block.depth ≡ z
      → 0 < current_column
      → ((k : ℕ) × (merge_row c p current_column ≡ some k) × (z ≡ pos k) × (0 < p.block.depth))
        ⊎ (merge_row c p current_column ≡ none) × ((k : ℕ) → 0 < p.block.depth → z ≢ pos k)
  unfolding merge_row
  merge_row_cases p (pos k) e column = elim (Bool-cases (ltb 0 p.block.depth)) [
    | inl deep ↦
        inl (k, rw (e, merge_row, deep, lt→ltb 0 current_column column), refl, ltb→lt _ _ deep)
    | inr flat ↦ inr (rw (e, merge_row, flat), λ k' deep. absurd (ground arith))
  ]
  merge_row_cases p (negsuc n) e column = inr (rw (e, merge_row), λ k deep h. cc)

  fits_merge-true :
      (p s : BlockRef)
      → fits_merge c p s ≡ true
      → (p.block.depth ≡ s.block.depth)
        × (length p.block.transactions + length s.block.transactions ≤ c.min_tx_to_merge)
  unfolding fits_merge
  fits_merge-true p s h = ground arith

  fits_merge-false : (p s : BlockRef) → fits_merge c p s ≡ false → ¬ Mergeable p.block s
  unfolding fits_merge
  fits_merge-false p s h m = ground (arith, m.level, m.small)

  -- Only one block can be merged with: the one that the search finds.
  some_row :
      (p s : BlockRef) (k : ℕ)
      → get_merge_second_index c p.block.row p.block.depth ≡ pos k
      → find_block blockchain current_column k ≡ some s
      → s.block.row ≡ k
      → (s' : BlockRef) → Mergeable p.block s'
      → s' ≡ s
  some_row p s k partner found in_row s' m = some_injective (
      sym m.found
      ∙ ap (find_block blockchain current_column) (pos_injective (sym m.partner ∙ partner))
      ∙ found)

  merge_or_continue-Decision :
      (row : ℕ) (p : BlockRef)
      → IsColumnSorted blockchain
      → IsAt blockchain current_column row p
      → ¬ Splittable p.block
      → Decision row (merge_or_continue c blockchain current_column p)
  unfolding merge_or_continue
  merge_or_continue-Decision row p sorted at whole =
      elim (merge_row_cases p _ refl (omega (arith, at.column))) [
        | inr (no_row, other) ↦
            rw (no_row, merge_or_continue)
              (continues p at whole (λ s m. other s.block.row m.deep m.partner) refl)
        | inl (k, with_row, partner, deep) ↦
            elim (Option-cases (find_block blockchain current_column k)) [
              | inl missing ↦
                  rw (with_row, missing, merge_or_continue)
                    (continues p at whole
                      (λ s m. none≢some (
                        sym missing
                        ∙ ap (find_block blockchain current_column)
                            (pos_injective (sym partner ∙ m.partner))
                        ∙ m.found))
                      refl)
              | inr (s, found) ↦
                  let at_s = (find_block_lem blockchain current_column k sorted).0 s found in
                  let same = some_row p s k partner found at_s.in_row in
                  elim (Bool-cases (fits_merge c p s)) [
                    | inl fits ↦
                        let (level, small) = fits_merge-true p s fits in
                        rw (with_row, found, fits, merge_or_continue)
                          (merges p s at whole
                            (record { stands = at_s.stands; column = at_s.column; in_row = refl })
                            (record {
                              partner = partner ∙ ap pos (sym at_s.in_row);
                              found = ap (find_block blockchain current_column) at_s.in_row ∙ found;
                              deep = deep;
                              level = level;
                              small = small;
                            })
                            refl)
                    | inr unfit ↦
                        rw (with_row, found, unfit, merge_or_continue)
                          (continues p at whole
                            (λ s' m.
                              fits_merge-false p s unfit (subst (Mergeable p.block) (same s' m) m))
                            refl)
                  ]
            ]
      ]

  -- In a blockchain in which no block stands before one of a smaller column, every result of decideAction
  -- has its reason: skip means that no block of the row stands in the
  -- previous column, split and merge that their conditions hold of the blocks they name, and
  -- continue that neither condition holds.
  pub decide_action-Decision :
      (row : ℕ)
      → IsColumnSorted blockchain
      → Decision row (decide_action c blockchain row current_column)
  unfolding decide_action
  decide_action-Decision row sorted =
      elim (Option-cases (find_block blockchain current_column row)) [
        | inl missing ↦
            rw (missing, decide_action)
              (skips ((find_block_lem blockchain current_column row sorted).1 missing) refl)
        | inr (p, found) ↦
            let at = (find_block_lem blockchain current_column row sorted).0 p found in
            let test =
              leb c.min_tx_to_split (length p.block.transactions)
              && ltb p.block.depth c.dag_max_depth in
            elim (Bool-cases test) [
              | inl enough ↦
                  rw (found, enough, decide_action) (splits p at (ground arith, ground arith) refl)
              | inr whole ↦
                  rw (found, whole, decide_action)
                    (merge_or_continue-Decision row p sorted at (λ h. ground arith))
            ]
      ]
