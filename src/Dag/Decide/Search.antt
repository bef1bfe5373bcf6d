-- ===== src/Dag/Decide/Search.antt =====
-- node-implementation/dag.go: the search of decideAction for the blocks of the previous column.
use native.Mathlib.Decide.{ℕ_discrete}
use ssle_dag.Prelude.{
  none≢some, some_injective, ℕ, zero, suc, ◌+◌, ◌≤◌, ◌<◌, ◌≡◌, refl, Bool, true, false, List, none,
  some, arith, ltb, ◌==◌, ◌&&◌, length, get_elem?, get_elem?-some, Bool-cases, Option-cases, inl,
  inr, sym, ◌∙◌, ap, subst, true≢false, le→ltb_false, get_elem?-lt,
}
use ssle_dag.Messages.{Block, BlockRef}
use ssle_dag.Dag.Decide.{find_from, find_block}

-- The reference points at a block of the row in the column before the current one.
pub record IsAt (blockchain : List Block) (current_column row : ℕ) (r : BlockRef) : Type 0 where
  pub stands : get_elem? blockchain r.position ≡ some r.block
  pub column : r.block.col + 1 ≡ current_column
  pub in_row : r.block.row ≡ row

-- The columns never fall along the blockchain.
abbrev pub IsColumnSorted : List Block → Type 0
IsColumnSorted blockchain =
    (i j : ℕ) (a b : Block)
    → i ≤ j
    → get_elem? blockchain i ≡ some a
    → get_elem? blockchain j ≡ some b
    → a.col ≤ b.col

module _ (blockchain : List Block) (current_column row : ℕ) where
  abbrev is_hit : Block → Bool
  is_hit b = b.col + 1 == current_column && b.row == row

  find_from_hit :
      (i : ℕ) (b : Block)
      → get_elem? blockchain i ≡ some b
      → is_hit b ≡ true
      → find_from blockchain current_column row (suc i) ≡ some (record { position = i; block = b })
  unfolding find_from
  find_from_hit i b found hit = rw (found, hit, find_from)

  find_from_past :
      (i : ℕ) (b : Block)
      → get_elem? blockchain i ≡ some b
      → is_hit b ≡ false
      → ltb (b.col + 1) current_column ≡ true
      → find_from blockchain current_column row (suc i) ≡ none
  unfolding find_from
  find_from_past i b found miss past = rw (found, miss, past, find_from)

  find_from_other :
      (i : ℕ) (b : Block)
      → get_elem? blockchain i ≡ some b
      → is_hit b ≡ false
      → ltb (b.col + 1) current_column ≡ false
      → find_from blockchain current_column row (suc i) ≡ find_from blockchain current_column row i
  unfolding find_from
  find_from_other i b found miss past = rw (found, miss, past, find_from)

  find_from_missing :
      (i : ℕ)
      → get_elem? blockchain i ≡ none
      → find_from blockchain current_column row (suc i) ≡ none
  unfolding find_from
  find_from_missing i missing = rw (missing, find_from)

  find_from_zero : find_from blockchain current_column row 0 ≡ none
  unfolding find_from
  find_from_zero = refl

  find_from-IsAt :
      (i : ℕ) (r : BlockRef)
      → find_from blockchain current_column row i ≡ some r
      → IsAt blockchain current_column row r
  find_from-IsAt zero r e = absurd (none≢some (sym find_from_zero ∙ e))
  find_from-IsAt (suc i) r e = elim (Option-cases (get_elem? blockchain i)) [
    | inl missing ↦ absurd (none≢some (sym (find_from_missing i missing) ∙ e))
    | inr (b, found) ↦ elim (Bool-cases (is_hit b)) [
      | inl hit ↦
          subst (IsAt blockchain current_column row)
            (some_injective (sym (find_from_hit i b found hit) ∙ e))
            (record { stands = found; column = ground arith; in_row = ground arith })
      | inr miss ↦ elim (Bool-cases (ltb (b.col + 1) current_column)) [
        | inl past ↦ absurd (none≢some (sym (find_from_past i b found miss past) ∙ e))
        | inr near ↦ find_from-IsAt i r (sym (find_from_other i b found miss near) ∙ e)
      ]
    ]
  ]

  find_from_complete :
      (i j : ℕ) (a : Block)
      → IsColumnSorted blockchain
      → j < i
      → i ≤ length blockchain
      → get_elem? blockchain j ≡ some a
      → a.col + 1 ≡ current_column
      → a.row ≡ row
      → (r : BlockRef) × (find_from blockchain current_column row i ≡ some r)
  find_from_complete zero j a sorted below inside at column in_row = absurd (omega arith)
  find_from_complete (suc i) j a sorted below inside at column in_row =
      let (b, found) = get_elem?-some blockchain i inside in
      elim (Bool-cases (is_hit b)) [
        | inl hit ↦ (record { position = i; block = b }, find_from_hit i b found hit)
        | inr miss ↦
            let order : a.col ≤ b.col = sorted j i a b (omega arith) at found in
            let near : ltb (b.col + 1) current_column ≡ false = le→ltb_false _ _ (omega arith) in
            elim (ℕ_discrete j i) [
              | yes same ↦
                  let equal : b ≡ a =
                    some_injective (sym found ∙ ap (get_elem? blockchain) (sym same) ∙ at) in
                  absurd (true≢false (sym (rw equal (ground arith)) ∙ miss))
              | no other ↦
                  let (r, e) =
                    find_from_complete i j a sorted (omega arith) (omega arith) at column in_row in
                  (r, find_from_other i b found miss near ∙ e)
            ]
      ]

  -- In a blockchain whose columns never fall, the search finds a block of the row in the previous
  -- column exactly when there is one, and it finds no other block.
  pub find_block_lem :
      IsColumnSorted blockchain
      → ((r : BlockRef)
          → find_block blockchain current_column row ≡ some r
          → IsAt blockchain current_column row r)
        × (find_block blockchain current_column row ≡ none
            → (r : BlockRef) → ¬ IsAt blockchain current_column row r)
  unfolding find_block
  find_block_lem sorted = (
    find_from-IsAt (length blockchain),
    λ e r at.
        let (found, e') =
          find_from_complete (length blockchain) r.position r.block sorted
            (get_elem?-lt blockchain r.position r.block at.stands) (omega arith) at.stands at.column
            at.in_row in
        none≢some (sym e ∙ e'),
  )

  -- In a blockchain whose columns never fall, a block that the search finds stands in the blockchain
  -- at its position, in the row and in the column before the current one; and if there is such a
  -- block at all, the search finds one.
  pub find_block-IsAt :
      IsColumnSorted blockchain
      → (r : BlockRef) → IsAt blockchain current_column row r
      → (found : BlockRef) × (find_block blockchain current_column row ≡ some found)
        × IsAt blockchain current_column row found
  find_block-IsAt sorted r at = elim (Option-cases (find_block blockchain current_column row)) [
    | inl missed ↦ absurd ((find_block_lem sorted).1 missed r at)
    | inr (found, e) ↦ (found, e, (find_block_lem sorted).0 found e)
  ]
