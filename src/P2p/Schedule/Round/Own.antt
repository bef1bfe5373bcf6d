-- ===== src/P2p/Schedule/Round/Own.antt =====
-- node-implementation/p2p_communication.go: the blocks of a round stand at the node's own slots.
use ssle_dag.Prelude.{
  ℕ, suc, ◌+◌, ◌%◌, ◌≡◌, refl, sym, ap, ◌∙◌, subst, true, List, [], ◌∷◌, ◌++◌, some, map, ok,
  >>=-eq-ok, ok_injective, Bytes, length, get_elem?, In, here, there, arith,
}
use mathlib.Core.List.{append-nil, append_assoc}
use ssle_dag.Prelude.Int.{ℤ}
use ssle_dag.Config.{Settings}
use ssle_dag.Messages.{Block, BlockCreation, BlockTransfer, CommitmentInfo}
use ssle_dag.Blockchain.{Ledger}
use ssle_dag.Blockchain.Hashing.{Crypto}
use ssle_dag.Blockchain.Create.{create_block}
use ssle_dag.Blockchain.Create.Effect.{create_block-IsCreated}
use ssle_dag.P2p.Bucket.{is_submitted, identify_commitment_positions}
use ssle_dag.P2p.Bucket.Agreement.{identify_commitment_positions-In}
use ssle_dag.P2p.Schedule.{
  OwnSlot, plan_round, get_commitment_info_by_hash, block_creation, new_block_transfer,
}
use ssle_dag.P2p.Schedule.Round.{create_slots, generate_round}
use ssle_dag.P2p.Schedule.Round.Planned.{
  plan_round-IsPlanned, get_commitment_info_by_hash-hash, block_creation-IsRequested,
  create_block-commitment_hash,
}

-- A block that the node made by createBlock.
abbrev pub IsCreation : Crypto → Bytes → Settings → Block → Type 0
IsCreation crypto public_key c b =
    (l l' : Ledger) × (creation : BlockCreation) × (reward_now now : ℤ) × (create_block crypto
        public_key c l creation reward_now now
      ≡ ok (b, l'))

module _ (crypto : Crypto) (public_key : Bytes) (c : Settings) (times : ℕ → ℤ × ℤ)
    (submitted : List CommitmentInfo) (bucket : List Bytes) (abs_round : ℕ) where
  -- The block of a slot with its transfer.
  abbrev IsMade : OwnSlot → Block × BlockTransfer → Type 0
  IsMade s (b, t) =
      (hash : Bytes) × (get_elem? bucket s.original ≡ some hash)
      × (b.commitment_hash ≡ (get_commitment_info_by_hash submitted hash).hash)
      × (t ≡ new_block_transfer b (get_commitment_info_by_hash submitted hash).secret_sig)
      × (b.row ≡ s.row)
      × (b.col ≡ abs_round + 1)
      × (b.author ≡ public_key)

  -- What the loop over the slots leaves.
  abbrev IsRound : Ledger → List OwnSlot → Ledger → List (Block × BlockTransfer) → Type 0
  IsRound l slots l' made =
      (l'.blockchain ≡ l.blockchain ++ map (λ m. m.0) made)
      × (length made ≡ length slots)
      × ((m : Block × BlockTransfer) → In m made → (s : OwnSlot) × In s slots × IsMade s m)

  create_slots-IsRound :
      (i : ℕ) (l l' : Ledger) (slots : List OwnSlot) (made : List (Block × BlockTransfer))
      → create_slots crypto public_key c times submitted bucket abs_round i l slots ≡ ok (l', made)
      → IsRound l slots l' made
  unfolding create_slots
  create_slots-IsRound i l l' [] made e =
      subst (λ r. IsRound l [] r.0 r.1) (ok_injective e)
        (sym (append-nil l.blockchain), refl, λ m j. elim j [ ])
  create_slots-IsRound i l l' (s ∷ slots) made e =
      let (creation, requested, e1) =
        >>=-eq-ok (block_creation submitted bucket l.mempool abs_round s) _ e in
      let ((b, l1), created, e2) =
        >>=-eq-ok (create_block crypto public_key c l creation _ _) _ e1 in
      let ((l2, rest), later, e3) =
        >>=-eq-ok
          (create_slots crypto public_key c times submitted bucket abs_round (i + 1) l1 slots) _
          e2 in
      let ih = create_slots-IsRound (i + 1) l1 l2 slots rest later in
      let (hash, at, commitment, signature, row, col) =
        block_creation-IsRequested submitted bucket abs_round l.mempool s creation requested in
      let block = create_block-IsCreated crypto public_key c l l1 creation _ _ b created in
      let first : IsMade s (b, new_block_transfer b creation.commitment_secret_signature) = (
        hash,
        at,
        create_block-commitment_hash crypto public_key c l l1 creation _ _ b created ∙ commitment,
        ap (new_block_transfer b) signature,
        block.place.1 ∙ row,
        block.place.2 ∙ col,
        block.author,
      ) in
      subst (λ r. IsRound l (s ∷ slots) r.0 r.1) (ok_injective e3)
        (
          ih.0
              ∙ ap (λ chain. chain ++ map (λ m. m.0) rest) block.appended
              ∙ append_assoc l.blockchain (b ∷ []) (map (λ m. m.0) rest),
          ap suc ih.1,
          λ m j. with_first m first ih.2 j,
        )
    where
      with_first :
          {slots : List OwnSlot} {rest : List (Block × BlockTransfer)} {s : OwnSlot}
          {x : Block × BlockTransfer} (m : Block × BlockTransfer)
          → IsMade s x
          → ((m : Block × BlockTransfer) → In m rest → (s : OwnSlot) × In s slots × IsMade s m)
          → In m (x ∷ rest)
          → (s' : OwnSlot) × In s' (s ∷ slots) × IsMade s' m
      with_first {s = s} m first later (here e) = (s, here refl, subst (IsMade s) (sym e) first)
      with_first m first later (there j) = let (s', k, made) = later m j in (s', there k, made)

  -- Each block of a round is the result of createBlock.
  create_slots-create_block :
      (i : ℕ) (l l' : Ledger) (slots : List OwnSlot) (made : List (Block × BlockTransfer))
      → create_slots crypto public_key c times submitted bucket abs_round i l slots ≡ ok (l', made)
      → (m : Block × BlockTransfer) → In m made
      → IsCreation crypto public_key c m.0
  unfolding create_slots
  create_slots-create_block i l l' [] made e m j =
      elim (subst (λ r. In m r.1) (sym (ok_injective e)) j) [ ]
  create_slots-create_block i l l' (s ∷ slots) made e m j =
      let (creation, _, e1) =
        >>=-eq-ok (block_creation submitted bucket l.mempool abs_round s) _ e in
      let ((b, l1), created, e2) =
        >>=-eq-ok (create_block crypto public_key c l creation _ _) _ e1 in
      let ((l2, rest), later, e3) =
        >>=-eq-ok
          (create_slots crypto public_key c times submitted bucket abs_round (i + 1) l1 slots) _
          e2 in
      elim (subst (λ r. In m r.1) (sym (ok_injective e3)) j) [
        | here same ↦
            subst (IsCreation crypto public_key c) (sym (ap (λ x. x.0) same))
              (l, l1, creation, (times i).0, (times i).1, created)
        | there k ↦ create_slots-create_block (i + 1) l1 l2 slots rest later m k
      ]

  In-map-block :
      (b : Block) (made : List (Block × BlockTransfer))
      → In b (map (λ m. m.0) made)
      → (m : Block × BlockTransfer) × In m made × (b ≡ m.0)
  In-map-block b [] i = elim i [ ]
  In-map-block b (m ∷ made) (here e) = (m, here refl, e)
  In-map-block b (m ∷ made) (there i) = let (x, j, e) = In-map-block b made i in (x, there j, e)

  -- A round appends blocks that createBlock made.
  pub generate_round-create_block :
      (l l' : Ledger) (positions : List ℕ) (slot : ℕ) (made : List (Block × BlockTransfer))
      → generate_round crypto public_key c times submitted bucket abs_round l positions slot
        ≡ ok (l', made)
      → (l'.blockchain ≡ l.blockchain ++ map (λ m. m.0) made)
        × ((b : Block) → In b (map (λ m. m.0) made) → IsCreation crypto public_key c b)
  unfolding generate_round
  generate_round-create_block l l' positions slot made e =
      let (slots, _, run) = >>=-eq-ok (plan_round c l.blockchain positions slot abs_round) _ e in
      let (grown, _, _) = create_slots-IsRound 0 l l' slots made run in
      (
        grown,
        λ b i.
            let (m, j, same) = In-map-block b made i in
            subst (IsCreation crypto public_key c) (sym same)
              (create_slots-create_block 0 l l' slots made run m j),
      )

  -- When a round of the schedule returns with the positions that were identified in the running bucket, it
  -- has appended its blocks to the blockchain in the order of their slots, and each of them, sent as the
  -- transfer of that block with the signature of its secret, stands at a slot of the running bucket
  -- whose commitment the node itself submitted: the block carries this commitment's hash, the slot's
  -- row and the next column.
  pub generate_round-IsOwn :
      (keccak256 : Bytes → Bytes) (l l' : Ledger) (slot : ℕ) (made : List (Block × BlockTransfer))
      → generate_round crypto public_key c times submitted bucket abs_round l
          (identify_commitment_positions keccak256 submitted bucket).1
          slot
        ≡ ok (l', made)
      → (l'.blockchain ≡ l.blockchain ++ map (λ m. m.0) made)
        × ((b : Block) (t : BlockTransfer)
            → In (b, t) made
            → (i : ℕ) × (get_elem? bucket i ≡ some b.commitment_hash)
              × (is_submitted submitted b.commitment_hash ≡ true)
              × (b.row ≡ i % c.dag_parallel_len)
              × (b.col ≡ abs_round + 1)
              × (t
                  ≡ new_block_transfer b
                      (get_commitment_info_by_hash submitted b.commitment_hash).secret_sig))
  unfolding generate_round
  generate_round-IsOwn keccak256 l l' slot made e =
      let positions = (identify_commitment_positions keccak256 submitted bucket).1 in
      let (slots, planned, run) =
        >>=-eq-ok (plan_round c l.blockchain positions slot abs_round) _ e in
      let (grown, _, each) = create_slots-IsRound 0 l l' slots made run in
      (
        grown,
        λ b t i.
            let (s, j, (hash, at, commitment, transfer, row, col, author)) = each (b, t) i in
            let (position, on_row, _) =
              plan_round-IsPlanned c l.blockchain positions slot abs_round slots s planned j in
            let (h, at', own) =
              (identify_commitment_positions-In keccak256 submitted bucket s.original).0 position in
            let same : h ≡ hash = ground arith in
            let found = get_commitment_info_by_hash-hash submitted hash (rw same at own) in
            let it : b.commitment_hash ≡ hash = commitment ∙ found in
            (
              s.original,
              at ∙ ap some (sym it),
              rw (it, ← same) own,
              row ∙ on_row,
              col,
              transfer
                  ∙ ap
                      (λ x.
                        new_block_transfer b (get_commitment_info_by_hash submitted x).secret_sig)
                      (sym it),
            ),
      )
