-- ===== src/P2p/Schedule/Round/Planned.antt =====
-- node-implementation/p2p_communication.go: where the slots of a round and the requests for their blocks come
-- from.
use ssle_dag.Prelude.{
  ℕ, ◌+◌, ◌%◌, ◌≡◌, refl, sym, ap, subst, true, false, ◌&&◌, not, inl, inr, List, [], ◌∷◌, Option,
  none, some, ok, panic, panic≢ok, >>=-eq-ok, ok_injective, Bytes, bytes_eq_iff, get_elem?, In,
  here, there, arith, Bool-cases,
}
use ssle_dag.Prelude.Int.{ℤ}
use ssle_dag.Config.{Settings}
use ssle_dag.Messages.{Transaction, Block, BlockCreation, CommitmentInfo, DagActionType}
use ssle_dag.Utils.Majority.{slice_contains_int, slice_contains_int-In}
use ssle_dag.Blockchain.{Ledger}
use ssle_dag.Blockchain.Hashing.{Crypto, decode_hashes, compute_merkle_root}
use ssle_dag.Blockchain.Create.{create_block, unhashed_block, log_prefixes, block_transactions}
use ssle_dag.P2p.Bucket.{is_submitted}
use ssle_dag.P2p.Schedule.{
  OwnSlot, is_skip, own_slots, epoch_indexes, mark_loop, plan_round, block_depth,
  included_transactions, get_commitment_info_by_hash, block_creation,
}

-- Where a slot of the plan comes from.
abbrev pub IsPlanned : Settings → List ℕ → OwnSlot → Type 0
IsPlanned c positions s =
    In s.original positions
    × (s.row ≡ s.original % c.dag_parallel_len)
    × (is_skip s.action.action ≡ false)

own_slots-IsPlanned :
    (c : Settings) (positions indexes : List ℕ) (actions : List DagActionType) (s : OwnSlot)
    → In s (own_slots c positions indexes actions)
    → IsPlanned c positions s
unfolding own_slots
own_slots-IsPlanned c positions [] actions s i = elim i [ ]
own_slots-IsPlanned c positions (idx ∷ indexes) [] s i = elim i [ ]
own_slots-IsPlanned c positions (idx ∷ indexes) (a ∷ actions) s i =
    elim (Bool-cases (not (is_skip a.action) && slice_contains_int positions idx)) [
      | inl own ↦
          planned (rw own at i) (slice_contains_int-In positions idx (ground arith)) (ground arith)
            (own_slots-IsPlanned c positions indexes actions s)
      | inr other ↦ own_slots-IsPlanned c positions indexes actions s (rw other at i)
    ]
  where
    planned :
        In s (
          record { row = idx % c.dag_parallel_len; action = a; original = idx }
          ∷ own_slots c positions indexes actions)
        → In idx positions
        → is_skip a.action ≡ false
        → (In s (own_slots c positions indexes actions) → IsPlanned c positions s)
        → IsPlanned c positions s
    planned (here e) known active later = rw e (known, refl, active)
    planned (there j) known active later = later j

pub plan_round-IsPlanned :
    (c : Settings) (blockchain : List Block) (positions : List ℕ) (slot abs_round : ℕ)
    (slots : List OwnSlot) (s : OwnSlot)
    → plan_round c blockchain positions slot abs_round ≡ ok slots
    → In s slots
    → IsPlanned c positions s
unfolding plan_round
plan_round-IsPlanned c blockchain positions slot abs_round slots s e i =
    let (marked, _, planned) = >>=-eq-ok (mark_loop c _ 0 _) _ e in
    own_slots-IsPlanned c positions (epoch_indexes slot c.dag_parallel_len) marked s
      (subst (In s) (sym (ok_injective planned)) i)

-- What a submitted hash is looked up to.
pub get_commitment_info_by_hash-hash :
    (submitted : List CommitmentInfo) (h : Bytes)
    → is_submitted submitted h ≡ true
    → (get_commitment_info_by_hash submitted h).hash ≡ h
unfolding is_submitted get_commitment_info_by_hash
get_commitment_info_by_hash-hash [] h e = cc
get_commitment_info_by_hash-hash (info ∷ submitted) h e = ground (
  arith,
  bytes_eq_iff h info.hash,
  bytes_eq_iff info.hash h,
  get_commitment_info_by_hash-hash submitted h,
)

module _ (submitted : List CommitmentInfo) (bucket : List Bytes) (abs_round : ℕ) where
  -- The request for the block of a slot.
  abbrev pub IsRequested : OwnSlot → BlockCreation → Type 0
  IsRequested s creation =
      (hash : Bytes) × (get_elem? bucket s.original ≡ some hash)
      × (creation.commitment_hash ≡ (get_commitment_info_by_hash submitted hash).hash)
      × (creation.commitment_secret_signature
          ≡ (get_commitment_info_by_hash submitted hash).secret_sig)
      × (creation.row ≡ s.row)
      × (creation.col ≡ abs_round + 1)

  pub block_creation-IsRequested :
      (mempool : List (Bytes × Transaction)) (s : OwnSlot) (creation : BlockCreation)
      → block_creation submitted bucket mempool abs_round s ≡ ok creation
      → IsRequested s creation
  unfolding block_creation
  block_creation-IsRequested mempool s creation e =
      let (depth, _, e1) = >>=-eq-ok (block_depth s.action) _ e in
      let (txs, _, e2) = >>=-eq-ok (included_transactions _ depth s.row) _ e1 in
      requested (get_elem? bucket s.original) refl depth txs e2
    where
      requested :
          (found : Option Bytes)
          → get_elem? bucket s.original ≡ found
          → (depth : ℕ) (txs : List Transaction)
          → elim found [
            | none ↦ panic
            | some hash ↦ ok (record {
              commitment_hash = (get_commitment_info_by_hash submitted hash).hash;
              commitment_secret = (get_commitment_info_by_hash submitted hash).secret;
              commitment_secret_signature = (get_commitment_info_by_hash submitted hash).secret_sig;
              transactions = txs;
              depth = depth;
              parent_block = s.action.parent;
              second_parent_block = s.action.second;
              row = s.row;
              col = abs_round + 1;
            })
          ]
            ≡ ok creation
          → IsRequested s creation
      requested none f depth txs k = absurd (panic≢ok k)
      requested (some hash) f depth txs k =
          let same = ok_injective k in
          (
            hash,
            f,
            sym (ap (λ r. r.commitment_hash) same),
            sym (ap (λ r. r.commitment_secret_signature) same),
            sym (ap (λ r. r.row) same),
            sym (ap (λ r. r.col) same),
          )

pub create_block-commitment_hash :
    (crypto : Crypto) (public_key : Bytes) (c : Settings) (l l' : Ledger) (creation : BlockCreation)
    (reward_now now : ℤ) (b : Block)
    → create_block crypto public_key c l creation reward_now now ≡ ok (b, l')
    → b.commitment_hash ≡ creation.commitment_hash
unfolding create_block unhashed_block
create_block-commitment_hash crypto public_key c l l' creation reward_now now b h =
    let transactions = block_transactions crypto public_key c creation.transactions reward_now in
    let (hashes, eh, h₁) = >>=-eq-ok (decode_hashes transactions) _ h in
    let (root, er, h₂) = >>=-eq-ok (compute_merkle_root crypto hashes) _ h₁ in
    let (_, _, h₃) = >>=-eq-ok (log_prefixes _ _) _ h₂ in
    sym (ap (λ r. r.0.commitment_hash) (ok_injective h₃))
