-- ===== src/Blockchain/Mempool.antt =====
-- node-implementation/blockchain.go: the loop that removes a block's transactions from the mempool.
use ssle_dag.Prelude.{
  ◌≡◌, List, [], ◌∷◌, none, arith, Bytes, bytes_eq, bytes_eq_iff, bytes_eq_refl, In, here, there,
  not-In-nil, ◌∙◌, Bool-cases, inl, inr, refl, sym,
}
use ssle_dag.Prelude.Dict.{lookup, delete, lookup-delete}
use ssle_dag.Messages.{Transaction}
use ssle_dag.Blockchain.{delete_all}

lookup-delete_all-none :
    (k : Bytes) (keys : List Bytes) (m : List (Bytes × Transaction))
    → lookup k m ≡ none
    → lookup k (delete_all keys m) ≡ none
unfolding delete_all
lookup-delete_all-none k [] m h = h
lookup-delete_all-none k (j ∷ keys) m h =
    lookup-delete_all-none k keys (delete j m) (ground (arith, lookup-delete j k m))

-- A removed key is gone.
pub lookup-delete_all-In :
    (k : Bytes) (keys : List Bytes) (m : List (Bytes × Transaction))
    → In k keys
    → lookup k (delete_all keys m) ≡ none
unfolding delete_all
lookup-delete_all-In k [] m stands = absurd (not-In-nil stands)
lookup-delete_all-In k (j ∷ keys) m (here same) =
    lookup-delete_all-none k keys (delete j m) (lookup-delete j k m ∙ rw (same, bytes_eq_refl j))
lookup-delete_all-In k (j ∷ keys) m (there later) = lookup-delete_all-In k keys (delete j m) later

-- Every other key keeps its transaction.
pub lookup-delete_all_other :
    (k : Bytes) (keys : List Bytes) (m : List (Bytes × Transaction))
    → ¬ In k keys
    → lookup k (delete_all keys m) ≡ lookup k m
unfolding delete_all
lookup-delete_all_other k [] m other = refl
lookup-delete_all_other k (j ∷ keys) m other =
    lookup-delete_all_other k keys (delete j m) (λ later. other (there later))
    ∙ elim (Bool-cases (bytes_eq j k)) [
      | inl same ↦ absurd (other (here (sym ((bytes_eq_iff j k).0 same))))
      | inr apart ↦ lookup-delete j k m ∙ rw apart
    ]
