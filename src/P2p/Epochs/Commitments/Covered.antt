-- ===== src/P2p/Epochs/Commitments/Covered.antt =====
-- node-implementation/p2p_communication.go: the epochs' variables are covered when each bucket's commitments are
-- in its map, which the changes of the epoch preserve.
use ssle_dag.Prelude.{
  ℕ, ◌+◌, ◌*◌, ◌%◌, ◌^◌, ◌≡◌, refl, subst, true, false, ◌⊎◌, inl, inr, List, [], ◌∷◌, ◌++◌, some,
  if◌then◌else◌, ◌==◌, ok, Bytes, bytes_eq, arith, length, All, In, here, there,
}
use ssle_dag.Prelude.Dict.{
  lookup, insert, copy_into, lookup-insert, lookup-insert_self, lookup-copy_into_source, All-insert,
  All-copy_into,
}
use ssle_dag.Config.{Settings}
use ssle_dag.Messages.{CommitmentSharedInfo}
use ssle_dag.P2p.Bucket.{sort_strings}
use ssle_dag.P2p.Bucket.Members.{In-sort_strings}
use ssle_dag.P2p.Epochs.{
  Epoch, Epochs, reset, copy_to_ready, pass_to_epoch_ready, pass_to_epoch_running,
}
use ssle_dag.P2p.Epochs.Commitments.{store, sort_if_full, start_generation}

-- Every commitment of the bucket is known to the map, and the map holds every commitment under its
-- own hash.
pub record IsCovered (e : Epoch) : Type 0 where
  pub known :
      (h : Bytes)
      → In h e.commitments_bucket
      → (shared : CommitmentSharedInfo) × (lookup h e.commitments_bucket_map ≡ some shared)
  pub keyed : All (λ entry. entry.1.hash ≡ entry.0) e.commitments_bucket_map

pub record AreCovered (s : Epochs) : Type 0 where
  pub dev_IsCovered : IsCovered s.dev
  pub rdy_IsCovered : IsCovered s.rdy
  pub run_IsCovered : IsCovered s.run

reset-IsCovered : (e : Epoch) (round : ℕ) → IsCovered (reset e round)
reset-IsCovered e round = record { known = λ h m. elim m [ ]; keyed = tt }

In-snoc : (l : List Bytes) (x h : Bytes) → In h (l ++ x ∷ []) → (h ≡ x) ⊎ In h l
In-snoc [] x h (here e) = inl e
In-snoc [] x h (there m) = inr m
In-snoc (y ∷ l) x h (here e) = inr (here e)
In-snoc (y ∷ l) x h (there m) = elim (In-snoc l x h m) [ inl e ↦ inl e | inr m' ↦ inr (there m') ]

lookup-insert-some :
    (k j : Bytes) (v w : CommitmentSharedInfo) (m : List (Bytes × CommitmentSharedInfo))
    → lookup j m ≡ some w
    → (u : CommitmentSharedInfo) × (lookup j (insert k v m) ≡ some u)
lookup-insert-some k j v w m e =
    (if bytes_eq k j then v else w, ground (arith, lookup-insert k j v m))

pub store-IsCovered :
    (shared : CommitmentSharedInfo) (e : Epoch) → IsCovered e → IsCovered (store shared e)
unfolding store
store-IsCovered shared e cover = record {
  known = λ h m. elim (In-snoc e.commitments_bucket shared.hash h m) [
    | inl at ↦ (shared, rw at (lookup-insert_self shared.hash shared e.commitments_bucket_map))
    | inr old ↦
        let (w, k) = cover.known h old in
        lookup-insert-some shared.hash h shared w e.commitments_bucket_map k
  ];
  keyed =
      All-insert (λ entry. entry.1.hash ≡ entry.0) shared.hash shared e.commitments_bucket_map refl
        cover.keyed;
}

-- A map that takes in another one, with the bucket of the other.
copy_into-IsCovered :
    (m : List (Bytes × CommitmentSharedInfo)) (e : Epoch)
    → All (λ entry. entry.1.hash ≡ entry.0) m
    → IsCovered e
    → IsCovered (record e { commitments_bucket_map = copy_into m e.commitments_bucket_map })
copy_into-IsCovered m e keyed cover = record {
  known = λ h i.
      let (shared, k) = cover.known h i in
      lookup-copy_into_source h m e.commitments_bucket_map shared k;
  keyed =
      All-copy_into (λ entry. entry.1.hash ≡ entry.0) m e.commitments_bucket_map keyed cover.keyed;
}

pub sort_if_full-IsCovered : (c : Settings) (e : Epoch) → IsCovered e → IsCovered (sort_if_full c e)
unfolding sort_if_full
sort_if_full-IsCovered c e cover =
    elim (length e.commitments_bucket == c.max_commitment_var * c.num_of_nodes)
      as (λ b.
        IsCovered
          (if b then record e { commitments_bucket = sort_strings e.commitments_bucket } else e)) [
            | true ↦ record {
              known = λ h m. cover.known h (In-sort_strings e.commitments_bucket h m);
              keyed = cover.keyed;
            }
            | false ↦ cover
          ]

-- The three generations stay as they are.
abbrev pub IsKept : Epochs → Epochs → Type 0
IsKept s s' = (s.dev ≡ s'.dev) × (s.rdy ≡ s'.rdy) × (s.run ≡ s'.run)

pub kept-AreCovered : (s s' : Epochs) → IsKept s s' → AreCovered s → AreCovered s'
kept-AreCovered s s' (d, r, u) cover = record {
  dev_IsCovered = subst IsCovered d cover.dev_IsCovered;
  rdy_IsCovered = subst IsCovered r cover.rdy_IsCovered;
  run_IsCovered = subst IsCovered u cover.run_IsCovered;
}

pub start_generation-IsKept : (s : Epochs) (round : ℕ) → IsKept s ((start_generation s round).0)
unfolding start_generation
start_generation-IsKept s round = (ground arith, ground arith, ground arith)

pub with_dev :
    (s : Epochs) (e : Epoch) → AreCovered s → IsCovered e → AreCovered (record s { dev = e })
with_dev s e cover k = record {
  dev_IsCovered = k;
  rdy_IsCovered = cover.rdy_IsCovered;
  run_IsCovered = cover.run_IsCovered;
}

pub pass_to_epoch_running-AreCovered :
    (s : Epochs) → AreCovered s → AreCovered (pass_to_epoch_running s)
unfolding pass_to_epoch_running
pass_to_epoch_running-AreCovered s cover = record {
  dev_IsCovered = cover.dev_IsCovered;
  rdy_IsCovered = reset-IsCovered s.rdy s.rdy.epoch_round;
  run_IsCovered =
      copy_into-IsCovered s.run.commitments_bucket_map s.rdy cover.run_IsCovered.keyed
        cover.rdy_IsCovered;
}

pub copy_to_ready-AreCovered : (s : Epochs) → AreCovered s → AreCovered (copy_to_ready s)
copy_to_ready-AreCovered s cover = record {
  dev_IsCovered = cover.dev_IsCovered;
  rdy_IsCovered =
      copy_into-IsCovered s.rdy.commitments_bucket_map s.dev cover.rdy_IsCovered.keyed
        cover.dev_IsCovered;
  run_IsCovered = cover.run_IsCovered;
}

unfoldable pub after_ready : Epochs → Epochs
after_ready s = record s {
  rdy = record s.dev {
    commitments_bucket_map = copy_into s.rdy.commitments_bucket_map s.dev.commitments_bucket_map;
  };
  dev = reset s.dev ((s.dev.epoch_round + 1) % 2 ^ 32);
  bucket_hashes_check = [];
}

pub pass_to_epoch_ready-ok :
    (s s' : Epochs) → pass_to_epoch_ready s ≡ ok s' → IsKept (after_ready s) s'
unfolding pass_to_epoch_ready after_ready
pass_to_epoch_ready-ok s s' e = (ground arith, ground arith, ground arith)

pub pass_to_epoch_ready-AreCovered :
    (s s' : Epochs) → pass_to_epoch_ready s ≡ ok s' → AreCovered s → AreCovered s'
unfolding after_ready
pass_to_epoch_ready-AreCovered s s' e cover =
    kept-AreCovered (after_ready s) s' (pass_to_epoch_ready-ok s s' e) (record {
      dev_IsCovered = reset-IsCovered s.dev ((s.dev.epoch_round + 1) % 2 ^ 32);
      rdy_IsCovered = (copy_to_ready-AreCovered s cover).rdy_IsCovered;
      run_IsCovered = cover.run_IsCovered;
    })
