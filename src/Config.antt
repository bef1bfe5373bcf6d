-- ===== src/Config.antt =====
-- node-implementation/config.go: initConfiguration, which sets the global variables of config.go
-- and constants.go from the parsed file. The numbers of the file are natural numbers.
use Prim.Native.Nat.{bit_and}
use native.Mathlib.Decide.{ℕ_discrete}
use ssle_dag.Prelude.{
  ℕ, ◌-◌, ◌*◌, ◌^◌, ◌<◌, ◌≡◌, refl, ◌≢◌, ◌==◌, if◌then◌else◌, Outcome, ok, exit, panic, ◌>>=◌,
  Bytes, Bool-cases, inl, inr, ==_iff, sym, ◌∙◌, subst, ok_injective, panic≢ok, exit≢ok, arith,
}
use ssle_dag.Prelude.Int.{ℤ, sub_ℕ}
use ssle_dag.Prelude.Bits.{bit_and-pow_pred, pow_of_bit_and}
use ssle_dag.Utils.Powers.{log_base2, log_base2-pow, log_base2_bounds}

-- The fields of the section Environment of the type Config that initConfiguration reads.
pub record Environment : Type 0 where
  pub nodes : ℕ
  pub block_time_seconds : ℕ
  pub dag_parallel_length : ℕ
  pub epoch_size_rounds : ℕ
  pub tx_per_block : ℕ
  pub min_tx_to_split : ℕ
  pub min_tx_to_merge : ℕ
  pub random_shuffling_key : Bytes
  pub min_commitments : ℕ
  pub max_commitments : ℕ

-- The global variables that the configuration sets.
pub record Settings : Type 0 where
  pub num_of_nodes : ℕ
  pub num_of_other_nodes : ℤ
  pub min_commitment_var : ℕ
  pub max_commitment_var : ℕ
  pub block_time_seconds : ℕ
  pub dag_parallel_len : ℕ
  pub epoch_size_rounds : ℕ
  pub epoch_size : ℕ
  pub processed_tx_per_block : ℕ
  pub min_tx_to_split : ℕ
  pub min_tx_to_merge : ℕ
  pub random_shuffle_hex : Bytes
  pub dag_max_depth : ℕ

-- The assignments, with the maximal depth that is computed last.
abbrev pub settings : Environment → ℕ → Settings
settings e max_depth = record {
  num_of_nodes = e.nodes;
  num_of_other_nodes = sub_ℕ e.nodes 1;
  min_commitment_var = e.min_commitments;
  max_commitment_var = e.max_commitments;
  block_time_seconds = e.block_time_seconds;
  dag_parallel_len = e.dag_parallel_length;
  epoch_size_rounds = e.epoch_size_rounds;
  epoch_size = e.dag_parallel_length * e.epoch_size_rounds;
  processed_tx_per_block = e.tx_per_block;
  min_tx_to_split = e.min_tx_to_split;
  min_tx_to_merge = e.min_tx_to_merge;
  random_shuffle_hex = e.random_shuffling_key;
  dag_max_depth = max_depth;
}

-- At length 0 Go's n&(n-1) is 0 & -1 = 0, and so it is with the truncated subtraction.
unfoldable pub init_configuration : Environment → Outcome Settings
init_configuration e =
    let len = e.dag_parallel_length in
    if bit_and len (len - 1) == 0
    then log_base2 len >>= (λ max_depth. ok (settings e max_depth))
    else exit

-- What the rest of the program relies on.
pub record IsConfigured (c : Settings) : Type 0 where
  pub parallel : c.dag_parallel_len ≡ 2 ^ c.dag_max_depth
  pub epoch : c.epoch_size ≡ c.dag_parallel_len * c.epoch_size_rounds

-- initConfiguration returns with a parallel length that is 2 to the maximal depth when the file's
-- length is a power of two; it exits at every other positive length. At length 0, which passes the
-- test for a power of two, the logarithm panics.
pub init_configuration_lem :
    (e : Environment)
    → ((k : ℕ)
        → e.dag_parallel_length ≡ 2 ^ k
        → (c : Settings) × (init_configuration e ≡ ok c) × IsConfigured c × (c.dag_max_depth ≡ k))
      × (0 < e.dag_parallel_length
          → ((k : ℕ) → e.dag_parallel_length ≢ 2 ^ k)
          → init_configuration e ≡ exit)
      × (e.dag_parallel_length ≡ 0 → init_configuration e ≡ panic)
unfolding init_configuration
init_configuration_lem e = (returns, exits, panics)
  where
    returns :
        (k : ℕ)
        → e.dag_parallel_length ≡ 2 ^ k
        → (c : Settings) × (init_configuration e ≡ ok c) × IsConfigured c × (c.dag_max_depth ≡ k)
    returns k h = (
      settings e k,
      rw (h, bit_and-pow_pred k, log_base2-pow k) refl,
      record { parallel = h; epoch = refl },
      refl,
    )

    exits :
        0 < e.dag_parallel_length
        → ((k : ℕ) → e.dag_parallel_length ≢ 2 ^ k)
        → init_configuration e ≡ exit
    exits p other =
        elim (Bool-cases (bit_and e.dag_parallel_length (e.dag_parallel_length - 1) == 0)) [
          | inl passes ↦
              let (k, pow) = pow_of_bit_and e.dag_parallel_length p ((==_iff _ 0).0 passes) in
              absurd (other k pow)
          | inr fails ↦ rw fails
        ]

    panics : e.dag_parallel_length ≡ 0 → init_configuration e ≡ panic
    panics h = rw (h, (log_base2_bounds 0).0)

-- With a parallel length that is a power of two initConfiguration returns, with that length, its
-- exponent as the maximal depth, and the epoch's size in slots as the product of length and rounds.
pub init_configuration-returns :
    (e : Environment) (k : ℕ)
    → e.dag_parallel_length ≡ 2 ^ k
    → (c : Settings) × (init_configuration e ≡ ok c) × IsConfigured c × (c.dag_max_depth ≡ k)
init_configuration-returns e k h = (init_configuration_lem e).0 k h

-- With a positive parallel length that is no power of two initConfiguration exits.
pub init_configuration-exits :
    (e : Environment)
    → 0 < e.dag_parallel_length
    → ((k : ℕ) → e.dag_parallel_length ≢ 2 ^ k)
    → init_configuration e ≡ exit
init_configuration-exits e p other = (init_configuration_lem e).1 p other

-- Whenever initConfiguration returns, its settings are consistent.
pub init_configuration-IsConfigured :
    (e : Environment) (c : Settings) → init_configuration e ≡ ok c → IsConfigured c
unfolding init_configuration
init_configuration-IsConfigured e c h = elim (ℕ_discrete e.dag_parallel_length 0) [
  | yes none_parallel ↦ absurd (panic≢ok (sym ((init_configuration_lem e).2 none_parallel) ∙ h))
  | no some_parallel ↦
      elim (Bool-cases (bit_and e.dag_parallel_length (e.dag_parallel_length - 1) == 0)) [
        | inl passes ↦
            let (k, pow) =
              pow_of_bit_and e.dag_parallel_length (omega arith) ((==_iff _ 0).0 passes) in
            let (c', returned, configured, _) = init_configuration-returns e k pow in
            subst IsConfigured (ok_injective (sym returned ∙ h)) configured
        | inr fails ↦ absurd (exit≢ok (rw fails at h))
      ]
]
