-- ===== src/Zkp/Message.antt =====
-- node-implementation/zkp.go: prepareEdDSA, which writes and signs the message of a commitment.
use ssle_dag.Prelude.{
  ℕ, ◌+◌, Bool, true, false, List, [], ◌∷◌, ◌++◌, Option, none, some, Outcome, ok, exit, ◌>>=◌,
  Bytes, codes, length,
}
use ssle_dag.Zkp.Text.{slice, zero_padded}

-- The constants PROTOCOL_VERSION and those of the separators, all of one character.
abbrev pub protocol_version : Bytes
protocol_version = codes "1"

abbrev pub epoch_separator : ℕ
epoch_separator = b'_'

abbrev pub variant_separator : ℕ
variant_separator = b'#'

abbrev pub commitment_separator : ℕ
commitment_separator = b'.'

pub record EddsaPreparation : Type 0 where
  pub public_key : Bytes
  pub private_key : Bytes
  pub message : Bytes
  pub signature : Bytes
  pub secret : Bytes
  pub message_summed : Bytes
  pub secret_signature : Bytes
  pub epoch_round : Bytes

-- signature.Signer of gnark-crypto with MiMC as its hash: the keys, and the results of Sign and Verify,
-- where none is an error.
pub record Signer : Type 0 where
  pub public_key : Bytes
  pub private_key : Bytes
  pub sign : Bytes → Option Bytes
  pub verify : Bytes → Bytes → Option Bool

-- epochStr and the message around it.
unfoldable pub epoch_text : ℕ → Bytes
epoch_text epoch = zero_padded 10 epoch

unfoldable pub message_text : ℕ → ℕ → Bytes
message_text epoch variant =
    protocol_version
    ++ epoch_separator ∷ epoch_text epoch
    ++ variant_separator ∷ zero_padded 5 variant

unfoldable pub prepare_eddsa_message_length : ℕ
prepare_eddsa_message_length = length protocol_version + 1 + 10 + 1 + 5

-- A signature that is at once verified; every failure ends the program.
unfoldable pub signed : Signer → Bytes → Outcome Bytes
signed signer message = elim (signer.sign message) [
  | none ↦ exit
  | some sig ↦ elim (signer.verify sig message) [
    | none ↦ exit
    | some verified ↦ elim verified [ true ↦ ok sig | false ↦ exit ]
  ]
]

-- `mimc` gives the sum of the MiMC hasher after a Reset and these writes.
unfoldable pub prepare_eddsa : (List Bytes → Bytes) → Signer → ℕ → ℕ → Outcome EddsaPreparation
prepare_eddsa mimc signer epoch variant = do
  sig_secret ← signed signer (epoch_text epoch)
  secret ← slice sig_secret 0 31
  let message = message_text epoch variant
  let message_summed = mimc (message ∷ secret ∷ [])
  sig_message ← signed signer message_summed
  ok (record {
    public_key = signer.public_key;
    private_key = signer.private_key;
    message = message;
    signature = sig_message;
    secret = secret;
    message_summed = message_summed;
    secret_signature = sig_secret;
    epoch_round = epoch_text epoch;
  })
