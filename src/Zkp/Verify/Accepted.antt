-- ===== src/Zkp/Verify/Accepted.antt =====
-- node-implementation/zkp.go: what the acceptance by isCommitmentValid says of a commitment.
use ssle_dag.Prelude.{
  ℕ, ◌%◌, ◌^◌, ◌≤◌, ◌≡◌, refl, ◌∙◌, sym, Bool, true, false, ◌&&◌, inl, inr, Option, none, some,
  arith, if◌then◌else◌, Outcome, ok, >>=-eq-ok, ok_injective, Bytes, bytes_eq→eq, Option-cases, ap,
  subst, true≢false,
}
use ssle_dag.Config.{Settings}
use ssle_dag.Messages.{PublicWitness, no_witness}
use ssle_dag.Utils.Encoding.{decode_string}
use ssle_dag.Zkp.Text.{split_at, parse_uint}
use ssle_dag.Zkp.Message.{protocol_version, epoch_separator, variant_separator}
use ssle_dag.Zkp.Verify.{
  Gnark, first_piece, second_piece, last_bytes, is_epoch, is_variant, check_epoch_round,
  check_variant, check_round_and_variant, check_public_witness, commitment_base64_decode,
  decode_public_witness, judge, is_commitment_valid,
}

-- The pieces of an accepted message, and the numbers in them.
pub record IsMessage (c : Settings) (w : PublicWitness) (epoch : ℕ) : Type 0 where
  pub rest : Bytes
  pub variant_text : Bytes
  pub field : Bytes
  pub field_text : Bytes
  pub round : ℕ
  pub field_round : ℕ
  pub variant : ℕ
  pub version : first_piece (split_at epoch_separator w.message) ≡ protocol_version
  pub rest_at : second_piece (split_at epoch_separator w.message) ≡ ok rest
  pub round_at : parse_uint 64 (first_piece (split_at variant_separator rest)) ≡ some round
  pub round_is : round % 2 ^ 32 ≡ epoch
  pub field_at : decode_string w.epoch_round ≡ some field
  pub field_text_at : last_bytes 10 field ≡ ok field_text
  pub field_round_at : parse_uint 32 field_text ≡ some field_round
  pub field_round_is : field_round % 2 ^ 32 ≡ epoch
  pub variant_text_at : second_piece (split_at variant_separator rest) ≡ ok variant_text
  pub variant_at : parse_uint 64 variant_text ≡ some variant
  pub lower : c.min_commitment_var ≤ variant
  pub upper : variant ≤ c.max_commitment_var

is_epoch-true :
    (parsed : Option ℕ) (epoch : ℕ)
    → is_epoch parsed epoch ≡ true
    → (n : ℕ) × (parsed ≡ some n) × (n % 2 ^ 32 ≡ epoch)
unfolding is_epoch
is_epoch-true none epoch e = cc
is_epoch-true (some n) epoch e = (n, refl, ground arith)

is_variant-true :
    (c : Settings) (parsed : Option ℕ)
    → is_variant c parsed ≡ true
    → (n : ℕ) × (parsed ≡ some n) × (c.min_commitment_var ≤ n) × (n ≤ c.max_commitment_var)
unfolding is_variant
is_variant-true c none e = cc
is_variant-true c (some n) e = (n, refl, ground arith, ground arith)

check_epoch_round-true :
    (text : Bytes) (epoch : ℕ)
    → check_epoch_round text epoch ≡ ok true
    → (field field_text : Bytes) × (n : ℕ) × (decode_string text ≡ some field)
      × (last_bytes 10 field ≡ ok field_text)
      × (parse_uint 32 field_text ≡ some n)
      × (n % 2 ^ 32 ≡ epoch)
unfolding check_epoch_round
check_epoch_round-true text epoch e = elim (Option-cases (decode_string text)) [
  | inl bad ↦ absurd (true≢false (sym (ok_injective (rw (bad, check_epoch_round) at e))))
  | inr (field, decoded) ↦
      let (last, at, same) =
        >>=-eq-ok (last_bytes 10 field) _ (rw (decoded, check_epoch_round) at e) in
      let (n, parsed, is) = is_epoch-true (parse_uint 32 last) epoch (ok_injective same) in
      (field, last, n, decoded, at, parsed, is)
]

-- Only the true answer of a test is passed on.
passed :
    (b : Bool) (run : Outcome Bool)
    → (if b then run else ok false) ≡ ok true
    → (b ≡ true) × (run ≡ ok true)
passed true run e = (refl, e)
passed false run e = absurd (true≢false (sym (ok_injective e)))

check_public_witness-true :
    (c : Settings) (w : PublicWitness) (epoch : ℕ)
    → check_public_witness c w epoch ≡ ok true
    → IsMessage c w epoch
unfolding check_public_witness check_round_and_variant check_variant
check_public_witness-true c w epoch e =
    let (version, e1) = passed _ _ e in
    let (rest, rest_at, e2) = >>=-eq-ok (second_piece (split_at epoch_separator w.message)) _ e1 in
    let pieces = split_at variant_separator rest in
    let (in_epoch, e3) = passed _ _ e2 in
    let (same, checked, e4) = >>=-eq-ok (check_epoch_round w.epoch_round epoch) _ e3 in
    let (same_true, e5) = passed _ _ e4 in
    let (variant_text, text_at, e6) = >>=-eq-ok (second_piece pieces) _ e5 in
    let (round, round_at, round_is) =
      is_epoch-true (parse_uint 64 (first_piece pieces)) epoch in_epoch in
    let (field, field_text, n, field_at, field_text_at, parsed, is) =
      check_epoch_round-true w.epoch_round epoch (checked ∙ ap ok same_true) in
    let (variant, variant_at, lower, upper) =
      is_variant-true c (parse_uint 64 variant_text) (ok_injective e6) in
    record {
      rest = rest;
      variant_text = variant_text;
      field = field;
      field_text = field_text;
      round = round;
      field_round = n;
      variant = variant;
      version = bytes_eq→eq _ _ version;
      rest_at = rest_at;
      round_at = round_at;
      round_is = round_is;
      field_at = field_at;
      field_text_at = field_text_at;
      field_round_at = parsed;
      field_round_is = is;
      variant_text_at = text_at;
      variant_at = variant_at;
      lower = lower;
      upper = upper;
    }

-- The answer of judge for a result of the tests.
verdict : Bool → PublicWitness → Bool × PublicWitness
verdict b v = if b then (true, v) else (false, no_witness)

verdict-true : (b : Bool) (v w : PublicWitness) → verdict b v ≡ (true, w) → (b ≡ true) × (v ≡ w)
unfolding verdict
verdict-true true v w e = (refl, ap (λ p. p.1) e)
verdict-true false v w e = absurd (true≢false (sym (ap (λ p. p.0) e)))

both_true : (a b : Bool) → (a && b) ≡ true → (a ≡ true) × (b ≡ true)
both_true true b e = (refl, e)
both_true false b e = cc

judge-true :
    (c : Settings) (epoch : ℕ) (verified : Bool) (w : PublicWitness) (fields : Option PublicWitness)
    → judge c epoch verified fields ≡ ok (true, w)
    → (fields ≡ some w) × (verified ≡ true) × IsMessage c w epoch
unfolding judge verdict
judge-true c epoch verified w none e = absurd (true≢false (sym (ap (λ p. p.0) (ok_injective e))))
judge-true c epoch verified w (some v) e =
    let (good, checked, e1) = >>=-eq-ok (check_public_witness c v epoch) _ e in
    let (both, same) = verdict-true (good && verified) v w (ok_injective e1) in
    let (good_true, verified_true) = both_true good verified both in
    (
      ap some same,
      verified_true,
      subst (λ x. IsMessage c x epoch) same
          (check_public_witness-true c v epoch (checked ∙ ap ok good_true)),
    )

-- A commitment that isCommitmentValid accepts for an epoch, with the public witness that it returns, is
-- the text of a witness and a proof of which the proof is verified against the witness; the returned
-- fields are read from that witness; the message has the protocol's version, a round that is the epoch
-- modulo 2^32 and a variant between the configured bounds, and EpochRound names the epoch.
pub is_commitment_valid-IsMessage :
    {Witness Proof : Type 0} (gnark : Gnark Witness Proof) (c : Settings) (commitment : Bytes)
    (epoch : ℕ) (w : PublicWitness)
    → is_commitment_valid gnark c commitment epoch ≡ ok (true, w)
    → (witness : Witness) × (proof : Proof) × (commitment_base64_decode gnark commitment
        ≡ some (witness, proof))
      × (gnark.verify proof witness ≡ true)
      × (decode_public_witness gnark witness ≡ ok (some w))
      × IsMessage c w epoch
unfolding is_commitment_valid
is_commitment_valid-IsMessage gnark c commitment epoch w e =
    elim (Option-cases (commitment_base64_decode gnark commitment)) [
      | inl bad ↦
          absurd
            (true≢false (sym (ap (λ p. p.0) (ok_injective (rw (bad, is_commitment_valid) at e)))))
      | inr ((witness, proof), decoded) ↦
          let (fields, read, e1) =
            >>=-eq-ok (decode_public_witness gnark witness) _
              (rw (decoded, is_commitment_valid) at e) in
          let (fields_are, verified, message) =
            judge-true c epoch (gnark.verify proof witness) w fields e1 in
          (witness, proof, decoded, verified, read ∙ ap ok fields_are, message)
    ]
