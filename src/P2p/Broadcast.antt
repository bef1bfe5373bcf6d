-- ===== src/P2p/Broadcast.antt =====
-- node-implementation/p2p_communication.go: sendMessageBroadcast, by which a node sends a message of its own to
-- all nodes.
use ssle_dag.Prelude.{
  ℕ, ◌<◌, ◌^◌, ◌≡◌, ◌≢◌, sym, ap, ◌∙◌, Bool, true, List, [], ◌∷◌, ◌++◌, some, Bytes, keep, All,
  arith, In, here, there, Bool-cases, inl, inr, true≢false,
}
use ssle_dag.Prelude.Int.{ℤ}
use ssle_dag.Messages.{Message, NetworkMessage, BlockTransfer}
use ssle_dag.P2p.History.{Gossip, gossip_message, read_data, gossip_message-read_data}
use ssle_dag.Zkp.Text.{decimal, parse_digits, split_at, split_at-once}
use ssle_dag.Zkp.Text.Numbers.{IsDigit, decimal-IsDigit, parse_digits-decimal}

-- The id of a new message: a random number below 32768 and the time in microseconds, in decimal.
unfoldable pub message_id : ℕ → ℕ → Bytes
message_id random time = decimal 19 random ++ b'_' ∷ decimal 19 time

-- The message, which enters the history, and the peers to which gossipMessage writes it.
unfoldable pub send_message_broadcast :
    ℕ
    → ℕ
    → Gossip
    → List Bytes
    → Message
    → BlockTransfer
    → Bytes
    → ℕ
    → ℤ
    → Gossip × NetworkMessage × List Bytes
send_message_broadcast random time g peers type block commitment epoch_round extra_int =
    let id = message_id random time in
    let noted : Gossip = record g { message_history = g.message_history ++ id ∷ [] } in
    (
      noted,
      record {
        id = id;
        type = type;
        block_transfer = block;
        commitment = commitment;
        commitment_epoch_round = epoch_round;
        extra_int = extra_int;
      },
      keep (λ peer. gossip_message noted peer id) peers,
    )

-- The forwarding of readData: the peers to which a message that is processed is written.
unfoldable pub forward : Gossip → List Bytes → Bytes → List Bytes
forward g peers id = keep (λ peer. gossip_message g peer id) peers

decimal-IsPiece : (n : ℕ) → All (λ b. b ≢ b'_') (decimal 19 n)
decimal-IsPiece n = digits (decimal 19 n) (decimal-IsDigit 19 n)
  where
    digits : (s : Bytes) → All IsDigit s → All (λ b. b ≢ b'_') s
    digits [] h = tt
    digits (b ∷ s) (d, h) = (ground arith, digits s h)

split_message_id :
    (random time : ℕ)
    → split_at b'_' (message_id random time) ≡ decimal 19 random ∷ decimal 19 time ∷ []
unfolding message_id
split_message_id random time =
    split_at-once b'_' (decimal 19 random) (decimal 19 time) (decimal-IsPiece random)
      (decimal-IsPiece time)

decimal-injective : (m n : ℕ) → m < 10 ^ 20 → n < 10 ^ 20 → decimal 19 m ≡ decimal 19 n → m ≡ n
decimal-injective m n hm hn e =
    some_injective
      (sym (parse_digits-decimal 19 m hm) ∙ ap (parse_digits 0) e ∙ parse_digits-decimal 19 n hn)
  where
    some_injective : {a b : ℕ} → some a ≡ some b → a ≡ b
    some_injective h = cc

-- The ids of two broadcasts are different, unless both the random number and the microsecond are the
-- same.
pub message_id-injective :
    (random time random' time' : ℕ)
    → random < 32768
    → random' < 32768
    → time < 2 ^ 63
    → time' < 2 ^ 63
    → message_id random time ≡ message_id random' time'
    → (random ≡ random') × (time ≡ time')
unfolding message_id
message_id-injective random time random' time' hr hr' ht ht' e =
    let pieces =
      sym (split_message_id random time) ∙ ap (split_at b'_') e ∙ split_message_id random' time' in
    (
      decimal-injective random random' (omega arith) (omega arith)
          (first_of (decimal 19 random) (decimal 19 random') _ _ pieces),
      decimal-injective time time' (omega arith) (omega arith)
          (second_of (decimal 19 random) (decimal 19 random') _ _ pieces),
    )
  where
    first_of : (a a' b b' : Bytes) → a ∷ b ∷ [] ≡ a' ∷ b' ∷ [] → a ≡ a'
    first_of a a' b b' h = cc

    second_of : (a a' b b' : Bytes) → a ∷ b ∷ [] ≡ a' ∷ b' ∷ [] → b ≡ b'
    second_of a a' b b' h = cc

In-keep {ℓ} : {A : Type ℓ} (p : A → Bool) (xs : List A) (a : A) → In a (keep p xs) → p a ≡ true
In-keep p [] a i = elim i [ ]
In-keep p (x ∷ xs) a i = elim (Bool-cases (p x)) [
  | inl passes ↦ at_head (rw passes at i) passes (In-keep p xs a)
  | inr fails ↦ In-keep p xs a (rw fails at i)
]
  where
    at_head : In a (x ∷ keep p xs) → p x ≡ true → (In a (keep p xs) → p a ≡ true) → p a ≡ true
    at_head (here e) passes later = ap p e ∙ passes
    at_head (there j) passes later = later j

-- A message that readData let through is not forwarded to the peer from which it was read, whatever the
-- histories were before.
pub forward-sender :
    (g : Gossip) (sender id : Bytes) (peers : List Bytes)
    → ¬ In sender (forward (read_data g sender id).0 peers id)
unfolding forward
forward-sender g sender id peers i = absurd (
    true≢false (
      sym (In-keep (λ peer. gossip_message (read_data g sender id).0 peer id) peers sender i)
      ∙ gossip_message-read_data g sender id))
