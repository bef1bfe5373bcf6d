-- ===== src/Connections/Ids.antt =====
-- node-implementation/p2p.go: the ids of nodes are numbers, so that the name of a protocol can be taken apart.
use ssle_dag.Prelude.{
  ℕ, ◌+◌, ◌*◌, ◌-◌, ◌≡◌, ◌≢◌, refl, ap, inl, inr, [], ◌∷◌, ◌++◌, Option, none, some, ◌==◌, leb, ok,
  Bytes, codes, All, arith, get_elem?, Bool-cases, ◌&&◌,
}
use ssle_dag.Prelude.Int.{ℤ}
use ssle_dag.Zkp.Text.{split_at, parse_digits, in_range, parse_uint, split_at-once}
use ssle_dag.Zkp.Text.Numbers.{All-append}
use ssle_dag.Connections.{
  Connections, positive, negative, atoi, protocol_name, accept_stream, handle_stream,
}

-- A text without the separator of the protocol's name.
abbrev pub IsPiece : Bytes → Type 0
IsPiece = All (λ b. b ≢ b'_')

parse_digits-IsPiece : (acc n : ℕ) (s : Bytes) → parse_digits acc s ≡ some n → IsPiece s
unfolding parse_digits
parse_digits-IsPiece acc n [] e = tt
parse_digits-IsPiece acc n (b ∷ s) e = elim (Bool-cases (leb b'0' b && leb b b'9')) [
  | inl digit ↦ (ground arith, parse_digits-IsPiece (acc * 10 + (b - b'0')) n s (rw digit at e))
  | inr other ↦ cc (rw other at e)
]

-- Where the range or the sign is accepted, there was a number.
in_range-some : (bits n : ℕ) (v : Option ℕ) → in_range bits v ≡ some n → (m : ℕ) × (v ≡ some m)
unfolding in_range
in_range-some bits n none e = cc
in_range-some bits n (some m) e = (m, refl)

positive-some : (z : ℤ) (v : Option ℕ) → positive v ≡ some z → (m : ℕ) × (v ≡ some m)
unfolding positive
positive-some z none e = cc
positive-some z (some m) e = (m, refl)

negative-some : (z : ℤ) (v : Option ℕ) → negative v ≡ some z → (m : ℕ) × (v ≡ some m)
unfolding negative
negative-some z none e = cc
negative-some z (some m) e = (m, refl)

parse_uint-IsPiece : (bits n : ℕ) (s : Bytes) → parse_uint bits s ≡ some n → IsPiece s
unfolding parse_uint
parse_uint-IsPiece bits n [] e = tt
parse_uint-IsPiece bits n (b ∷ s) e =
    let (m, parsed) = in_range-some bits n (parse_digits 0 (b ∷ s)) e in
    parse_digits-IsPiece 0 m (b ∷ s) parsed

positive-IsPiece :
    (bits : ℕ) (s : Bytes) (z : ℤ) → positive (parse_uint bits s) ≡ some z → IsPiece s
positive-IsPiece bits s z e =
    let (m, parsed) = positive-some z (parse_uint bits s) e in parse_uint-IsPiece bits m s parsed

negative-IsPiece :
    (bits : ℕ) (s : Bytes) (z : ℤ) → negative (parse_uint bits s) ≡ some z → IsPiece s
negative-IsPiece bits s z e =
    let (m, parsed) = negative-some z (parse_uint bits s) e in parse_uint-IsPiece bits m s parsed

-- An id that is a number has no separator in it.
pub atoi-IsPiece : (s : Bytes) (z : ℤ) → atoi s ≡ some z → IsPiece s
unfolding atoi
atoi-IsPiece [] z e = tt
atoi-IsPiece (b ∷ s) z e = elim (Bool-cases (b == b'+')) [
  | inl plus ↦ (ground arith, positive-IsPiece 63 s z (rw plus at e))
  | inr other ↦ elim (Bool-cases (b == b'-')) [
    | inl minus ↦ (ground arith, negative-IsPiece 64 s z (rw (other, minus) at e))
    | inr digit ↦ positive-IsPiece 63 (b ∷ s) z (rw (other, digit) at e)
  ]
]

prefix-IsPiece : IsPiece (codes "/connection/")
prefix-IsPiece = omega arith

-- The second piece of the protocol's name is the id of the node that connects.
protocol_name-piece :
    (accepting connecting : Bytes)
    → IsPiece accepting
    → IsPiece connecting
    → get_elem? (split_at b'_' (protocol_name accepting connecting)) 1 ≡ some connecting
unfolding protocol_name
protocol_name-piece accepting connecting h k =
    ap (λ pieces. get_elem? pieces 1)
      (split_at-once b'_' (codes "/connection/" ++ accepting) connecting
        (All-append (λ b. b ≢ b'_') (codes "/connection/") accepting prefix-IsPiece h) k)

pub handle_stream-protocol_name :
    (self_id peer : Bytes) (stream : ℕ) (k : Connections)
    → IsPiece self_id
    → IsPiece peer
    → handle_stream self_id (protocol_name self_id peer) stream k
      ≡ ok (accept_stream self_id peer stream k)
unfolding handle_stream
handle_stream-protocol_name self_id peer stream k h i =
    rw (protocol_name-piece self_id peer h i, handle_stream) refl
