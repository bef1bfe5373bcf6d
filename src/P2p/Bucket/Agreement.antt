-- ===== src/P2p/Bucket/Agreement.antt =====
-- node-implementation/p2p_communication.go: what the nodes that hold the same commitments agree on,
-- in whatever order the commitments reached them, and which slots of the epoch are a node's own.
use mathlib.Core.List.{Permᴰ}
use ssle_dag.Prelude.{
  ℕ, zero, suc, ◌+◌, ◌*◌, ◌≡◌, refl, ◌∙◌, ap, sym, Bool, true, false, ◌⊎◌, inl, inr, ◌↔◌, ◌∷◌, [],
  List, Option, some, arith, if◌then◌else◌, some_injective, subst, Bytes, bytes_lt_irrefl,
  bytes_lt_trans, bytes_lt_total, ok, length, get_elem?, All, In, here, there,
}
use ssle_dag.Config.{Settings}
use ssle_dag.Utils.Encoding.{decode_string}
use ssle_dag.Messages.{CommitmentInfo}
use ssle_dag.P2p.Bucket.{
  insert_string, sort_strings, initialize_bucket_sort, short_prefix, shuffle_from,
  random_bucket_shuffle, is_submitted, positions_from, identify_commitment_positions,
}

insert_string_comm :
    (x y : Bytes) (l : List Bytes)
    → insert_string x (insert_string y l) ≡ insert_string y (insert_string x l)
unfolding insert_string
insert_string_comm x y [] =
    ground (arith, bytes_lt_total x y, bytes_lt_trans x y x, bytes_lt_irrefl x)
insert_string_comm x y (z ∷ l) = ground (
  arith,
  insert_string_comm x y l,
  bytes_lt_total x y,
  bytes_lt_trans x y x,
  bytes_lt_irrefl x,
  bytes_lt_trans z x y,
  bytes_lt_trans z y x,
  bytes_lt_total x z,
  bytes_lt_total y z,
)

pub sort_strings-Perm : {a b : List Bytes} → Permᴰ a b → sort_strings a ≡ sort_strings b
unfolding sort_strings
sort_strings-Perm Permᴰ.nil = refl
sort_strings-Perm (Permᴰ.cons e p) = rw (e, sort_strings-Perm p) refl
sort_strings-Perm (Permᴰ.swap {a' = x} {b' = y} {l = l} e f) =
    rw (e, f) (insert_string_comm y x (sort_strings l))
sort_strings-Perm (Permᴰ.trans p q) = sort_strings-Perm p ∙ sort_strings-Perm q

length-Perm : {a b : List Bytes} → Permᴰ a b → length a ≡ length b
length-Perm Permᴰ.nil = refl
length-Perm (Permᴰ.cons e p) = ap suc (length-Perm p)
length-Perm (Permᴰ.swap e f) = refl
length-Perm (Permᴰ.trans p q) = length-Perm p ∙ length-Perm q

short_prefix-All : (n : ℕ) (a : List Bytes) → All (λ h. length h ≡ 64) a → short_prefix n a ≡ false
unfolding short_prefix
short_prefix-All zero a h = refl
short_prefix-All (suc n) [] h = refl
short_prefix-All (suc n) (x ∷ a) (e, h) = ground (arith, short_prefix-All n a h)

pub full_shuffle :
    (draws : ℕ → ℕ → ℕ → ℕ) (c : Settings) (last : Option Bytes) (a : List Bytes) (key : Bytes)
    → decode_string c.random_shuffle_hex ≡ some key
    → length a ≡ c.max_commitment_var * c.num_of_nodes
    → All (λ h. length h ≡ 64) a
    → random_bucket_shuffle draws c last false a ≡ ok (shuffle_from draws key a)
unfolding random_bucket_shuffle
full_shuffle draws c last a key k full hex = rw (k, short_prefix-All 4 a hex, full) (ground arith)

pub shuffle_from-Perm :
    (draws : ℕ → ℕ → ℕ → ℕ) (key : Bytes) {a b : List Bytes}
    → Permᴰ a b
    → shuffle_from draws key a ≡ shuffle_from draws key b
unfolding shuffle_from initialize_bucket_sort
shuffle_from-Perm draws key p = rw (sort_strings-Perm p) refl

-- Two nodes with the same settings that hold the same commitments, in whatever orders they received
-- them, shuffle them into the same bucket: if the shuffling key is valid hexadecimal, the buckets
-- have the full MAX_COMMITMENT_VAR * numOfNodes entries, and the entries are hashes of 64 digits.
pub random_bucket_shuffle-Agree :
    (draws : ℕ → ℕ → ℕ → ℕ) (c : Settings) (last_a last_b : Option Bytes) (a b : List Bytes)
    (key : Bytes)
    → Permᴰ a b
    → decode_string c.random_shuffle_hex ≡ some key
    → length a ≡ c.max_commitment_var * c.num_of_nodes
    → All (λ h. length h ≡ 64) a
    → All (λ h. length h ≡ 64) b
    → (random_bucket_shuffle draws c last_a false a ≡ ok (shuffle_from draws key a))
      × (random_bucket_shuffle draws c last_b false b ≡ ok (shuffle_from draws key a))
random_bucket_shuffle-Agree draws c last_a last_b a b key p k full hex_a hex_b =
    let shuffled : (x : List Bytes) (last : Option Bytes)
        → length x ≡ c.max_commitment_var * c.num_of_nodes
        → All (λ h. length h ≡ 64) x
        → random_bucket_shuffle draws c last false x ≡ ok (shuffle_from draws key x) =
      λ x last e h. full_shuffle draws c last x key k e h in
    (
      shuffled a last_a full hex_a,
      shuffled b last_b (sym (length-Perm p) ∙ full) hex_b
          ∙ ap ok (sym (shuffle_from-Perm draws key p)),
    )

-- A slot of the bucket that the node submitted.
abbrev IsOwnSlot : List CommitmentInfo → List Bytes → ℕ → Type 0
IsOwnSlot submitted bucket i =
    (h : Bytes) × (get_elem? bucket i ≡ some h) × (is_submitted submitted h ≡ true)

In-if_cons :
    (b : Bool) (i n : ℕ) (rest : List ℕ)
    → In i (if b then n ∷ rest else rest)
    → ((b ≡ true) × (i ≡ n)) ⊎ In i rest
In-if_cons true i n rest (here e) = inl (refl, e)
In-if_cons true i n rest (there m) = inr m
In-if_cons false i n rest m = inr m

positions_from-IsOwnSlot :
    (submitted : List CommitmentInfo) (n : ℕ) (bucket : List Bytes) (i : ℕ)
    → In i (positions_from submitted n bucket)
    → (j : ℕ) × (i ≡ n + j) × IsOwnSlot submitted bucket j
unfolding positions_from
positions_from-IsOwnSlot submitted n [] i m = elim m [ ]
positions_from-IsOwnSlot submitted n (h ∷ bucket) i m =
    elim (In-if_cons (is_submitted submitted h) i n (positions_from submitted (n + 1) bucket) m) [
      | inl (own, e) ↦ (0, omega arith, (h, refl, own))
      | inr later ↦
          let (j, e, own) = positions_from-IsOwnSlot submitted (n + 1) bucket i later in
          (suc j, omega arith, own)
    ]

IsOwnSlot-positions_from :
    (submitted : List CommitmentInfo) (n : ℕ) (bucket : List Bytes) (j : ℕ)
    → IsOwnSlot submitted bucket j
    → In (n + j) (positions_from submitted n bucket)
unfolding positions_from
IsOwnSlot-positions_from submitted n [] j (h, e, own) = cc
IsOwnSlot-positions_from submitted n (x ∷ bucket) zero (h, e, own) =
    rw (some_injective e, own) (here (omega arith))
IsOwnSlot-positions_from submitted n (x ∷ bucket) (suc j) own =
    let rest : In (n + suc j) (positions_from submitted (n + 1) bucket) =
      subst (λ k. In k (positions_from submitted (n + 1) bucket)) (omega arith)
        (IsOwnSlot-positions_from submitted (n + 1) bucket j own) in
    elim (is_submitted submitted x)
      as (λ b. In (n + suc j) (
        if b
        then n ∷ positions_from submitted (n + 1) bucket
        else positions_from submitted (n + 1) bucket)) [ true ↦ there rest | false ↦ rest ]

-- The positions that a node identifies are exactly the slots of the bucket whose hash is one of the
-- commitments that the node submitted.
pub identify_commitment_positions-In :
    (keccak256 : Bytes → Bytes) (submitted : List CommitmentInfo) (bucket : List Bytes) (i : ℕ)
    → In i (identify_commitment_positions keccak256 submitted bucket).1
      ↔ ((h : Bytes) × (get_elem? bucket i ≡ some h) × (is_submitted submitted h ≡ true))
unfolding identify_commitment_positions
identify_commitment_positions-In keccak256 submitted bucket i = (
  λ m.
      let (j, e, own) = positions_from-IsOwnSlot submitted 0 bucket i m in
      subst (λ k. IsOwnSlot submitted bucket k) (omega arith) own,
  λ own.
      subst (λ k. In k (positions_from submitted 0 bucket)) (omega arith)
        (IsOwnSlot-positions_from submitted 0 bucket i own),
)
