-- ===== src/P2p/Bucket/Members.antt =====
-- node-implementation/p2p_communication.go: the shuffle brings nothing new into the bucket.
use ssle_dag.Prelude.{
  ℕ, zero, suc, ◌≡◌, ◌-◌, refl, Bool, true, false, ◌⊎◌, inl, inr, ◌∷◌, [], List, Option, none, some,
  arith, if◌then◌else◌, sym, subst, Bytes, bytes_lt, ok, length, get_elem?, set, In, here, there,
  ◌==◌, Option-cases, Bool-cases, ◌*◌,
}
use ssle_dag.Config.{Settings}
use ssle_dag.Utils.Encoding.{decode_string}
use ssle_dag.P2p.Bucket.{
  insert_string, sort_strings, initialize_bucket_sort, swap_at, shuffle_loop, shuffle_from,
  random_bucket_shuffle, fnv64a,
}

In-get_elem? : (xs : List Bytes) (i : ℕ) (x : Bytes) → get_elem? xs i ≡ some x → In x xs
In-get_elem? [] i x e = cc
In-get_elem? (y ∷ xs) zero x e = here cc
In-get_elem? (y ∷ xs) (suc i) x e = there (In-get_elem? xs i x e)

In-set : (xs : List Bytes) (i : ℕ) (v h : Bytes) → In h (set xs i v) → (h ≡ v) ⊎ In h xs
In-set [] i v h m = elim m [ ]
In-set (x ∷ xs) zero v h (here e) = inl e
In-set (x ∷ xs) zero v h (there m) = inr (there m)
In-set (x ∷ xs) (suc i) v h (here e) = inr (here e)
In-set (x ∷ xs) (suc i) v h (there m) = elim (In-set xs i v h m) [
  | inl e ↦ inl e
  | inr m' ↦ inr (there m')
]

swap_at-none : (xs : List Bytes) (i j : ℕ) → get_elem? xs i ≡ none → swap_at xs i j ≡ xs
unfolding swap_at
swap_at-none xs i j e = rw (e, swap_at) refl

swap_at_no_second :
    (xs : List Bytes) (i j : ℕ) (x : Bytes)
    → get_elem? xs i ≡ some x
    → get_elem? xs j ≡ none
    → swap_at xs i j ≡ xs
unfolding swap_at
swap_at_no_second xs i j x e k = rw (e, k, swap_at) refl

swap_at-some :
    (xs : List Bytes) (i j : ℕ) (x y : Bytes)
    → get_elem? xs i ≡ some x
    → get_elem? xs j ≡ some y
    → swap_at xs i j ≡ set (set xs i y) j x
unfolding swap_at
swap_at-some xs i j x y e k = rw (e, k, swap_at) refl

In-swap_at : (xs : List Bytes) (i j : ℕ) (h : Bytes) → In h (swap_at xs i j) → In h xs
unfolding swap_at
In-swap_at xs i j h m = elim (Option-cases (get_elem? xs i)) [
  | inl e ↦ subst (In h) (swap_at-none xs i j e) m
  | inr (x, e) ↦ elim (Option-cases (get_elem? xs j)) [
    | inl k ↦ subst (In h) (swap_at_no_second xs i j x e k) m
    | inr (y, k) ↦ elim (In-set (set xs i y) j x h (subst (In h) (swap_at-some xs i j x y e k) m)) [
      | inl at ↦ subst (λ z. In z xs) (sym at) (In-get_elem? xs i x e)
      | inr rest ↦ elim (In-set xs i y h rest) [
        | inl at ↦ subst (λ z. In z xs) (sym at) (In-get_elem? xs j y k)
        | inr old ↦ old
      ]
    ]
  ]
]

In-shuffle_loop :
    (draw : ℕ → ℕ) (i : ℕ) (xs : List Bytes) (h : Bytes) → In h (shuffle_loop draw i xs) → In h xs
unfolding shuffle_loop
In-shuffle_loop draw zero xs h m = m
In-shuffle_loop draw (suc i) xs h m =
    In-swap_at xs (suc i) (draw (suc i)) h
      (In-shuffle_loop draw i (swap_at xs (suc i) (draw (suc i))) h m)

In-if :
    (b : Bool) (x y : Bytes) (l rest : List Bytes) (h : Bytes)
    → In h (if b then y ∷ rest else x ∷ y ∷ l)
    → (In h rest → (h ≡ x) ⊎ In h l)
    → (h ≡ x) ⊎ In h (y ∷ l)
In-if true x y l rest h (here e) k = inr (here e)
In-if true x y l rest h (there m) k = elim (k m) [ inl e ↦ inl e | inr m' ↦ inr (there m') ]
In-if false x y l rest h (here e) k = inl e
In-if false x y l rest h (there m) k = inr m

In-insert_string :
    (x : Bytes) (l : List Bytes) (h : Bytes) → In h (insert_string x l) → (h ≡ x) ⊎ In h l
unfolding insert_string
In-insert_string x [] h (here e) = inl e
In-insert_string x [] h (there m) = inr m
In-insert_string x (y ∷ l) h m =
    In-if (bytes_lt y x) x y l (insert_string x l) h m (In-insert_string x l h)

In-insert_string_self : (x : Bytes) (l : List Bytes) → In x (insert_string x l)
unfolding insert_string
In-insert_string_self x [] = here refl
In-insert_string_self x (y ∷ l) = elim (Bool-cases (bytes_lt y x)) [
  | inl e ↦ rw e (there (In-insert_string_self x l))
  | inr e ↦ rw e (here refl)
]

In-insert_string_other : (x h : Bytes) (l : List Bytes) → In h l → In h (insert_string x l)
unfolding insert_string
In-insert_string_other x h [] i = elim i [ ]
In-insert_string_other x h (y ∷ l) i = elim (Bool-cases (bytes_lt y x)) [
  | inl e ↦
      rw e (elim i [ here same ↦ here same | there j ↦ there (In-insert_string_other x h l j) ])
  | inr e ↦ rw e (there i)
]

pub sort_strings-In : (h : Bytes) (l : List Bytes) → In h l → In h (sort_strings l)
unfolding sort_strings
sort_strings-In h [] i = elim i [ ]
sort_strings-In h (x ∷ l) (here e) =
    subst (λ y. In y (insert_string x (sort_strings l))) (sym e)
      (In-insert_string_self x (sort_strings l))
sort_strings-In h (x ∷ l) (there i) =
    In-insert_string_other x h (sort_strings l) (sort_strings-In h l i)

pub In-sort_strings : (l : List Bytes) (h : Bytes) → In h (sort_strings l) → In h l
unfolding sort_strings
In-sort_strings [] h m = m
In-sort_strings (x ∷ l) h m = elim (In-insert_string x (sort_strings l) h m) [
  | inl e ↦ here e
  | inr m' ↦ there (In-sort_strings l h m')
]

In-shuffle_from :
    (draws : ℕ → ℕ → ℕ → ℕ) (key : Bytes) (l : List Bytes) (h : Bytes)
    → In h (shuffle_from draws key l)
    → In h l
unfolding shuffle_from initialize_bucket_sort
In-shuffle_from draws key l h m = In-sort_strings l h (
    In-shuffle_loop (draws (fnv64a key) (length (sort_strings l))) (length (sort_strings l) - 1)
      (sort_strings l) h m)

-- The two ways in which the shuffle returns.
random_bucket_shuffle-cases :
    (draws : ℕ → ℕ → ℕ → ℕ) (c : Settings) (last : Option Bytes) (l l' : List Bytes)
    → random_bucket_shuffle draws c last false l ≡ ok l'
    → (l ≡ l') ⊎ ((key : Bytes) × (shuffle_from draws key l ≡ l'))
unfolding random_bucket_shuffle
random_bucket_shuffle-cases draws c last l l' e =
    elim (Option-cases (decode_string c.random_shuffle_hex)) [
      | inl k ↦ inl (ground arith)
      | inr (key, k) ↦ elim (Bool-cases (length l == c.max_commitment_var * c.num_of_nodes)) [
        | inl full ↦ inr (key, ground arith)
        | inr partial ↦ inl (ground arith)
      ]
    ]

pub In-random_bucket_shuffle :
    (draws : ℕ → ℕ → ℕ → ℕ) (c : Settings) (last : Option Bytes) (l l' : List Bytes) (h : Bytes)
    → random_bucket_shuffle draws c last false l ≡ ok l'
    → In h l'
    → In h l
In-random_bucket_shuffle draws c last l l' h e m =
    elim (random_bucket_shuffle-cases draws c last l l' e) [
      | inl same ↦ subst (In h) (sym same) m
      | inr (key, shuffled) ↦ In-shuffle_from draws key l h (subst (In h) (sym shuffled) m)
    ]

-- The shuffle from the hash of the last block.
pub In-random_bucket_shuffle_init :
    (draws : ℕ → ℕ → ℕ → ℕ) (c : Settings) (last : Option Bytes) (l l' : List Bytes) (h : Bytes)
    → random_bucket_shuffle draws c last true l ≡ ok l'
    → In h l'
    → In h l
unfolding random_bucket_shuffle
In-random_bucket_shuffle_init draws c none l l' h e m = cc
In-random_bucket_shuffle_init draws c (some hash) l l' h e m =
    elim (Option-cases (decode_string hash)) [
      | inl bad ↦ let same : l ≡ l' = ground arith in subst (In h) (sym same) m
      | inr (key, k) ↦
          let shuffled : shuffle_from draws key l ≡ l' = ground arith in
          In-shuffle_from draws key l h (subst (In h) (sym shuffled) m)
    ]
