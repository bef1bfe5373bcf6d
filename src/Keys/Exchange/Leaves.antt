-- ===== src/Keys/Exchange/Leaves.antt =====
-- Lemmas on the leaves of the tree, their hashes and the sorted keys that they stand for.
use ssle_dag.Prelude.{
  ℕ, zero, suc, ◌+◌, ◌<◌, ◌≡◌, refl, ap, sym, ◌∙◌, inl, inr, true, false, List, [], ◌∷◌, ◌++◌, map,
  some, arith, ltb, ok, Bytes, bytes_eq, bytes_eq_iff, length, get_elem?, lt→ltb, true≢false,
  Bool-cases, bytes_lt, set, In, here, there,
}
use ssle_dag.P2p.Bucket.{sort_strings, insert_string}
use ssle_dag.Keys.Tree.{new_leaves, key_index, leaf_loop}

pub length-new_leaves : (n : ℕ) (keys : List Bytes) → length (new_leaves n keys) ≡ n
unfolding new_leaves
length-new_leaves zero keys = refl
length-new_leaves (suc n) [] = ap suc (length-new_leaves n [])
length-new_leaves (suc n) (k ∷ keys) = ap suc (length-new_leaves n keys)

pub new_leaves-at :
    (n : ℕ) (keys : List Bytes) (i : ℕ) (key : Bytes)
    → i < n
    → get_elem? keys i ≡ some key
    → get_elem? (new_leaves n keys) i ≡ some key
unfolding new_leaves
new_leaves-at zero keys i key h e = absurd (omega arith)
new_leaves-at (suc n) [] i key h e = cc
new_leaves-at (suc n) (k ∷ keys) zero key h e = e
new_leaves-at (suc n) (k ∷ keys) (suc i) key h e = new_leaves-at n keys i key (omega arith) e

append_one : {A : Type 0} (a : List A) (x : A) (b : List A) → (a ++ x ∷ []) ++ b ≡ a ++ x ∷ b
append_one [] x b = refl
append_one (y ∷ a) x b = ap (λ l. y ∷ l) (append_one a x b)

length-snoc : {A : Type 0} (a : List A) (x : A) → length (a ++ x ∷ []) ≡ length a + 1
length-snoc [] x = refl
length-snoc (y ∷ a) x = omega (arith, length-snoc a x)

length-mid : {A : Type 0} (a : List A) (x : A) (b : List A) → length a < length (a ++ x ∷ b)
length-mid [] x b = omega arith
length-mid (y ∷ a) x b = omega (arith, length-mid a x b)

set-mid :
    {A : Type 0} (a : List A) (x v : A) (b : List A) → set (a ++ x ∷ b) (length a) v ≡ a ++ v ∷ b
set-mid [] x v b = refl
set-mid (y ∷ a) x v b = ap (λ l. y ∷ l) (set-mid a x v b)

pub key_index-In :
    (own : Bytes) (old : ℕ) (keys : List Bytes) (i : ℕ)
    → In own keys
    → (k : ℕ) × (key_index own old keys i ≡ i + k) × (get_elem? keys k ≡ some own)
unfolding key_index
key_index-In own old [] i m = elim m [ ]
key_index-In own old (key ∷ keys) i m = elim (Bool-cases (bytes_eq key own)) [
  | inl e ↦ (0, rw e (omega arith), rw ((bytes_eq_iff key own).0 e) refl)
  | inr other ↦
      let (k, index, at) = key_index-In own old keys (i + 1) (other_key m other) in
      (suc k, rw (other, index) (omega arith), at)
]
  where
    other_key : In own (key ∷ keys) → bytes_eq key own ≡ false → In own keys
    other_key (here e) other = absurd (true≢false (sym ((bytes_eq_iff key own).1 (sym e)) ∙ other))
    other_key (there m) other = m

In-insert_string : (x h : Bytes) (l : List Bytes) → In h (x ∷ l) → In h (insert_string x l)
unfolding insert_string
In-insert_string x h [] m = m
In-insert_string x h (y ∷ l) m = elim (Bool-cases (bytes_lt y x)) [
  | inl before ↦ rw before (pass (λ k. In-insert_string x h l k) m)
  | inr after ↦ rw after m
]
  where
    pass :
        (In h (x ∷ l) → In h (insert_string x l)) → In h (x ∷ y ∷ l) → In h (y ∷ insert_string x l)
    pass rest (here e) = there (rest (here e))
    pass rest (there (here e)) = here e
    pass rest (there (there m)) = there (rest (there m))

pub In-sorted : (l : List Bytes) (h : Bytes) → In h l → In h (sort_strings l)
unfolding sort_strings
In-sorted [] h m = m
In-sorted (x ∷ l) h (here e) = In-insert_string x h (sort_strings l) (here e)
In-sorted (x ∷ l) h (there m) = In-insert_string x h (sort_strings l) (there (In-sorted l h m))

length-insert_string : (x : Bytes) (l : List Bytes) → length (insert_string x l) ≡ suc (length l)
unfolding insert_string
length-insert_string x [] = refl
length-insert_string x (y ∷ l) = ground (arith, length-insert_string x l)

pub length-sort_strings : (l : List Bytes) → length (sort_strings l) ≡ length l
unfolding sort_strings
length-sort_strings [] = refl
length-sort_strings (x ∷ l) =
    omega (arith, length-insert_string x (sort_strings l), length-sort_strings l)

module _ (mimc : List Bytes → Bytes) where
  -- The loop overwrites as many hashes as there are leaves.
  pub leaf_loop-mid :
      (done old : List Bytes) (leaves : List Bytes)
      → length leaves ≡ length old
      → leaf_loop mimc (length done) leaves (done ++ old)
        ≡ ok (done ++ map (λ v. mimc (v ∷ [])) leaves)
  unfolding leaf_loop
  leaf_loop-mid done [] [] e = refl
  leaf_loop-mid done (x ∷ old) [] e = absurd (omega arith)
  leaf_loop-mid done [] (v ∷ leaves) e = absurd (omega arith)
  leaf_loop-mid done (x ∷ old) (v ∷ leaves) e =
      let at : ltb (length done) (length (done ++ x ∷ old)) ≡ true =
        lt→ltb _ _ (length-mid done x old) in
      let next : length done + 1 ≡ length (done ++ mimc (v ∷ []) ∷ []) =
        sym (length-snoc done (mimc (v ∷ []))) in
      rw
        (
          at,
          set-mid done x (mimc (v ∷ [])) old,
          next,
          ← append_one done (mimc (v ∷ [])) old,
          leaf_loop-mid (done ++ mimc (v ∷ []) ∷ []) old leaves (omega arith),
          append_one done (mimc (v ∷ [])) (map (λ v. mimc (v ∷ [])) leaves),
        )
        refl

  pub leaf_hash-at :
      (leaves : List Bytes) (i : ℕ) (v : Bytes)
      → get_elem? leaves i ≡ some v
      → get_elem? (map (λ v. mimc (v ∷ [])) leaves) i ≡ some (mimc (v ∷ []))
  leaf_hash-at [] i v e = cc
  leaf_hash-at (x ∷ leaves) zero v e = cc
  leaf_hash-at (x ∷ leaves) (suc i) v e = leaf_hash-at leaves i v e
