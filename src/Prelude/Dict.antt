-- ===== src/Prelude/Dict.antt =====
-- Go maps with string keys, as association lists. The order of the pairs stands for the order,
-- which Go leaves open, in which `range` goes through the map.
use mathlib.Core.Path.{◌≡◌, refl, subst}
use mathlib.Core.Bool.{true, false}
use mathlib.Core.Logic.{inl, inr}
use mathlib.Core.Option.{Option, none, some}
use mathlib.Core.List.{List, [], ◌∷◌, map}
use native.Mathlib.Omega.{arith}
use ssle_dag.Prelude.Tests.{if◌then◌else◌, Bool-cases}
use ssle_dag.Prelude.Strings.{Bytes, bytes_eq, bytes_eq_iff, bytes_eq→eq, bytes_eq_refl}
use ssle_dag.Prelude.Lists.{All}

pair_eq {ℓ} :
    {V : Type ℓ} {j k : Bytes} {w v : V} → j ≡ k → w ≡ v → ◌≡◌ {A = Bytes × V} (j, w) (k, v)
pair_eq e f = rw (e, f) refl

module _ {ℓ} {V : Type ℓ} where
  unfoldable pub lookup : Bytes → List (Bytes × V) → Option V
  lookup k [] = none
  lookup k ((j, v) ∷ m) = if bytes_eq j k then some v else lookup k m

  unfoldable pub insert : Bytes → V → List (Bytes × V) → List (Bytes × V)
  insert k v [] = (k, v) ∷ []
  insert k v ((j, w) ∷ m) = if bytes_eq j k then (k, v) ∷ m else (j, w) ∷ insert k v m

  unfoldable pub delete : Bytes → List (Bytes × V) → List (Bytes × V)
  delete k [] = []
  delete k ((j, v) ∷ m) = let rest = delete k m in if bytes_eq j k then rest else (j, v) ∷ rest

  -- maps.Copy(m, source)
  unfoldable pub copy_into : List (Bytes × V) → List (Bytes × V) → List (Bytes × V)
  copy_into m [] = m
  copy_into m ((k, v) ∷ source) = copy_into (insert k v m) source

  abbrev pub values : List (Bytes × V) → List V
  values = map (λ entry. entry.1)

  pub lookup-insert :
      (k j : Bytes) (v : V) (m : List (Bytes × V))
      → lookup j (insert k v m) ≡ (if bytes_eq k j then some v else lookup j m)
  unfolding lookup insert
  lookup-insert k j v [] = refl
  lookup-insert k j v ((i, w) ∷ m) =
      ground (arith, bytes_eq_iff k j, bytes_eq_iff i k, bytes_eq_iff i j, lookup-insert k j v m)

  pub lookup-insert_self :
      (k : Bytes) (v : V) (m : List (Bytes × V)) → lookup k (insert k v m) ≡ some v
  lookup-insert_self k v m = rw (lookup-insert k k v m, bytes_eq_refl k) refl

  pub lookup-delete :
      (k j : Bytes) (m : List (Bytes × V))
      → lookup j (delete k m) ≡ (if bytes_eq k j then none else lookup j m)
  unfolding lookup delete
  lookup-delete k j [] = ground arith
  lookup-delete k j ((i, w) ∷ m) =
      ground (arith, bytes_eq_iff k j, bytes_eq_iff i k, bytes_eq_iff i j, lookup-delete k j m)

  -- Every key of the source has the source's value, every other key keeps its own, provided that
  -- the source has each key once: so in particular a copy into the empty map is the source.
  pub lookup-copy_into-none :
      (k : Bytes) (m source : List (Bytes × V))
      → lookup k source ≡ none
      → lookup k (copy_into m source) ≡ lookup k m
  unfolding lookup copy_into
  lookup-copy_into-none k m [] h = refl
  lookup-copy_into-none k m ((j, v) ∷ source) h =
      ground (arith, lookup-copy_into-none k (insert j v m) source, lookup-insert j k v m)

  pub lookup-copy_into_keeps :
      (k : Bytes) (m source : List (Bytes × V)) (v : V)
      → lookup k m ≡ some v
      → (w : V) × (lookup k (copy_into m source) ≡ some w)
  unfolding copy_into
  lookup-copy_into_keeps k m [] v h = (v, h)
  lookup-copy_into_keeps k m ((j, u) ∷ source) v h =
      lookup-copy_into_keeps k (insert j u m) source (if bytes_eq j k then u else v)
        (ground (arith, lookup-insert j k u m))

  -- A key of the source is there after the copy.
  pub lookup-copy_into_source :
      (k : Bytes) (m source : List (Bytes × V)) (v : V)
      → lookup k source ≡ some v
      → (w : V) × (lookup k (copy_into m source) ≡ some w)
  unfolding copy_into lookup
  lookup-copy_into_source k m [] v h = cc
  lookup-copy_into_source k m ((j, u) ∷ source) v h = elim (Bool-cases (bytes_eq j k)) [
    | inl e ↦
        lookup-copy_into_keeps k (insert j u m) source u (ground (arith, lookup-insert j k u m))
    | inr e ↦ lookup-copy_into_source k (insert j u m) source v (ground arith)
  ]

  -- What holds of every pair of a map holds after an insertion and after a copy.
  pub All-insert {κ} :
      (P : Bytes × V → Type κ) (k : Bytes) (v : V) (m : List (Bytes × V))
      → P (k, v)
      → All P m
      → All P (insert k v m)
  unfolding insert
  All-insert P k v [] p h = (p, tt)
  All-insert P k v ((j, w) ∷ m) p (q, h) =
      elim (bytes_eq j k) as (λ b. All P (if b then (k, v) ∷ m else (j, w) ∷ insert k v m)) [
        | true ↦ (p, h)
        | false ↦ (q, All-insert P k v m p h)
      ]

  pub All-copy_into {κ} :
      (P : Bytes × V → Type κ) (m source : List (Bytes × V))
      → All P m
      → All P source
      → All P (copy_into m source)
  unfolding copy_into
  All-copy_into P m [] h k = h
  All-copy_into P m ((j, v) ∷ source) h (p, k) =
      All-copy_into P (insert j v m) source (All-insert P j v m p h) k

  pub All-lookup {κ} :
      (P : Bytes × V → Type κ) (k : Bytes) (v : V) (m : List (Bytes × V))
      → All P m
      → lookup k m ≡ some v
      → P (k, v)
  unfolding lookup
  All-lookup P k v [] h e = cc
  All-lookup P k v ((j, w) ∷ m) (p, h) e = elim (Bool-cases (bytes_eq j k)) [
    | inl same ↦ subst (λ entry. P entry) (pair_eq (bytes_eq→eq j k same) (ground arith)) p
    | inr other ↦ All-lookup P k v m h (ground arith)
  ]
