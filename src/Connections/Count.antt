-- ===== src/Connections/Count.antt =====
-- node-implementation/p2p_communication.go: the entries of nodeStreams, counted against the ids of the peers.
use ssle_dag.Prelude.{
  ℕ, ◌+◌, ◌≡◌, refl, sym, subst, Bool, true, false, inl, inr, List, [], ◌∷◌, Option, none, some,
  if◌then◌else◌, Bytes, bytes_eq, bytes_eq→eq, bytes_eq_refl, length, count_if, In, here, there,
  arith, Bool-cases,
}
use ssle_dag.Prelude.Dict.{lookup, insert, lookup-insert}
use ssle_dag.Connections.{StreamWrapper}

abbrev pub Streams : Type 0
Streams = List (Bytes × StreamWrapper)

abbrev pub IsDistinct : List Bytes → Type 0
IsDistinct [] = Unit
IsDistinct (x ∷ xs) = ¬ In x xs × IsDistinct xs

-- The entry of the peer has a buffer.
abbrev pub IsConnected : List (Bytes × StreamWrapper) → Bytes → Type 0
IsConnected m id =
    (w : StreamWrapper) × (stream : ℕ) × (lookup id m ≡ some w) × (w.buffer ≡ some stream)

abbrev pub IsPresent : List (Bytes × StreamWrapper) → Bytes → Type 0
IsPresent m id = (w : StreamWrapper) × (lookup id m ≡ some w)

abbrev pub is_missing : Option StreamWrapper → Bool
is_missing none = true
is_missing (some w) = false

-- The ids without an entry.
unfoldable pub missing : Streams → List Bytes → ℕ
missing m ids = count_if (λ id. is_missing (lookup id m)) ids

-- What an insertion adds to the length.
unfoldable pub added : Streams → Bytes → ℕ
added m id = if is_missing (lookup id m) then 1 else 0

pub length-insert :
    (id : Bytes) (w : StreamWrapper) (m : Streams) → length (insert id w m) ≡ length m + added m id
unfolding insert lookup added
length-insert id w [] = omega arith
length-insert id w ((j, v) ∷ m) = ground (arith, length-insert id w m)

missing-insert_other :
    (id : Bytes) (w : StreamWrapper) (m : Streams) (ids : List Bytes)
    → ¬ In id ids
    → missing (insert id w m) ids ≡ missing m ids
unfolding missing
missing-insert_other id w m [] h = refl
missing-insert_other id w m (x ∷ ids) h = elim (Bool-cases (bytes_eq id x)) [
  | inl same ↦ absurd (h (here (bytes_eq→eq id x same)))
  | inr other ↦
      rw (lookup-insert id x w m, other, missing-insert_other id w m ids (λ i. h (there i))) refl
]

pub missing-insert :
    (id : Bytes) (w : StreamWrapper) (m : Streams) (ids : List Bytes)
    → IsDistinct ids
    → In id ids
    → missing (insert id w m) ids + added m id ≡ missing m ids
unfolding missing added
missing-insert id w m [] d i = elim i [ ]
missing-insert id w m (x ∷ ids) (fresh, d) i = elim (Bool-cases (bytes_eq id x)) [
  | inl same ↦
      let e : x ≡ id = sym (bytes_eq→eq id x same) in
      rw
        (
          lookup-insert id x w m,
          same,
          missing-insert_other id w m ids (subst (λ y. ¬ In y ids) e fresh),
          e,
        )
        (omega arith)
  | inr other ↦
      rw (lookup-insert id x w m, other)
        (omega (arith, missing-insert id w m ids d (later id x ids i other)))
]
  where
    later : (id x : Bytes) (ids : List Bytes) → In id (x ∷ ids) → bytes_eq id x ≡ false → In id ids
    later id x ids (here e) other = cc (bytes_eq_refl id, rw (← e) at other)
    later id x ids (there i) other = i

pub present-missing :
    (m : Streams) (ids : List Bytes)
    → ((id : Bytes) → In id ids → IsPresent m id)
    → missing m ids ≡ 0
unfolding missing
present-missing m [] all = refl
present-missing m (x ∷ ids) all =
    let (w, found) = all x (here refl) in
    rw found (omega (arith, present-missing m ids (λ id i. all id (there i))))

pub connected-missing :
    (m : Streams) (ids : List Bytes)
    → ((id : Bytes) → In id ids → IsConnected m id)
    → missing m ids ≡ 0
connected-missing m ids all =
    present-missing m ids (λ id i. let (w, stream, found, _) = all id i in (w, found))
