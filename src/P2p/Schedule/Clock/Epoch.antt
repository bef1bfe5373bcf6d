-- ===== src/P2p/Schedule/Clock/Epoch.antt =====
-- node-implementation/p2p_communication.go: blockGenerationSchedule over whole epochs.
use ssle_dag.Prelude.{
  ℕ, zero, suc, ◌+◌, ◌-◌, ◌*◌, ◌%◌, ◌<◌, ◌≤◌, ◌≡◌, ◌≢◌, ==_refl, lt→ltb, refl, ◌∙◌, true, false,
  ◌==◌, ltb, arith,
}
use native.Mathlib.Nat.{
  mul-lt-mul_of_pos_right, mod-eq_of_lt, mod_self, mul_comm, suc-mul, eq_of_mul-eq-mul_left,
}
use native.Mathlib.Decide.{ℕ_discrete}
use ssle_dag.Config.{Settings, IsConfigured}
use ssle_dag.P2p.Schedule.Clock.{
  Clock, next_slot, starts_commitments, ends_epoch, tick, clock_after,
}

-- Round j of an epoch begins at slot j * DAG_PARALLEL_LEN.
record IsAtRound (c : Settings) (j abs : ℕ) (k : Clock) : Type 0 where
  slot_at : k.slot ≡ j * c.dag_parallel_len
  round_at : k.abs_round ≡ abs

module _ (c : Settings) (configured : IsConfigured c) (some_row : 0 < c.dag_parallel_len) where
  next_position : (j : ℕ) → j * c.dag_parallel_len + c.dag_parallel_len ≡ suc j * c.dag_parallel_len
  next_position j = omega (arith, suc-mul j c.dag_parallel_len)

  inside :
      (j : ℕ)
      → suc j < c.epoch_size_rounds
      → suc j * c.dag_parallel_len % c.epoch_size ≡ suc j * c.dag_parallel_len
  inside j h =
      rw (configured.epoch, mul_comm c.dag_parallel_len c.epoch_size_rounds)
        (mod-eq_of_lt (mul-lt-mul_of_pos_right h some_row))

  at_end : (j : ℕ) → suc j ≡ c.epoch_size_rounds → suc j * c.dag_parallel_len % c.epoch_size ≡ 0
  at_end j h =
      rw (configured.epoch, h, mul_comm c.dag_parallel_len c.epoch_size_rounds)
        (mod_self (c.epoch_size_rounds * c.dag_parallel_len))

  second_round : (j : ℕ) → (suc j * c.dag_parallel_len == c.dag_parallel_len * 2) ≡ (suc j == 2)
  second_round j = elim (ℕ_discrete (suc j) 2) [
    | yes e ↦ rw (e, mul_comm 2 c.dag_parallel_len) (==_refl (c.dag_parallel_len * 2))
    | no other ↦
        let apart : suc j * c.dag_parallel_len ≢ c.dag_parallel_len * 2 = λ e. other (
          eq_of_mul-eq-mul_left c.dag_parallel_len some_row (suc j) 2
            (mul_comm c.dag_parallel_len (suc j) ∙ e)) in
        ground arith
  ]

  positive : (j : ℕ) → 0 < suc j * c.dag_parallel_len
  positive j = omega (arith, suc-mul j c.dag_parallel_len)

  -- A round of the epoch before its last.
  tick-inside :
      (j abs : ℕ) (k : Clock)
      → suc j < c.epoch_size_rounds
      → IsAtRound c j abs k
      → IsAtRound c (suc j) (abs + 1) (tick c k).0
        × ((tick c k).1 ≡ (suc j == 2))
        × ((tick c k).2 ≡ false)
  unfolding tick next_slot starts_commitments ends_epoch
  tick-inside j abs k h at =
      let slot : k.slot + c.dag_parallel_len ≡ suc j * c.dag_parallel_len =
        rw at.slot_at (next_position j) in
      let ends : (k.slot + c.dag_parallel_len) % c.epoch_size == 0 ≡ false =
        rw (slot, inside j h) (ground (arith, positive j)) in
      (
        record { slot_at = rw ends slot; round_at = rw (ends, at.round_at) refl },
        rw (slot, inside j h) (second_round j),
        rw ends refl,
      )

  -- The last round of the epoch.
  tick-end :
      (j abs : ℕ) (k : Clock)
      → suc j ≡ c.epoch_size_rounds
      → IsAtRound c j abs k
      → IsAtRound c 0 (abs + 1) (tick c k).0 × ((tick c k).1 ≡ false) × ((tick c k).2 ≡ true)
  unfolding tick next_slot starts_commitments ends_epoch
  tick-end j abs k h at =
      let slot : k.slot + c.dag_parallel_len ≡ suc j * c.dag_parallel_len =
        rw at.slot_at (next_position j) in
      let some_slot : ltb 0 (suc j * c.dag_parallel_len) ≡ true = lt→ltb _ _ (positive j) in
      (
        record {
          slot_at = rw (slot, at_end j h, some_slot) (omega arith);
          round_at = rw (slot, at_end j h, some_slot, at.round_at) refl;
        },
        rw (slot, at_end j h) (ground arith),
        rw (slot, at_end j h, some_slot) refl,
      )

  clock_after_snoc : (n : ℕ) (k : Clock) → clock_after c (suc n) k ≡ (tick c (clock_after c n k)).0
  unfolding clock_after
  clock_after_snoc zero k = refl
  clock_after_snoc (suc n) k = clock_after_snoc n (tick c k).0

  IsAtRound-cast : (i j a b : ℕ) (k : Clock) → i ≡ j → a ≡ b → IsAtRound c i a k → IsAtRound c j b k
  IsAtRound-cast i j a b k e f at = record {
    slot_at = rw (← e) at.slot_at;
    round_at = at.round_at ∙ f;
  }

  -- Round n of the run, where epoch q is in its round j.
  position :
      (n q j : ℕ) (k : Clock)
      → n ≡ q * c.epoch_size_rounds + j
      → j < c.epoch_size_rounds
      → k.slot ≡ 0
      → IsAtRound c j (k.abs_round + n) (clock_after c n k)
  unfolding clock_after
  position zero q j k e h zero_slot =
      let first : j ≡ 0 = omega arith in
      record { slot_at = rw (zero_slot, first) (omega arith); round_at = omega arith }
  position (suc n) zero zero k e h zero_slot = absurd (omega arith)
  position (suc n) (suc q) zero k e h zero_slot =
      let last = c.epoch_size_rounds - 1 in
      let ends_here : suc last ≡ c.epoch_size_rounds = omega arith in
      let before =
        position n q last k (omega (arith, suc-mul q c.epoch_size_rounds)) (omega arith)
          zero_slot in
      let (at, starts, ends) =
        tick-end last (k.abs_round + n) (clock_after c n k) ends_here before in
      rw (clock_after_snoc n k)
        (IsAtRound-cast 0 0 (k.abs_round + n + 1) (k.abs_round + suc n) _ refl (omega arith) at)
  position (suc n) q (suc j) k e h zero_slot =
      let before = position n q j k (omega arith) (omega arith) zero_slot in
      let (at, starts, ends) = tick-inside j (k.abs_round + n) (clock_after c n k) h before in
      rw (clock_after_snoc n k) (
        IsAtRound-cast (suc j) (suc j) (k.abs_round + n + 1) (k.abs_round + suc n) _ refl
          (omega arith) at)

  -- With a positive parallel length and at least three rounds in an epoch, the schedule that begins
  -- at slot 0 is, before round q * EPOCH_SIZE_ROUNDS + j with j < EPOCH_SIZE_ROUNDS, at slot
  -- j * DAG_PARALLEL_LEN and at as many rounds later; the next commitments are started at the end of
  -- that round exactly if j is 1, and the epoch ends there exactly if j is its last round. So each
  -- epoch, without end, starts one generation of commitments and ends once.
  pub clock_after-epochs :
      (k : Clock) (q j : ℕ)
      → 3 ≤ c.epoch_size_rounds
      → k.slot ≡ 0
      → j < c.epoch_size_rounds
      → ((clock_after c (q * c.epoch_size_rounds + j) k).slot ≡ j * c.dag_parallel_len)
        × ((clock_after c (q * c.epoch_size_rounds + j) k).abs_round
            ≡ k.abs_round + (q * c.epoch_size_rounds + j))
        × ((tick c (clock_after c (q * c.epoch_size_rounds + j) k)).1 ≡ (j == 1))
        × ((tick c (clock_after c (q * c.epoch_size_rounds + j) k)).2
            ≡ (suc j == c.epoch_size_rounds))
  clock_after-epochs k q j many zero_slot h =
      let n = q * c.epoch_size_rounds + j in
      let at = position n q j k refl h zero_slot in
      elim (ℕ_discrete (suc j) c.epoch_size_rounds) [
        | yes e ↦
            let (next, starts, ends) = tick-end j (k.abs_round + n) (clock_after c n k) e at in
            (at.slot_at, at.round_at, starts ∙ ground arith, ends ∙ ground arith)
        | no other ↦
            let (next, starts, ends) =
              tick-inside j (k.abs_round + n) (clock_after c n k) (omega arith) at in
            (at.slot_at, at.round_at, starts ∙ ground arith, ends ∙ ground arith)
      ]

  -- With one or two rounds in an epoch, and a positive parallel length, the schedule that begins at
  -- slot 0 never starts the next commitments: slot % EPOCH_SIZE is never 2 * DAG_PARALLEL_LEN.
  pub clock_after-short :
      (k : Clock) (q j : ℕ)
      → c.epoch_size_rounds < 3
      → k.slot ≡ 0
      → j < c.epoch_size_rounds
      → (tick c (clock_after c (q * c.epoch_size_rounds + j) k)).1 ≡ false
  clock_after-short k q j few zero_slot h =
      let n = q * c.epoch_size_rounds + j in
      let at = position n q j k refl h zero_slot in
      elim (ℕ_discrete (suc j) c.epoch_size_rounds) [
        | yes e ↦ (tick-end j (k.abs_round + n) (clock_after c n k) e at).1
        | no other ↦
            (tick-inside j (k.abs_round + n) (clock_after c n k) (omega arith) at).1 ∙ ground arith
      ]
