-- ===== src/P2p/TimeSync.antt =====
-- node-implementation/p2p_communication.go: processNetworkMessage on BCHAIN_SYNC_TIME, the vote on the time
-- of the first block.
use ssle_dag.Prelude.{
  ℕ, ◌+◌, ◌*◌, ◌≡◌, ◌<◌, ◌≤◌, refl, Bool, true, false, inl, inr, List, [], ◌∷◌, ◌++◌, if◌then◌else◌,
  ltb, Outcome, ok, exit, length, count_if, arith, In, true≢false, Bool-cases,
}
use ssle_dag.Prelude.Int.{ℤ, pos, eqb_ℤ, ltb_ℤ, eqb_ℤ_refl, eq_of_eqb_ℤ}
use ssle_dag.Config.{Settings}
use ssle_dag.Utils.Majority.{find_major_element_int64, find_major_element_int64-Elects, occurrences}

-- The global variables timeSynced, syncedTime and timeSyncNodes.
pub record TimeSync : Type 0 where
  pub time_synced : Bool
  pub synced_time : ℤ
  pub time_sync_nodes : List ℤ

pub data TimeSyncEffect : Type 0 where
  log_already_synced : TimeSyncEffect
  log_low_match : TimeSyncEffect
  log_too_many : TimeSyncEffect
  start_block_generation_schedule : TimeSyncEffect
  publish_time : ℤ → TimeSyncEffect

-- `fracMatched < 0.5`: matched / total, as floats, for a positive total.
unfoldable pub is_low_match : ℕ → ℕ → Bool
is_low_match matched total = ltb (2 * matched) total

-- The time that the node adopts from the received ones, and whether its own matched too few; a
-- failed vote ends the program.
unfoldable pub adopt_time : ℤ → List ℤ → Outcome (ℤ × List TimeSyncEffect)
adopt_time synced_time nodes =
    let matched = count_if (λ time_to_sync. eqb_ℤ time_to_sync synced_time) nodes in
    let (major_element, success) = find_major_element_int64 nodes in
    if is_low_match matched (length nodes)
    then if success then ok (major_element, log_low_match ∷ []) else exit
    else ok (synced_time, [])

-- Once the time is synced: the state, and the effects after those of the vote.
unfoldable pub finish_sync :
    List ℤ → Outcome (ℤ × List TimeSyncEffect) → Outcome (TimeSync × List TimeSyncEffect)
finish_sync nodes (ok (time, effects)) = ok (
  record { time_synced = true; synced_time = time; time_sync_nodes = nodes },
  effects ++ start_block_generation_schedule ∷ publish_time time ∷ [],
)
finish_sync nodes exit = exit
finish_sync nodes Outcome.panic = Outcome.panic
finish_sync nodes Outcome.blocked = Outcome.blocked

-- `extra_int` is the message's ExtraInt, the time that another node proposes. The number of matches
-- is divided by numOfOtherNodes, which is then the length of the list.
unfoldable pub process_sync_time :
    Settings → TimeSync → ℤ → Outcome (TimeSync × List TimeSyncEffect)
process_sync_time c s extra_int =
    let nodes = s.time_sync_nodes ++ extra_int ∷ [] in
    let waiting : TimeSync = record s { time_sync_nodes = nodes } in
    if s.time_synced
    then ok (s, log_already_synced ∷ [])
    else if eqb_ℤ (pos (length nodes)) c.num_of_other_nodes
    then finish_sync nodes (adopt_time s.synced_time nodes)
    else if ltb_ℤ c.num_of_other_nodes (pos (length nodes))
    then ok (waiting, log_too_many ∷ [])
    else ok (waiting, [])

-- Two times share out the list.
count_if-disjoint :
    (a b : ℤ) (list : List ℤ)
    → eqb_ℤ a b ≡ false
    → count_if (λ x. eqb_ℤ x b) list + occurrences eqb_ℤ a list ≤ length list
count_if-disjoint a b [] h = omega arith
count_if-disjoint a b (x ∷ list) h = elim (Bool-cases (eqb_ℤ x b)) [
  | inl e ↦ elim (Bool-cases (eqb_ℤ a x)) [
    | inl k ↦ absurd (true≢false (rw (eq_of_eqb_ℤ a x k, e) at h))
    | inr k ↦ rw (e, k) (omega (arith, count_if-disjoint a b list h))
  ]
  | inr e ↦ ground (arith, count_if-disjoint a b list h)
]

adopt_time-majority :
    (synced t : ℤ) (nodes : List ℤ)
    → In t nodes
    → length nodes < 2 * occurrences eqb_ℤ t nodes
    → (effects : List TimeSyncEffect) × (adopt_time synced nodes ≡ ok (t, effects))
unfolding adopt_time is_low_match
adopt_time-majority synced t nodes stands most =
    elim (Bool-cases (ltb (2 * count_if (λ x. eqb_ℤ x synced) nodes) (length nodes))) [
      | inl low ↦ (
        log_low_match ∷ [],
        rw (low, (find_major_element_int64-Elects nodes).unique t stands most) refl,
      )
      | inr high ↦ elim (Bool-cases (eqb_ℤ t synced)) [
        | inl same ↦ ([], rw (high, eq_of_eqb_ℤ t synced same) refl)
        | inr other ↦ absurd (ground (arith, count_if-disjoint t synced nodes other))
      ]
    ]

-- When the last awaited time arrives at a node that is not yet synced, and a time t is among the
-- received ones and fills more than half of them, the node ends with t as its synced time, whatever
-- time it had proposed itself, and starts the schedule of block generation.
pub process_sync_time-majority :
    (c : Settings) (s : TimeSync) (extra_int t : ℤ)
    → s.time_synced ≡ false
    → c.num_of_other_nodes ≡ pos (length (s.time_sync_nodes ++ extra_int ∷ []))
    → In t (s.time_sync_nodes ++ extra_int ∷ [])
    → length (s.time_sync_nodes ++ extra_int ∷ [])
      < 2 * occurrences eqb_ℤ t (s.time_sync_nodes ++ extra_int ∷ [])
    → (s' : TimeSync) × (effects : List TimeSyncEffect) × (process_sync_time c s extra_int
        ≡ ok (s', effects ++ start_block_generation_schedule ∷ publish_time t ∷ []))
      × (s'.synced_time ≡ t)
      × (s'.time_synced ≡ true)
unfolding process_sync_time finish_sync
process_sync_time-majority c s extra_int t fresh all stands most =
    let nodes = s.time_sync_nodes ++ extra_int ∷ [] in
    let (effects, adopted) = adopt_time-majority s.synced_time t nodes stands most in
    (
      record { time_synced = true; synced_time = t; time_sync_nodes = nodes },
      effects,
      rw (fresh, all, eqb_ℤ_refl (pos (length nodes)), adopted) refl,
      refl,
      refl,
    )
