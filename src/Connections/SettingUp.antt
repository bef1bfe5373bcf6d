-- ===== src/Connections/SettingUp.antt =====
-- node-implementation/p2p.go and p2p_communication.go: what holds of a node while its streams are set up.
use ssle_dag.Prelude.{
  ℕ, ◌+◌, ◌<◌, ◌≡◌, refl, sym, ap, ◌∙◌, subst, true, inl, inr, List, [], ◌∷◌, ◌++◌, some,
  if◌then◌else◌, ◌==◌, ok, ok_injective, Bytes, bytes_eq, bytes_eq→eq, bytes_eq_refl, length, All,
  In, arith, Bool-cases,
}
use ssle_dag.Prelude.Int.{ℤ}
use ssle_dag.Prelude.Dict.{lookup, insert, lookup-insert}
use ssle_dag.Connections.{
  StreamWrapper, no_wrapper, with_stream, Connections, protocol_name, send_ready_message,
  check_ready, create_stream, wrapper_of, accept_stream, handle_stream, is_handled,
}
use ssle_dag.Connections.Count.{
  IsDistinct, IsConnected, Streams, missing, length-insert, missing-insert, connected-missing,
}
use ssle_dag.Connections.Ids.{IsPiece, handle_stream-protocol_name}
use ssle_dag.Connections.Protocol.{check_ready-streams, check_ready-handlers}

module _ (self_id : Bytes) (ids : List Bytes) where
  -- A handler waits for the protocol of a peer.
  abbrev pub IsForPeer : Bytes → Type 0
  IsForPeer protocol = (id : Bytes) × In id ids × IsPiece id × (protocol ≡ protocol_name self_id id)

  abbrev pub AllConnected : Streams → Type 0
  AllConnected m = (id : Bytes) → In id ids → IsConnected m id

  -- What holds while the streams are set up.
  pub record IsSettingUp (k : Connections) : Type 0 where
    pub handled : All IsForPeer k.handlers
    pub counted : length k.streams + missing k.streams ids ≡ length ids
    pub expected : k.expected_number_of_peers ≡ length ids
    pub published : k.ready_messages ≡ (if k.send_ready_message_state then self_id ∷ [] else [])
    pub told : 0 < length ids → AllConnected k.streams → k.send_ready_message_state ≡ true

  -- The test after an entry was written: with all peers connected the message has been sent.
  check_ready-published :
      (k : Connections)
      → k.ready_messages ≡ (if k.send_ready_message_state then self_id ∷ [] else [])
      → (check_ready self_id k).ready_messages
        ≡ (if (check_ready self_id k).send_ready_message_state then self_id ∷ [] else [])
  unfolding check_ready send_ready_message
  check_ready-published k e = elim (Bool-cases (length k.streams == k.expected_number_of_peers)) [
    | inl full ↦ elim (Bool-cases k.send_ready_message_state) [
      | inl sent ↦ rw (full, sent) (e ∙ ap (λ b. if b then self_id ∷ [] else []) sent)
      | inr unsent ↦ rw (full, unsent, e, unsent) refl
    ]
    | inr waiting ↦ rw waiting e
  ]

  pub check_ready-told :
      (k : Connections)
      → length k.streams ≡ k.expected_number_of_peers
      → (check_ready self_id k).send_ready_message_state ≡ true
  unfolding check_ready send_ready_message
  check_ready-told k e = ground arith

  pub check_ready-expected :
      (k : Connections)
      → (check_ready self_id k).expected_number_of_peers ≡ k.expected_number_of_peers
  unfolding check_ready send_ready_message
  check_ready-expected k = ground arith

  module _ (distinct : IsDistinct ids) where
    insert-counted :
        (id : Bytes) (w : StreamWrapper) (m : Streams)
        → In id ids
        → length m + missing m ids ≡ length ids
        → length (insert id w m) + missing (insert id w m) ids ≡ length ids
    insert-counted id w m i e =
        omega (arith, length-insert id w m, missing-insert id w m ids distinct i)

    -- An entry is written and the number of entries is tested.
    pub entered-IsSettingUp :
        (k : Connections) (id : Bytes) (w : StreamWrapper)
        → In id ids
        → IsSettingUp k
        → IsSettingUp (check_ready self_id (record k { streams = insert id w k.streams }))
    entered-IsSettingUp k id w i h =
        let k' : Connections = record k { streams = insert id w k.streams } in
        let counted' = insert-counted id w k.streams i h.counted in
        record {
          handled = subst (All IsForPeer) (sym (check_ready-handlers self_id k')) h.handled;
          counted =
              subst (λ m. length m + missing m ids ≡ length ids)
                (sym (check_ready-streams self_id k')) counted';
          expected = check_ready-expected k' ∙ h.expected;
          published = check_ready-published k' h.published;
          told = λ some_peer all.
              let none_missing : missing k'.streams ids ≡ 0 =
                connected-missing k'.streams ids
                  (subst AllConnected (check_ready-streams self_id k') all) in
              check_ready-told k' (omega (arith, counted', none_missing, h.expected));
        }

    pub created-IsSettingUp :
        (k : Connections) (id : Bytes) (latency : ℤ)
        → In id ids
        → IsPiece id
        → IsSettingUp k
        → IsSettingUp (create_stream self_id id latency k)
    unfolding create_stream
    created-IsSettingUp k id latency i piece h = record {
      handled = All-snoc k.handlers h.handled;
      counted = insert-counted id _ k.streams i h.counted;
      expected = h.expected;
      published = h.published;
      told = λ some_peer all.
          let (w, stream, found, buffered) = all id i in
          absurd (
            no_buffer w stream
              (sym found
                ∙ lookup-insert id id _ k.streams
                ∙ ap
                    (λ b.
                      if b
                      then some (record no_wrapper { latency = latency })
                      else lookup id k.streams)
                    (bytes_eq_refl id))
              buffered);
    }
      where
        All-snoc :
            (handlers : List Bytes)
            → All IsForPeer handlers
            → All IsForPeer (handlers ++ protocol_name self_id id ∷ [])
        All-snoc [] h = ((id, i, piece, refl), tt)
        All-snoc (x ∷ handlers) (p, h) = (p, All-snoc handlers h)

        no_buffer :
            (w : StreamWrapper) (stream : ℕ)
            → some w ≡ some (record no_wrapper { latency = latency })
            → ¬ (w.buffer ≡ some stream)
        no_buffer w stream e b = ground arith

    pub handled-IsForPeer :
        (handlers : List Bytes) (protocol : Bytes)
        → is_handled handlers protocol ≡ true
        → All IsForPeer handlers
        → IsForPeer protocol
    unfolding is_handled
    handled-IsForPeer [] protocol e h = cc
    handled-IsForPeer (x ∷ handlers) protocol e (p, h) = elim (Bool-cases (bytes_eq x protocol)) [
      | inl same ↦ subst IsForPeer (bytes_eq→eq x protocol same) p
      | inr other ↦ handled-IsForPeer handlers protocol (rw other at e) h
    ]

    pub incoming-IsSettingUp :
        (k k' : Connections) (protocol : Bytes) (stream : ℕ)
        → IsPiece self_id
        → IsForPeer protocol
        → handle_stream self_id protocol stream k ≡ ok k'
        → IsSettingUp k
        → IsSettingUp k'
    unfolding accept_stream
    incoming-IsSettingUp k k' protocol stream piece (id, i, id_piece, e) run h =
        let accepted : handle_stream self_id protocol stream k
            ≡ ok (accept_stream self_id id stream k) =
          ap (λ p. handle_stream self_id p stream k) e
          ∙ handle_stream-protocol_name self_id id stream k piece id_piece in
        subst IsSettingUp (ok_injective (sym accepted ∙ run))
          (entered-IsSettingUp k id (with_stream stream (wrapper_of k id)) i h)
