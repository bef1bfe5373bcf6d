-- ===== src/Start/Outcomes.antt =====
-- node-implementation/main.go: the ways in which the start of a node ends.
use ssle_dag.Prelude.{
  ℕ, ◌≡◌, ◌≢◌, refl, sym, ap, ◌∙◌, subst, true, false, inl, inr, List, [], ◌∷◌, ◌++◌, All, Option,
  none, some, ok, exit, panic, exit≢ok, panic≢ok, >>=-eq-ok, ok_injective, Bytes, bytes_eq,
  bytes_eq→eq, Bool-cases, Option-cases,
}
use ssle_dag.Prelude.Int.{ℤ}
use ssle_dag.Config.{
  Settings, IsConfigured, init_configuration, init_configuration_lem,
  init_configuration-IsConfigured,
}
use ssle_dag.Bootstrap.{Input, read_error, NodePeerStruct, PeerInfo, no_config, dial, bootstrap}
use ssle_dag.Bootstrap.Configuration.{IsSent, bootstrap-config}
use ssle_dag.Bootstrap.Conversation.{IsNoConfirm, read_loop-early_error}
use ssle_dag.Connections.{Network, Connections, Event, atoi, run_events, new_connections}
use ssle_dag.P2p.Dispatch.{Globals}
use ssle_dag.Start.{
  World, Started, set_env_variables, read_config, init_zkp, init_p2p, init_rabbit_mq,
  init_variables, zero_globals, run_p2p, start_with, main, read_keys, generate_private_key,
  get_public_key,
}
use ssle_dag.Utils.Encoding.{encode_to_string}
use ssle_dag.Zkp.Message.{Signer}

module _ (net : Network) (latency : PeerInfo → ℤ) where
  run_p2p-cases :
      (public_key : Bytes) (config : NodePeerStruct) (events : List Event) (g g' : Globals)
      (k : Connections)
      → run_p2p net latency public_key config events g ≡ ok (k, g')
      → (n : ℤ) × (atoi config.peer_location.id ≡ some n)
        × (run_events net latency config.peer_location.id (new_connections config.peers) events
            ≡ ok k)
        × (g' ≡ init_variables public_key g)
  unfolding run_p2p
  run_p2p-cases public_key config events g g' k e =
      elim (Option-cases (atoi config.peer_location.id)) [
        | inl bad ↦ absurd (exit≢ok (rw (bad, run_p2p) at e))
        | inr (n, number) ↦
            let (k', run, f) =
              >>=-eq-ok
                (run_events net latency config.peer_location.id (new_connections config.peers)
                  events)
                _ (rw (number, run_p2p) at e) in
            (
              n,
              number,
              run ∙ ap (λ r. ok r.0) (ok_injective f),
              sym (ap (λ r. r.1) (ok_injective f)),
            )
      ]

  -- What a node that has started can rely on.
  pub record IsStarted (w : World) (events : List Event) (s : Started) : Type 0 where
    pub config : NodePeerStruct
    pub number : ℤ
    pub signer : Signer
    pub set : init_configuration (read_config w.unmarshal w.config_file).environment ≡ ok s.settings
    pub configured : IsConfigured s.settings
    pub signs : w.signer ≡ some signer
    pub key : s.public_key ≡ encode_to_string signer.public_key
    pub returned : bootstrap w.dials w.server w.interrupted ≡ ok (some config)
    pub sent : IsSent w.server config
    pub numbered : atoi config.peer_location.id ≡ some number
    pub connected :
        run_events net latency config.peer_location.id (new_connections config.peers) events
        ≡ ok s.connections

  init_zkp-key :
      (w : World) (signer : Signer) (key : Bytes)
      → init_zkp w ≡ ok (signer, key)
      → (w.signer ≡ some signer) × (key ≡ encode_to_string signer.public_key)
  unfolding init_zkp get_public_key generate_private_key
  init_zkp-key w signer key e =
      let (_, _, e1) = >>=-eq-ok (read_keys w.pk_file w.vk_file) _ e in
      let (made, generated, e2) = >>=-eq-ok (generate_private_key w.signer) _ e1 in
      let same : made ≡ signer = ap (λ r. r.0) (ok_injective e2) in
      (
        generate_private_key-some w.signer made generated ∙ ap some same,
        sym (ap (λ r. r.1) (ok_injective e2)) ∙ ap (λ x. encode_to_string x.public_key) same,
      )
    where
      generate_private_key-some :
          (found : Option Signer) (made : Signer)
          → generate_private_key found ≡ ok made
          → found ≡ some made
      generate_private_key-some none made e = absurd (exit≢ok e)
      generate_private_key-some (some x) made e = ap some (ok_injective e)

  -- The empty configuration has no number.
  empty-no_number :
      (config : NodePeerStruct) (n : ℤ)
      → config ≡ no_config
      → ¬ (atoi config.peer_location.id ≡ some n)
  unfolding atoi
  empty-no_number config n empty number =
      let none_is : atoi [] ≡ some n = sym (ap (λ x. atoi x.peer_location.id) empty) ∙ number in
      not_some none_is
    where
      not_some : {n : ℤ} → ¬ (none ≡ some n)
      not_some e = cc

  -- Of what main gets past runP2p with, in a world.
  start_with-connected :
      (w : World) (events : List Event) (c : Settings) (public_key : Bytes)
      (found : Option NodePeerStruct) (s : Started)
      → start_with net latency w events c public_key found ≡ ok s
      → (config : NodePeerStruct) × (n : ℤ) × (found ≡ some config)
        × (s.settings ≡ c)
        × (s.public_key ≡ public_key)
        × (atoi config.peer_location.id ≡ some n)
        × (run_events net latency config.peer_location.id (new_connections config.peers) events
            ≡ ok s.connections)
  unfolding start_with
  start_with-connected w events c public_key none s e = absurd (panic≢ok e)
  start_with-connected w events c public_key (some config) s e =
      let (_, _, e1) = >>=-eq-ok (init_rabbit_mq w) _ e in
      let ((k, g), run, f) =
        >>=-eq-ok (run_p2p net latency public_key config events zero_globals) _ e1 in
      let (n, number, connected, _) = run_p2p-cases public_key config events zero_globals g k run in
      (
        config,
        n,
        refl,
        sym (ap (λ x. x.settings) (ok_injective f)),
        sym (ap (λ x. x.public_key) (ok_injective f)),
        number,
        connected ∙ ap (λ x. ok x.connections) (ok_injective f),
      )

  -- When main gets past runP2p: the settings are those that initConfiguration computes from the file that
  -- readConfig reads, and are consistent; the public key is that of the generated private key; the
  -- configuration is the one that bootstrap returned, a message of the server had it, and its id is a
  -- number; and the streams are those that the events leave of its peers.
  pub main-IsStarted :
      (w : World) (events : List Event) (s : Started)
      → main net latency w events ≡ ok s
      → IsStarted w events s
  unfolding main
  main-IsStarted w events s e =
      let (_, _, e1) = >>=-eq-ok (set_env_variables w.volume_path) _ e in
      let environment = (read_config w.unmarshal w.config_file).environment in
      let (c, set, e2) = >>=-eq-ok (init_configuration environment) _ e1 in
      let ((signer, public_key), keys, e3) = >>=-eq-ok (init_zkp w) _ e2 in
      let (_, _, e4) = >>=-eq-ok (init_p2p w) _ e3 in
      let (found, conversation, e5) = >>=-eq-ok (bootstrap w.dials w.server w.interrupted) _ e4 in
      let (config, n, is_config, settings_are, key_is, number, connected) =
        start_with-connected w events c public_key found s e5 in
      let (signs, key) = init_zkp-key w signer public_key keys in
      let returned = conversation ∙ ap ok is_config in
      record {
        config = config;
        number = n;
        signer = signer;
        set = set ∙ ap ok (sym settings_are);
        configured =
            subst IsConfigured (sym settings_are)
              (init_configuration-IsConfigured environment c set);
        signs = signs;
        key = key_is ∙ key;
        returned = returned;
        sent = elim (bootstrap-config w.dials w.server w.interrupted config returned) [
          | inl empty ↦ absurd (empty-no_number config n empty number)
          | inr told ↦ told
        ];
        numbered = number;
        connected = connected;
      }

  set_env_variables-set : (path : Bytes) → path ≢ [] → set_env_variables path ≡ ok path
  unfolding set_env_variables
  set_env_variables-set path h = elim (Bool-cases (bytes_eq path [])) [
    | inl empty ↦ absurd (h (bytes_eq→eq path [] empty))
    | inr full ↦ rw full refl
  ]

  -- Without a configuration file, main panics in the computation of the logarithm, as the error is only
  -- logged and the parallel length of the empty configuration is 0.
  pub main-no_config :
      (w : World) (events : List Event)
      → w.volume_path ≢ []
      → w.config_file ≡ none
      → (w.unmarshal []).environment.dag_parallel_length ≡ 0
      → main net latency w events ≡ panic
  unfolding main read_config
  main-no_config w events path missing zero_length =
      rw
        (
          set_env_variables-set w.volume_path path,
          missing,
          read_config,
          (init_configuration_lem (w.unmarshal []).environment).2 zero_length,
        )
        refl

  -- When the websocket fails before the server confirmed the hello, and all else goes well, the start ends
  -- as late as in runP2p, where the empty id is no number: the program exits.
  pub main-early_error :
      (w : World) (events : List Event) (inputs more : List Input) (path addr : Bytes)
      (c : Settings) (keys : Signer × Bytes) (attempt : ℕ)
      → set_env_variables w.volume_path ≡ ok path
      → init_configuration (read_config w.unmarshal w.config_file).environment ≡ ok c
      → init_zkp w ≡ ok keys
      → init_p2p w ≡ ok addr
      → dial w.dials ≡ ok attempt
      → w.server ≡ inputs ++ read_error ∷ more
      → All IsNoConfirm inputs
      → w.interrupted ≡ false
      → init_rabbit_mq w ≡ ok true
      → main net latency w events ≡ exit
  unfolding main bootstrap start_with run_p2p atoi init_rabbit_mq
  main-early_error w events inputs more path addr c keys attempt e1 e2 e3 e4 e5 server silent e6
        e7 =
      rw (e1, e2, e3, e4, e5, server, read_loop-early_error inputs more silent, e6, e7) refl
