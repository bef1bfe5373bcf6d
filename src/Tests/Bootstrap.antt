-- ===== src/Tests/Bootstrap.antt =====
-- node-implementation/bootstrap_client.go with short conversations.
use ssle_dag.Prelude.{◌≡◌, refl, true, false, List, [], ◌∷◌, ok, codes}
use ssle_dag.Bootstrap.{
  finish, Input, received, no_config, Client, after_hello, handle, read_step, read_loop,
}
use ssle_dag.Bootstrap.Conversation.{IsOnScript, read_loop-IsOnScript}

abbrev conversation : List Input
conversation =
    received (codes "ok") no_config false
    ∷ received [] no_config false
    ∷ received [] no_config false
    ∷ []

abbrev finished : Client
finished = record {
  state = finish;
  config = no_config;
  ready_to_close = true;
  sent = codes "hello" ∷ codes "conf" ∷ codes "ready" ∷ [];
}

finished_fact : read_loop after_hello conversation ≡ ok (finished, false)
unfolding read_loop read_step handle
finished_fact = refl

read_loop-IsOnScript_example : IsOnScript finished
read_loop-IsOnScript_example =
    read_loop-IsOnScript after_hello finished conversation false finished_fact
      (record { sent_is = refl; closes = refl; nothing_yet = λ h. refl })
