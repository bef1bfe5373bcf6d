-- ===== src/Keys.antt =====
-- node-implementation/p2p_communication.go and zkp.go: the Merkle tree of the nodes' public keys, how the
-- nodes build it together, and the part of the proof's circuit that checks a path of it.
pub mod Tree
pub mod Exchange
