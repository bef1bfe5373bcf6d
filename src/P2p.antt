-- ===== src/P2p.antt =====
-- node-implementation/p2p_communication.go: gossip, the commitment bucket, the epoch buffers and the
-- agreement messages.
pub mod History
pub mod Bucket
pub mod Epochs
pub mod TimeSync
pub mod Schedule
pub mod Commands
pub mod Receive
pub mod Dispatch
pub mod Broadcast
