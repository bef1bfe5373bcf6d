-- ===== src/Zkp.antt =====
-- node-implementation/zkp.go: the text of a commitment and what isCommitmentValid accepts.
pub mod Text
pub mod Base64
pub mod Message
pub mod Verify
pub mod Circuit
