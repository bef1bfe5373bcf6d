-- ===== src/Tests.antt =====
-- The theorems at concrete inputs, for the code of node-implementation.
mod Blocks
mod Graph
mod Network
mod Keys
mod Epochs
mod Commitments
mod Bootstrap
mod Receive
mod Numbers
mod Queue
mod Streams
mod Start
mod Node
