-- ===== src/Utils.antt =====
-- node-implementation/utils.go: the byte encodings, the majority vote, slice searches, the integer
-- logarithm and the split into powers of two. `compressPoint` is in `Utils.Point`.
pub mod Encoding
pub mod Majority
pub mod Powers
pub mod Point
