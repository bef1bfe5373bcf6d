-- ===== src/Lib.antt =====
-- Verification of the node of SSLE-DAG, an experimental proof of stake protocol in which each epoch's
-- leaders are secret and blocks form a graph of parallel rows. The code is that of the folder
-- node-implementation.
--
-- The parts of the program and the files that model them:
-- - utils.go: Utils, with Encoding (uInt32ToBytes, int64ToBytes and the hexadecimal text of
--   encoding/hex), Majority (findMajorElementInt64, findMajorElementString, sliceContainsInt),
--   Powers (logBase2, splitIntoPowersOfTwo) and Point (compressPoint).
-- - consensus_messages.go: Messages, the data that the nodes keep and exchange.
-- - config.go: Config, with initConfiguration. The settings are a value that is passed on.
-- - dag.go: Dag, with Mask (calculateTxHashMasks), Belongs (doesTxBelongToIndex), Rows
--   (getSplitSecondIndex, getMergeSecondIndex) and Decide (decideAction).
-- - blockchain.go: Blockchain. Its global variables are the record Ledger, which createBlock,
--   processBlock and processGenesisBlock take and return.
-- - p2p_communication.go: P2p, with History (readData's filter and gossipMessage), Broadcast
--   (sendMessageBroadcast and the forwarding of readData), Bucket (randomBucketShuffle,
--   identifyCommitmentPositions), Epochs
--   (passToEpochReady, passToEpochRunning), Epochs.Commitments (the handlers of commitments, with the
--   invariant of the maps in Covered and Handlers), Epochs.Check (the handlers of BCHAIN_INIT_BUCKET_INFO and
--   BCHAIN_BUCKET_CHECK), TimeSync (the handler of BCHAIN_SYNC_TIME), Schedule (the plan of a round of
--   blockGenerationSchedule), Schedule.Round (its blocks), Schedule.Clock (its count of slots and
--   epochs), Receive (the handler of BCHAIN_BLOCK), Commands (processQueueCommandMessage) and Dispatch
--   (the switch of processNetworkMessage and the steps of the whole node); and Keys, the handler of
--   PUB_KEY_EXCHANGE, with the Merkle tree of the public keys in Keys.Tree.
-- - p2p.go, and createStream, connectStream, handleStream and sendRabbitMqReadyMessage of
--   p2p_communication.go: Connections, with the protocol's name in Ids and Protocol, the retries in
--   Retry, and the ready message in Count, SettingUp, Ready and Early.
-- - zkp.go: Zkp, with Message (prepareEdDSA), Verify (commitmentBase64Encode, commitmentBase64Decode,
--   decodePublicWitness, isCommitmentValid), Circuit (Define and generateCommitment), and the library
--   functions that they use in Text and Base64.
-- - bootstrap_client.go: Bootstrap, the conversation of bootstrap with the server.
-- - main.go, with setEnvVariables and readConfig of config.go, initZkp of zkp.go, the set-up of
--   rabbitmq.go and the rest of p2p.go: Start, from main to the end of runP2p.
-- Tests holds the theorems at concrete inputs.
--
-- How they interact: a round of the schedule decides the action of each row by Dag.Decide, collects
-- transactions of the mempool by Dag.Belongs, creates blocks by Blockchain.Create and sends them;
-- a node that receives one looks up its commitment in the map of the running epoch and calls
-- processBlock. The commitments come through the epochs of P2p.Epochs and are ordered by P2p.Bucket;
-- a bucket check moves the epochs on. isCommitmentValid of Zkp.Verify decides which commitments enter,
-- as an argument of P2p.Epochs.Commitments. A commitment is generated by Zkp.Circuit from the node's
-- keys and the path that Keys collected. P2p.Dispatch puts these parts together: the global variables
-- of the node are the record Globals, and a step is a message, a command, an own commitment or a round,
-- each as a whole, in any order. Start gives Globals their first values, after Connections.
--
-- Conventions. A run of Go code is an Outcome: a value, os.Exit, a panic, or a wait that never ends,
-- such as for a Lock that is never granted. Strings and byte slices are lists of bytes; int, uint32
-- and uint64 are natural numbers with their wrap-around written out where the source can reach it;
-- int64 is an integer. A pointer into the blockchain is its index. A map is an association list, whose
-- order stands for the order of range. A loop over an index is structural recursion on the number of
-- rounds left. Where fuel is used (logBase2, splitIntoPowersOfTwo, the 16 swaps of compressPoint, the
-- bytes of a big.Int) it is the input itself or a bound of its length, which the comment at the place
-- gives.
--
-- Parameters. keccak256, the Merkle tree, MiMC and EdDSA are the record Crypto, with what is
-- documented of them in IsDocumented. The draws of math/rand are a function of seed, length and
-- round. gnark's reading, writing and verification is the record Gnark, its compiler and prover the
-- record Prover, the node's key pair the record Signer, and the MiMC hasher of the key tree a function of
-- the writes after a Reset. The bytes of a public witness are described by IsLayout. The times that the
-- bucket check reads are arguments, and so are the parsed messages of the bootstrap server. What libp2p
-- does is the record Network, and the files, keys, addresses and connections that the start of the node
-- finds are the record World.
--
-- Not modelled: logging, the messages to RabbitMQ but for the effects that the handlers return, latency
-- and sleeping, JSON and YAML, the handler of signals but for stopNode's streams, and the programs
-- around the nodes, which are input and output or calls of libraries. Handlers and goroutines run as
-- whole steps, one after the other: an unsynchronised write to a map is one of them, and of the
-- interleavings within a handler only what a lock keeps is modelled, and what a handler has written
-- when it waits for commitmentRoundMutex without end. Messages and commands that arrive before runP2p has
-- initialised the variables are not modelled: maps that they would write to are nil.
pub mod Prelude
pub mod Utils
pub mod Messages
pub mod Config
pub mod Dag
pub mod Blockchain
pub mod P2p
pub mod Keys
pub mod Zkp
pub mod Bootstrap
pub mod Connections
pub mod Start
pub mod Tests
