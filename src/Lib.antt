-- ===== src/Lib.antt =====
-- A model of crossfault: a Raft variant for clusters whose links fail one way, with authenticated
-- message streams and a matrix of believed links.
--
-- The parts. Every file stands for the Go file that its first comment names.
--   * Messages and Codec: internal/consensus/messages.go, and Entry of internal/consensus/log.go.
--   * Crypt: internal/crypt. Identity has identities and the keyring, Envelope the signed digest, Seal
--     and Open, Kind the names of the message kinds, Transcript the stream to and from one peer
--     (NewTranscript, Next, Accept). Encoding, Tampering, Stream and Channel hold the proofs.
--   * Netmatrix: internal/netmatrix/matrix.go in View. Edges, Routes and Asymmetry hold the proofs.
--   * Consensus: internal/consensus. Log is log.go, State is the Node record with NewNode and
--     logEvent, Node has send, the role changes and the broadcasts, Node/Handlers is every message
--     handler, Node/Deliver is Deliver and Propose, Node/Tick is Tick with detectSilence and
--     beginElection, Snapshot is Node.Snapshot with the String methods. Replication is the exchange of
--     a request to append and its answer between a leader and a follower, Ballot the abstract machine of
--     elections that a replica refines, Durable what a request has to respect for commitment, Alone the
--     life of a replica that hears nobody, Member what a replica of a cluster always is, Election a
--     straw poll and the campaign behind it among peers that answer, Commitment a proposal and the
--     answers that commit it; their children, Activity and the other files hold the proofs.
--   * Sim: internal/sim. Network has the links, enqueue, delivery and Step of network.go, Cluster has
--     New, Leader and Propose, Display is snapshot.go. Reach has the networks that a cluster can
--     come to, with what holds of their replicas in its children. Conversation is what the replicas say
--     in a tick, told without the wire. Faults with Gateway and Detour, Leaders, Keeps, Ledger, Roster and
--     the children of Display hold the proofs.
--   * Wasm: cmd/wasm/main.go in Engine, the state of the page's engine and the functions that it calls.
--     Ready is the ready callback. Calls and Session hold the proofs.
--   * Serve: cmd/serve/main.go, the start of the development server and its response headers.
--   * Prelude has the shared types and lemmas, Platform the code that is not in the repository, and
--     Examples the runs at concrete inputs.
-- A replica's Tick drives timers, elections and probes. Its Deliver asks the sender's transcript to
-- accept an envelope, which asks the keyring to open it; then it notes the link as up in its view and
-- hands the payload to a handler, which may splice the log and which answers through `send`, a step of
-- the outgoing transcript. The network hands envelopes to Deliver when they are due, lets every node
-- tick, and puts what they send on links that may be cut or hostile. The page's engine holds one network,
-- steps it, changes its links, proposes commands and shows its frame.
--
-- How the code is carried over.
--   * A Go method on a pointer is a function from the state record to the new one; the outbox is a
--     field of it. A result with `ok` or an error is an Option or a Result.
--   * A uint64 wraps (`u64`, `sub64`). Counters and timers of type int are plain numbers; they would
--     wrap after 2^63 steps. The intervals of a Config are numbers with 0 for all that is not positive.
--   * Strings, node names, keys, hashes and signatures are lists of byte values. A map is an
--     association list without double keys, a missing key reads as Go's zero value. sort.Slice is an
--     insertion sort.
--   * Loops over slices are recursion on the list, so every function is total and no fuel is needed. The
--     exchanges of Replication are counted, and the follower's next index is enough of them.
--   * SHA-256, Ed25519, encoding/json, encoding/hex and math/rand are the fields of Platform.
--     PlatformLaws is what their documentation promises: the sizes of digests and signatures, that a
--     signature verifies, that Intn stays below its bound. A theorem that needs more names it: OnlySigns says that no key
--     verifies one signature on another digest; a statement up to Collision gives two inputs with one
--     digest otherwise.
--   * The exchanges of Replication, Election and Commitment pass on what an envelope carries; Stream and
--     Channel are about the envelopes themselves.
--   * An event of the activity log keeps its kind and the values that its text prints.
--   * A js.Value is a field of the record Js, with the tests and conversions that the code makes of it.
--
-- Not modelled: of cmd/serve the flags and the printed lines, its libraries being the record Host; of
-- cmd/wasm the registration with syscall/js and the JSON text of a frame; the accessor methods, which
-- are the fields of the records; the texts of events and errors; and RelayedMessages, which nothing in
-- the repository writes.
pub mod Prelude
pub mod Messages
pub mod Platform
pub mod Codec
pub mod Crypt
pub mod Netmatrix
pub mod Consensus
pub mod Sim
pub mod Wasm
pub mod Serve
pub mod Examples
