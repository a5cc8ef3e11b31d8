-- ===== src/Lib.antt =====
-- kvraft: a replicated key-value store. A Raft node (raft/) orders commands, a server (server/)
-- applies them to a Bitcask store (kvstore/) and answers the clients.
--
-- Files. Base and below: shared helpers, Boolean tests, lists, byte strings, Go's int as ℤ, maps.
-- Raft, for raft/node.go and raft/rpc.go: Types (the messages), Node (the state and the steps that
-- several handlers share), Vote (HandleRequestVote), Append (HandleAppendEntries), Commit
-- (tryAdvanceCommitIndexLocked, and a round of applyCommittedEntries), Election (runFollower,
-- runCandidate, runLeader, Submit), Replication (replicateToFollower before and after its call, and
-- the inner loop of replicationWorker), Run (the life of one node as a sequence of these steps),
-- Cluster (several nodes, the main goroutine of each, and the RPCs between them; Cluster/Invariant to
-- Cluster/Elections are about its elections, Cluster/Logs about its logs, Cluster/Nodes about one node
-- in it, Cluster/Safety about what it promises), Wire (the conversions to the generated messages).
-- Kvstore, for kvstore/: Types (store.go), Words and Codec (codec.go), Keydir and Scan (open.go),
-- Hint (the loop of writeHintForDataFile), Store/Files (appending, rotation), Store/Write (Put,
-- Delete, Sync, Close), Store/Read (Get), Store/Keys (ListKeys), Store/Fold, Store/Durable (what a write leaves for
-- Get, and the store as a plain map), Names (paths.go), Open (OpenWithOptions and the writer lock),
-- Open/Recover (what an opening finds again), Merge (merge.go).
-- Server, for server/server.go: Types, Completion (the waiters of submitAndWait and the completions
-- of applyCommittedEntries), Apply (the command switch), Requests (the start of submitAndWait, the
-- leader hint, the responses), Addresses (deriveClientPeerAddresses, addressesByID), Config
-- (normalizeConfig), Rpc (GRPCRaftService and GRPCClient). Client, for common/kv_api.go, and
-- Client/Shell with Client/Words, for cmd/kv-client/main.go. Tests: the theorems at small inputs.
--
-- State. Each critical section of the program is a function from the state to the state; a handler
-- that can panic, or a channel send that can block, returns an Option, and none is the panic or the
-- block. A channel of a node is the number of messages in it. A file is the list of its bytes and a
-- directory a function from file ids. What the operating system answers to a call is an argument.
-- In a cluster an RPC that was sent can be handled at any later time, more than once, or never, and the
-- same holds of its answer, but that runCandidate counts one answer of each peer. All nodes have one
-- list of peers, and none is started again: a node keeps nothing on disk.
-- Go's int, int64 and uint64 are numbers without a bound but where the code narrows them: sizes in
-- records are taken modulo 2 ^ 32, file ids modulo 2 ^ 64, numbers on the wire as int32, and the sums
-- of ports in deriveClientPeerAddresses wrap around in 64 bits, since ports may be any int there.
--
-- Fuel. The loops over a file run on one unit of fuel for each byte and one more: a record has at
-- least twenty bytes and a hint at least twenty-five.
--
-- Not modelled: timers and goroutine scheduling, which are the choice of the next step;
-- the temporary files of a merge before their renames, which nothing reads; the
-- listeners of the server; common/logging.go, the other commands of cmd/, internal/bench/ and
-- the generated code of proto/, whose client is a parameter of Client.
pub mod Base
pub mod Raft
pub mod Kvstore
pub mod Server
pub mod Client
pub mod Tests
