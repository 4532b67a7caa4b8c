-- ===== src/Lib.antt =====
-- A replicated key-value store: nodes that take puts, deletions and reads from clients over gRPC, and
-- send their writes to their peers in one of three consistency modes, eventual, causal and strong.
--
-- The parts, by file of the repository:
-- * internal/hlc/hlc.go is Hlc. A node stamps each write with a hybrid logical clock and advances
--   the clock by the stamps of the writes that it receives. Compare, Send, Receive, Now and max64
--   are compare, send, receive, reading and max64. The machine's clock is the argument `now`.
-- * internal/store/store.go is Store: the map from keys to stamped values, with tombstones for
--   deleted keys. Put and Delete write without looking, Apply and ApplyDelete let the last write win.
-- * internal/buffer/buffer.go is Buffer: the causal mode's queue of writes whose dependencies the
--   store does not meet yet.
-- * internal/replication/replication.go is Replication: the three handlers, chosen by NewHandler.
-- * internal/server/node.go is Server, with its read tracker in Tracker and its conversions to and
--   from messages in Wire. Put, Get, Delete and Replicate are put, get, delete and replicate.
-- * proto/kv/kv.pb.go and proto/replication/replication.pb.go are Proto: the messages as records, a
--   pointer that may be nil as an Option.
-- * internal/checker/checker.go is Checker: it reads keys from all nodes and compares the answers.
--   CheckKeys, WaitForConvergence and bytesEqual are check_keys, wait_for_convergence, bytes_equal,
--   and String is report_string of Checker/Printed.
-- * bench/workload.go and bench/ycsb_driver.go are Bench, over abstract floating-point numbers and what
--   the node answers: Bench/Config reads a workload, Bench/Draw picks keys, Bench/Run is the loop of the
--   driver with the requests that it sends, Bench/Summary makes the report of a run.
-- * internal/experiments/experiments.go is Experiments, with the two experiments in Experiments/Trials.
-- * The CSV files of bench/ycsb_driver.go and cmd/experiments/main.go are Csv, and the rows of the
--   latter Experiments/Table.
-- * cmd/node/main.go, cmd/bench/main.go, cmd/checker/main.go and cmd/experiments/main.go are Process,
--   Process/Benchmark, Process/Check and Process/Experiment: what the process builds or writes, and its
--   exit status. Process/Serve has the node's process, with the RPCs that it serves.
-- Prelude has the native numbers with integers over them, results with the program's errors, and
-- lemmas on lists. Tests has the repository's unit tests as equations and each result at an example.
--
-- The node calls its clock, its store (through the buffer in causal mode) and its handler; a method
-- is one function from a node to a node, the requests under way to peers, and a response or error.
-- What an RPC to a peer comes back with is a parameter, since gRPC delivers it. Buffer/Delivery and
-- Store/Converge follow sequences of received writes, Server/Steps sequences of calls of a node, and
-- Server/Race the interleavings of puts and replication calls between the two locks that each takes,
-- outside causal mode. Cluster is a cluster of nodes with the requests between them, in steps that
-- are calls of the nodes' methods: eventual in Cluster/Runs and Cluster/Quiet, causal in
-- Cluster/Causal. Server/Commit is a strong put with what its requests do at the peers, each lost,
-- handled, or handled and answered.
--
-- The checker's wait is a function of the list of its turns, with what the nodes answer in each; it has
-- no result if the turns are over first.
--
-- Integers: wall times and counters are ℤ. The counter is an int32 in the source, which guards it
-- against overflow; Hlc/Trace shows the model's counter stays in that range. Wall times are only
-- compared and copied.
-- Fuel: the drain loop of the buffer runs for at most one more round than there are held writes. Each
-- round but the last applies a held write, and Buffer/Drain shows that no applicable write is left.
--
-- Scope: outside Server/Race a method is one step, a strong put or deletion with its wait for the
-- peers too, although the node holds no lock in it: what is said of runs is said of calls that do
-- not overlap at a node. What Server/Commit says of the time after a strong put is for a time with
-- no other put or deletion under way, and for replication calls only.
--
-- Not modelled: mutexes (each method is one step, save in Server/Race), contexts and cancellation,
-- the copying of byte slices, the panic of NewHandler beyond its having no result, the scheduling
-- of goroutines, two different answers from one peer address in one write, a negative number of keys
-- in cmd/checker, memory that runs out other than where the benchmark makes a slice, generated
-- accessors and stubs, and the flags, dialling and printing of the commands under cmd.
mod Prelude
pub mod Hlc
pub mod Store
pub mod Buffer
pub mod Proto
pub mod Replication
pub mod Tracker
pub mod Wire
pub mod Server
pub mod Checker
pub mod Bench
pub mod Experiments
pub mod Process
pub mod Cluster
pub mod Csv
mod Tests
