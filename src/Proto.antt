-- ===== src/Proto.antt =====
-- proto/kv and proto/replication: the messages of the two gRPC services. A pointer field that may
-- be nil is an option; bytes are a list of numbers.
pub mod Kv
pub mod Repl
