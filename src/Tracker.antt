-- ===== src/Tracker.antt =====
-- internal/server/node.go: the reads that a causal node remembers between two writes.
use distributed_key_value_st.Prelude.{String, List, [], ◌∷◌, ◌++◌}
use distributed_key_value_st.Hlc.{Timestamp}
use distributed_key_value_st.Store.{Dependency}

pub record ReadTracker : Type 0 where
  pub reads : List Dependency

unfoldable pub record_read : ReadTracker → String → Timestamp → ReadTracker
record_read rt key ts = record { reads = rt.reads ++ record { key = key; min_ts = ts } ∷ [] }

unfoldable pub snapshot_and_clear : ReadTracker → List Dependency × ReadTracker
snapshot_and_clear rt = (rt.reads, record { reads = [] })
