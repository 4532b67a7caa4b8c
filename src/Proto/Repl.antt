-- ===== src/Proto/Repl.antt =====
-- proto/replication/replication.pb.go: the messages between nodes.
use distributed_key_value_st.Prelude.{ℕ, Bool, List, Option, String}
use distributed_key_value_st.Prelude.Int.{ℤ}

pub record HlcTimestamp : Type 0 where
  pub wall_time : ℤ
  pub logical : ℤ

pub record Dependency : Type 0 where
  pub key : String
  pub min_ts : Option HlcTimestamp

-- The elements of `deps` are pointers.
pub record ReplicateRequest : Type 0 where
  pub key : String
  pub value : List ℕ
  pub timestamp : Option HlcTimestamp
  pub deps : List (Option Dependency)

pub record ReplicateResponse : Type 0 where
  pub success : Bool
