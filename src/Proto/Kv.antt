-- ===== src/Proto/Kv.antt =====
-- proto/kv/kv.pb.go: the messages between clients and nodes.
use distributed_key_value_st.Prelude.{ℕ, Bool, List, Option, String}
use distributed_key_value_st.Prelude.Int.{ℤ}

pub record HlcTimestamp : Type 0 where
  pub wall_time : ℤ
  pub logical : ℤ

pub record PutRequest : Type 0 where
  pub key : String
  pub value : List ℕ

pub record PutResponse : Type 0 where
  pub timestamp : Option HlcTimestamp

pub record GetRequest : Type 0 where
  pub key : String

pub record GetResponse : Type 0 where
  pub value : List ℕ
  pub timestamp : Option HlcTimestamp
  pub found : Bool

pub record DeleteRequest : Type 0 where
  pub key : String

pub record DeleteResponse : Type 0 where
  pub timestamp : Option HlcTimestamp
