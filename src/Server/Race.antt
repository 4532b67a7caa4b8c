-- ===== src/Server/Race.antt =====
-- Calls of Put in eventual mode and of Replicate outside causal mode, with gRPC running each in a goroutine of its own: the
-- clock, and then the store, are locked one after the other, and another call may come between.
pub mod Calls
pub mod Serial
pub mod Served
pub mod Overtaken
use distributed_key_value_st.Prelude.{
  String, ◌≡◌, Option, none, some, List, [], ◌∷◌, ◌++◌, arith, eq_refl,
}
use distributed_key_value_st.Prelude.Int.{ℤ}
use distributed_key_value_st.Prelude.Result.{ok}
use distributed_key_value_st.Hlc
use distributed_key_value_st.Hlc.{Timestamp, Clock, reading}
use distributed_key_value_st.Store
use distributed_key_value_st.Store.{Store, Value}
use distributed_key_value_st.Store.Converge.{Write}
use distributed_key_value_st.Proto.Kv.{PutRequest}
use distributed_key_value_st.Proto.Repl
use distributed_key_value_st.Proto.Repl.{ReplicateRequest}
use distributed_key_value_st.Wire.{from_proto_ts}
use distributed_key_value_st.Server.{put_value}
use distributed_key_value_st.Cluster.{accepted}

-- The shared state, the stamped writes of puts that have not reached the store, and the writes of
-- replication calls that the clock has accepted and that have not reached it either.
pub record Racing : Type 0 where
  pub store : Store
  pub clock : Clock
  pub waiting : List Write
  pub arriving : List Write

-- A replication call: the machine's clock at its receipt, and the request.
abbrev pub Call : Type 0
Call = ℤ × ReplicateRequest

-- The clock after the receipt of a request.
abbrev pub clock_after : ℤ → Clock → Option Repl.HlcTimestamp → Clock
clock_after now clk none = clk
clock_after now clk (some pts) = (Hlc.receive now (from_proto_ts pts) clk).0

-- A replication call goes to the clock, or one that the clock has accepted to the store. The list
-- has the call that the step is the first of.
pub data Receipt (r : Racing) : List Call → Racing → Type 0 where
  receive :
      (now : ℤ) (req : ReplicateRequest)
      → Receipt r ((now, req) ∷ []) (record r {
        clock = clock_after now r.clock req.timestamp;
        arriving = accepted now r.clock req req.timestamp ++ r.arriving;
      })
  apply :
      (w : Write) (xs ys : List Write)
      → r.arriving ≡ xs ++ w ∷ ys
      → Receipt r [] (record r { store = (Store.apply r.store w.0 w.1).0; arriving = xs ++ ys })

-- A put takes its timestamp, or one that has one writes to the store, or a replication call goes on.
pub data Move (r : Racing) : Racing → Type 0 where
  stamp :
      (now : ℤ) (req : PutRequest) (clk : Clock) (ts : Timestamp)
      → Hlc.send now r.clock ≡ (clk, ok ts)
      → Move r
          (record r { clock = clk; waiting = r.waiting ++ (req.key, put_value req ts []) ∷ [] })
  write :
      (w : Write) (xs ys : List Write)
      → r.waiting ≡ xs ++ w ∷ ys
      → Move r (record r { store = Store.put r.store w.0 w.1; waiting = xs ++ ys })
  replicate : {calls : List Call} {s : Racing} → Receipt r calls s → Move r s

pub data Moves (r : Racing) : Racing → Type 0 where
  here : Moves r r
  next : {s t : Racing} → Moves r s → Move s t → Moves r t

pub entries-put_self :
    (s : Store) (key : String) (val : Value) → (Store.put s key val).entries key ≡ some val
unfolding Store.put Store.assign
entries-put_self s key val = ground (arith, eq_refl key)
