-- ===== src/Server/Steps.antt =====
-- A causal node in use: any sequence of calls keeps the invariant.
use distributed_key_value_st.Prelude.{refl, some, [], arith}
use distributed_key_value_st.Prelude.Int.{ℤ, pos, ◌≤ℤ◌}
use distributed_key_value_st.Hlc
use distributed_key_value_st.Hlc.{reading}
use distributed_key_value_st.Store
use distributed_key_value_st.Store.{Store, Value}
use distributed_key_value_st.Buffer.{deps_satisfied, version}
use distributed_key_value_st.Buffer.Causal.{new-IsValid}
use distributed_key_value_st.Proto.Kv.{PutRequest, DeleteRequest, GetRequest}
use distributed_key_value_st.Proto.Repl.{ReplicateRequest}
use distributed_key_value_st.Replication.{Peer, Reply, Handler}
use distributed_key_value_st.Server.{Node, new_node, put, delete, get, replicate}
use distributed_key_value_st.Server.Reads.{get-IsCausalNode}
use distributed_key_value_st.Server.Receipts.{IsTimely, replicate-IsCausalNode}
use distributed_key_value_st.Server.Invariant.{IsCausalNode, put-IsCausalNode, delete-IsCausalNode}

-- One call of one of the node's methods, from whomever, with any reading of the machine's clock.
pub data Step (n : Node) : Node → Type 0 where
  putting :
      (call : Peer → ReplicateRequest → Reply) (now : ℤ) (req : PutRequest)
      → Step n (put call now n req).0
  deleting :
      (call : Peer → ReplicateRequest → Reply) (now : ℤ) (req : DeleteRequest)
      → Step n (delete call now n req).0
  getting : (req : GetRequest) → Step n (get n req).0
  replicating :
      (now : ℤ) (req : ReplicateRequest)
      → IsTimely now n req.timestamp
      → Step n (replicate now n req).0

pub data Reach (n : Node) : Node → Type 0 where
  here : Reach n n
  next : {m m' : Node} → Reach n m → Step m m' → Reach n m'

Step-IsCausalNode : {n n' : Node} → Step n n' → IsCausalNode n → IsCausalNode n'
Step-IsCausalNode {n} (putting call now req) v = put-IsCausalNode call now n v req
Step-IsCausalNode {n} (deleting call now req) v = delete-IsCausalNode call now n v req
Step-IsCausalNode {n} (getting req) v = get-IsCausalNode n req v
Step-IsCausalNode {n} (replicating now req timely) v = replicate-IsCausalNode now n req v timely

-- From a causal node that meets its invariant, every sequence of calls leads to a node that meets
-- it: puts, deletions and reads by clients, and replicated writes that are timely.
pub Reach-IsCausalNode : {n n' : Node} → IsCausalNode n → Reach n n' → IsCausalNode n'
Reach-IsCausalNode v here = v
Reach-IsCausalNode v (next r s) = Step-IsCausalNode s (Reach-IsCausalNode v r)

-- A causal node as it starts: nothing stored, held or read, and a clock not before time zero.
pub new_node-IsCausalNode :
    (now : ℤ) (h : Handler)
    → pos 0 ≤ℤ now
    → IsCausalNode (new_node "causal" Store.new (Hlc.new now) (some []) h)
unfolding new_node Hlc.new deps_satisfied reading version Store.get_version
new_node-IsCausalNode now h start = record {
  in_mode = refl;
  buffered = ([], refl);
  causal = new-IsValid.causal;
  bounded = λ k. ground arith;
  tracked = refl;
  seen = tt;
}
