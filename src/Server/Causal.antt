-- ===== src/Server/Causal.antt =====
-- What a client of a causal node sees: a later read never misses what an earlier read depends on.
use distributed_key_value_st.Prelude.{
  String, ◌≡◌, inl, inr, refl, sym, ap, subst, true, Option, none, some, List, [], ◌∷◌, arith, Memᴰ,
}
use distributed_key_value_st.Prelude.Int.{ℤ, pos, ◌≤ℤ◌}
use distributed_key_value_st.Hlc
use distributed_key_value_st.Hlc.{Timestamp, Clock, zero_ts}
use distributed_key_value_st.Hlc.Order.{
  NotLater, Earlier, NotLater-refl, NotLater-trans, after_or_equal_iff,
}
use distributed_key_value_st.Store
use distributed_key_value_st.Store.{Store, Value, Dependency, tombstone}
use distributed_key_value_st.Buffer.{version, deps_satisfied}
use distributed_key_value_st.Buffer.Causal.{Grows, version_lem, cell_version}
use distributed_key_value_st.Proto.Repl
use distributed_key_value_st.Proto.Repl.{ReplicateRequest}
use distributed_key_value_st.Wire.{from_proto_ts}
use distributed_key_value_st.Replication.{Handler}
use distributed_key_value_st.Server.{
  Node, new_node, put, delete, get, replicate, snapshot_reads, put_value,
}
use distributed_key_value_st.Server.LocalWrite.{Wrote, put-Wrote, delete-Wrote, assign-Grows}
use distributed_key_value_st.Server.Invariant.{IsCausalNode, within, snapshot_reads_met}
use distributed_key_value_st.Server.Kept.{get_parts}
use distributed_key_value_st.Server.Direct.{replicate_unstamped}
use distributed_key_value_st.Server.Receipts.{IsTimely, replicate_cases, taken-Grows}
use distributed_key_value_st.Server.Steps.{
  Step, Reach, Reach-IsCausalNode, new_node-IsCausalNode, putting, deleting, getting, replicating,
  here, next,
}

Grows-refl : (s : Store) → Grows s s
unfolding Grows
Grows-refl s k = NotLater-refl (version s k)

Grows-trans : (s t u : Store) → Grows s t → Grows t u → Grows s u
unfolding Grows
Grows-trans s t u g h k = NotLater-trans (version s k) (version t k) (version u k) (g k) (h k)

Grows-same : (s t : Store) → t ≡ s → Grows s t
Grows-same s t e = subst (Grows s) (sym e) (Grows-refl s)

module _ (n : Node) (v : IsCausalNode n) where
  Wrote-Grows :
      (n' : Node) (key : String) (value : Timestamp → Value) (now : ℤ)
      → Wrote n n' key value now
      → ((ts : Timestamp) → (value ts).timestamp ≡ ts)
      → ((ts : Timestamp) → deps_satisfied n.store (value ts).deps ≡ true)
      → Grows n.store n'.store
  Wrote-Grows n' key value now w stamp met = elim (w.outcome) [
    | inl (e, t) ↦ Grows-same n.store n'.store e
    | inr (ts, sent, e, t) ↦ subst (Grows n.store) (sym e) (
        assign-Grows n.store key (value ts) v.causal
          (within n n' key value now w v stamp met ts sent) (met ts))
  ]

  module _ (now : ℤ) (req : ReplicateRequest) where
    replicate-Grows :
        (t : Option Repl.HlcTimestamp)
        → req.timestamp ≡ t
        → IsTimely now n t
        → Grows n.store (replicate now n req).0.store
    replicate-Grows none e timely =
        Grows-same n.store (replicate now n req).0.store
          (ap (λ (m : Node). m.store) (replicate_unstamped now n req e))
    replicate-Grows (some pts) e timely =
        elim (replicate_cases now n req pts v.buffered.0
          (Hlc.receive now (from_proto_ts pts) n.clock) v.in_mode v.buffered.1 e refl) [
            | inl same ↦
                Grows-same n.store (replicate now n req).0.store (ap (λ (m : Node). m.store) same)
            | inr (stamp, good, f) ↦
                subst (λ (m : Node). Grows n.store m.store) (sym f)
                  (taken-Grows now n req pts v timely.0 timely.1
                    (Hlc.receive now (from_proto_ts pts) n.clock).0 stamp
                    (λ i. ((Hlc.receive now (from_proto_ts pts) n.clock).0, good i)))
          ]

Step-Grows : {n n' : Node} → IsCausalNode n → Step n n' → Grows n.store n'.store
Step-Grows {n} v (putting call now req) =
    Wrote-Grows n v (put call now n req).0 req.key (λ ts. put_value req ts (snapshot_reads n).0) now
      (put-Wrote call now n req) (λ ts. refl) (λ ts. (snapshot_reads_met n v.tracked).0)
Step-Grows {n} v (deleting call now req) =
    Wrote-Grows n v (delete call now n req).0 req.key tombstone now (delete-Wrote call now n req)
      (λ ts. refl) (λ ts. unfold deps_satisfied in refl)
Step-Grows {n} v (getting req) = Grows-same n.store (get n req).0.store (get_parts n req).1
Step-Grows {n} v (replicating now req timely) =
    replicate-Grows n v now req req.timestamp refl timely

pub Reach-Grows : {n n' : Node} → IsCausalNode n → Reach n n' → Grows n.store n'.store
Reach-Grows {n} v here = Grows-refl n.store
Reach-Grows {n} {n'} v (next {m} r s) =
    Grows-trans n.store m.store n'.store (Reach-Grows v r) (Step-Grows (Reach-IsCausalNode v r) s)

dep_met :
    (s : Store) (deps : List Dependency) (dep : Dependency)
    → deps_satisfied s deps ≡ true
    → Memᴰ dep deps
    → NotLater dep.min_ts (version s dep.key)
unfolding deps_satisfied
dep_met s [] dep h m = elim m [ ]
dep_met s (d ∷ deps) dep h (Memᴰ.head e) =
    rw e (ground (arith, after_or_equal_iff (version s d.key) d.min_ts))
dep_met s (d ∷ deps) dep h (Memᴰ.tail m) = dep_met s deps dep (ground arith) m

-- A version later than the zero timestamp is that of a value.
version_found :
    (cell : Option Value) (ts : Timestamp)
    → Earlier zero_ts ts
    → NotLater ts (cell_version cell)
    → (v : Value) × (cell ≡ some v) × NotLater ts v.timestamp
version_found none ts after h = absurd (ground arith)
version_found (some v) ts after h = (v, refl, h)

-- In a causal node that started empty, its clock not before time zero, a client that finds a value finds
-- every dependency of it from then on, after any further puts, deletions, reads and timely replicated
-- writes: a value, or a deletion, at the version that the dependency names or a later one, if that
-- version is later than the zero timestamp.
pub causal_reads :
    (now : ℤ) (h : Handler) {n m : Node} (key : String) (val : Value) (dep : Dependency)
    → pos 0 ≤ℤ now
    → Reach (new_node "causal" Store.new (Hlc.new now) (some []) h) n
    → n.store.entries key ≡ some val
    → Memᴰ dep val.deps
    → Earlier zero_ts dep.min_ts
    → Reach n m
    → (v : Value) × (m.store.entries dep.key ≡ some v) × NotLater dep.min_ts v.timestamp
unfolding Grows
causal_reads now h {n} {m} key val dep start r found at after more =
    let v = Reach-IsCausalNode (new_node-IsCausalNode now h start) r in
    let met = dep_met n.store val.deps dep (v.causal.closed key val found) at in
    version_found (m.store.entries dep.key) dep.min_ts after (
      subst (NotLater dep.min_ts) (version_lem m.store dep.key) (
        NotLater-trans dep.min_ts (version n.store dep.key) (version m.store dep.key) met
          (Reach-Grows v more dep.key)))
