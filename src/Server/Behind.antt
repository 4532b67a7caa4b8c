-- ===== src/Server/Behind.antt =====
-- A client's put at a causal node, and what the buffer holds: only a receipt drains it.
use distributed_key_value_st.Prelude.{
  String, ◌≡◌, ◌⊎◌, inl, inr, true, Memᴰ, List, All-of_mem, eq_iff, eq_refl,
}
use distributed_key_value_st.Prelude.Int.{ℤ}
use distributed_key_value_st.Prelude.Result.{ok}
use distributed_key_value_st.Hlc
use distributed_key_value_st.Hlc.{Timestamp, Clock, reading}
use distributed_key_value_st.Hlc.Order.{NotLater, NotLater-trans, NotLater_of_Earlier}
use distributed_key_value_st.Hlc.Monotone.{send-later}
use distributed_key_value_st.Store
use distributed_key_value_st.Store.{Store, Value, Dependency}
use distributed_key_value_st.Buffer.{PendingWrite, version, deps_satisfied}
use distributed_key_value_st.Buffer.Causal.{Grows}
use distributed_key_value_st.Buffer.Liveness.{deps_met}
use distributed_key_value_st.Proto.Kv.{PutRequest}
use distributed_key_value_st.Proto.Repl.{ReplicateRequest}
use distributed_key_value_st.Replication.{Peer, Reply, Options, causal}
use distributed_key_value_st.Server.{Node, put, put_value, snapshot_reads}
use distributed_key_value_st.Server.LocalWrite.{IsBoundedBy, assign-Grows, version-assigned}
use distributed_key_value_st.Server.Invariant.{IsCausalNode, IsSeen, held_of, snapshot_reads_met}
use distributed_key_value_st.Server.CausalMode.{put_made}

-- The dependency is on `key` and not later than `ts`, or the store meets it.
abbrev pub IsMetBy : Store → String → Timestamp → Dependency → Type 0
IsMetBy s key ts dep =
    ((dep.key ≡ key) × NotLater dep.min_ts ts) ⊎ NotLater dep.min_ts (version s dep.key)

module _ (n : Node) (v : IsCausalNode n) (now : ℤ) (req : PutRequest) (clk : Clock) (ts : Timestamp)
    (h : Hlc.send now n.clock ≡ (clk, ok ts)) where
  abbrev val : Value
  val = put_value req ts (snapshot_reads n).0

  low : NotLater (reading n.clock) ts
  low = NotLater_of_Earlier (reading n.clock) ts (send-later now n.clock h).0

  bounded : IsBoundedBy ts n.store
  bounded k = NotLater-trans (version n.store k) (reading n.clock) ts (v.bounded k) low

  now_met :
      (bound : Timestamp) (dep : Dependency)
      → NotLater bound (reading n.clock)
      → IsMetBy n.store req.key bound dep
      → NotLater dep.min_ts (version (Store.assign n.store req.key val) dep.key)
  unfolding Grows
  now_met bound dep seen (inr met) =
      NotLater-trans dep.min_ts (version n.store dep.key) _ met (
        assign-Grows n.store req.key val v.causal bounded (snapshot_reads_met n v.tracked).0
          dep.key)
  now_met bound dep seen (inl (same, early)) =
      rw
        (
          version-assigned n.store req.key val v.causal bounded (snapshot_reads_met n v.tracked).0
              dep.key,
          same,
          eq_refl,
        )
        (NotLater-trans dep.min_ts bound ts early
          (NotLater-trans bound (reading n.clock) ts seen low))

-- A put that the clock of a causal node stamps, when every dependency of a held write is met already, or
-- is on the put's key and not later than the held write: after the put all its dependencies are met, and
-- the write is held nevertheless.
pub put_held :
    (call : Peer → ReplicateRequest → Reply) (n : Node) (peers : List Peer) (opts : Options)
    (now : ℤ) (req : PutRequest) (q : PendingWrite) {clk : Clock} {ts : Timestamp}
    → IsCausalNode n
    → n.handler ≡ causal peers opts
    → Hlc.send now n.clock ≡ (clk, ok ts)
    → Memᴰ q (held_of n.held)
    → ((dep : Dependency) → Memᴰ dep q.val.deps → IsMetBy n.store req.key q.val.timestamp dep)
    → (deps_satisfied (put call now n req).0.store q.val.deps ≡ true)
      × Memᴰ q (held_of (put call now n req).0.held)
put_held call n peers opts now req q {clk} {ts} v handled h held met =
    let e =
      put_made call n peers opts ((eq_iff n.mode "causal").0 v.in_mode) handled now clk req ts h in
    let seen : IsSeen (reading n.clock) q =
      All-of_mem (IsSeen (reading n.clock)) (held_of n.held) q v.seen held in
    rw (e.0) (
      deps_met (Store.assign n.store req.key (val n v now req clk ts h)) q.val.deps
          (λ dep m. now_met n v now req clk ts h q.val.timestamp dep seen.1 (met dep m)),
      held,
    )
