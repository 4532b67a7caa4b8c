-- ===== src/Server/Invariant.antt =====
-- The invariant of a causal node: its store is causal, its clock bounds every version that it holds, and its
-- store meets the reads that the next write will depend on. Each method keeps it.
use distributed_key_value_st.Prelude.{
  String, ◌≡◌, ◌⊎◌, inl, inr, refl, sym, subst, ◌∙◌, true, Option, none, some, List, [], ◌∷◌, arith,
  All, ◌==◌,
}
use distributed_key_value_st.Prelude.Int.{ℤ, pos, +ℤ_parts}
use distributed_key_value_st.Prelude.Result.{ok}
use distributed_key_value_st.Hlc
use distributed_key_value_st.Hlc.{Timestamp, Clock, reading, zero_ts}
use distributed_key_value_st.Hlc.Order.{Earlier, NotLater, NotLater-trans, NotLater_of_Earlier}
use distributed_key_value_st.Hlc.Monotone.{send-later}
use distributed_key_value_st.Store
use distributed_key_value_st.Store.{Store, Value, Dependency, tombstone}
use distributed_key_value_st.Buffer.{PendingWrite, version, deps_satisfied}
use distributed_key_value_st.Buffer.Causal.{IsCausal, IsStamped, deps_satisfied-Grows}
use distributed_key_value_st.Tracker.{ReadTracker}
use distributed_key_value_st.Proto.Kv.{PutRequest, DeleteRequest}
use distributed_key_value_st.Proto.Repl.{ReplicateRequest}
use distributed_key_value_st.Replication.{Peer, Reply}
use distributed_key_value_st.Server.{Node, put, delete, snapshot_reads, put_value}
use distributed_key_value_st.Server.LocalWrite.{
  IsBoundedBy, assign-Grows, assign-IsBoundedBy, assign-IsCausal, Wrote, put-Wrote, delete-Wrote,
}

abbrev pub reads_of : Option ReadTracker → List Dependency
reads_of none = []
reads_of (some rt) = rt.reads

abbrev pub held_of : Option (List PendingWrite) → List PendingWrite
held_of none = []
held_of (some held) = held

-- A held write that the clock has seen.
abbrev pub IsSeen : Timestamp → PendingWrite → Type 0
IsSeen ts p = IsStamped p.val × NotLater p.val.timestamp ts

pub record IsCausalNode (n : Node) : Type 0 where
  pub in_mode : (n.mode == "causal") ≡ true
  pub buffered : (held : List PendingWrite) × (n.held ≡ some held)
  pub causal : IsCausal n.store
  pub bounded : IsBoundedBy (reading n.clock) n.store
  pub tracked : deps_satisfied n.store (reads_of n.tracker) ≡ true
  pub seen : All (IsSeen (reading n.clock)) (held_of n.held)

pub All-IsSeen :
    (a b : Timestamp) (ps : List PendingWrite)
    → NotLater a b
    → All (IsSeen a) ps
    → All (IsSeen b) ps
All-IsSeen a b [] h all = tt
All-IsSeen a b (p ∷ ps) h all =
    ((all.0.0, NotLater-trans p.val.timestamp a b all.0.1 h), All-IsSeen a b ps h all.1)

-- The clock never goes back, whether a call succeeds or fails.
send-NotLater : (now : ℤ) (clk : Clock) → NotLater (reading clk) (reading (Hlc.send now clk).0)
unfolding Hlc.send reading
send-NotLater now clk = ground (arith, +ℤ_parts clk.c (pos 1))

send_ok :
    (now : ℤ) (clk : Clock) (ts : Timestamp)
    → (Hlc.send now clk).1 ≡ ok ts
    → Earlier (reading clk) ts × (reading (Hlc.send now clk).0 ≡ ts)
send_ok now clk ts h =
    let r = send-later now clk {ts = ts} (λ i. ((Hlc.send now clk).0, h i)) in (r.0, r.1)

pub snapshot_reads_met :
    (n : Node)
    → deps_satisfied n.store (reads_of n.tracker) ≡ true
    → (deps_satisfied n.store (snapshot_reads n).0 ≡ true)
      × (deps_satisfied n.store (reads_of (snapshot_reads n).1) ≡ true)
unfolding snapshot_reads deps_satisfied
snapshot_reads_met n h = ground arith

module _ (n n' : Node) (key : String) (value : Timestamp → Value) (now : ℤ)
    (w : Wrote n n' key value now) (v : IsCausalNode n)
    (stamp : (ts : Timestamp) → (value ts).timestamp ≡ ts)
    (met : (ts : Timestamp) → deps_satisfied n.store (value ts).deps ≡ true) where
  later : NotLater (reading n.clock) (reading n'.clock)
  later =
      subst (λ c. NotLater (reading n.clock) (reading c)) (sym w.new_clock)
        (send-NotLater now n.clock)

  kept-IsSeen : All (IsSeen (reading n'.clock)) (held_of n'.held)
  kept-IsSeen =
      subst (λ h. All (IsSeen (reading n'.clock)) (held_of h)) (sym w.same_held)
        (All-IsSeen (reading n.clock) (reading n'.clock) (held_of n.held) later v.seen)

  unwritten :
      n'.store ≡ n.store
      → (n'.tracker ≡ n.tracker) ⊎ (n'.tracker ≡ (snapshot_reads n).1)
      → IsCausalNode n'
  unwritten e t = record {
    in_mode = subst (λ m. (m == "causal") ≡ true) (sym w.same_mode) v.in_mode;
    buffered = (v.buffered.0, w.same_held ∙ v.buffered.1);
    causal = subst IsCausal (sym e) v.causal;
    bounded = λ k.
        subst (λ s. NotLater (version s k) (reading n'.clock)) (sym e)
          (NotLater-trans (version n.store k) (reading n.clock) (reading n'.clock) (v.bounded k)
            later);
    tracked = rw e (elim t [
      | inl same ↦ rw same v.tracked
      | inr cleared ↦ rw cleared (snapshot_reads_met n v.tracked).1
    ]);
    seen = kept-IsSeen;
  }

  module _ (ts : Timestamp) (sent : (Hlc.send now n.clock).1 ≡ ok ts) where
    pub within : IsBoundedBy (value ts).timestamp n.store
    within k = rw (stamp ts) (
        NotLater-trans (version n.store k) (reading n.clock) ts (v.bounded k)
          (NotLater_of_Earlier (reading n.clock) ts (send_ok now n.clock ts sent).0))

    now_reads : reading n'.clock ≡ ts
    now_reads = rw w.new_clock (send_ok now n.clock ts sent).1

    written :
        n'.store ≡ Store.assign n.store key (value ts)
        → n'.tracker ≡ (snapshot_reads n).1
        → IsCausalNode n'
    written e t = record {
      in_mode = subst (λ m. (m == "causal") ≡ true) (sym w.same_mode) v.in_mode;
      buffered = (v.buffered.0, w.same_held ∙ v.buffered.1);
      causal =
          subst IsCausal (sym e) (assign-IsCausal n.store key (value ts) v.causal within (met ts));
      bounded = λ k.
          subst (λ t. NotLater (version n'.store k) t) (stamp ts ∙ sym now_reads)
            (subst (λ s. NotLater (version s k) (value ts).timestamp) (sym e)
              (assign-IsBoundedBy n.store key (value ts) v.causal within (met ts) k));
      tracked =
          rw (e, t)
            (deps_satisfied-Grows n.store (Store.assign n.store key (value ts))
              (reads_of (snapshot_reads n).1)
              (assign-Grows n.store key (value ts) v.causal within (met ts))
              (snapshot_reads_met n v.tracked).1);
      seen = kept-IsSeen;
    }

  Wrote-IsCausalNode : IsCausalNode n'
  Wrote-IsCausalNode = elim (w.outcome) [
    | inl (e, t) ↦ unwritten e t
    | inr (ts, sent, e, t) ↦ written ts sent e t
  ]

module _ (call : Peer → ReplicateRequest → Reply) (now : ℤ) (n : Node) (v : IsCausalNode n) where
  pub put-IsCausalNode : (req : PutRequest) → IsCausalNode (put call now n req).0
  put-IsCausalNode req =
      Wrote-IsCausalNode n (put call now n req).0 req.key
        (λ ts. put_value req ts (snapshot_reads n).0) now (put-Wrote call now n req) v (λ ts. refl)
        (λ ts. (snapshot_reads_met n v.tracked).0)

  pub delete-IsCausalNode : (req : DeleteRequest) → IsCausalNode (delete call now n req).0
  delete-IsCausalNode req =
      Wrote-IsCausalNode n (delete call now n req).0 req.key tombstone now
        (delete-Wrote call now n req) v (λ ts. refl) (λ ts. unfold deps_satisfied in refl)
