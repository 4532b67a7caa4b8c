-- ===== src/Cluster/Causal/Sources.antt =====
-- Where the dependencies come from, when a node in causal mode writes or reads, or others do.
use mathlib.Core.List.Memᴰ
use distributed_key_value_st.Prelude.{
  String, ◌≡◌, inl, inr, refl, sym, subst, ap, List, ◌++◌, map, Memᴰ, mem-map_inv,
}
use distributed_key_value_st.Hlc.{Timestamp, reading}
use distributed_key_value_st.Hlc.Order.{
  Earlier, NotLater, NotLater-refl, NotLater-trans, Earlier-trans_right,
}
use distributed_key_value_st.Store.{Value, Dependency}
use distributed_key_value_st.Store.Converge.{Write}
use distributed_key_value_st.Proto.Kv.{GetRequest}
use distributed_key_value_st.Replication.{Peer, Options, Send, build_replicate_request}
use distributed_key_value_st.Wire.{replicated_value}
use distributed_key_value_st.Server.{Node, snapshot_reads}
use distributed_key_value_st.Server
use distributed_key_value_st.Server.Invariant.{reads_of, held_of}
use distributed_key_value_st.Server.Replica.{replicated_value-build}
use distributed_key_value_st.Server.Sessions.{send_causal}
use distributed_key_value_st.Server.CausalMode.{get_tracked, snapshot_reads_old}
use distributed_key_value_st.Cluster.Carried.{IsSent}
use distributed_key_value_st.Cluster.Causal.{
  IsReplica, IsMet, IsRead, IsWaiting, IsSourced, sent_pending,
}
use distributed_key_value_st.Cluster.Causal.Replica.{IsWithin-of}

IsSent-more :
    (sends sent : List Send) (w : Write) (q : Peer) → IsSent sent w q → IsSent (sends ++ sent) w q
IsSent-more sends sent w q (s, m, to, this) = (s, Memᴰ.append_right sends m, to, this)

pub IsMet-more :
    (ws history : List Write) (ts : Timestamp) (dep : Dependency)
    → IsMet history ts dep
    → IsMet (ws ++ history) ts dep
IsMet-more ws history ts dep (w, m, provides, low) = (w, Memᴰ.append_right ws m, provides, low)

IsRead-more :
    (ws history : List Write) (ts : Timestamp) (dep : Dependency)
    → IsRead history ts dep
    → IsRead (ws ++ history) ts dep
IsRead-more ws history ts dep (w, m, provides, low) = (w, Memᴰ.append_right ws m, provides, low)

IsRead-later :
    (history : List Write) (a b : Timestamp) (dep : Dependency)
    → NotLater a b
    → IsRead history a dep
    → IsRead history b dep
IsRead-later history a b dep h (w, m, provides, low) =
    (w, m, provides, NotLater-trans w.1.timestamp a b low h)

module _ (nodes : List Peer) (at : Peer) (history : List Write) (sent : List Send)
    (taken : List Write) (n : Node) (src : IsSourced nodes at history sent taken n) where
  -- A node that did nothing, while others wrote.
  pub IsSourced-more :
      (ws : List Write) (sends : List Send)
      → IsSourced nodes at (ws ++ history) (sends ++ sent) taken n
  IsSourced-more ws sends = record {
    reads = λ dep m. IsRead-more ws history (reading n.clock) dep (src.reads dep m);
    needs = λ q dep m d. IsMet-more ws history q.val.timestamp dep (src.needs q dep m d);
    waiting = λ known q m.
        let (w, earlier, awaits) = src.waiting known q m in
        (
          w,
          earlier,
          elim awaits [
            | inl held ↦ inl held
            | inr (on_way, then_held) ↦ inr (IsSent-more sends sent w at on_way, then_held)
          ],
        );
  }

  -- A node that holds what it held, with other reads.
  pub IsSourced-reads :
      (m : Node)
      → m.held ≡ n.held
      → ((dep : Dependency) → Memᴰ dep (reads_of m.tracker) → IsRead history (reading m.clock) dep)
      → IsSourced nodes at history sent taken m
  IsSourced-reads m same reads = record {
    reads = reads;
    needs = λ q dep h d. src.needs q dep (subst (λ o. Memᴰ q (held_of o)) same h) d;
    waiting = λ known q h.
        subst (λ o. IsWaiting at sent taken (held_of o) q) (sym same)
          (src.waiting known q (subst (λ o. Memᴰ q (held_of o)) same h));
  }

  -- A write forgets the reads, and takes the clock on.
  pub written-IsSourced :
      (m : Node)
      → m.held ≡ n.held
      → m.tracker ≡ (snapshot_reads n).1
      → NotLater (reading n.clock) (reading m.clock)
      → IsSourced nodes at history sent taken m
  written-IsSourced m same cleared later = IsSourced-reads m same (λ dep h.
      IsRead-later history (reading n.clock) (reading m.clock) dep later (
        src.reads dep
          ((snapshot_reads_old n dep).1 (subst (λ t. Memᴰ dep (reads_of t)) cleared h))))

  -- What a write depends on goes back to earlier writes.
  pub snapshot_reads-IsMet :
      (ts : Timestamp) (dep : Dependency)
      → Earlier (reading n.clock) ts
      → Memᴰ dep (snapshot_reads n).0
      → IsMet history ts dep
  snapshot_reads-IsMet ts dep later m =
      let (w, made, provides, low) = src.reads dep ((snapshot_reads_old n dep).0 m) in
      (w, made, provides, Earlier-trans_right w.1.timestamp (reading n.clock) ts low later)

  -- A read is of a write of the history.
  pub get-IsSourced :
      (peers : List Peer) (opts : Options) (log : List Write) (req : GetRequest)
      → IsReplica peers opts n log
      → ((w : Write) → Memᴰ w log → Memᴰ w history)
      → IsSourced nodes at history sent taken (Server.get n req).0
  get-IsSourced peers opts log req v logged =
      let (t, same, from) = get_tracked n req in
      subst (IsSourced nodes at history sent taken) (sym same) (
        IsSourced-reads (record n { tracker = t }) refl
          (λ dep m. elim (from dep m) [
            | inl old ↦ src.reads dep old
            | inr (val, found, stamp) ↦ (
              (dep.key, val),
              logged (dep.key, val) (v.written dep.key val found),
              (refl, subst (λ ts. NotLater ts val.timestamp) stamp (NotLater-refl val.timestamp)),
              IsWithin-of n v.valid dep.key val found,
            )
          ]))

-- The dependencies of a value are those in each of its requests.
pub sent_deps :
    (opts : Options) (key : String) (val : Value) (peers : List Peer) (s : Send)
    → Memᴰ s (map (send_causal opts key val) peers)
    → ((sent_pending s).val.deps ≡ val.deps) × ((sent_pending s).val.timestamp ≡ val.timestamp)
unfolding build_replicate_request replicated_value
sent_deps opts key val peers s m =
    let (q, there, same) = mem-map_inv (send_causal opts key val) peers m in
    rw same (
      ap (λ (v : Value). v.deps) (replicated_value-build key val val.deps),
      ap (λ (v : Value). v.timestamp) (replicated_value-build key val val.deps),
    )
