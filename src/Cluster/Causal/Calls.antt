-- ===== src/Cluster/Causal/Calls.antt =====
-- Each call of a client at a node of a cluster in causal mode keeps the invariant.
use mathlib.Core.List.Memᴰ
use distributed_key_value_st.Prelude.{
  String, ◌≡◌, ◌≢◌, inl, inr, refl, sym, subst, ap, List, [], ◌∷◌, ◌++◌, map, Memᴰ, eq_iff,
}
use distributed_key_value_st.Prelude.Int.{ℤ}
use distributed_key_value_st.Prelude.Result.{Result, ok, err}
use distributed_key_value_st.Hlc
use distributed_key_value_st.Hlc.{Timestamp, Clock, reading}
use distributed_key_value_st.Hlc.Order.{NotLater, NotLater_of_Earlier}
use distributed_key_value_st.Hlc.Monotone.{send-later}
use distributed_key_value_st.Store.{Value, Dependency, tombstone}
use distributed_key_value_st.Store.Within.{IsWithin, IsWithin-later}
use distributed_key_value_st.Proto.Kv.{PutRequest, DeleteRequest, GetRequest}
use distributed_key_value_st.Proto.Repl.{ReplicateRequest}
use distributed_key_value_st.Replication.{Peer, Reply, Options, Send}
use distributed_key_value_st.Server
use distributed_key_value_st.Server.{Node, put_value, delete_value, snapshot_reads}
use distributed_key_value_st.Server.Invariant.{IsCausalNode, put-IsCausalNode, delete-IsCausalNode}
use distributed_key_value_st.Server.Reads.{get-IsCausalNode}
use distributed_key_value_st.Server.Direct.{put_unmade, delete_unmade}
use distributed_key_value_st.Server.Sessions.{send_causal}
use distributed_key_value_st.Server.CausalMode.{after_write, put_made, delete_made, get_tracked}
use distributed_key_value_st.Cluster.{Cluster, made, sent_write, after_call, after_delivery}
use distributed_key_value_st.Cluster.Carried.{
  carried-build, carried-build_tombstone, map-carried, IsSent-map,
}
use distributed_key_value_st.Cluster.Spread.{
  update-Each, update-All, call-IsSpread, unmade-IsSpread, delivery-IsSpread,
}
use distributed_key_value_st.Cluster.Causal.{
  IsTraced, IsReplica, IsCausal, IsSourced, IsMet, sent_pending,
}
use distributed_key_value_st.Cluster.Causal.Replica.{IsWithin-of, written-IsReplica}
use distributed_key_value_st.Cluster.Causal.Sources.{
  IsSourced-more, IsMet-more, written-IsSourced, snapshot_reads-IsMet, get-IsSourced, sent_deps,
}

module _ (nodes : List Peer) (others : Peer → List Peer) (opts : Peer → Options) (c : Cluster)
    (v : IsTraced nodes others opts c) (p : Peer) where
  abbrev n : Node
  n = c.node p

  abbrev replica : IsReplica (others p) (opts p) n (c.log p)
  replica = v.spread.each p

  -- A delivery or a read left the node as `m`, and nothing was taken.
  pub untaken-IsTraced :
      (m : Node)
      → IsReplica (others p) (opts p) m (c.log p)
      → IsSourced nodes p c.history c.sent (c.taken p) m
      → IsTraced nodes others opts (after_delivery c p m [])
  untaken-IsTraced m is_replica is_sourced = record {
    spread =
        delivery-IsSpread (IsCausal others opts) others c v.spread p m [] is_replica
          (λ w m. elim m [ ]);
    sent_needs = v.sent_needs;
    sourced =
        update-All (λ q l k. IsSourced nodes q c.history c.sent l k) c.taken c.node p (c.taken p) m
          is_sourced v.sourced;
  }

  -- A call that the clock refused.
  uncalled : IsTraced nodes others opts (after_call c p n [] [])
  uncalled = record {
    spread = unmade-IsSpread (IsCausal others opts) others c v.spread p n replica;
    sent_needs = v.sent_needs;
    sourced =
        update-Each (λ q k. IsSourced nodes q c.history c.sent (c.taken q) k) c.node p n
          (v.sourced p) v.sourced;
  }

  pub get-IsTraced :
      (req : GetRequest) → IsTraced nodes others opts (after_delivery c p (Server.get n req).0 [])
  get-IsTraced req = untaken-IsTraced (Server.get n req).0 is_replica (
      get-IsSourced nodes p c.history c.sent (c.taken p) n (v.sourced p) (others p) (opts p)
        (c.log p) req replica (v.spread.logged p))
    where
      is_replica : IsReplica (others p) (opts p) (Server.get n req).0 (c.log p)
      is_replica =
          let (t, same, from) = get_tracked n req in
          let valid = get-IsCausalNode n req replica.valid in
          subst (λ m. IsReplica (others p) (opts p) m (c.log p)) (sym same)
            (record {
              valid = subst IsCausalNode same valid;
              handled = replica.handled;
              written = replica.written;
              accounted = replica.accounted;
              held_logged = replica.held_logged;
            })

  module _ (now : ℤ) (clk : Clock) (ts : Timestamp) (h : Hlc.send now n.clock ≡ (clk, ok ts)) where
    within : IsWithin ts n.store
    within =
        IsWithin-later (reading n.clock) ts n.store
          (NotLater_of_Earlier (reading n.clock) ts (send-later now n.clock h).0)
          (IsWithin-of n replica.valid)

    -- A call has stored `val`, sent `out` of it, and both have the dependencies that were read, or none.
    module _ (key : String) (val out : Value) (stamp : val.timestamp ≡ ts)
        (sent_stamp : out.timestamp ≡ ts) (deps : out.deps ≡ (snapshot_reads n).0)
        (carries : (q : Peer) → sent_write (send_causal (opts p) key out q) ≡ (key, val))
        (valid : IsCausalNode (after_write n clk key val)) where
      abbrev sends : List Send
      sends = map (send_causal (opts p) key out) (others p)

      new_needs :
          (s : Send) (dep : Dependency)
          → Memᴰ s sends
          → Memᴰ dep (sent_pending s).val.deps
          → IsMet c.history (sent_pending s).val.timestamp dep
      new_needs s dep m d =
          let (same, time) = sent_deps (opts p) key out (others p) s m in
          rw (time, sent_stamp)
            (snapshot_reads-IsMet nodes p c.history c.sent (c.taken p) n (v.sourced p) ts dep
              (send-later now n.clock h).0
              (subst (λ ds. Memᴰ dep ds) deps (subst (λ ds. Memᴰ dep ds) same d)))

      after_IsSourced : IsSourced nodes p c.history c.sent (c.taken p) (after_write n clk key val)
      after_IsSourced =
          written-IsSourced nodes p c.history c.sent (c.taken p) n (v.sourced p)
            (after_write n clk key val) refl refl
            (subst (NotLater (reading n.clock)) (sym (send-later now n.clock h).1)
              (NotLater_of_Earlier (reading n.clock) ts (send-later now n.clock h).0))

      wrote-IsTraced :
          IsTraced nodes others opts
            (after_call c p (after_write n clk key val) sends ((key, val) ∷ []))
      wrote-IsTraced = record {
        spread =
            call-IsSpread (IsCausal others opts) others c v.spread p (after_write n clk key val)
              sends (key, val)
              (written-IsReplica (others p) (opts p) n (c.log p) replica clk key val
                (rw stamp within) valid)
              (map-carried (others p) (send_causal (opts p) key out) (key, val) carries)
              (IsSent-map (others p) (send_causal (opts p) key out) (key, val) carries (λ q. refl));
        sent_needs = λ s dep m d.
            IsMet-more ((key, val) ∷ []) c.history (sent_pending s).val.timestamp dep
              (elim (Memᴰ.append_cases sends m) [
                | inl new ↦ new_needs s dep new d
                | inr old ↦ v.sent_needs s dep old d
              ]);
        sourced =
            update-Each
              (λ q k. IsSourced nodes q ((key, val) ∷ c.history) (sends ++ c.sent) (c.taken q) k)
              c.node p (after_write n clk key val)
              (IsSourced-more nodes p c.history c.sent (c.taken p) (after_write n clk key val)
                after_IsSourced ((key, val) ∷ []) sends)
              (λ q.
                IsSourced-more nodes q c.history c.sent (c.taken q) (c.node q) (v.sourced q)
                  ((key, val) ∷ []) sends);
      }

  module _ (call : Peer → ReplicateRequest → Reply) (now : ℤ) where
    in_mode : n.mode ≡ "causal"
    in_mode = (eq_iff n.mode "causal").0 replica.valid.in_mode

    pub put-IsTraced :
        (req : PutRequest) (r : Clock × Result Timestamp)
        → req.value ≢ []
        → Hlc.send now n.clock ≡ r
        → IsTraced nodes others opts (
            after_call c p (Server.put call now n req).0 (Server.put call now n req).1 (
              made
                (Hlc.send now n.clock).1
                (λ ts. (req.key, put_value req ts (snapshot_reads n).0))))
    put-IsTraced req (clk, ok ts) bytes h =
        let e = put_made call n (others p) (opts p) in_mode replica.handled now clk req ts h in
        let val = put_value req ts (snapshot_reads n).0 in
        rw (e.0, e.1, h)
          (wrote-IsTraced now clk ts h req.key val val refl refl refl
            (λ q. carried-build req.key req ts (snapshot_reads n).0 bytes)
            (subst IsCausalNode e.0 (put-IsCausalNode call now n replica.valid req)))
    put-IsTraced req (clk, err x) bytes h =
        let e = put_unmade call n now req x h in rw (ap (λ r. r.0) e, ap (λ r. r.1) e, h) uncalled

    pub delete-IsTraced :
        (req : DeleteRequest) (r : Clock × Result Timestamp)
        → Hlc.send now n.clock ≡ r
        → IsTraced nodes others opts (
            after_call c p
              (Server.delete call now n req).0
              (Server.delete call now n req).1
              (made (Hlc.send now n.clock).1 (λ ts. (req.key, tombstone ts))))
    delete-IsTraced req (clk, ok ts) h =
        let e = delete_made call n (others p) (opts p) in_mode replica.handled now clk req ts h in
        rw (e.0, e.1, h)
          (wrote-IsTraced now clk ts h req.key (tombstone ts) (delete_value ts (snapshot_reads n).0)
            refl refl refl (λ q. carried-build_tombstone req.key ts (snapshot_reads n).0)
            (subst IsCausalNode e.0 (delete-IsCausalNode call now n replica.valid req)))
    delete-IsTraced req (clk, err x) h =
        let e = delete_unmade call n now req x h in
        rw (ap (λ r. r.0) e, ap (λ r. r.1) e, h) uncalled
