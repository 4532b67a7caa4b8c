-- ===== src/Server/Race/Overtaken.antt =====
-- A put outside causal mode that is overtaken by a replicated write between its two steps.
use distributed_key_value_st.Prelude.{◌≡◌, refl, ap, subst, ◌∙◌, some, [], ◌∷◌, ◌++◌}
use distributed_key_value_st.Prelude.Int.{ℤ}
use distributed_key_value_st.Prelude.Result.{ok}
use distributed_key_value_st.Hlc
use distributed_key_value_st.Hlc.{Timestamp, Clock}
use distributed_key_value_st.Hlc.Order.{Earlier, Earlier-irrefl, Earlier-trans_right}
use distributed_key_value_st.Store
use distributed_key_value_st.Store.{Store, Value}
use distributed_key_value_st.Store.Merge.{Covers, Covers-apply_self}
use distributed_key_value_st.Store.Converge.{Write}
use distributed_key_value_st.Buffer.Causal.{timestamp-effective}
use distributed_key_value_st.Proto.Kv.{PutRequest}
use distributed_key_value_st.Proto.Repl
use distributed_key_value_st.Proto.Repl.{ReplicateRequest}
use distributed_key_value_st.Wire.{from_proto_ts, replicated_value}
use distributed_key_value_st.Server.{put_value}
use distributed_key_value_st.Cluster.{carried, accepted}
use distributed_key_value_st.Server.Race.{
  Racing, Moves, here, next, Move, Receipt, clock_after, entries-put_self,
}

module _ (r : Racing) (now later : ℤ) (req : PutRequest) (rep : ReplicateRequest)
    (pts : Repl.HlcTimestamp) (clk : Clock) (ts : Timestamp) where
  abbrev put_write : Write
  put_write = (req.key, put_value req ts [])

  abbrev taken : Write
  taken = carried rep (some pts)

  -- The replicated write is in the store, and the put waits.
  abbrev shown : Racing
  shown = record {
    store = (Store.apply r.store taken.0 taken.1).0;
    clock = clock_after later clk rep.timestamp;
    waiting = r.waiting ++ put_write ∷ [];
    arriving = [] ++ r.arriving;
  }

  accepted_one :
      {clk' : Clock} {stamp : Timestamp}
      → rep.timestamp ≡ some pts
      → Hlc.receive later (from_proto_ts pts) clk ≡ (clk', ok stamp)
      → accepted later clk rep rep.timestamp ≡ taken ∷ []
  accepted_one e h = ap (accepted later clk rep) e ∙ rw h refl

  covered : rep.key ≡ req.key → Covers (shown.store.entries req.key) (from_proto_ts pts)
  unfolding replicated_value
  covered same =
      subst (Covers (shown.store.entries req.key))
        (timestamp-effective (replicated_value rep (from_proto_ts pts)))
        (subst (λ k. Covers (shown.store.entries k) taken.1.timestamp) same
          (Covers-apply_self r.store taken.0 taken.1))

-- A put outside causal mode that has its timestamp, and waits for the store while a replicated write of
-- the key with a later timestamp is taken, can then overwrite it: the node has held the later version, and
-- ends with the earlier one.
pub put_overtaken :
    (r : Racing) (now later : ℤ) (req : PutRequest) (rep : ReplicateRequest)
    (pts : Repl.HlcTimestamp) {clk clk' : Clock} {ts stamp : Timestamp}
    → rep.key ≡ req.key
    → rep.timestamp ≡ some pts
    → Hlc.send now r.clock ≡ (clk, ok ts)
    → Hlc.receive later (from_proto_ts pts) clk ≡ (clk', ok stamp)
    → Earlier ts (from_proto_ts pts)
    → (m r' : Racing) × Moves r m
      × Moves m r'
      × Covers (m.store.entries req.key) (from_proto_ts pts)
      × (r'.store.entries req.key ≡ some (put_value req ts []))
      × ¬ Covers (r'.store.entries req.key) (from_proto_ts pts)
put_overtaken r now later req rep pts {clk} {ts = ts} same e h k before =
    let m = shown r now later req rep pts clk ts in
    let w = put_write r now later req rep pts clk ts in
    let last = entries-put_self m.store req.key (put_value req ts []) in
    (
      m,
      record m { store = Store.put m.store w.0 w.1; waiting = r.waiting ++ [] },
      next
          (next (next here (Move.stamp now req clk ts h))
            (Move.replicate (Receipt.receive later rep)))
          (Move.replicate (
            Receipt.apply (taken r now later req rep pts clk ts) [] r.arriving
              (ap (λ ws. ws ++ r.arriving) (accepted_one r now later req rep pts clk ts e k)))),
      next here (Move.write w r.waiting [] refl),
      covered r now later req rep pts clk ts same,
      last,
      λ c.
          Earlier-irrefl (from_proto_ts pts)
            (Earlier-trans_right (from_proto_ts pts) ts (from_proto_ts pts) (rw last at c) before),
    )
