-- ===== src/Server/CausalMode.antt =====
-- What the methods of a node in causal mode do: the node and the requests that they leave.
use distributed_key_value_st.Prelude.{
  String, ◌≡◌, ◌⊎◌, inl, inr, refl, sym, ap, true, false, Bool, Option, none, some, List, map,
  arith, Memᴰ, mem-snoc, ◌==◌,
}
use distributed_key_value_st.Prelude.Int.{ℤ}
use distributed_key_value_st.Prelude.Result.{ok}
use distributed_key_value_st.Hlc
use distributed_key_value_st.Hlc.{Timestamp, Clock}
use distributed_key_value_st.Store
use distributed_key_value_st.Store.{Store, Value, Dependency, tombstone}
use distributed_key_value_st.Proto.Kv.{PutRequest, DeleteRequest, GetRequest}
use distributed_key_value_st.Proto.Repl.{ReplicateRequest}
use distributed_key_value_st.Tracker.{ReadTracker, record_read, snapshot_and_clear}
use distributed_key_value_st.Replication.{Peer, Reply, Options, causal, on_write, causal_on_write}
use distributed_key_value_st.Server.{
  Node, put, delete, get, put_stamped, delete_stamped, put_value, delete_value, snapshot_reads,
  snapshot, track,
}
use distributed_key_value_st.Server.Invariant.{reads_of}
use distributed_key_value_st.Server.Reads.{get_cases}
use distributed_key_value_st.Server.Sessions.{send_causal}

-- The node that a write leaves: the write is in the store, and the reads are forgotten.
abbrev pub after_write : Node → Clock → String → Value → Node
after_write n clk key val = record n {
  clock = clk;
  store = Store.assign n.store key val;
  tracker = (snapshot_reads n).1;
}

module _ (call : Peer → ReplicateRequest → Reply) (n : Node) (peers : List Peer) (opts : Options)
    (in_mode : n.mode ≡ "causal") (handled : n.handler ≡ causal peers opts) where
  not_strong : (n.mode == "strong") ≡ false
  not_strong = rw in_mode refl

  put_stamped_lem :
      (clk : Clock) (req : PutRequest) (ts : Timestamp)
      → let r = put_stamped call (record n { clock = clk }) req (ok ts) in
        (r.0 ≡ after_write n clk req.key (put_value req ts (snapshot_reads n).0))
        × (r.1 ≡ map (send_causal opts req.key (put_value req ts (snapshot_reads n).0)) peers)
  unfolding put_stamped on_write causal_on_write Store.put
  put_stamped_lem clk req ts = ground (arith, not_strong)

  delete_stamped_lem :
      (clk : Clock) (req : DeleteRequest) (ts : Timestamp)
      → let r = delete_stamped call (record n { clock = clk }) req (ok ts) in
        (r.0 ≡ after_write n clk req.key (tombstone ts))
        × (r.1 ≡ map (send_causal opts req.key (delete_value ts (snapshot_reads n).0)) peers)
  unfolding delete_stamped on_write causal_on_write Store.delete
  delete_stamped_lem clk req ts = ground (arith, not_strong)

  module _ (now : ℤ) (clk : Clock) where
    -- A put that the clock stamps is stored with the reads as its dependencies, and sent to every peer.
    pub put_made :
        (req : PutRequest) (ts : Timestamp)
        → Hlc.send now n.clock ≡ (clk, ok ts)
        → ((put call now n req).0
            ≡ after_write n clk req.key (put_value req ts (snapshot_reads n).0))
          × ((put call now n req).1
              ≡ map (send_causal opts req.key (put_value req ts (snapshot_reads n).0)) peers)
    unfolding put
    put_made req ts h = rw h (put_stamped_lem clk req ts)

    -- ... and so is a deletion, in the store a tombstone with no dependencies.
    pub delete_made :
        (req : DeleteRequest) (ts : Timestamp)
        → Hlc.send now n.clock ≡ (clk, ok ts)
        → ((delete call now n req).0 ≡ after_write n clk req.key (tombstone ts))
          × ((delete call now n req).1
              ≡ map (send_causal opts req.key (delete_value ts (snapshot_reads n).0)) peers)
    unfolding delete
    delete_made req ts h = rw h (delete_stamped_lem clk req ts)

snapshot_old :
    (on : Bool) (tracker : Option ReadTracker) (dep : Dependency)
    → (Memᴰ dep (snapshot on tracker).0 → Memᴰ dep (reads_of tracker))
      × (Memᴰ dep (reads_of (snapshot on tracker).1) → Memᴰ dep (reads_of tracker))
unfolding snapshot snapshot_and_clear
snapshot_old true (some rt) dep = ((λ m. m), (λ m. elim m [ ]))
snapshot_old true none dep = ((λ m. elim m [ ]), (λ m. m))
snapshot_old false tracker dep = ((λ m. elim m [ ]), (λ m. m))

-- What a write depends on, and what is left for the next one, was read before.
pub snapshot_reads_old :
    (n : Node) (dep : Dependency)
    → (Memᴰ dep (snapshot_reads n).0 → Memᴰ dep (reads_of n.tracker))
      × (Memᴰ dep (reads_of (snapshot_reads n).1) → Memᴰ dep (reads_of n.tracker))
unfolding snapshot_reads
snapshot_reads_old n dep = snapshot_old (n.mode == "causal") n.tracker dep

-- A read that the next write depends on was there, or is of a value in the store.
abbrev pub IsRead : Store → Option ReadTracker → Dependency → Type 0
IsRead s tracker dep =
    Memᴰ dep (reads_of tracker)
    ⊎ ((val : Value) × (s.entries dep.key ≡ some val) × (val.timestamp ≡ dep.min_ts))

track_reads :
    (s : Store) (on : Bool) (key : String) (val : Value) (tracker : Option ReadTracker)
    → s.entries key ≡ some val
    → (dep : Dependency) → Memᴰ dep (reads_of (track on key val.timestamp tracker))
    → IsRead s tracker dep
unfolding track record_read
track_reads s true key val (some rt) found dep m = elim (mem-snoc rt.reads m) [
  | inl old ↦ inl old
  | inr this ↦ inr (
    val,
    rw (ap (λ (d : Dependency). d.key) this) found,
    sym (ap (λ (d : Dependency). d.min_ts) this),
  )
]
track_reads s true key val none found dep m = inl m
track_reads s false key val tracker found dep m = inl m

-- A read leaves the node but for the tracker, and a new read there is of a value in the store.
pub get_tracked :
    (n : Node) (req : GetRequest)
    → (t : Option ReadTracker) × ((get n req).0 ≡ record n { tracker = t })
      × ((dep : Dependency) → Memᴰ dep (reads_of t) → IsRead n.store n.tracker dep)
get_tracked n req = elim (get_cases n req (n.store.entries req.key) refl) [
  | inl same ↦ (n.tracker, same, λ dep m. inl m)
  | inr (val, found, e) ↦
      (_, e, track_reads n.store (n.mode == "causal") req.key val n.tracker found)
]
