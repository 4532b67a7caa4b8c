-- ===== src/Server/Sessions.antt =====
-- Reads and writes of a client at one causal node.
use distributed_key_value_st.Prelude.{
  String, ◌≡◌, refl, sym, ap, subst, ◌∙◌, true, false, some, List, [], ◌∷◌, ◌++◌, arith, map, All,
  All-from_mem, Memᴰ, mem-map_inv, mem-append_right, ◌==◌, eq_refl,
}
use distributed_key_value_st.Prelude.Int.{ℤ}
use distributed_key_value_st.Prelude.Result.{Result, ok, err}
use distributed_key_value_st.Hlc
use distributed_key_value_st.Hlc.{Timestamp}
use distributed_key_value_st.Store
use distributed_key_value_st.Store.{Store, Value, Dependency}
use distributed_key_value_st.Store.Lookup.{entries-assign}
use distributed_key_value_st.Proto.Kv.{PutRequest, PutResponse, GetRequest}
use distributed_key_value_st.Proto.Repl.{ReplicateRequest}
use distributed_key_value_st.Tracker.{ReadTracker, record_read}
use distributed_key_value_st.Wire.{from_proto_deps}
use distributed_key_value_st.Replication.{
  Peer, Reply, Options, Send, causal, causal_on_write, on_write, build_replicate_request,
  sleep_before_replicate,
}
use distributed_key_value_st.Server.{Node, get, put, put_stamped, put_value, snapshot_reads}
use distributed_key_value_st.Server.Replica.{from_proto_deps-build}

abbrev pub read_dep : GetRequest → Value → Dependency
read_dep req val = record { key = req.key; min_ts = val.timestamp }

-- What a read that finds a value adds to the next write's dependencies.
snapshot_reads-get :
    (n : Node) (req : GetRequest) (rt : ReadTracker) (val : Value)
    → (n.mode == "causal") ≡ true
    → n.tracker ≡ some rt
    → n.store.entries req.key ≡ some val
    → val.deleted ≡ false
    → (snapshot_reads (get n req).0).0 ≡ rt.reads ++ read_dep req val ∷ []
unfolding get snapshot_reads Store.get record_read
snapshot_reads-get n req rt val causal_mode tracked found live = ground arith

abbrev pub send_causal : Options → String → Value → Peer → Send
send_causal opts key val p = record {
  peer = p;
  delay = sleep_before_replicate opts key;
  request = build_replicate_request key val val.deps;
}

get_same :
    (n : Node) (req : GetRequest)
    → ((get n req).0.mode ≡ n.mode) × ((get n req).0.handler ≡ n.handler)
unfolding get
get_same n req = ground arith

-- The dependencies of a value are in each of its requests.
sent_dep :
    (val : Value) (key : String) (peers : List Peer) (opts : Options) (dep : Dependency)
    → Memᴰ dep val.deps
    → (s : Send) → Memᴰ s (map (send_causal opts key val) peers)
    → Memᴰ dep (from_proto_deps s.request.deps)
sent_dep val key peers opts dep at s m =
    let (p, there, same) = mem-map_inv (send_causal opts key val) peers m in
    subst (λ r. Memᴰ dep (from_proto_deps r.request.deps)) (sym same)
      (subst (λ deps. Memᴰ dep deps) (sym (from_proto_deps-build key val val.deps)) at)

-- A put has stored what it stamped, with the dependencies that were read, and sent it to the peers.
abbrev Done : Node → List Peer → Options → PutRequest → Node → List Send → Timestamp → Type 0
Done n peers opts req n' sent ts =
    (n'.store ≡ Store.assign n.store req.key (put_value req ts (snapshot_reads n).0))
    × (sent ≡ map (send_causal opts req.key (put_value req ts (snapshot_reads n).0)) peers)

module _ (call : Peer → ReplicateRequest → Reply) (n : Node) (peers : List Peer) (opts : Options)
    (in_mode : n.mode ≡ "causal") (handled : n.handler ≡ causal peers opts) where
  is_causal : (n.mode == "causal") ≡ true
  is_causal = rw in_mode refl

  not_strong : (n.mode == "strong") ≡ false
  not_strong = rw in_mode refl

  put_stamped_causal :
      (req : PutRequest) (stamp : Result Timestamp) {n' : Node} {sent : List Send}
      {resp : PutResponse}
      → put_stamped call n req stamp ≡ (n', sent, ok resp)
      → (ts : Timestamp) × Done n peers opts req n' sent ts
  unfolding put_stamped on_write causal_on_write Store.put
  put_stamped_causal req (ok ts) h = (ts, ground (arith, not_strong))
  put_stamped_causal req (err e) h = absurd (ground arith)

put_causal :
    (call : Peer → ReplicateRequest → Reply) (n : Node) (peers : List Peer) (opts : Options)
    (now : ℤ) (req : PutRequest) {n' : Node} {sent : List Send} {resp : PutResponse}
    → n.mode ≡ "causal"
    → n.handler ≡ causal peers opts
    → put call now n req ≡ (n', sent, ok resp)
    → (ts : Timestamp) × Done n peers opts req n' sent ts
unfolding put snapshot_reads
put_causal call n peers opts now req in_mode handled h =
    put_stamped_causal call (record n { clock = (Hlc.send now n.clock).0 }) peers opts in_mode
      handled req (Hlc.send now n.clock).1 h

-- A write by a client that has just read a value at a causal node: the value that it leaves in the store,
-- and the one in each request to a peer, depend on the version that was read.
pub writes_follow_reads :
    (call : Peer → ReplicateRequest → Reply) (now : ℤ) (n : Node) (peers : List Peer)
    (opts : Options) (rt : ReadTracker) (read : GetRequest) (val : Value) (req : PutRequest)
    {n' : Node} {sent : List Send} {resp : PutResponse}
    → n.mode ≡ "causal"
    → n.handler ≡ causal peers opts
    → n.tracker ≡ some rt
    → n.store.entries read.key ≡ some val
    → val.deleted ≡ false
    → put call now (get n read).0 req ≡ (n', sent, ok resp)
    → (v : Value) × (n'.store.entries req.key ≡ some v)
      × Memᴰ (read_dep read val) v.deps
      × All (λ (s : Send). Memᴰ (read_dep read val) (from_proto_deps s.request.deps)) sent
writes_follow_reads call now n peers opts rt read val req {sent = sent} in_mode handled tracked
      found live h =
    let m = (get n read).0 in
    let same = get_same n read in
    let (ts, done) = put_causal call m peers opts now req (same.0 ∙ in_mode) (same.1 ∙ handled) h in
    let v = put_value req ts (snapshot_reads m).0 in
    let dep : Memᴰ (read_dep read val) v.deps =
      subst (λ deps. Memᴰ (read_dep read val) deps)
        (sym (snapshot_reads-get n read rt val (rw in_mode refl) tracked found live))
        (mem-append_right rt.reads (Memᴰ.head refl)) in
    (
      v,
      ap (λ (st : Store). st.entries req.key) done.0 ∙ rw (entries-assign, eq_refl req.key) refl,
      dep,
      All-from_mem (λ (s : Send). Memᴰ (read_dep read val) (from_proto_deps s.request.deps)) sent
          (λ s at.
            sent_dep v req.key peers opts (read_dep read val) dep s
              (subst (λ ss. Memᴰ s ss) done.1 at)),
    )
