-- ===== src/Cluster/Carried.antt =====
-- What the requests of a write carry, when the node that made it has built them, and that there is one
-- for each peer.
use distributed_key_value_st.Prelude.{
  ℕ, String, ◌≡◌, ◌≢◌, refl, ap, ◌∙◌, false, List, [], ◌∷◌, map, Memᴰ, mem-map, mem-map_inv,
}
use distributed_key_value_st.Hlc.{Timestamp}
use distributed_key_value_st.Store.{Dependency, tombstone}
use distributed_key_value_st.Store.Converge.{Write}
use distributed_key_value_st.Buffer.Causal.{effective}
use distributed_key_value_st.Proto.Kv.{PutRequest}
use distributed_key_value_st.Replication.{Peer, Send, build_replicate_request}
use distributed_key_value_st.Wire.{from_proto_ts, is_empty}
use distributed_key_value_st.Server.{put_value, delete_value}
use distributed_key_value_st.Server.Replica.{replicated_value-build}
use distributed_key_value_st.Cluster.{carried, sent_write}

-- A request to the peer for the write has been sent.
abbrev pub IsSent : List Send → Write → Peer → Type 0
IsSent sent w q = (s : Send) × Memᴰ s sent × (s.peer ≡ q) × (sent_write s ≡ w)

is_empty-false : (bytes : List ℕ) → bytes ≢ [] → is_empty bytes ≡ false
unfolding is_empty
is_empty-false [] h = absurd (h refl)
is_empty-false (b ∷ bytes) h = refl

-- What a request carries of the write that it was built from: a value with bytes as it is.
pub carried-build :
    (key : String) (req : PutRequest) (ts : Timestamp) (deps : List Dependency)
    → req.value ≢ []
    → carried
        (build_replicate_request key (put_value req ts deps) deps)
        (build_replicate_request key (put_value req ts deps) deps).timestamp
      ≡ (key, put_value req ts deps)
unfolding build_replicate_request from_proto_ts effective is_empty
carried-build key req ts deps bytes =
    ap (λ v. (key, effective v)) (replicated_value-build key (put_value req ts deps) deps)
    ∙ rw (is_empty-false req.value bytes) refl

pub carried-build_tombstone :
    (key : String) (ts : Timestamp) (deps : List Dependency)
    → carried
        (build_replicate_request key (delete_value ts deps) deps)
        (build_replicate_request key (delete_value ts deps) deps).timestamp
      ≡ (key, tombstone ts)
unfolding build_replicate_request from_proto_ts effective is_empty
carried-build_tombstone key ts deps =
    ap (λ v. (key, effective v)) (replicated_value-build key (delete_value ts deps) deps)

-- The requests of a write to its peers.
module _ (peers : List Peer) (send : Peer → Send) (w : Write)
    (carries : (q : Peer) → sent_write (send q) ≡ w) where
  pub map-carried : (s : Send) → Memᴰ s (map send peers) → sent_write s ≡ w
  map-carried s m = let (q, at, e) = mem-map_inv send peers m in ap sent_write e ∙ carries q

  pub IsSent-map :
      ((q : Peer) → (send q).peer ≡ q) → (q : Peer) → Memᴰ q peers → IsSent (map send peers) w q
  IsSent-map to q m = (send q, mem-map send m, to q, carries q)
