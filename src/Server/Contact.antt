-- ===== src/Server/Contact.antt =====
-- A request to a peer: what becomes of it and of its answer, and what the writer may conclude from an
-- acknowledgement.
use distributed_key_value_st.Prelude.{
  String, Bool, ◌≡◌, refl, subst, ap, true, false, [], arith, ◌==◌, if◌then◌else◌,
}
use distributed_key_value_st.Prelude.Int.{ℤ}
use distributed_key_value_st.Prelude.Result.{Result, Error, ok, err}
use distributed_key_value_st.Hlc
use distributed_key_value_st.Hlc.{Timestamp, Clock}
use distributed_key_value_st.Store
use distributed_key_value_st.Store.{Store, Value, is_stale}
use distributed_key_value_st.Store.Merge.{Covers, is_stale-Covers, Covers-apply_self}
use distributed_key_value_st.Buffer.Causal.{effective, timestamp-effective}
use distributed_key_value_st.Proto.Repl.{ReplicateRequest, ReplicateResponse}
use distributed_key_value_st.Replication.{
  Peer, Reply, failed, answered, is_ack, build_replicate_request,
}
use distributed_key_value_st.Server.{Node, replicate, replicate_received}
use distributed_key_value_st.Proto.Kv.{PutRequest}
use distributed_key_value_st.Server.{put_value}
use distributed_key_value_st.Server.Replica.{arrived, replicate_direct}

-- What becomes of a request to a peer: it never arrives, or it is handled at a reading of the peer's
-- clock, and the response comes back or does not.
pub data Fate : Type 0 where
  lost : Fate
  unanswered : ℤ → Fate
  answered_at : ℤ → Fate

abbrev pub reply_of : Result ReplicateResponse → Reply
reply_of (ok resp) = answered resp
reply_of (err e) = failed

-- The peer after a request, and what the writer hears of it.
abbrev pub handled : Node → ReplicateRequest → Fate → Node × Reply
handled m req lost = (m, failed)
handled m req (unanswered now) = ((replicate now m req).0, failed)
handled m req (answered_at now) = let (m', r) = replicate now m req in (m', reply_of r)

-- The node has a version of the key that is not before `ts`, as `Store.Apply` tests it.
abbrev pub has_version : String → Timestamp → Node → Bool
has_version key ts n = is_stale ts (n.store.entries key)

-- What the peers answer.
abbrev pub contact : (Peer → Node) → (Peer → Fate) → Peer → ReplicateRequest → Reply
contact world fate p req = (handled (world p) req (fate p)).1

-- The nodes after a put at `self`, stamped `ts`, which is now `n'`.
abbrev pub after_put :
    (Peer → Node) → (Peer → Fate) → Peer → PutRequest → Timestamp → Node → Peer → Node
after_put world fate self req ts n' p =
    if p == self
    then n'
    else (handled (world p) (build_replicate_request req.key (put_value req ts []) []) (fate p)).0

module _ (m : Node) (direct : (m.mode == "causal") ≡ false) (key : String) (val : Value) where
  refused :
      (now : ℤ) {clk : Clock} (e : Error)
      → Hlc.receive now val.timestamp m.clock ≡ (clk, err e)
      → (replicate now m (build_replicate_request key val [])).1 ≡ err e
  unfolding replicate replicate_received build_replicate_request
  refused now e h = rw h refl

  -- An acknowledged write is stored, or a later one is.
  replicate-ack :
      (now : ℤ) (r : Clock × Result Timestamp)
      → Hlc.receive now val.timestamp m.clock ≡ r
      → is_ack (reply_of (replicate now m (build_replicate_request key val [])).1) ≡ true
      → has_version key val.timestamp (replicate now m (build_replicate_request key val [])).0
        ≡ true
  unfolding is_ack
  replicate-ack now (clk, ok stamp) h a = rw (replicate_direct m direct now key val [] h) (
      (is_stale-Covers (((Store.apply m.store key (effective (arrived val []))).0).entries key)
          val.timestamp).1
        (subst
          (λ ts. Covers (((Store.apply m.store key (effective (arrived val []))).0).entries key) ts)
          (timestamp-effective (arrived val []))
          (Covers-apply_self m.store key (effective (arrived val [])))))
  replicate-ack now (clk, err e) h a =
      absurd (ground (arith, ap (λ r. is_ack (reply_of r)) (refused now e h)))

  pub handled-ack :
      (f : Fate)
      → is_ack (handled m (build_replicate_request key val []) f).1 ≡ true
      → has_version key val.timestamp (handled m (build_replicate_request key val []) f).0 ≡ true
  unfolding is_ack
  handled-ack lost a = cc
  handled-ack (unanswered now) a = cc
  handled-ack (answered_at now) a = replicate-ack now (Hlc.receive now val.timestamp m.clock) refl a
