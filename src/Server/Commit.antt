-- ===== src/Server/Commit.antt =====
-- A strong put together with what its requests do at the peers, and the replication calls after it.
use distributed_key_value_st.Prelude.{
  ◌*◌, ◌<◌, ◌≡◌, refl, subst, true, false, some, List, [], ◌∷◌, arith, length, ◌==◌, Bool-cases,
  eq_refl, inl, inr,
}
use distributed_key_value_st.Prelude.Int.{ℤ}
use distributed_key_value_st.Prelude.Result.{Result, ok, err}
use distributed_key_value_st.Hlc
use distributed_key_value_st.Hlc.{Timestamp, Clock}
use distributed_key_value_st.Hlc.Order.{NotLater-refl}
use distributed_key_value_st.Store
use distributed_key_value_st.Store.{Store, Value, is_stale}
use distributed_key_value_st.Store.Lookup.{entries-assign}
use distributed_key_value_st.Store.Merge.{is_stale-Covers}
use distributed_key_value_st.Proto.Kv.{PutRequest, PutResponse}
use distributed_key_value_st.Proto.Repl.{ReplicateRequest}
use distributed_key_value_st.Replication.{Peer, Reply, Options, Send, on_write, new_handler}
use distributed_key_value_st.Replication.Quorum.{count, count-le, Rearranges, holds, majority_holds}
use distributed_key_value_st.Wire.{to_proto_ts}
use distributed_key_value_st.Server.{Node, put, put_stamped, put_value}
use distributed_key_value_st.Server.Contact.{Fate, has_version, handled-ack, contact, after_put}

stamp_of : (a b : Timestamp) → some (to_proto_ts b) ≡ some (to_proto_ts a) → a ≡ b
unfolding to_proto_ts
stamp_of a b e = cc

-- A strong put has stored what it stamped, and the handler reported no error.
abbrev Done :
    (Peer → ReplicateRequest → Reply) → PutRequest → Node → PutResponse → Node → Timestamp → Type 0
Done call req n' resp n ts =
    (resp.timestamp ≡ some (to_proto_ts ts))
    × ((on_write call n.handler req.key (put_value req ts [])).result ≡ ok tt)
    × (n'.store ≡ Store.assign n.store req.key (put_value req ts []))
    × (n'.mode ≡ n.mode)

module _ (call : Peer → ReplicateRequest → Reply) (req : PutRequest) {n' : Node} {sent : List Send}
    {resp : PutResponse} where
  put_stamped_strong :
      (n : Node) (stamp : Result Timestamp)
      → n.mode ≡ "strong"
      → put_stamped call n req stamp ≡ (n', sent, ok resp)
      → (ts : Timestamp) × Done call req n' resp n ts
  unfolding put_stamped Store.put
  put_stamped_strong n (ok ts) mode e = (ts, ground (arith, is_strong, not_causal))
    where
      is_strong : (n.mode == "strong") ≡ true
      is_strong = rw mode refl

      not_causal : (n.mode == "causal") ≡ false
      not_causal = rw mode refl
  put_stamped_strong n (err x) mode e = absurd (ground arith)

  put_strong :
      (now : ℤ) (n : Node)
      → n.mode ≡ "strong"
      → put call now n req ≡ (n', sent, ok resp)
      → (ts : Timestamp) × Done call req n' resp n ts
  unfolding put
  put_strong now n mode e =
      put_stamped_strong (record n { clock = (Hlc.send now n.clock).0 }) (Hlc.send now n.clock).1
        mode e

module _ (nodes : List Peer) (self : Peer) (peers : List Peer) (opts : Options)
    (world : Peer → Node) (fate : Peer → Fate) where
  stored_at :
      (req : PutRequest) (ts : Timestamp) (n' : Node)
      → ((p : Peer) → (world p).mode ≡ "strong")
      → n'.store ≡ Store.assign (world self).store req.key (put_value req ts [])
      → (p : Peer) → holds self (contact world fate) req.key (put_value req ts []) p ≡ true
      → has_version req.key ts (after_put world fate self req ts n' p) ≡ true
  stored_at req ts n' modes stored p h = elim (Bool-cases (p == self)) [
    | inl same ↦
        rw (same, stored, entries-assign, eq_refl req.key)
          ((is_stale-Covers (some (put_value req ts [])) ts).1 (NotLater-refl ts))
    | inr other ↦ rw other (
        handled-ack (world p) (rw (modes p) refl) req.key (put_value req ts []) (fate p)
          (ground arith))
  ]

  module _ (now : ℤ) (req : PutRequest) (ts : Timestamp) {n' : Node} {sent : List Send}
      (all : Rearranges (self ∷ peers) nodes) (modes : (p : Peer) → (world p).mode ≡ "strong")
      (made : new_handler "strong" peers opts ≡ some (world self).handler)
      (good : put (contact world fate) now (world self) req
        ≡ (n', sent, ok (record { timestamp = some (to_proto_ts ts) }))) where
    -- When a strong put succeeds, whatever became of its requests and of the answers to them, more
    -- than half of the nodes hold the key at the version of its response or a later one.
    pub put_commits :
        length nodes
        < 2 * count (λ p. has_version req.key ts (after_put world fate self req ts n' p)) nodes
    put_commits =
        let (own, done) = put_strong (contact world fate) req now (world self) (modes self) good in
        let same = stamp_of own ts done.0 in
        omega (
          arith,
          majority_holds nodes self peers opts (contact world fate) req.key (put_value req ts [])
              all made
              (subst
                (λ t.
                  (on_write (contact world fate) (world self).handler req.key
                    (put_value req t [])).result
                  ≡ ok tt)
                same done.1),
          count-le (holds self (contact world fate) req.key (put_value req ts []))
              (λ p. has_version req.key ts (after_put world fate self req ts n' p)) nodes
              (stored_at req ts n' modes (
                subst (λ t. n'.store ≡ Store.assign (world self).store req.key (put_value req t []))
                  same done.2)),
        )
