-- ===== src/Cluster/Causal/Waiting.antt =====
-- A receipt at a node in causal mode: what the buffer holds afterwards waits for an earlier write that
-- is to come or is held itself.
use distributed_key_value_st.Prelude.{
  ◌≡◌, ◌⊎◌, inl, inr, refl, sym, subst, Bool-cases, false, some, List, [], ◌∷◌, Memᴰ, arith,
  mem-append_left, mem-append_right,
}
use distributed_key_value_st.Hlc.{Clock, reading}
use distributed_key_value_st.Hlc.Order.{NotLater, NotLater-trans, after_or_equal_iff}
use distributed_key_value_st.Store.{Store, Dependency}
use distributed_key_value_st.Store.Merge.{Covers}
use distributed_key_value_st.Store.Converge.{Write}
use distributed_key_value_st.Buffer
use distributed_key_value_st.Buffer.{Buffer, PendingWrite, version, deps_satisfied}
use distributed_key_value_st.Buffer.Causal.{Covers-version}
use distributed_key_value_st.Buffer.Drain.{IsBlocked}
use distributed_key_value_st.Buffer.Delivery.{receive-held, receive-IsBlocked}
use distributed_key_value_st.Buffer.Agreement.{write_of}
use distributed_key_value_st.Replication.{Peer, Options, Send}
use distributed_key_value_st.Server.{Node}
use distributed_key_value_st.Server.Invariant.{held_of}
use distributed_key_value_st.Cluster.Carried.{IsSent}
use distributed_key_value_st.Cluster.Causal.{
  IsReplica, IsHeld, IsMet, IsAwaited, IsWaiting, IsSourced,
}
use distributed_key_value_st.Cluster.Causal.Replica.{received, received_accounted}

-- Of dependencies that the store does not meet, one is not met.
dep_unmet :
    (s : Store) (deps : List Dependency)
    → deps_satisfied s deps ≡ false
    → (dep : Dependency) × Memᴰ dep deps × ¬ NotLater dep.min_ts (version s dep.key)
unfolding deps_satisfied
dep_unmet s [] h = absurd cc
dep_unmet s (dep ∷ deps) h = elim (Bool-cases (deps_satisfied s deps)) [
  | inr rest ↦ let (d, m, unmet) = dep_unmet s deps rest in (d, Memᴰ.tail m, unmet)
  | inl rest ↦ (
    dep,
    Memᴰ.head refl,
    λ met. ground (arith, after_or_equal_iff (version s dep.key) dep.min_ts),
  )
]

module _ (at : Peer) (sent : List Send) (taken history log : List Write) (peers : List Peer)
    (opts : Options) (nodes : List Peer) (n : Node) (v : IsReplica peers opts n log)
    (src : IsSourced nodes at history sent taken n)
    (taken_logged : (w : Write) → Memᴰ w taken → Memᴰ w log) (held : List PendingWrite)
    (is_held : n.held ≡ some held) (p : PendingWrite) (clk : Clock)
    (this_needs : (dep : Dependency)
      → Memᴰ dep p.val.deps
      → IsMet history p.val.timestamp dep) where
  abbrev after : Buffer
  after = (Buffer.receive (record { store = n.store; held = held }) p.key p.val).0

  was_held : (q : PendingWrite) → Memᴰ q held → Memᴰ q (held_of n.held)
  was_held q m = rw is_held m

  received_needs :
      (q : PendingWrite) (dep : Dependency)
      → Memᴰ q after.held
      → Memᴰ dep q.val.deps
      → IsMet history q.val.timestamp dep
  received_needs q dep m d =
      elim (receive-held (record { store = n.store; held = held }) p.key p.val q m) [
        | inl old ↦ src.needs q dep (was_held q old) d
        | inr this ↦
            subst (λ (r : PendingWrite). IsMet history r.val.timestamp dep) (sym this)
              (this_needs dep (subst (λ (r : PendingWrite). Memᴰ dep r.val.deps) this d))
      ]

  module _ (known : Memᴰ at nodes)
      (origin : (w : Write) → Memᴰ w history → Memᴰ w log ⊎ IsSent sent w at) where
    -- A write that the store does not cover is held, or is on its way.
    awaited :
        (w : Write)
        → Memᴰ w history
        → ¬ Covers (after.store.entries w.0) w.1.timestamp
        → IsAwaited at sent (write_of p ∷ taken) after.held w
    awaited w m uncovered = elim (origin w m) [
      | inl own ↦ inl (then_held (Memᴰ.tail own))
      | inr sent_here ↦ inr (
        sent_here,
        λ t.
            then_held
              (elim t [ Memᴰ.head e ↦ Memᴰ.head e | Memᴰ.tail r ↦ Memᴰ.tail (taken_logged w r) ]),
      )
    ]
      where
        then_held : Memᴰ w (write_of p ∷ log) → IsHeld after.held w
        then_held l = elim (received_accounted peers opts n log v held is_held p clk w l) [
          | inl still ↦ still
          | inr covered ↦ absurd (uncovered covered)
        ]

    blocked_waits :
        (q : PendingWrite)
        → Memᴰ q after.held
        → IsBlocked after.store q
        → IsWaiting at sent (write_of p ∷ taken) after.held q
    blocked_waits q m blocked =
        let (dep, d, unmet) = dep_unmet after.store q.val.deps blocked in
        let (w, made, (key, enough), earlier) = received_needs q dep m d in
        (
          w,
          earlier,
          awaited w made (λ covered. unmet (
              NotLater-trans dep.min_ts w.1.timestamp (version after.store dep.key) enough (
                Covers-version after.store dep.key w.1.timestamp
                  (subst (λ k. Covers (after.store.entries k) w.1.timestamp) key covered)))),
        )

    received-IsWaiting :
        (q : PendingWrite) → Memᴰ q after.held → IsWaiting at sent (write_of p ∷ taken) after.held q
    received-IsWaiting q m =
        elim (receive-IsBlocked (record { store = n.store; held = held }) p.key p.val q m) [
          | inl blocked ↦ blocked_waits q m blocked
          | inr (same, old) ↦
              let (w, earlier, awaits) = src.waiting known q (was_held q old) in
              let still : IsHeld (held_of n.held) w → IsHeld after.held w = λ (r, at_r, is_w). (
                r,
                rw same (mem-append_left (p ∷ []) (subst (λ h. Memᴰ r (held_of h)) is_held at_r)),
                is_w,
              ) in
              (
                w,
                earlier,
                elim awaits [
                  | inl kept ↦ inl (still kept)
                  | inr (sent_here, then_held) ↦ inr (
                    sent_here,
                    λ t. elim t [
                      | Memᴰ.head e ↦ (p, rw same (mem-append_right held (Memᴰ.head refl)), sym e)
                      | Memᴰ.tail r ↦ still (then_held r)
                    ],
                  )
                ],
              )
        ]

  -- The node after the receipt.
  pub received-IsSourced :
      NotLater (reading n.clock) (reading clk)
      → (Memᴰ at nodes → (w : Write) → Memᴰ w history → Memᴰ w log ⊎ IsSent sent w at)
      → IsSourced nodes at history sent
          (write_of p ∷ taken)
          (received peers opts n log v held is_held p clk)
  received-IsSourced later origin = record {
    reads = λ dep m.
        let (w, made, provides, low) = src.reads dep m in
        (w, made, provides, NotLater-trans w.1.timestamp (reading n.clock) (reading clk) low later);
    needs = received_needs;
    waiting = λ known. received-IsWaiting known (origin known);
  }
