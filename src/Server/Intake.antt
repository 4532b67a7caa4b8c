-- ===== src/Server/Intake.antt =====
-- What a receipt into the buffer keeps: versions only rise, and stay within what the clock has seen.
use distributed_key_value_st.Prelude.{
  String, ◌≡◌, inl, inr, refl, sym, ap, subst, ◌∙◌, Option, none, some, ◌∷◌, All, All-from_mem,
  All-of_mem, Memᴰ,
}
use distributed_key_value_st.Hlc.{Timestamp, zero_ts}
use distributed_key_value_st.Hlc.Order.{NotLater, NotLater-refl}
use distributed_key_value_st.Store.{Value}
use distributed_key_value_st.Buffer
use distributed_key_value_st.Buffer.{Buffer, PendingWrite, version, deps_satisfied}
use distributed_key_value_st.Buffer.Causal.{
  IsCausal, Grows, version_lem, timestamp-effective, zero-NotLater-version, Covers-version,
  cell_version,
}
use distributed_key_value_st.Buffer.Delivery.{receive-Covers, receive-held}
use distributed_key_value_st.Buffer.Agreement.{receive-IsFrom}
use distributed_key_value_st.Server.Invariant.{IsSeen}

-- A receipt into a valid buffer only raises versions.
pub receive-Grows :
    (b : Buffer) (key : String) (val : Value)
    → IsCausal (Buffer.receive b key val).0.store
    → Grows b.store (Buffer.receive b key val).0.store
unfolding Grows
receive-Grows b key val c k = rw (version_lem b.store k) (go (b.store.entries k) refl)
  where
    go :
        (cell : Option Value)
        → b.store.entries k ≡ cell
        → NotLater (cell_version cell) (version (Buffer.receive b key val).0.store k)
    go none e = zero-NotLater-version (Buffer.receive b key val).0.store k c
    go (some v) e =
        Covers-version (Buffer.receive b key val).0.store k v.timestamp
          (receive-Covers b key val k v.timestamp (rw e (NotLater-refl v.timestamp)))

module _ (b : Buffer) (key : String) (val : Value) (ts : Timestamp) (pos_ts : NotLater zero_ts ts)
    (bounded : (k : String) → NotLater (version b.store k) ts) (seen : All (IsSeen ts) b.held)
    (this-IsSeen : IsSeen ts (record { key = key; val = val })) where
  abbrev this : PendingWrite
  this = record { key = key; val = val }

  IsSeen-all : (q : PendingWrite) → Memᴰ q (this ∷ b.held) → IsSeen ts q
  IsSeen-all q (Memᴰ.head e) = subst (IsSeen ts) (sym e) this-IsSeen
  IsSeen-all q (Memᴰ.tail m) = All-of_mem (IsSeen ts) b.held q seen m

  -- What the buffer holds after a receipt was seen.
  pub receive-IsSeen : All (IsSeen ts) (Buffer.receive b key val).0.held
  receive-IsSeen = All-from_mem (IsSeen ts) _ (λ q m. elim (receive-held b key val q m) [
    | inl old ↦ All-of_mem (IsSeen ts) b.held q seen old
    | inr new ↦ subst (IsSeen ts) (sym new) this-IsSeen
  ])

  -- A receipt brings in no version beyond those seen.
  pub receive_bounded : (k : String) → NotLater (version (Buffer.receive b key val).0.store k) ts
  receive_bounded k =
      rw (version_lem (Buffer.receive b key val).0.store k)
        (cell ((Buffer.receive b key val).0.store.entries k) refl)
    where
      cell :
          (o : Option Value)
          → (Buffer.receive b key val).0.store.entries k ≡ o
          → NotLater (cell_version o) ts
      cell none e = pos_ts
      cell (some v) e =
          elim (receive-IsFrom (this ∷ b.held) b this k v (λ q m. Memᴰ.tail m) (Memᴰ.head refl) e) [
            | inl old ↦
                subst (λ o. NotLater (cell_version o) ts) old
                  (subst (λ t. NotLater t ts) (version_lem b.store k) (bounded k))
            | inr (q, mem, from) ↦
                subst (λ t. NotLater t ts)
                  (sym
                    (ap (λ (w : String × Value). w.1.timestamp) from ∙ timestamp-effective q.val))
                  (IsSeen-all q mem).1
          ]
