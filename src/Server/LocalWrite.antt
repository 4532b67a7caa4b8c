-- ===== src/Server/LocalWrite.antt =====
-- What the unconditional write of `Put` and `Delete` does to a causal store, and what the two methods
-- leave of a node.
use distributed_key_value_st.Prelude.{
  String, ◌≡◌, ◌⊎◌, inl, inr, refl, sym, subst, true, some, ◌==◌, if◌then◌else◌, arith, Bool-cases,
}
use distributed_key_value_st.Prelude.Int.{ℤ}
use distributed_key_value_st.Prelude.Result.{Result, ok, err}
use distributed_key_value_st.Hlc
use distributed_key_value_st.Hlc.{Timestamp, zero_ts}
use distributed_key_value_st.Hlc.Order.{NotLater, NotLater-refl, NotLater-trans}
use distributed_key_value_st.Store
use distributed_key_value_st.Store.{Store, Value, Dependency, tombstone}
use distributed_key_value_st.Store.Lookup.{entries-assign}
use distributed_key_value_st.Buffer.{version, deps_satisfied}
use distributed_key_value_st.Buffer.Causal.{
  IsCausal, IsStamped, Grows, version_lem, deps_satisfied-Grows, zero-NotLater-version,
}
use distributed_key_value_st.Proto.Kv.{PutRequest, DeleteRequest}
use distributed_key_value_st.Proto.Repl.{ReplicateRequest}
use distributed_key_value_st.Replication.{Peer, Reply}
use distributed_key_value_st.Server.{
  Node, put, delete, put_stamped, delete_stamped, snapshot_reads, put_value, delete_value,
  write_through,
}

-- Every version of the store is at most `ts`.
abbrev pub IsBoundedBy : Timestamp → Store → Type 0
IsBoundedBy ts s = (k : String) → NotLater (version s k) ts

module _ (s : Store) (key : String) (v : Value) (c : IsCausal s)
    (bounded : IsBoundedBy v.timestamp s) (met : deps_satisfied s v.deps ≡ true) where
  abbrev assigned : Store
  assigned = Store.assign s key v

  pub version-assigned :
      (k : String) → version assigned k ≡ (if key == k then v.timestamp else version s k)
  version-assigned k =
      rw (version_lem assigned k, version_lem s k, entries-assign s key k v) (ground arith)

  -- A write later than every version of the store only raises versions.
  pub assign-Grows : Grows s assigned
  unfolding Grows
  assign-Grows k = rw (version-assigned k) (elim (Bool-cases (key == k)) [
    | inl same ↦ rw same (bounded k)
    | inr other ↦ rw other (NotLater-refl (version s k))
  ])

  pub assign-IsBoundedBy : IsBoundedBy v.timestamp assigned
  assign-IsBoundedBy k = rw (version-assigned k) (elim (Bool-cases (key == k)) [
    | inl same ↦ rw same (NotLater-refl v.timestamp)
    | inr other ↦ rw other (bounded k)
  ])

  stamped : IsStamped v
  stamped =
      NotLater-trans zero_ts (version s key) v.timestamp (zero-NotLater-version s key c)
        (bounded key)

  assigned_closed :
      (k : String) (w : Value) → assigned.entries k ≡ some w → deps_satisfied assigned w.deps ≡ true
  assigned_closed k w e = elim (Bool-cases (key == k)) [
    | inl same ↦
        let this : v ≡ w = ground (arith, entries-assign s key k v) in
        rw (← this) (deps_satisfied-Grows s assigned v.deps assign-Grows met)
    | inr other ↦
        deps_satisfied-Grows s assigned w.deps assign-Grows
          (c.closed k w (ground (arith, entries-assign s key k v)))
  ]

  -- A write later than every version, whose dependencies the store meets, keeps the store causal.
  pub assign-IsCausal : IsCausal assigned
  assign-IsCausal = record {
    closed = assigned_closed;
    stamped = λ k. rw (entries-assign s key k v) (elim (Bool-cases (key == k)) [
      | inl same ↦ rw same stamped
      | inr other ↦ rw other (c.stamped k)
    ]);
  }

-- A method that writes has left the store as it was, or stamped `value` later than its clock and
-- assigned it to `key`; the reads are then forgotten. The rest of the node stays.
pub record Wrote (n n' : Node) (key : String) (value : Timestamp → Value) (now : ℤ) : Type 0 where
  pub same_mode : n'.mode ≡ n.mode
  pub same_held : n'.held ≡ n.held
  pub new_clock : n'.clock ≡ (Hlc.send now n.clock).0
  pub outcome :
      ((n'.store ≡ n.store) × ((n'.tracker ≡ n.tracker) ⊎ (n'.tracker ≡ (snapshot_reads n).1)))
      ⊎ ((ts : Timestamp) × ((Hlc.send now n.clock).1 ≡ ok ts)
          × (n'.store ≡ Store.assign n.store key (value ts))
          × (n'.tracker ≡ (snapshot_reads n).1))

write_through_node :
    {A : Type 0} (call : Peer → ReplicateRequest → Reply) (n : Node) (key : String) (val : Value)
    (local : Store → Store) (resp : A)
    → ((write_through call n key val local resp).0 ≡ n)
      ⊎ ((write_through call n key val local resp).0 ≡ record n { store = local n.store })
unfolding write_through
write_through_node call n key val local resp = ground arith

module _ (call : Peer → ReplicateRequest → Reply) (now : ℤ) (n : Node) where
  -- The node that the method's end starts from.
  abbrev ready : Node
  ready = record n { clock = (Hlc.send now n.clock).0; tracker = (snapshot_reads n).1 }

  Wrote-end :
      {A : Type 0} (key : String) (value : Timestamp → Value) (val : Value) (local : Store → Store)
      (resp : A) (ts : Timestamp)
      → (Hlc.send now n.clock).1 ≡ ok ts
      → local n.store ≡ Store.assign n.store key (value ts)
      → Wrote n (write_through call ready key val local resp).0 key value now
  Wrote-end key value val local resp ts h e =
      elim (write_through_node call ready key val local resp) [
        | inl kept ↦
            subst (λ m. Wrote n m key value now) (sym kept)
              (record {
                same_mode = refl;
                same_held = refl;
                new_clock = refl;
                outcome = inl (refl, inr refl);
              })
        | inr done ↦
            subst (λ m. Wrote n m key value now) (sym done)
              (record {
                same_mode = refl;
                same_held = refl;
                new_clock = refl;
                outcome = inr (ts, h, e, refl);
              })
      ]

  Wrote-refused :
      (key : String) (value : Timestamp → Value)
      → Wrote n (record n { clock = (Hlc.send now n.clock).0 }) key value now
  Wrote-refused key value = record {
    same_mode = refl;
    same_held = refl;
    new_clock = refl;
    outcome = inl (refl, inl refl);
  }

  put_stamped-Wrote :
      (req : PutRequest) (r : Result Timestamp)
      → (Hlc.send now n.clock).1 ≡ r
      → Wrote n
          (put_stamped call (record n { clock = (Hlc.send now n.clock).0 }) req r).0
          req.key
          (λ ts. put_value req ts (snapshot_reads n).0)
          now
  unfolding put_stamped Store.put
  put_stamped-Wrote req (err e) h =
      Wrote-refused req.key (λ ts. put_value req ts (snapshot_reads n).0)
  put_stamped-Wrote req (ok ts) h =
      Wrote-end req.key (λ ts. put_value req ts (snapshot_reads n).0)
        (put_value req ts (snapshot_reads n).0)
        (λ s. Store.put s req.key (put_value req ts (snapshot_reads n).0)) _ ts h refl

  delete_stamped-Wrote :
      (req : DeleteRequest) (r : Result Timestamp)
      → (Hlc.send now n.clock).1 ≡ r
      → Wrote n
          (delete_stamped call (record n { clock = (Hlc.send now n.clock).0 }) req r).0
          req.key
          tombstone
          now
  unfolding delete_stamped Store.delete
  delete_stamped-Wrote req (err e) h = Wrote-refused req.key tombstone
  delete_stamped-Wrote req (ok ts) h =
      Wrote-end req.key tombstone (delete_value ts (snapshot_reads n).0)
        (λ s. Store.delete s req.key ts) _ ts h refl

  pub put-Wrote :
      (req : PutRequest)
      → Wrote n (put call now n req).0 req.key (λ ts. put_value req ts (snapshot_reads n).0) now
  unfolding put
  put-Wrote req = put_stamped-Wrote req (Hlc.send now n.clock).1 refl

  pub delete-Wrote : (req : DeleteRequest) → Wrote n (delete call now n req).0 req.key tombstone now
  unfolding delete
  delete-Wrote req = delete_stamped-Wrote req (Hlc.send now n.clock).1 refl
