-- ===== src/Server/Reads.antt =====
-- A read of a causal node keeps the invariant.
use distributed_key_value_st.Prelude.{
  String, ◌≡◌, ◌⊎◌, inl, inr, refl, sym, subst, Bool, true, false, Option, none, some, List, [],
  ◌∷◌, ◌++◌, arith, Bool-cases, ◌==◌,
}
use distributed_key_value_st.Hlc.{Timestamp}
use distributed_key_value_st.Hlc.Order.{NotLater, NotLater-refl, after_or_equal_iff}
use distributed_key_value_st.Store
use distributed_key_value_st.Store.{Store, Value, Dependency}
use distributed_key_value_st.Buffer.{version, deps_satisfied}
use distributed_key_value_st.Buffer.Causal.{version_lem}
use distributed_key_value_st.Tracker.{ReadTracker, record_read}
use distributed_key_value_st.Proto.Kv.{GetRequest}
use distributed_key_value_st.Server.{Node, get, track}
use distributed_key_value_st.Server.Invariant.{IsCausalNode, reads_of}

-- The node after a read: unchanged, or with the version that was read noted.
pub get_cases :
    (n : Node) (req : GetRequest) (cell : Option Value)
    → n.store.entries req.key ≡ cell
    → ((get n req).0 ≡ n)
      ⊎ ((val : Value) × (n.store.entries req.key ≡ some val)
          × ((get n req).0
              ≡ record n { tracker = track (n.mode == "causal") req.key val.timestamp n.tracker }))
unfolding get Store.get
get_cases n req none e = inl (ground arith)
get_cases n req (some val) e = elim (Bool-cases val.deleted) [
  | inl gone ↦ inl (ground arith)
  | inr seen ↦ inr (val, e, ground arith)
]

deps_satisfied-snoc :
    (s : Store) (deps : List Dependency) (dep : Dependency)
    → deps_satisfied s deps ≡ true
    → NotLater dep.min_ts (version s dep.key)
    → deps_satisfied s (deps ++ dep ∷ []) ≡ true
unfolding deps_satisfied
deps_satisfied-snoc s [] dep h k = ground (arith, after_or_equal_iff (version s dep.key) dep.min_ts)
deps_satisfied-snoc s (d ∷ deps) dep h k = ground (arith, deps_satisfied-snoc s deps dep)

track_met :
    (s : Store) (causal : Bool) (key : String) (ts : Timestamp) (tracker : Option ReadTracker)
    → deps_satisfied s (reads_of tracker) ≡ true
    → NotLater ts (version s key)
    → deps_satisfied s (reads_of (track causal key ts tracker)) ≡ true
unfolding track record_read
track_met s true key ts (some rt) h k =
    deps_satisfied-snoc s rt.reads (record { key = key; min_ts = ts }) h k
track_met s true key ts none h k = h
track_met s false key ts tracker h k = h

-- What a read adds to the tracked dependencies is met by the store that it read from.
pub get-IsCausalNode : (n : Node) (req : GetRequest) → IsCausalNode n → IsCausalNode (get n req).0
get-IsCausalNode n req v = elim (get_cases n req (n.store.entries req.key) refl) [
  | inl same ↦ subst IsCausalNode (sym same) v
  | inr (val, found, e) ↦
      let read : NotLater val.timestamp (version n.store req.key) =
        rw (version_lem n.store req.key, found) (NotLater-refl val.timestamp) in
      subst IsCausalNode (sym e) (record {
        in_mode = v.in_mode;
        buffered = v.buffered;
        causal = v.causal;
        bounded = v.bounded;
        tracked =
            track_met n.store (n.mode == "causal") req.key val.timestamp n.tracker v.tracked read;
        seen = v.seen;
      })
]
