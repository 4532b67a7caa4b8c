-- ===== src/Experiments/Causal.antt =====
-- The causal experiment at a causal replica, internal/server/node.go in mode "causal".
use distributed_key_value_st.Prelude.{
  ℕ, String, ◌≡◌, refl, sym, ap, ◌∙◌, true, false, Option, none, some, some_inv, List, [], arith,
  Memᴰ, All, ◌∷◌,
}
use distributed_key_value_st.Prelude.Int.{ℤ, pos, ◌≤ℤ◌}
use distributed_key_value_st.Hlc
use distributed_key_value_st.Hlc.{Timestamp, zero_ts}
use distributed_key_value_st.Hlc.Order.{Earlier, NotLater}
use distributed_key_value_st.Store
use distributed_key_value_st.Store.{Value, Dependency}
use distributed_key_value_st.Replication.{Handler}
use distributed_key_value_st.Server.{Node, new_node, get}
use distributed_key_value_st.Server.Causal.{causal_reads}
use distributed_key_value_st.Server.Steps.{Reach}
use distributed_key_value_st.Experiments.Trials.{ChainTrial, measure_causal_chains}
use distributed_key_value_st.Experiments.Trials.Counts.{IsOrderly, orderly_replica}
use distributed_key_value_st.Experiments.{Look}
use distributed_key_value_st.Experiments.Violations.{IsViolated}

-- A response that shows a value comes from a value of the store that is not deleted.
get_found :
    (n : Node) (key : String)
    → (get n (record { key = key })).1.found ≡ true
    → (v : Value) × (n.store.entries key ≡ some v)
      × (v.payload ≡ (get n (record { key = key })).1.value)
unfolding get Store.get
get_found n key h = go (n.store.entries key) refl
  where
    go :
        (cell : Option Value)
        → n.store.entries key ≡ cell
        → (v : Value) × (n.store.entries key ≡ some v)
          × (v.payload ≡ (get n (record { key = key })).1.value)
    go none e = absurd (ground arith)
    go (some v) e = (v, e, ground arith)

-- What the node answers for a value that is there.
get_there :
    (n : Node) (key : String) (v : Value)
    → n.store.entries key ≡ some v
    → v.deleted ≡ false
    → ((get n (record { key = key })).1.found ≡ true)
      × ((get n (record { key = key })).1.value ≡ v.payload)
unfolding get Store.get
get_there n key v e live = ground arith

-- A turn of the poll at a causal replica: the node answered for the second key and, after any calls of its
-- methods, for the first. `dep` is the write of the first value, which the second value, where the
-- replica has it, depends on, and the replica has nothing but the first value from that write on.
pub record IsCausalLook (now : ℤ) (h : Handler) (key_b : String) (val_a val_b : List ℕ)
    (dep : Dependency) (look : Look) : Type 0 where
  pub first : Node
  pub second : Node
  pub run : Reach (new_node "causal" Store.new (Hlc.new now) (some []) h) first
  pub more : Reach first second
  pub reply_b : look.reply_b ≡ some (get first (record { key = key_b })).1
  pub reply_a : look.reply_a ≡ some (get second (record { key = dep.key })).1
  pub depends :
      (v : Value) → first.store.entries key_b ≡ some v → v.payload ≡ val_b → Memᴰ dep v.deps
  pub is_first :
      (v : Value)
      → second.store.entries dep.key ≡ some v
      → NotLater dep.min_ts v.timestamp
      → (v.payload ≡ val_a) × (v.deleted ≡ false)

module _ (now : ℤ) (h : Handler) (key_b : String) (val_a val_b : List ℕ) (dep : Dependency)
    (start : pos 0 ≤ℤ now) (after : Earlier zero_ts dep.min_ts) where
  quiet_look :
      (look : Look) → IsCausalLook now h key_b val_a val_b dep look → ¬ IsViolated val_a val_b look
  quiet_look look l (resp_b, resp_a, eb, ea, found, shown, hidden) =
      let same_b : (get l.first (record { key = key_b })).1 ≡ resp_b =
        some_inv (sym l.reply_b ∙ eb) in
      let same_a : (get l.second (record { key = dep.key })).1 ≡ resp_a =
        some_inv (sym l.reply_a ∙ ea) in
      let (v, at, carried) = get_found l.first key_b (ap (λ r. r.found) same_b ∙ found) in
      let needs = l.depends v at (carried ∙ ap (λ r. r.value) same_b ∙ shown) in
      let (u, there, late) = causal_reads now h key_b v dep start l.run at needs after l.more in
      let (bytes, live) = l.is_first u there late in
      let (seen, value) = get_there l.second dep.key u there live in
      hidden (sym (ap (λ r. r.found) same_a) ∙ seen)
        (sym (ap (λ r. r.value) same_a) ∙ value ∙ bytes)

-- A trial of the experiment whose every look is at a causal replica that started at `now`.
pub record IsCausalTrial (now : ℤ) (h : Handler) (t : ChainTrial) : Type 0 where
  pub key_b : String
  pub dep : Dependency
  pub after : Earlier zero_ts dep.min_ts
  pub each : (look : Look) → Memᴰ look t.looks → IsCausalLook now h key_b t.val_a t.val_b dep look

all-IsOrderly :
    (now : ℤ) (h : Handler) (trials : List ChainTrial)
    → pos 0 ≤ℤ now
    → All (IsCausalTrial now h) trials
    → All IsOrderly trials
all-IsOrderly now h [] start all = tt
all-IsOrderly now h (t ∷ trials) start (this, more) = (
  λ look at.
      quiet_look now h this.key_b t.val_a t.val_b this.dep start this.after look
        (this.each look at),
  all-IsOrderly now h trials start more,
)

-- The causal experiment at a causal replica that started empty reports no violation: if the second value
-- of a trial, wherever the poll finds it, depends on the write of the first, and from that write on the
-- replica has nothing else under the first key.
pub causal_replica_lem :
    (now : ℤ) (h : Handler) (trials : List ChainTrial)
    → pos 0 ≤ℤ now
    → All (IsCausalTrial now h) trials
    → (measure_causal_chains trials).0.violations ≡ 0
causal_replica_lem now h trials start all =
    orderly_replica trials (all-IsOrderly now h trials start all)
