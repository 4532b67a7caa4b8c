-- ===== src/Buffer.antt =====
-- internal/buffer/buffer.go: the causal buffer. A write whose dependencies the store does not meet
-- is held; a write that is applied lets the buffer drain.
-- `store` is the store behind the buffer's pointer, the node's own: an operation takes it as it is
-- and hands it back changed. The buffer's mutex makes `Receive` one step.
pub mod Run
pub mod Drain
pub mod Causal
pub mod Delivery
pub mod Liveness
pub mod Agreement
pub mod Applied
pub mod Schedules
pub mod Orders
use distributed_key_value_st.Prelude.{
  ℕ, zero, suc, String, Bool, true, false, List, [], ◌∷◌, ◌++◌, ◌&&◌, length, if◌then◌else◌,
}
use distributed_key_value_st.Hlc.{Timestamp, zero_ts, after_or_equal}
use distributed_key_value_st.Store
use distributed_key_value_st.Store.{Store, Value, Dependency}

pub record PendingWrite : Type 0 where
  pub key : String
  pub val : Value

pub record Buffer : Type 0 where
  pub store : Store
  pub held : List PendingWrite

abbrev pub new : Store → Buffer
new s = record { store = s; held = [] }

-- The version that `depsSatisfied` compares: the zero timestamp stands for a missing key.
unfoldable pub version : Store → String → Timestamp
version s key = let (ts, found) = Store.get_version s key in if found then ts else zero_ts

unfoldable pub deps_satisfied : Store → List Dependency → Bool
deps_satisfied s [] = true
deps_satisfied s (dep ∷ deps) =
    after_or_equal (version s dep.key) dep.min_ts && deps_satisfied s deps

unfoldable pub apply_locked : Store → String → Value → Store
apply_locked s key val =
    if val.deleted then (Store.apply_delete s key val.timestamp).0 else (Store.apply s key val).0

-- The variables of one round of `drainLocked`: the store, `remaining` and `progressed`.
pub record Round : Type 0 where
  pub store : Store
  pub remaining : List PendingWrite
  pub progressed : Bool

-- The body of the loop over `b.held`.
unfoldable pub visit : Round → PendingWrite → Round
visit r p =
    if deps_satisfied r.store p.val.deps
    then record r { store = apply_locked r.store p.key p.val; progressed = true }
    else record r { remaining = r.remaining ++ p ∷ [] }

unfoldable pub sweep : Round → List PendingWrite → Round
sweep r [] = r
sweep r (p ∷ ps) = sweep (visit r p) ps

unfoldable pub round : Buffer → Round
unfolding sweep
round b = sweep (record { store = b.store; remaining = []; progressed = false }) b.held

-- The outer loop, on fuel: each round but the last applies a held write, so one round more than
-- there are held writes is enough.
unfoldable pub drain_rounds : ℕ → Buffer → Buffer
drain_rounds zero b = b
drain_rounds (suc fuel) b =
    let r = round b in
    let b' : Buffer = record { store = r.store; held = r.remaining } in
    let rest = drain_rounds fuel b' in if r.progressed then rest else b'

unfoldable pub drain_locked : Buffer → Buffer
drain_locked b = drain_rounds (suc (length b.held)) b

unfoldable pub receive : Buffer → String → Value → Buffer × Bool
receive b key val =
    if deps_satisfied b.store val.deps
    then (drain_locked (record b { store = apply_locked b.store key val }), true)
    else (record b { held = b.held ++ record { key = key; val = val } ∷ [] }, false)

unfoldable pub len : Buffer → ℕ
len b = length b.held
