-- ===== src/Store/Converge.antt =====
-- Convergence: replicas that received the same writes hold the same store, whatever the order and
-- however often each write came.
use mathlib.Core.List.{Memᴰ}
use distributed_key_value_st.Prelude.{
  String, ◌≡◌, ◌≢◌, ◌⊎◌, inl, inr, sym, refl, ap, Option, none, some, ◌==◌, List, [], ◌∷◌, arith,
  ◌↔◌, Bool-cases, eq_iff, eq_refl,
}
use distributed_key_value_st.Hlc.{Timestamp}
use distributed_key_value_st.Store.{Store, Value, new, apply, is_stale}
use distributed_key_value_st.Hlc.Order.{NotLater-antisymm, NotLater-refl, stale_iff}
use distributed_key_value_st.Store.Lookup.{Store-ext}
use distributed_key_value_st.Store.Merge.{
  Covers, merge, merge_from, Covers-merge, Covers-merge_self, entries-apply-merge,
}

abbrev pub Write : Type 0
Write = String × Value

unfoldable pub apply_all : Store → List Write → Store
apply_all s [] = s
apply_all s ((key, val) ∷ writes) = apply_all (apply s key val).0 writes

-- Among these writes, a key and a timestamp determine the write.
abbrev pub UniquelyStamped : List Write → Type 0
UniquelyStamped writes =
    (w v : Write)
    → Memᴰ w writes
    → Memᴰ v writes
    → w.0 ≡ v.0
    → w.1.timestamp ≡ v.1.timestamp
    → w ≡ v

abbrev pub SameWrites : List Write → List Write → Type 0
SameWrites ws vs = (w : Write) → Memᴰ w ws ↔ Memᴰ w vs

pub Covers-apply :
    (s : Store) (key k : String) (val : Value) (ts : Timestamp)
    → Covers (s.entries k) ts
    → Covers ((apply s key val).0.entries k) ts
Covers-apply s key k val ts h = rw entries-apply-merge (elim (Bool-cases (key == k)) [
  | inl e ↦ rw e (Covers-merge (s.entries k) val ts h)
  | inr e ↦ rw e h
])

Covers-apply_all :
    (s : Store) (ws : List Write) (k : String) (ts : Timestamp)
    → Covers (s.entries k) ts
    → Covers ((apply_all s ws).entries k) ts
unfolding apply_all
Covers-apply_all s [] k ts h = h
Covers-apply_all s ((key, val) ∷ ws) k ts h =
    Covers-apply_all (apply s key val).0 ws k ts (Covers-apply s key k val ts h)

-- After the run, every write is covered under its key.
apply_all-Covers :
    (s : Store) (ws : List Write) (w : Write)
    → Memᴰ w ws
    → Covers ((apply_all s ws).entries w.0) w.1.timestamp
unfolding apply_all
apply_all-Covers s [] w m = elim m [ ]
apply_all-Covers s ((key, val) ∷ ws) w (Memᴰ.head e) =
    Covers-apply_all (apply s key val).0 ws w.0 w.1.timestamp
      (rw (e, entries-apply-merge, eq_refl) (Covers-merge_self (s.entries key) val))
apply_all-Covers s ((key, val) ∷ ws) w (Memᴰ.tail m) = apply_all-Covers (apply s key val).0 ws w m

-- A cell after one write.
pub apply_from :
    (s : Store) (key k : String) (val v : Value)
    → (apply s key val).0.entries k ≡ some v
    → (s.entries k ≡ some v) ⊎ (◌≡◌ {A = Write} (k, v) (key, val))
apply_from s key k val v h = elim (Bool-cases (key == k)) [
  | inr other ↦ inl (ground (arith, entries-apply-merge s key k val))
  | inl same ↦ elim (merge_from (s.entries k) val) [
    | inl kept ↦ inl (ground (arith, entries-apply-merge s key k val))
    | inr taken ↦ inr (ground (arith, eq_iff key k, entries-apply-merge s key k val))
  ]
]

-- A cell after the run was there before it, or is one of the writes under that key.
apply_all_from :
    (s : Store) (ws : List Write) (k : String) (v : Value)
    → (apply_all s ws).entries k ≡ some v
    → (s.entries k ≡ some v) ⊎ Memᴰ (k, v) ws
unfolding apply_all
apply_all_from s [] k v h = inl h
apply_all_from s ((key, val) ∷ ws) k v h = elim (apply_all_from (apply s key val).0 ws k v h) [
  | inr m ↦ inr (Memᴰ.tail m)
  | inl e ↦ elim (apply_from s key k val v e) [
    | inl kept ↦ inl kept
    | inr taken ↦ inr (Memᴰ.head taken)
  ]
]

-- What a store that received exactly these writes must hold, with no order among them: under each
-- key one of the key's writes, and no write of the key that is later than it.
pub record IsMergeOf (s : Store) (ws : List Write) : Type 0 where
  pub written : (k : String) (v : Value) → s.entries k ≡ some v → Memᴰ (k, v) ws
  pub covered : (w : Write) → Memᴰ w ws → Covers (s.entries w.0) w.1.timestamp

-- Replicated writes applied to an empty store, in any order, leave the merge of these writes.
pub apply_all-IsMergeOf : (ws : List Write) → IsMergeOf (apply_all new ws) ws
apply_all-IsMergeOf ws = record {
  written = λ k v h. elim (apply_all_from new ws k v h) [ inl e ↦ cc | inr m ↦ m ];
  covered = apply_all-Covers new ws;
}

module _ (s t : Store) (ws vs : List Write) (unique : UniquelyStamped ws) (same : SameWrites ws vs)
    (p : IsMergeOf s ws) (q : IsMergeOf t vs) where
  later_in_second :
      (k : String) (u : Value) (cell : Option Value)
      → s.entries k ≡ some u
      → t.entries k ≡ cell
      → Covers cell u.timestamp
  later_in_second k u cell e f = rw f at (q.covered (k, u) ((same (k, u)).0 (p.written k u e)))

  later_in_first :
      (k : String) (v : Value) (cell : Option Value)
      → t.entries k ≡ some v
      → s.entries k ≡ cell
      → Covers cell v.timestamp
  later_in_first k v cell e f = rw f at (p.covered (k, v) ((same (k, v)).1 (q.written k v e)))

  same_cell : (k : String) (a b : Option Value) → s.entries k ≡ a → t.entries k ≡ b → a ≡ b
  same_cell k none none e f = refl
  same_cell k (some u) none e f = absurd (later_in_second k u none e f)
  same_cell k none (some v) e f = absurd (later_in_first k v none f e)
  same_cell k (some u) (some v) e f =
      ap (λ (w : Write). some w.1)
        (unique (k, u) (k, v) (p.written k u e) ((same (k, v)).1 (q.written k v f)) refl
          (NotLater-antisymm u.timestamp v.timestamp (later_in_second k u (some v) e f)
            (later_in_first k v (some u) f e)))

  -- A merge is determined by the set of its writes.
  pub IsMergeOf-unique : s ≡ t
  IsMergeOf-unique = Store-ext _ _ (λ k. same_cell k _ _ refl refl)

-- Two replicas that start empty and apply the same set of replicated writes end equal, in
-- whatever order and however often the writes arrive, if a key and a timestamp name one write.
pub apply_all-converges :
    (ws vs : List Write)
    → UniquelyStamped ws
    → SameWrites ws vs
    → apply_all new ws ≡ apply_all new vs
apply_all-converges ws vs unique same =
    IsMergeOf-unique _ _ ws vs unique same (apply_all-IsMergeOf ws) (apply_all-IsMergeOf vs)

module _ (k : String) (a b : Value) where
  -- Two writes of one key under one timestamp are applied first come, first served.
  apply_all_tie :
      a.timestamp ≡ b.timestamp → (apply_all new ((k, a) ∷ (k, b) ∷ [])).entries k ≡ some a
  unfolding apply_all
  apply_all_tie e =
      rw (entries-apply-merge, entries-apply-merge, eq_refl)
        (unfold merge is_stale in
          (ground (arith, stale_iff b.timestamp a.timestamp, NotLater-refl b.timestamp)))

-- Two different writes of one key that carry one timestamp leave two replicas that start empty
-- and receive them in different orders different.
pub ties_diverge :
    (k : String) (a b : Value)
    → a.timestamp ≡ b.timestamp
    → a ≢ b
    → apply_all new ((k, a) ∷ (k, b) ∷ []) ≢ apply_all new ((k, b) ∷ (k, a) ∷ [])
ties_diverge k a b e ne same =
    ne (
      cc (apply_all_tie k a b e, apply_all_tie k b a (sym e), ap (λ (s : Store). s.entries k) same))
