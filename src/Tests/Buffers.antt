-- ===== src/Tests/Buffers.antt =====
-- internal/buffer: the tests of buffer_test.go, and intakes in two orders.
use distributed_key_value_st.Prelude.{
  ◌≡◌, ◌≢◌, ◌⊎◌, ◌↔◌, inl, inr, refl, sym, ap, ◌∙◌, true, false, List, [], ◌∷◌, arith, All, map,
  Memᴰ, mem-pair, mem-snoc, subst, eq_iff, String, append-nil,
}
use distributed_key_value_st.Prelude.Int.{pos}
use distributed_key_value_st.Hlc.{Timestamp, compare, after_or_equal}
use distributed_key_value_st.Store
use distributed_key_value_st.Store.{Store, Value, Dependency}
use distributed_key_value_st.Store.Converge.{Write, UniquelyStamped, IsMergeOf}
use distributed_key_value_st.Buffer.{
  Buffer, PendingWrite, new, receive, len, round, drain_rounds, drain_locked, deps_satisfied,
  apply_locked, version, visit,
}
use distributed_key_value_st.Buffer.Run.{Run}
use distributed_key_value_st.Buffer.Drain.{IsDrained, drain_locked_lem}
use distributed_key_value_st.Buffer.Causal.{HoldsStamped, IsValid, new-IsValid}
use distributed_key_value_st.Buffer.Delivery.{receive_all}
use distributed_key_value_st.Buffer.Liveness.{IsComplete, IsProvided, receive_all-empties}
use distributed_key_value_st.Buffer.Orders.{receive_all_same}
use distributed_key_value_st.Buffer.Schedules.{drain_locked_unique}
use distributed_key_value_st.Buffer.Agreement.{write_of}

abbrev dep_ts : Timestamp
dep_ts = record { wall_time = pos 100; logical = pos 0 }

abbrev write_ts : Timestamp
write_ts = record { wall_time = pos 200; logical = pos 0 }

abbrev x_value : Value
x_value = record { payload = 120 ∷ []; timestamp = dep_ts; deps = []; deleted = false }

-- A write of "y" that depends on "x".
abbrev blocked : Value
blocked = record {
  payload = 121 ∷ [];
  timestamp = write_ts;
  deps = record { key = "x"; min_ts = dep_ts } ∷ [];
  deleted = false;
}

abbrev buffering : Buffer
buffering = (receive (new Store.new) "y" blocked).0

program : Unit {0}
unfolding receive drain_locked drain_rounds round deps_satisfied version visit apply_locked
    Store.apply Store.apply_delete Store.assign Store.get Store.get_version compare after_or_equal
    len Store.put
program = tt

-- TestReceiveBuffersUntilDependencyMet, and "y" once "x" has come.
held_until_met :
    ((receive (new Store.new) "y" blocked).1 ≡ false)
    × (len buffering ≡ 1)
    × ((receive buffering "x" x_value).1 ≡ true)
    × (len (receive buffering "x" x_value).0 ≡ 0)
    × (Store.get (receive buffering "x" x_value).0.store "y" ≡ (blocked, true))
unfolding program
held_until_met = (refl, refl, refl, refl, refl)

-- A local write of "x" alone does not let "y" out.
put_does_not_drain : len (record buffering { store = Store.put buffering.store "x" x_value }) ≡ 1
unfolding program
put_does_not_drain = refl

abbrev x_write : PendingWrite
x_write = record { key = "x"; val = x_value }

abbrev y_write : PendingWrite
y_write = record { key = "y"; val = blocked }

abbrev forward : List PendingWrite
forward = x_write ∷ y_write ∷ []

abbrev backward : List PendingWrite
backward = y_write ∷ x_write ∷ []

forward-stamped : All HoldsStamped forward
forward-stamped = ground arith

backward-stamped : All HoldsStamped backward
backward-stamped = ground arith

same_writes : (p : PendingWrite) → Memᴰ p backward ↔ Memᴰ p forward
same_writes p = (
  (λ m. elim (mem-pair m) [ inl e ↦ Memᴰ.tail (Memᴰ.head e) | inr e ↦ Memᴰ.head e ]),
  (λ m. elim (mem-pair m) [ inl e ↦ Memᴰ.tail (Memᴰ.head e) | inr e ↦ Memᴰ.head e ]),
)

abbrev on_x : Dependency
on_x = record { key = "x"; min_ts = dep_ts }

on_x-IsProvided : IsProvided backward write_ts on_x
on_x-IsProvided = inr (x_write, Memᴰ.tail (Memᴰ.head refl), refl, ground arith, ground arith)

backward-IsComplete : IsComplete backward
backward-IsComplete p dep m n = elim (mem-pair m) [
  | inl e ↦ elim (mem-snoc [] (subst (λ (q : PendingWrite). Memᴰ dep q.val.deps) e n)) [
    | inl none ↦ elim none [ ]
    | inr d ↦
        subst (λ (q : PendingWrite). IsProvided backward q.val.timestamp dep) (sym e)
          (subst (IsProvided backward write_ts) (sym d) on_x-IsProvided)
  ]
  | inr e ↦ elim (subst (λ (q : PendingWrite). Memᴰ dep q.val.deps) e n) [ ]
]

drain_locked_lem_example :
    ((applied : List PendingWrite) × Run buffering applied (drain_locked buffering))
    × IsDrained (drain_locked buffering)
drain_locked_lem_example = drain_locked_lem buffering

receive_all-empties_example : (receive_all (new Store.new) backward).held ≡ []
receive_all-empties_example = receive_all-empties backward backward-IsComplete backward-stamped

abbrev key_of : Write → String
key_of w = w.0

keys_differ : ◌≢◌ {A = String} "y" "x"
keys_differ e = cc ((eq_iff "y" "x").1 e)

backward-UniquelyStamped : UniquelyStamped (map write_of backward)
backward-UniquelyStamped w v m n k t = go (mem-pair m) (mem-pair n)
  where
    go :
        (w ≡ write_of y_write) ⊎ (w ≡ write_of x_write)
        → (v ≡ write_of y_write) ⊎ (v ≡ write_of x_write)
        → w ≡ v
    go (inl e) (inl f) = cc
    go (inl e) (inr f) = absurd (keys_differ (sym (ap key_of e) ∙ k ∙ ap key_of f))
    go (inr e) (inl f) = absurd (keys_differ (sym (ap key_of f) ∙ sym k ∙ ap key_of e))
    go (inr e) (inr f) = cc

receive_all_same_example :
    ((receive_all (new Store.new) backward).store ≡ (receive_all (new Store.new) forward).store)
    × ((p : PendingWrite)
        → Memᴰ p (receive_all (new Store.new) backward).held
          ↔ Memᴰ p (receive_all (new Store.new) forward).held)
receive_all_same_example =
    receive_all_same backward forward same_writes backward-stamped backward-UniquelyStamped

abbrev both_held : Buffer
both_held = record { store = Store.new; held = backward }

abbrev x_in : Store
x_in = apply_locked Store.new "x" x_value

abbrev both_applied : Buffer
both_applied = record { store = apply_locked x_in "y" blocked; held = [] }

x_free : deps_satisfied Store.new x_value.deps ≡ true
unfolding program
x_free = refl

y_free : deps_satisfied x_in blocked.deps ≡ true
unfolding program
y_free = refl

-- "x" is behind "y" in the buffer, and goes first.
x_then_y : Run both_held (x_write ∷ y_write ∷ []) both_applied
x_then_y =
    Run.take x_write (y_write ∷ []) [] refl x_free (Run.take y_write [] [] refl y_free Run.stay)

both_held-IsValid : IsValid both_held
both_held-IsValid = record { causal = new-IsValid.causal; held_stamped = backward-stamped }

empty-IsMergeOf : IsMergeOf (new Store.new).store []
empty-IsMergeOf = record { written = λ k v e. cc; covered = λ w m. elim m [ ] }

drain_locked_unique_example :
    (both_applied.store ≡ (drain_locked both_held).store)
    × ((p : PendingWrite) → Memᴰ p both_applied.held ↔ Memᴰ p (drain_locked both_held).held)
drain_locked_unique_example =
    drain_locked_unique both_held [] both_held-IsValid empty-IsMergeOf
      (subst UniquelyStamped (sym (append-nil (map write_of backward))) backward-UniquelyStamped)
      x_then_y tt
