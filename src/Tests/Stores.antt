-- ===== src/Tests/Stores.antt =====
-- internal/store: runs of the store, and replicas that receive the same writes.
use distributed_key_value_st.Prelude.{
  ℕ, ◌≡◌, ◌≢◌, refl, ap, sym, ◌∙◌, true, false, List, [], ◌∷◌, arith, Memᴰ, mem-pair, ◌⊎◌, inl, inr,
}
use distributed_key_value_st.Prelude.Int.{pos}
use distributed_key_value_st.Hlc.{Timestamp, compare}
use distributed_key_value_st.Store
use distributed_key_value_st.Store.{Store, Value, zero_value, is_stale}
use distributed_key_value_st.Store.Converge.{
  Write, apply_all, UniquelyStamped, SameWrites, apply_all-converges, ties_diverge,
}

abbrev value_at : List ℕ → Timestamp → Value
value_at bytes ts = record { payload = bytes; timestamp = ts; deps = []; deleted = false }

abbrev early : Timestamp
early = record { wall_time = pos 1; logical = pos 0 }

abbrev late : Timestamp
late = record { wall_time = pos 2; logical = pos 0 }

abbrev first_value : Value
first_value = value_at (97 ∷ []) early

abbrev second_value : Value
second_value = value_at (98 ∷ []) late

abbrev other_value : Value
other_value = value_at (99 ∷ []) early

-- An older write after a newer one is refused, and a deletion hides the key.
lww :
    ((Store.apply (Store.put Store.new "k" second_value) "k" first_value).1 ≡ false)
    × (Store.get (Store.delete (Store.put Store.new "k" first_value) "k" late) "k"
        ≡ (zero_value, false))
    × (Store.get_version (Store.delete Store.new "k" late) "k" ≡ (late, true))
unfolding Store.apply Store.put Store.delete Store.assign Store.get Store.get_version compare
lww = (refl, refl, refl)

abbrev in_order : List Write
in_order = ("k", first_value) ∷ ("k", second_value) ∷ []

abbrev reordered : List Write
reordered = ("k", second_value) ∷ ("k", first_value) ∷ ("k", second_value) ∷ []

abbrev stamp : Write → Timestamp
stamp w = w.1.timestamp

stamps_differ : early ≢ late
stamps_differ e = ground arith

in_order-UniquelyStamped : UniquelyStamped in_order
in_order-UniquelyStamped w v m n k t = go (mem-pair m) (mem-pair n)
  where
    go :
        (w ≡ ("k", first_value)) ⊎ (w ≡ ("k", second_value))
        → (v ≡ ("k", first_value)) ⊎ (v ≡ ("k", second_value))
        → w ≡ v
    go (inl e) (inl f) = cc
    go (inl e) (inr f) = absurd (stamps_differ (sym (ap stamp e) ∙ t ∙ ap stamp f))
    go (inr e) (inl f) = absurd (stamps_differ (sym (ap stamp f) ∙ sym t ∙ ap stamp e))
    go (inr e) (inr f) = cc

to_reordered : (w : Write) → Memᴰ w in_order → Memᴰ w reordered
to_reordered w m = elim (mem-pair m) [ inl e ↦ Memᴰ.tail (Memᴰ.head e) | inr e ↦ Memᴰ.head e ]

to_in_order : (w : Write) → Memᴰ w reordered → Memᴰ w in_order
to_in_order w (Memᴰ.head e) = Memᴰ.tail (Memᴰ.head e)
to_in_order w (Memᴰ.tail m) = elim (mem-pair m) [
  | inl e ↦ Memᴰ.head e
  | inr e ↦ Memᴰ.tail (Memᴰ.head e)
]

in_order-SameWrites : SameWrites in_order reordered
in_order-SameWrites w = (to_reordered w, to_in_order w)

apply_all-converges_example : apply_all Store.new in_order ≡ apply_all Store.new reordered
apply_all-converges_example =
    apply_all-converges in_order reordered in_order-UniquelyStamped in_order-SameWrites

values_differ : first_value ≢ other_value
values_differ e = ground arith

ties_diverge_example :
    apply_all Store.new (("k", first_value) ∷ ("k", other_value) ∷ [])
    ≢ apply_all Store.new (("k", other_value) ∷ ("k", first_value) ∷ [])
ties_diverge_example = ties_diverge "k" first_value other_value refl values_differ
