-- ===== src/Buffer/Schedules.antt =====
-- The order in which held writes are tried: other schedules against the drain loop's.
use mathlib.Core.List.Memᴰ
use distributed_key_value_st.Prelude.{
  ◌≡◌, ◌↔◌, inl, inr, sym, subst, List, ◌++◌, map, Memᴰ, mem-map, mem-map_inv,
}
use distributed_key_value_st.Store.{Store}
use distributed_key_value_st.Store.Converge.{Write, IsMergeOf, IsMergeOf-unique, UniquelyStamped}
use distributed_key_value_st.Buffer.{Buffer, PendingWrite, drain_locked}
use distributed_key_value_st.Buffer.Run.{Run}
use distributed_key_value_st.Buffer.Drain.{IsDrained, drain_locked_lem}
use distributed_key_value_st.Buffer.Causal.{Grows, IsValid}
use distributed_key_value_st.Buffer.Delivery.{Run-held}
use distributed_key_value_st.Buffer.Agreement.{write_of}
use distributed_key_value_st.Buffer.Applied.{
  Run-Grows, applied-not_held, Run-split, Run-applied, with_applied, Run-IsMergeOf,
  mem-with_applied,
}

-- Two runs of buffers, the second with all that the first holds, that both leave nothing that could
-- be applied.
module _ {b b' c d : Buffer} {ps qs : List PendingWrite} (run : Run b ps c) (other : Run b' qs d)
    (drained : IsDrained d) (below : Grows b.store d.store)
    (sub : (q : PendingWrite) → Memᴰ q b.held → Memᴰ q b'.held) where
  applied_too : (p : PendingWrite) → Memᴰ p ps → Memᴰ p qs
  applied_too p m = elim (Run-split p other (sub p (Run-applied p run m))) [
    | inl there ↦ there
    | inr held ↦ absurd (applied-not_held other drained run below sub p m held)
  ]

  mem-applied_too :
      (log : List Write) (w : Write) → Memᴰ w (with_applied log ps) → Memᴰ w (with_applied log qs)
  mem-applied_too log w m = (mem-with_applied log qs w).1 (elim ((mem-with_applied log ps w).0 m) [
    | inr old ↦ inr old
    | inl new ↦
        let (p, at, this) = mem-map_inv write_of ps new in
        inl (subst (λ u. Memᴰ u (map write_of qs)) (sym this) (mem-map write_of (applied_too p at)))
  ])

  held_too :
      ((p : PendingWrite) → Memᴰ p qs → ¬ Memᴰ p c.held)
      → (p : PendingWrite) → Memᴰ p c.held
      → Memᴰ p d.held
  held_too not_held p m = elim (Run-split p other (sub p (Run-held p run m))) [
    | inl applied ↦ absurd (not_held p applied m)
    | inr held ↦ held
  ]

UniquelyStamped-applied :
    {b c : Buffer} {applied : List PendingWrite} (log : List Write)
    → Run b applied c
    → UniquelyStamped (map write_of b.held ++ log)
    → UniquelyStamped (with_applied log applied)
UniquelyStamped-applied {b} {applied = applied} log run unique w u m n =
    unique w u (among w m) (among u n)
  where
    among : (x : Write) → Memᴰ x (with_applied log applied) → Memᴰ x (map write_of b.held ++ log)
    among x at = elim ((mem-with_applied log applied x).0 at) [
      | inr old ↦ Memᴰ.append_right (map write_of b.held) old
      | inl new ↦
          let (p, there, this) = mem-map_inv write_of applied new in
          Memᴰ.append_left log (
            subst (λ y. Memᴰ y (map write_of b.held)) (sym this)
              (mem-map write_of (Run-applied p run there)))
    ]

-- Two runs from one store, with the same writes held, that both leave nothing that could be applied.
module _ (s : Store) (log : List Write) (hs ks : List PendingWrite) {c d : Buffer}
    {ps qs : List PendingWrite} (valid_h : IsValid (record { store = s; held = hs }))
    (valid_k : IsValid (record { store = s; held = ks }))
    (same : (p : PendingWrite) → Memᴰ p hs ↔ Memᴰ p ks)
    (run : Run (record { store = s; held = hs }) ps c)
    (other : Run (record { store = s; held = ks }) qs d) (c_drained : IsDrained c)
    (d_drained : IsDrained d) where
  below_d : Grows s d.store
  below_d = Run-Grows valid_k other

  below_c : Grows s c.store
  below_c = Run-Grows valid_h run

  pub runs_agree :
      IsMergeOf s log
      → UniquelyStamped (map write_of hs ++ log)
      → (c.store ≡ d.store) × ((p : PendingWrite) → Memᴰ p c.held ↔ Memᴰ p d.held)
  runs_agree merges unique = (
    IsMergeOf-unique c.store d.store (with_applied log ps) (with_applied log qs)
        (UniquelyStamped-applied log run unique)
        (λ w. (
          mem-applied_too run other d_drained below_d (λ q. (same q).0) log w,
          mem-applied_too other run c_drained below_c (λ q. (same q).1) log w,
        ))
        (Run-IsMergeOf log run merges) (Run-IsMergeOf log other merges),
    λ p. (
      held_too run other d_drained below_d (λ q. (same q).0)
          (applied-not_held run c_drained other below_c (λ q. (same q).1)) p,
      held_too other run c_drained below_c (λ q. (same q).1)
          (applied-not_held other d_drained run below_d (λ q. (same q).0)) p,
    ),
  )

-- Whichever held writes are applied first, each when its dependencies are met: when none is left that
-- could be applied, the store is that which the drain loop leaves, and the same writes are held. The
-- buffer is valid, its store is the merge of some writes, and among these and the held ones a key and
-- a timestamp name one write.
pub drain_locked_unique :
    (b : Buffer) (log : List Write) {c : Buffer} {applied : List PendingWrite}
    → IsValid b
    → IsMergeOf b.store log
    → UniquelyStamped (map write_of b.held ++ log)
    → Run b applied c
    → IsDrained c
    → (c.store ≡ (drain_locked b).store)
      × ((p : PendingWrite) → Memᴰ p c.held ↔ Memᴰ p (drain_locked b).held)
drain_locked_unique b log v merges unique run drained =
    let ((loops, loop), all_drained) = drain_locked_lem b in
    runs_agree b.store log b.held b.held v v (λ p. ((λ m. m), (λ m. m))) run loop drained
      all_drained merges unique
