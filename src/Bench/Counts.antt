-- ===== src/Bench/Counts.antt =====
-- The driver's counters.
use distributed_key_value_st.Prelude.{
  ℕ, zero, suc, ◌+◌, ◌≤◌, String, Bool, true, false, Option, none, some, ◌≡◌, ◌⊎◌, [], ◌∷◌, arith,
  length, length-append, sym, subst, inl, inr, refl,
}
use distributed_key_value_st.Bench.{Floats, Workload, Memory}
use distributed_key_value_st.Bench.Draw.{pick_key}
use distributed_key_value_st.Bench.Run.{
  Turn, Counters, Ran, pick_operation, perform, then_rest, run,
}

-- The counters add up: every operation is a read or a write, has a latency, and fails at most once.
pub record IsTallied (c : Counters) : Type 0 where
  pub tallied : c.reads + c.writes ≡ c.operations
  pub timed : length c.latencies ≡ c.operations
  pub failed : c.errors ≤ c.operations

module _ {F : Type 0} (mem : Memory) (w : Workload F) where
  -- `n` operations have been counted, or a value of the workload does not fit in memory.
  abbrev pub Counted : ℕ → Option Counters → Type 0
  Counted n none = mem.makes_bytes w.field_length ≡ false
  Counted n (some c) = IsTallied c × (c.operations ≡ n)

  module _ (i : ℕ) (c : Counters) (t : Turn F) (v : IsTallied c) (key : String) where
    -- What the body of the loop does to the counters, with `op` picked.
    abbrev Counts : String → Type 0
    Counts op = Counted (suc c.operations) (perform mem w i c t op key).end

    perform-read : Counts "read"
    unfolding perform
    perform-read = (
      record {
        tallied = ground (arith, v.tallied);
        timed = ground (arith, length-append c.latencies (t.elapsed ∷ []), v.timed);
        failed = ground (arith, v.failed);
      },
      ground arith,
    )

    perform-update : (r : Bool) → mem.makes_bytes w.field_length ≡ r → Counts "update"
    unfolding perform
    perform-update true e = rw e (
      record {
        tallied = ground (arith, v.tallied);
        timed = ground (arith, length-append c.latencies (t.elapsed ∷ []), v.timed);
        failed = ground (arith, v.failed);
      },
      ground arith,
    )
    perform-update false e = rw e e

    perform-insert : (r : Bool) → mem.makes_bytes w.field_length ≡ r → Counts "insert"
    unfolding perform
    perform-insert true e = rw e (
      record {
        tallied = ground (arith, v.tallied);
        timed = ground (arith, length-append c.latencies (t.elapsed ∷ []), v.timed);
        failed = ground (arith, v.failed);
      },
      ground arith,
    )
    perform-insert false e = rw e e

    picked :
        (fl : Floats F)
        → (pick_operation fl w t.draw ≡ "read")
          ⊎ (pick_operation fl w t.draw ≡ "update")
          ⊎ (pick_operation fl w t.draw ≡ "insert")
    unfolding pick_operation
    picked fl = ground arith

    perform-Counted : (fl : Floats F) → Counts (pick_operation fl w t.draw)
    perform-Counted fl = elim (picked fl) [
      | inl e ↦ subst Counts (sym e) perform-read
      | inr (inl e) ↦ subst Counts (sym e) (perform-update (mem.makes_bytes w.field_length) refl)
      | inr (inr e) ↦ subst Counts (sym e) (perform-insert (mem.makes_bytes w.field_length) refl)
    ]

    -- A turn sends one request and does not panic.
    abbrev IsSent : String → Type 0
    IsSent op =
        let ran = perform mem w i c t op key in
        (length ran.sent ≡ 1) × ((d : Counters) × (ran.end ≡ some d))

    perform-IsSent :
        (fl : Floats F)
        → mem.makes_bytes w.field_length ≡ true
        → IsSent (pick_operation fl w t.draw)
    unfolding perform
    perform-IsSent fl fits = elim (picked fl) [
      | inl e ↦ subst IsSent (sym e) (refl, (_, refl))
      | inr (inl e) ↦ subst IsSent (sym e) (rw fits (refl, (_, refl)))
      | inr (inr e) ↦ subst IsSent (sym e) (rw fits (refl, (_, refl)))
    ]

  then_rest-Counted :
      (m n : ℕ) (ran : Ran) (rest : Counters → Ran)
      → Counted m ran.end
      → ((c : Counters) → IsTallied c → Counted (c.operations + n) (rest c).end)
      → Counted (m + n) (then_rest ran rest).end
  unfolding then_rest
  then_rest-Counted m n ran rest h k = go ran.end refl h
    where
      go :
          (o : Option Counters)
          → ran.end ≡ o
          → Counted m o
          → Counted (m + n) (then_rest ran rest).end
      go none e h = rw e h
      go (some c) e (v, size) = rw e (subst (λ j. Counted (j + n) (rest c).end) size (k c v))

  -- A run from counters that add up keeps them so, and counts as many operations as it is to make.
  pub run-Counted :
      (fl : Floats F) (print : String → ℕ → String) (turns : ℕ → Turn F) (i n : ℕ) (c : Counters)
      → IsTallied c
      → Counted (c.operations + n) (run fl mem print w turns i n c).end
  unfolding run
  run-Counted fl print turns i zero c v = (v, omega arith)
  run-Counted fl print turns i (suc n) c v =
      subst (λ j. Counted j (run fl mem print w turns i (suc n) c).end) (omega arith)
        (then_rest-Counted (suc c.operations) n _ (run fl mem print w turns (suc i) n)
          (perform-Counted i c (turns i) v (pick_key print (turns i).source w) fl)
          (λ d u. run-Counted fl print turns (suc i) n d u))

  length-then_rest :
      (ran : Ran) (rest : Counters → Ran) (n : ℕ) (d : Counters)
      → length ran.sent ≡ 1
      → ran.end ≡ some d
      → length (rest d).sent ≡ n
      → length (then_rest ran rest).sent ≡ suc n
  unfolding then_rest
  length-then_rest ran rest n d one e size =
      rw e (omega (arith, length-append ran.sent (rest d).sent, one, size))

  -- A run sends as many requests as it is to make operations, if its values fit in memory.
  pub length-run :
      (fl : Floats F) (print : String → ℕ → String) (turns : ℕ → Turn F) (i n : ℕ) (c : Counters)
      → IsTallied c
      → mem.makes_bytes w.field_length ≡ true
      → length (run fl mem print w turns i n c).sent ≡ n
  unfolding run
  length-run fl print turns i zero c v fits = refl
  length-run fl print turns i (suc n) c v fits =
      let key = pick_key print (turns i).source w in
      let (one, (d, e)) = perform-IsSent i c (turns i) v key fl fits in
      let counted = subst (Counted (suc c.operations)) e (perform-Counted i c (turns i) v key fl) in
      length-then_rest _ (run fl mem print w turns (suc i) n) n d one e
        (length-run fl print turns (suc i) n d counted.0 fits)
