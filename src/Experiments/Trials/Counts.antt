-- ===== src/Experiments/Trials/Counts.antt =====
-- The counts that the experiments report.
use distributed_key_value_st.Prelude.{
  ℕ, suc, ◌+◌, ◌≤◌, ◌≡◌, refl, ◌⊎◌, Bool, true, false, some, List, [], ◌∷◌, ◌++◌, arith, length,
  All, length-append, Memᴰ, Bool-cases, inl, inr, if◌then◌else◌,
}
use distributed_key_value_st.Prelude.Int.{ℤ, pos}
use distributed_key_value_st.Experiments.{Look, poll_causal_violation, percentile}
use distributed_key_value_st.Experiments.Rank.{percentile_lem}
use distributed_key_value_st.Experiments.Violations.{IsViolated, poll_causal_violation_lem}
use distributed_key_value_st.Experiments.Trials.{
  Seen, Staleness, StalenessTrial, record_seen, poll_visible, staleness_loop, refused,
  visible_after, timed_out, Average, StalenessResult, finish_staleness, measure_staleness, mean,
  ChainTrial, CausalChainResult, chains_loop, measure_causal_chains, add_trial,
}

-- One more trial was counted, and a sample taken if it is among the visible ones.
record_seen-counts :
    (s : Staleness) (seen : Seen)
    → (record_seen s seen).1 ≡ true
    → let s' = (record_seen s seen).0 in
      (s'.visible + s'.timeouts ≡ suc (s.visible + s.timeouts))
      × (length s'.samples + s.visible ≡ length s.samples + s'.visible)
unfolding record_seen
record_seen-counts s refused h = absurd (ground arith)
record_seen-counts s (visible_after ms) h = ground (arith, length-append s.samples (ms ∷ []))
record_seen-counts s timed_out h = ground arith

staleness_loop-counts :
    (s : Staleness) (trials : List StalenessTrial)
    → (staleness_loop s trials).1 ≡ true
    → let s' = (staleness_loop s trials).0 in
      (s'.visible + s'.timeouts ≡ s.visible + s.timeouts + length trials)
      × (length s'.samples + s.visible ≡ length s.samples + s'.visible)
unfolding staleness_loop
staleness_loop-counts s [] h = ground arith
staleness_loop-counts s (t ∷ trials) h = ground (
  arith,
  record_seen-counts s (poll_visible t.val t.glances),
  staleness_loop-counts (record_seen s (poll_visible t.val t.glances)).0 trials,
)

percentile-some :
    (index : ℕ → ℕ) (xs : List ℤ)
    → ((n : ℕ) → index n ≤ n)
    → (v : ℤ) × (percentile index xs ≡ some v)
unfolding percentile
percentile-some index [] low = (pos 0, refl)
percentile-some index (x ∷ xs) low =
    let found = percentile_lem index x xs (low (length xs)) in (found.0, found.1)

-- The result of an experiment whose loop went through.
abbrev pub IsComplete : {F : Type 0} → StalenessResult F → ℕ → Type 0
IsComplete r n = (r.trials ≡ n) × (r.visible + r.timeouts ≡ n) × (length r.samples_ms ≡ r.visible)

abbrev none_seen : Staleness
none_seen = record { visible = 0; timeouts = 0; samples = [] }

finish :
    {F : Type 0} (avg : Average F) (index : ℕ → ℕ) (n : ℕ) (end : Staleness × Bool)
    → ((k : ℕ) → index k ≤ k)
    → (end.1 ≡ true
        → (end.0.visible + end.0.timeouts ≡ n) × (length end.0.samples + 0 ≡ end.0.visible))
    → (r : StalenessResult F) × (good : Bool) × (finish_staleness avg index n end ≡ some (r, good))
      × ((good ≡ false) ⊎ IsComplete r n)
unfolding finish_staleness
finish avg index n (s, false) low counts = (_, false, refl, inl refl)
finish avg index n (s, true) low counts =
    let (p95, e) = percentile-some index s.samples low in
    let c = counts refl in
    (
      record {
        trials = n;
        visible = s.visible;
        mean_ms = mean avg s.samples;
        p95_ms = p95;
        timeouts = s.timeouts;
        samples_ms = s.samples;
      },
      true,
      rw (finish_staleness, e) refl,
      inr (refl, c.0, omega (arith, c.1)),
    )

-- If the position of the percentile is in range, `MeasureStaleness` returns a result, with no panic, and
-- if it returns no error every trial is either visible or timed out, and each visible one has a sample.
pub measure_staleness_lem :
    {F : Type 0} (avg : Average F) (index : ℕ → ℕ) (trials : List StalenessTrial)
    → ((n : ℕ) → index n ≤ n)
    → (r : StalenessResult F) × (good : Bool) × (measure_staleness avg index trials
        ≡ some (r, good))
      × ((good ≡ false) ⊎ IsComplete r (length trials))
unfolding measure_staleness
measure_staleness_lem avg index trials low =
    finish avg index (length trials) (staleness_loop none_seen trials) low (λ good.
      let c = staleness_loop-counts none_seen trials good in
      (omega (arith, c.0), omega (arith, c.1)))

-- How many of the flags are set.
abbrev pub count : List Bool → ℕ
count [] = 0
count (b ∷ bs) = (if b then 1 else 0) + count bs

count-append : (bs cs : List Bool) → count (bs ++ cs) ≡ count bs + count cs
count-append [] cs = omega arith
count-append (b ∷ bs) cs = omega (arith, count-append bs cs)

-- No turn of the trial's poll shows a violation.
abbrev pub IsOrderly : ChainTrial → Type 0
IsOrderly t = (look : Look) → Memᴰ look t.looks → ¬ IsViolated t.val_a t.val_b look

add_trial-counts :
    (r : CausalChainResult) (b : Bool)
    → r.violations ≡ count r.trial_violations
    → let r' = add_trial r b in
      (r'.violations ≡ count r'.trial_violations)
      × (length r'.trial_violations ≡ suc (length r.trial_violations))
      × (r'.violations ≡ r.violations + (if b then 1 else 0))
unfolding add_trial
add_trial-counts r b h =
    ground
      (arith, count-append r.trial_violations (b ∷ []), length-append r.trial_violations (b ∷ []))

chains_loop-counts :
    (r : CausalChainResult) (trials : List ChainTrial)
    → r.violations ≡ count r.trial_violations
    → (chains_loop r trials).1 ≡ true
    → let r' = (chains_loop r trials).0 in
      (r'.violations ≡ count r'.trial_violations)
      × (length r'.trial_violations ≡ length r.trial_violations + length trials)
unfolding chains_loop
chains_loop-counts r [] h good = ground arith
chains_loop-counts r (t ∷ trials) h good =
    let b = poll_causal_violation t.val_a t.val_b t.looks in
    ground (arith, add_trial-counts r b, chains_loop-counts (add_trial r b) trials)

-- `MeasureCausalChains` without an error has one flag for each trial, and its violations are the flags
-- that are set.
pub measure_causal_chains_lem :
    (trials : List ChainTrial)
    → (measure_causal_chains trials).1 ≡ true
    → let r = (measure_causal_chains trials).0 in
      (r.violations ≡ count r.trial_violations) × (length r.trial_violations ≡ length trials)
unfolding measure_causal_chains
measure_causal_chains_lem trials good =
    let c =
      chains_loop-counts (record { trials = length trials; violations = 0; trial_violations = [] })
        trials refl good in
    (c.0, omega (arith, c.1))

quiet_poll : (t : ChainTrial) → IsOrderly t → poll_causal_violation t.val_a t.val_b t.looks ≡ false
quiet_poll t orderly = elim (Bool-cases (poll_causal_violation t.val_a t.val_b t.looks)) [
  | inl found ↦
      let (look, at, v) = poll_causal_violation_lem t.val_a t.val_b t.looks found in
      absurd (orderly look at v)
  | inr quiet ↦ quiet
]

chains_loop-orderly :
    (r : CausalChainResult) (trials : List ChainTrial)
    → All IsOrderly trials
    → (chains_loop r trials).0.violations ≡ r.violations
unfolding chains_loop add_trial
chains_loop-orderly r [] orderly = refl
chains_loop-orderly r (t ∷ trials) (this, more) = ground (
  arith,
  quiet_poll t this,
  chains_loop-orderly (add_trial r (poll_causal_violation t.val_a t.val_b t.looks)) trials more,
)

-- An experiment in which the replica never showed the second value of a chain and then not the first
-- reports no violation, whether or not it ends with an error.
pub orderly_replica :
    (trials : List ChainTrial)
    → All IsOrderly trials
    → (measure_causal_chains trials).0.violations ≡ 0
unfolding measure_causal_chains
orderly_replica trials orderly =
    chains_loop-orderly (record { trials = length trials; violations = 0; trial_violations = [] })
      trials orderly
