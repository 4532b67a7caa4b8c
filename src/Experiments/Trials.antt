-- ===== src/Experiments/Trials.antt =====
-- internal/experiments/experiments.go: the two experiments over their trials. What the nodes answer and
-- the times that pass are data of each trial; dialling is left out. A float64 operation on the samples
-- is a parameter.
pub mod Counts
use distributed_key_value_st.Prelude.{
  ℕ, zero, suc, ◌+◌, Bool, true, false, Option, none, some, List, [], ◌∷◌, ◌++◌, length,
  if◌then◌else◌,
}
use distributed_key_value_st.Prelude.Int.{ℤ, pos, ◌+ℤ◌}
use distributed_key_value_st.Proto.Kv.{GetResponse}
use distributed_key_value_st.Experiments.{shows, percentile, Look, poll_causal_violation}

-- One turn of the poll before the deadline: the replica's answer, none for an error, and the
-- milliseconds since the start.
pub record Glance : Type 0 where
  pub reply : Option GetResponse
  pub elapsed : ℤ

-- How a poll ends.
pub data Seen : Type 0 where
  refused : Seen
  visible_after : ℤ → Seen
  timed_out : Seen

-- The polling loop of `MeasureStaleness` over its turns.
unfoldable pub poll_visible : List ℕ → List Glance → Seen
poll_visible val [] = timed_out
poll_visible val (g ∷ glances) =
    let rest = poll_visible val glances in
    elim (g.reply) [
      | none ↦ refused
      | some resp ↦ if shows resp val then visible_after g.elapsed else rest
    ]

pub record StalenessTrial : Type 0 where
  pub val : List ℕ
  pub put_fails : Bool
  pub glances : List Glance

-- The counters of `StalenessResult`, with the samples.
pub record Staleness : Type 0 where
  pub visible : ℕ
  pub timeouts : ℕ
  pub samples : List ℤ

-- What the end of a poll does to the counters, and whether the experiment goes on.
unfoldable pub record_seen : Staleness → Seen → Staleness × Bool
record_seen s refused = (s, false)
record_seen s (visible_after ms) =
    (record s { visible = s.visible + 1; samples = s.samples ++ ms ∷ [] }, true)
record_seen s timed_out = (record s { timeouts = s.timeouts + 1 }, true)

-- The loop over the trials, and whether it ends with no error.
unfoldable pub staleness_loop : Staleness → List StalenessTrial → Staleness × Bool
staleness_loop s [] = (s, true)
staleness_loop s (t ∷ trials) =
    let (s', good) = record_seen s (poll_visible t.val t.glances) in
    let rest = staleness_loop s' trials in
    if t.put_fails then (s, false) else if good then rest else (s', false)

-- `mean`, with `zero_mean` for 0 and `div` for the quotient of the sum and the number of samples.
pub record Average (F : Type 0) : Type 0 where
  pub zero_mean : F
  pub div : ℤ → ℕ → F

sum_from : ℤ → List ℤ → ℤ
sum_from sum [] = sum
sum_from sum (v ∷ vals) = sum_from (sum +ℤ v) vals

unfoldable pub mean : {F : Type 0} → Average F → List ℤ → F
unfolding sum_from
mean avg [] = avg.zero_mean
mean avg (v ∷ vals) = avg.div (sum_from (pos 0) (v ∷ vals)) (length (v ∷ vals))

pub record StalenessResult (F : Type 0) : Type 0 where
  pub trials : ℕ
  pub visible : ℕ
  pub mean_ms : F
  pub p95_ms : ℤ
  pub timeouts : ℕ
  pub samples_ms : List ℤ

-- The end of `MeasureStaleness`; none for a panic out of range.
unfoldable pub finish_staleness :
    {F : Type 0} → Average F → (ℕ → ℕ) → ℕ → Staleness × Bool → Option (StalenessResult F × Bool)
finish_staleness avg index trials (s, false) = some (
  record {
    trials = trials;
    visible = s.visible;
    mean_ms = avg.zero_mean;
    p95_ms = pos 0;
    timeouts = s.timeouts;
    samples_ms = [];
  },
  false,
)
finish_staleness avg index trials (s, true) = elim (percentile index s.samples) [
  | none ↦ none
  | some p95 ↦ some (
    record {
      trials = trials;
      visible = s.visible;
      mean_ms = mean avg s.samples;
      p95_ms = p95;
      timeouts = s.timeouts;
      samples_ms = s.samples;
    },
    true,
  )
]

-- `MeasureStaleness`: the result, and whether there is no error.
unfoldable pub measure_staleness :
    {F : Type 0} → Average F → (ℕ → ℕ) → List StalenessTrial → Option (StalenessResult F × Bool)
measure_staleness avg index trials =
    finish_staleness avg index (length trials)
      (staleness_loop (record { visible = 0; timeouts = 0; samples = [] }) trials)

pub record ChainTrial : Type 0 where
  pub val_a : List ℕ
  pub val_b : List ℕ
  pub put_a_fails : Bool
  pub get_fails : Bool
  pub put_b_fails : Bool
  pub looks : List Look

-- `CausalChainResult`.
pub record CausalChainResult : Type 0 where
  pub trials : ℕ
  pub violations : ℕ
  pub trial_violations : List Bool

add_trial : CausalChainResult → Bool → CausalChainResult
add_trial r violated = record r {
  trial_violations = r.trial_violations ++ violated ∷ [];
  violations = if violated then r.violations + 1 else r.violations;
}

-- The loop of `MeasureCausalChains`, and whether it ends with no error.
unfoldable pub chains_loop : CausalChainResult → List ChainTrial → CausalChainResult × Bool
unfolding add_trial
chains_loop r [] = (r, true)
chains_loop r (t ∷ trials) =
    let rest = chains_loop (add_trial r (poll_causal_violation t.val_a t.val_b t.looks)) trials in
    if t.put_a_fails
    then (r, false)
    else if t.get_fails
    then (r, false)
    else if t.put_b_fails
    then (r, false)
    else rest

unfoldable pub measure_causal_chains : List ChainTrial → CausalChainResult × Bool
measure_causal_chains trials =
    chains_loop (record { trials = length trials; violations = 0; trial_violations = [] }) trials
