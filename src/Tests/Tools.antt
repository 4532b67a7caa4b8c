-- ===== src/Tests/Tools.antt =====
-- bench and internal/experiments: runs of the driver, samples and polls.
use distributed_key_value_st.Prelude.{
  ℕ, zero, suc, ◌+◌, ◌-◌, ◌*◌, ◌/◌, ◌≤◌, ◌<◌, String, ◌≡◌, refl, true, false, none, some, List, [],
  ◌∷◌, arith, ltb,
}
use distributed_key_value_st.Prelude.Int.{ℤ, pos}
use distributed_key_value_st.Proto.Kv.{GetResponse}
use distributed_key_value_st.Checker.{bytes_equal}
use distributed_key_value_st.Bench.{Floats, Workload, Memory, load}
use distributed_key_value_st.Bench.Draw
use distributed_key_value_st.Bench.Draw.{Source, pick_key, pick_index}
use distributed_key_value_st.Bench.Run.{
  Turn, reading, writing, run, then_rest, perform, pick_operation, fill,
}
use distributed_key_value_st.Bench.Summary.{no_counts}
use distributed_key_value_st.Bench.Workloads.{requests}
use distributed_key_value_st.Experiments.{percentile, Look, poll_causal_violation, shows}
use distributed_key_value_st.Experiments.Rank.{up_to, from, percentile_lem}

-- Proportions in hundredths.
abbrev pub hundredths : Floats ℕ
hundredths = record {
  add = λ x y. x + y;
  sub = λ x y. x - y;
  lt = ltb;
  sum_low = 99;
  sum_high = 101;
}

abbrev pub half_reads : Workload ℕ
half_reads = record {
  name = "a";
  record_count = pos 2;
  operation_count = pos 2;
  read_proportion = 50;
  update_proportion = 50;
  insert_proportion = 0;
  key_prefix = "user";
  field_length = pos 3;
  request_distribution = "uniform";
  zipfian_constant = 0;
}

-- A draw that picks the first key each time.
abbrev first_key : Source ℕ
first_key = record {
  intn = λ n. 0;
  scale = λ n u. 0;
  not_positive = λ f. false;
  default_theta = 99;
}

-- Every slice fits.
abbrev pub unbounded : Memory
unbounded = record { makes_counts = λ n. true; makes_bytes = λ n. true }

abbrev prefixed : String → ℕ → String
prefixed prefix i = prefix

abbrev pub read_turn : Turn ℕ
read_turn = record {
  draw = 10;
  source = first_key;
  get_fails = λ req. false;
  put_fails = λ req. false;
  elapsed = pos 5;
}

abbrev pub failed_update : Turn ℕ
failed_update = record {
  draw = 70;
  source = first_key;
  get_fails = λ req. false;
  put_fails = λ req. true;
  elapsed = pos 9;
}

abbrev two_turns : ℕ → Turn ℕ
two_turns zero = read_turn
two_turns (suc i) = failed_update

counted : run hundredths unbounded prefixed half_reads two_turns 0 2 no_counts ≡ record {
  sent =
      reading (record { key = "user" })
      ∷ writing (record { key = "user"; value = 121 ∷ 122 ∷ 123 ∷ [] })
      ∷ [];
  end = some (record {
    operations = 2;
    reads = 1;
    writes = 1;
    errors = 1;
    latencies = pos 5 ∷ pos 9 ∷ [];
  });
}
unfolding run then_rest perform pick_operation fill pick_key pick_index Draw.key_for
counted = refl

abbrev key_for : ℕ → String
key_for i = "user"

loaded : load key_for (λ req. false) (97 ∷ []) 0 2 ≡ (requests key_for (97 ∷ []) 0 2, true)
unfolding load
loaded = refl

-- 95 in a hundred.
abbrev index_95 : ℕ → ℕ
index_95 n = n * 95 / 100

percentile_lem_example :
    (v : ℤ) × (percentile index_95 (pos 3 ∷ pos 1 ∷ pos 2 ∷ []) ≡ some v)
    × (index_95 2 < up_to v (pos 3 ∷ pos 1 ∷ pos 2 ∷ []))
    × (3 ≤ index_95 2 + from v (pos 3 ∷ pos 1 ∷ pos 2 ∷ []))
percentile_lem_example = percentile_lem index_95 (pos 3) (pos 1 ∷ pos 2 ∷ []) (omega arith)

abbrev pub shown : List ℕ → GetResponse
shown bytes = record { value = bytes; timestamp = none; found = true }

abbrev absent : GetResponse
absent = record { value = []; timestamp = none; found = false }

abbrev violation : Look
violation = record { reply_b = some (shown (98 ∷ [])); reply_a = some absent }

seen : poll_causal_violation (97 ∷ []) (98 ∷ []) (violation ∷ []) ≡ true
unfolding poll_causal_violation shows bytes_equal
seen = refl
