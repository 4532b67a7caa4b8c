-- ===== src/Tests/Causal.antt =====
-- internal/server and internal/experiments: a read before a write at a causal node, and a poll of it.
use distributed_key_value_st.Prelude.{
  ◌≡◌, refl, subst, sym, ap, ◌∙◌, false, some, some_inv, [], ◌∷◌, arith, All, Memᴰ,
}
use distributed_key_value_st.Prelude.Int.{pos}
use distributed_key_value_st.Prelude.Result.{ok}
use distributed_key_value_st.Hlc
use distributed_key_value_st.Hlc.Order.{NotLater}
use distributed_key_value_st.Store.{Value, Dependency}
use distributed_key_value_st.Tracker.{ReadTracker}
use distributed_key_value_st.Proto.Kv.{PutRequest}
use distributed_key_value_st.Replication.{Send, causal}
use distributed_key_value_st.Wire.{from_proto_deps, to_proto_ts}
use distributed_key_value_st.Server.{Node, put, get}
use distributed_key_value_st.Server.Causal.{causal_reads}
use distributed_key_value_st.Server.Sessions.{writes_follow_reads}
use distributed_key_value_st.Server.Steps
use distributed_key_value_st.Experiments.{Look}
use distributed_key_value_st.Experiments.Trials.{ChainTrial, measure_causal_chains}
use distributed_key_value_st.Experiments.Causal.{IsCausalLook, IsCausalTrial, causal_replica_lem}
use distributed_key_value_st.Tests.Nodes.{
  program, no_delay, unreachable, put_x, at_20, causal_next, causal_read, causal_end, causal_run,
  causal_end-y, y_value,
}

abbrev x_value : Value
x_value = record { payload = 1 ∷ []; timestamp = at_20; deps = []; deleted = false }

abbrev dep_x : Dependency
dep_x = record { key = "x"; min_ts = at_20 }

abbrev put_y : PutRequest
put_y = record { key = "y"; value = 2 ∷ [] }

abbrev causal_later : Node
causal_later = (put unreachable (pos 40) causal_end put_x).0

causal_reads_example :
    (v : Value) × (causal_later.store.entries "x" ≡ some v) × NotLater at_20 v.timestamp
causal_reads_example =
    causal_reads (pos 10) (causal ("b" ∷ []) no_delay) "y" y_value dep_x (omega arith) causal_run
      causal_end-y (Memᴰ.head refl) (omega arith)
      (Steps.next Steps.here (Steps.putting unreachable (pos 40) put_x))

causal_end-x : causal_end.store.entries "x" ≡ some x_value
unfolding program Hlc.new
causal_end-x = refl

abbrev look : Look
look = record {
  reply_b = some (get causal_end (record { key = "y" })).1;
  reply_a = some (get causal_end (record { key = "x" })).1;
}

look-IsCausalLook :
    IsCausalLook (pos 10) (causal ("b" ∷ []) no_delay) "y" (1 ∷ []) (2 ∷ []) dep_x look
look-IsCausalLook = record {
  first = causal_end;
  second = causal_end;
  run = causal_run;
  more = Steps.here;
  reply_b = refl;
  reply_a = refl;
  depends = λ v e shown.
      subst (λ (u : Value). Memᴰ dep_x u.deps) (some_inv (sym causal_end-y ∙ e)) (Memᴰ.head refl);
  is_first = λ v e late.
      let same = some_inv (sym causal_end-x ∙ e) in
      (sym (ap (λ (u : Value). u.payload) same), sym (ap (λ (u : Value). u.deleted) same));
}

only_look :
    (l : Look)
    → Memᴰ l (look ∷ [])
    → IsCausalLook (pos 10) (causal ("b" ∷ []) no_delay) "y" (1 ∷ []) (2 ∷ []) dep_x l
only_look l (Memᴰ.head e) =
    subst (IsCausalLook (pos 10) (causal ("b" ∷ []) no_delay) "y" (1 ∷ []) (2 ∷ []) dep_x) (sym e)
      look-IsCausalLook
only_look l (Memᴰ.tail m) = elim m [ ]

abbrev one_trial : ChainTrial
one_trial = record {
  val_a = 1 ∷ [];
  val_b = 2 ∷ [];
  put_a_fails = false;
  get_fails = false;
  put_b_fails = false;
  looks = look ∷ [];
}

one_trial-IsCausalTrial : IsCausalTrial (pos 10) (causal ("b" ∷ []) no_delay) one_trial
one_trial-IsCausalTrial = record { key_b = "y"; dep = dep_x; after = omega arith; each = only_look }

causal_replica_lem_example : (measure_causal_chains (one_trial ∷ [])).0.violations ≡ 0
causal_replica_lem_example =
    causal_replica_lem (pos 10) (causal ("b" ∷ []) no_delay) (one_trial ∷ []) (omega arith)
      (one_trial-IsCausalTrial, tt)

abbrev no_reads : ReadTracker
no_reads = record { reads = [] }

next_mode : causal_next.mode ≡ "causal"
unfolding program Hlc.new
next_mode = refl

next_handler : causal_next.handler ≡ causal ("b" ∷ []) no_delay
unfolding program Hlc.new
next_handler = refl

next_tracker : causal_next.tracker ≡ some no_reads
unfolding program Hlc.new
next_tracker = refl

next_x : causal_next.store.entries "x" ≡ some x_value
unfolding program Hlc.new
next_x = refl

put_y_good : put unreachable (pos 30) causal_read put_y ≡ (
  causal_end,
  (put unreachable (pos 30) causal_read put_y).1,
  ok (record { timestamp = some (to_proto_ts y_value.timestamp) }),
)
unfolding program Hlc.new
put_y_good = refl

writes_follow_reads_example :
    (v : Value) × (causal_end.store.entries "y" ≡ some v)
    × Memᴰ dep_x v.deps
    × All
        (λ (s : Send). Memᴰ dep_x (from_proto_deps s.request.deps))
        (put unreachable (pos 30) causal_read put_y).1
writes_follow_reads_example =
    writes_follow_reads unreachable (pos 30) causal_next ("b" ∷ []) no_delay no_reads
      (record { key = "x" }) x_value put_y next_mode next_handler next_tracker next_x refl
      put_y_good
