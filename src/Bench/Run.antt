-- ===== src/Bench/Run.antt =====
-- bench/ycsb_driver.go: the loop of the driver's `Run`, with the requests that it sends to the node.
use distributed_key_value_st.Prelude.{
  ℕ, zero, suc, ◌+◌, ◌%◌, String, Bool, true, ◌||◌, Option, none, some, List, [], ◌∷◌, ◌++◌,
  if◌then◌else◌, ◌==◌,
}
use distributed_key_value_st.Prelude.Int.{ℤ, pos_part}
use distributed_key_value_st.Proto.Kv.{GetRequest, PutRequest}
use distributed_key_value_st.Bench.{Floats, Workload, Memory}
use distributed_key_value_st.Bench.Draw.{Source, pick_key}

-- `r` is the draw of `d.Rand.Float64()`.
unfoldable pub pick_operation : {F : Type 0} → Floats F → Workload F → F → String
pick_operation fl w r =
    if fl.lt r w.read_proportion
    then "read"
    else if fl.lt (fl.sub r w.read_proportion) w.update_proportion
    then "update"
    else "insert"

-- A byte of a value: `byte` keeps the low eight bits. `make([]byte, n)` filled by `value[j] = byte(base + ((i + j) % 26))`, from `j` on.
unfoldable pub fill : ℕ → ℕ → ℕ → ℕ → List ℕ
fill base i j zero = []
fill base i j (suc n) = (base + (i + j) % 26) % 256 ∷ fill base i (suc j) n

-- One turn of the loop: the draws of the operation and of the key, whether the node fails a request in
-- it, and the time it took.
pub record Turn (F : Type 0) : Type 0 where
  pub draw : F
  pub source : Source F
  pub get_fails : GetRequest → Bool
  pub put_fails : PutRequest → Bool
  pub elapsed : ℤ

-- The counters of `Result` and the latencies.
pub record Counters : Type 0 where
  pub operations : ℕ
  pub reads : ℕ
  pub writes : ℕ
  pub errors : ℕ
  pub latencies : List ℤ

-- A request to the node.
pub data Request : Type 0 where
  reading : GetRequest → Request
  writing : PutRequest → Request

-- The requests that were sent, and the counters after them; none for a panic.
pub record Ran : Type 0 where
  pub sent : List Request
  pub end : Option Counters

-- The end of the loop's body.
finish : Counters → ℤ → Bool → Option Counters
finish c elapsed failed = some (record c {
  latencies = c.latencies ++ elapsed ∷ [];
  operations = c.operations + 1;
  errors = if failed then c.errors + 1 else c.errors;
})

-- The body of the loop, at `i`, with the operation and the key that were picked.
unfoldable pub perform :
    {F : Type 0} → Memory → Workload F → ℕ → Counters → Turn F → String → String → Ran
unfolding finish
perform mem w i c t op key =
    let get : GetRequest = record { key = key } in
    let put : PutRequest = record { key = key; value = fill 120 i 0 (pos_part w.field_length) } in
    if op == "read"
    then record {
      sent = reading get ∷ [];
      end = finish (record c { reads = c.reads + 1 }) t.elapsed (t.get_fails get);
    }
    else if op == "update" || op == "insert"
    then (if mem.makes_bytes w.field_length
        then record {
          sent = writing put ∷ [];
          end = finish (record c { writes = c.writes + 1 }) t.elapsed (t.put_fails put);
        }
        else record { sent = []; end = none })
    else record { sent = []; end = finish c t.elapsed true }

-- What follows a turn: the rest of the loop, unless the turn panicked.
unfoldable pub then_rest : Ran → (Counters → Ran) → Ran
then_rest ran rest = elim (ran.end) [
  | none ↦ ran
  | some c ↦ record { sent = ran.sent ++ (rest c).sent; end = (rest c).end }
]

-- The loop from `i` on, for `n` operations. `print` is for `Sprintf`.
unfoldable pub run :
    {F : Type 0}
    → Floats F
    → Memory
    → (String → ℕ → String)
    → Workload F
    → (ℕ → Turn F)
    → ℕ
    → ℕ
    → Counters
    → Ran
run fl mem print w turns i zero c = record { sent = []; end = some c }
run fl mem print w turns i (suc n) c =
    let t = turns i in
    then_rest (perform mem w i c t (pick_operation fl w t.draw) (pick_key print t.source w))
      (run fl mem print w turns (suc i) n)
