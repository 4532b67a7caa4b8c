-- ===== src/Checker.antt =====
-- internal/checker/checker.go: the tool that reads the same keys from every node and reports whether the
-- answers match, once or until they do. What a node answers is the client's function `client`, none
-- for an error, since the RPC is gRPC's.
pub mod Consistent
pub mod Wait
pub mod Printed
use distributed_key_value_st.Prelude.{
  ℕ, String, Bool, true, false, not, ◌&&◌, ◌||◌, Option, none, some, List, [], ◌∷◌, ◌++◌, length,
  leb, if◌then◌else◌,
}
use distributed_key_value_st.Prelude.Int.{ℤ, ltb_ℤ, ◌+ℤ◌}
use distributed_key_value_st.Prelude.Result.{Result, ok, err, not_converged, context_done}
use distributed_key_value_st.Proto.Kv.{GetRequest, GetResponse}

pub record NodeValue : Type 0 where
  pub address : String
  pub value : List ℕ
  pub found : Bool

pub record KeyReport : Type 0 where
  pub key : String
  pub consistent : Bool
  pub nodes : List NodeValue

pub record Report : Type 0 where
  pub keys_checked : ℕ
  pub consistent : Bool
  pub keys : List KeyReport

pub record NamedClient : Type 0 where
  pub address : String
  pub client : GetRequest → Option GetResponse

-- The tests `a == b` of numbers and of Booleans.
eqb : ℕ → ℕ → Bool
eqb a b = leb a b && leb b a

same : Bool → Bool → Bool
same true b = b
same false b = not b

-- The loop of `bytesEqual`, over slices of one length.
bytes_loop : List ℕ → List ℕ → Bool
unfolding eqb
bytes_loop (x ∷ a) (y ∷ b) = if not (eqb x y) then false else bytes_loop a b
bytes_loop _ _ = true

unfoldable pub bytes_equal : List ℕ → List ℕ → Bool
unfolding bytes_loop eqb
bytes_equal a b = if not (eqb (length a) (length b)) then false else bytes_loop a b

-- `ref` and `refFound`, the first answer that came.
pub record Answer : Type 0 where
  pub value : List ℕ
  pub found : Bool

-- The variables of the loop over the clients: the key's report, the first answer, none before
-- `haveRef`, and the report's flag.
pub record Scan : Type 0 where
  pub kr : KeyReport
  pub ref : Option Answer
  pub consistent : Bool

-- The comparison of an answer with the first one.
match_ref : Scan → List ℕ → Bool → Option Answer → Scan
unfolding bytes_equal same
match_ref s value found none = record s { ref = some (record { value = value; found = found }) }
match_ref s value found (some ref) =
    if not (same found ref.found) || not (bytes_equal value ref.value)
    then record s { kr = record s.kr { consistent = false }; consistent = false }
    else s

-- The client's value joins the key's report.
add_node : Scan → NodeValue → Scan
add_node s nv = record s { kr = record s.kr { nodes = s.kr.nodes ++ nv ∷ [] } }

take_answer : Scan → String → Option GetResponse → Scan
unfolding match_ref add_node
take_answer s address none =
    add_node (record s { kr = record s.kr { consistent = false }; consistent = false })
      (record { address = address; value = []; found = false })
take_answer s address (some resp) =
    match_ref (add_node s (record { address = address; value = resp.value; found = resp.found }))
      resp.value resp.found s.ref

-- The loop over the clients for one key.
unfoldable pub scan : String → Scan → List NamedClient → Scan
unfolding take_answer
scan key s [] = s
scan key s (nc ∷ clients) =
    scan key (take_answer s nc.address (nc.client (record { key = key }))) clients

-- The loop over the keys.
unfoldable pub check_loop : List NamedClient → Report → List String → Report
check_loop clients report [] = report
check_loop clients report (key ∷ keys) =
    let start : Scan = record {
      kr = record { key = key; consistent = true; nodes = [] };
      ref = none;
      consistent = report.consistent;
    } in
    let s = scan key start clients in
    check_loop clients
      (record report { consistent = s.consistent; keys = report.keys ++ s.kr ∷ [] }) keys

unfoldable pub check_keys : List NamedClient → List String → Report
check_keys clients keys =
    check_loop clients (record { keys_checked = length keys; consistent = true; keys = [] }) keys

-- One turn of `WaitForConvergence`: what the nodes answer in it, the time after the check, and whether
-- the context is done before the next turn.
pub record Poll : Type 0 where
  pub clients : List NamedClient
  pub now : ℤ
  pub cancelled : Bool

-- The loop over the turns that there are; `none` when these are over and it has not returned.
poll_until : ℤ → List String → List Poll → Option (Report × Result (Unit {0}))
poll_until deadline keys [] = none
poll_until deadline keys (p ∷ polls) =
    let last = check_keys p.clients keys in
    let rest = poll_until deadline keys polls in
    if last.consistent
    then some (last, ok tt)
    else if ltb_ℤ deadline p.now
    then some (last, err not_converged)
    else if p.cancelled
    then some (last, err context_done)
    else rest

pub wait_for_convergence : ℤ → List String → ℤ → List Poll → Option (Report × Result (Unit {0}))
wait_for_convergence start keys settle = poll_until (start +ℤ settle) keys
