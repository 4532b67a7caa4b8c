-- ===== src/Checker/Printed.antt =====
-- internal/checker/checker.go: `Report.String`. The text is the list of the parts that it joins, and
-- `fmt.Sprintf` is a parameter.
use distributed_key_value_st.Prelude.{
  ℕ, String, ◌≡◌, ◌↔◌, refl, sym, ap, ◌∙◌, Bool, true, not, ◌&&◌, Option, none, some, List, [], ◌∷◌,
  ◌++◌, map, arith, length, All, if◌then◌else◌,
}
use distributed_key_value_st.Proto.Kv.{GetResponse}
use distributed_key_value_st.Checker.{
  NodeValue, KeyReport, Report, NamedClient, Scan, match_ref, add_node, take_answer, scan,
  check_loop, check_keys,
}
use distributed_key_value_st.Checker.Consistent.{Agree, check_keys-consistent_iff}

-- The three formats of `String`.
pub record Format : Type 0 where
  pub status_line : String → ℕ → String
  pub key_line : String → String
  pub node_line : NodeValue → String

key_lines : Format → List KeyReport → List String
key_lines fmt [] = []
key_lines fmt (k ∷ keys) =
    let rest = key_lines fmt keys in
    if k.consistent then rest else (fmt.key_line k.key ∷ map fmt.node_line k.nodes) ++ rest

pub report_string : Format → Report → List String
unfolding key_lines
report_string fmt r =
    fmt.status_line (if not r.consistent then "INCONSISTENT" else "CONSISTENT") r.keys_checked
    ∷ key_lines fmt r.keys

all_consistent : List KeyReport → Bool
all_consistent [] = true
all_consistent (k ∷ keys) = k.consistent && all_consistent keys

all_consistent-append :
    (ks : List KeyReport) (k : KeyReport)
    → all_consistent (ks ++ k ∷ []) ≡ (all_consistent ks && k.consistent)
unfolding all_consistent
all_consistent-append [] k = ground arith
all_consistent-append (x ∷ ks) k = ground (arith, all_consistent-append ks k)

-- The two flags of a scan fall together.
abbrev InStep : Bool → Scan → Type 0
InStep before s = s.consistent ≡ (before && s.kr.consistent)

take_answer-InStep :
    (before : Bool) (s : Scan) (address : String) (reply : Option GetResponse)
    → InStep before s
    → InStep before (take_answer s address reply)
unfolding take_answer match_ref add_node
take_answer-InStep before s address none h = ground arith
take_answer-InStep before s address (some resp) h = ground arith

scan-InStep :
    (before : Bool) (key : String) (s : Scan) (clients : List NamedClient)
    → InStep before s
    → InStep before (scan key s clients)
unfolding scan
scan-InStep before key s [] h = h
scan-InStep before key s (nc ∷ clients) h =
    scan-InStep before key (take_answer s nc.address (nc.client (record { key = key }))) clients
      (take_answer-InStep before s nc.address (nc.client (record { key = key })) h)

check_loop-flags :
    (clients : List NamedClient) (r : Report) (keys : List String)
    → r.consistent ≡ all_consistent r.keys
    → let r' = check_loop clients r keys in
      (r'.consistent ≡ all_consistent r'.keys) × (r'.keys_checked ≡ r.keys_checked)
unfolding check_loop
check_loop-flags clients r [] h = (h, refl)
check_loop-flags clients r (key ∷ keys) h =
    let start : Scan = record {
      kr = record { key = key; consistent = true; nodes = [] };
      ref = none;
      consistent = r.consistent;
    } in
    let s = scan key start clients in
    check_loop-flags clients (record r { consistent = s.consistent; keys = r.keys ++ s.kr ∷ [] })
      keys
      (ground
        (arith, scan-InStep r.consistent key start clients, all_consistent-append r.keys s.kr))

key_lines-nil_iff :
    (fmt : Format) (keys : List KeyReport)
    → (key_lines fmt keys ≡ []) ↔ (all_consistent keys ≡ true)
unfolding key_lines all_consistent
key_lines-nil_iff fmt [] = ground arith
key_lines-nil_iff fmt (k ∷ keys) = ground (arith, key_lines-nil_iff fmt keys)

tail_of : {x y : String} {xs ys : List String} → x ∷ xs ≡ y ∷ ys → xs ≡ ys
tail_of h = cc

-- What is printed of a check is the one line that says so exactly if all nodes answer, and answer the same,
-- for every key.
pub report_string_lem :
    (fmt : Format) (clients : List NamedClient) (keys : List String)
    → (report_string fmt (check_keys clients keys)
        ≡ fmt.status_line "CONSISTENT" (length keys) ∷ [])
      ↔ All (Agree clients) keys
unfolding report_string check_keys
report_string_lem fmt clients keys =
    let start : Report = record { keys_checked = length keys; consistent = true; keys = [] } in
    let r = check_loop clients start keys in
    let flags = check_loop-flags clients start keys (unfold all_consistent in refl) in
    let lines = key_lines-nil_iff fmt r.keys in
    let agree = check_keys-consistent_iff clients keys in
    (
      (λ e. agree.0 (flags.0 ∙ lines.0 (tail_of e))),
      (λ all.
          rw (flags.1, agree.1 all)
            (ap (λ ls. fmt.status_line "CONSISTENT" (length keys) ∷ ls)
              (lines.1 (sym flags.0 ∙ agree.1 all)))),
    )
