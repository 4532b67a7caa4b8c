-- ===== src/Checker/Consistent.antt =====
-- What the checker's verdict means.
use distributed_key_value_st.Prelude.{
  ℕ, String, Bool, ◌≡◌, ◌↔◌, refl, true, false, Option, none, some, List, [], ◌∷◌, arith, All,
  length, some_inv, ap, sym, subst,
}
use distributed_key_value_st.Proto.Kv.{GetResponse}
use distributed_key_value_st.Checker.{
  KeyReport, Report, NamedClient, Answer, Scan, bytes_equal, bytes_loop, eqb, same, match_ref,
  add_node, take_answer, scan, check_loop, check_keys,
}

bytes_loop_iff : (a b : List ℕ) → length a ≡ length b → (bytes_loop a b ≡ true) ↔ (a ≡ b)
unfolding bytes_loop eqb
bytes_loop_iff [] [] h = ground arith
bytes_loop_iff [] (y ∷ b) h = absurd (omega arith)
bytes_loop_iff (x ∷ a) [] h = absurd (omega arith)
bytes_loop_iff (x ∷ a) (y ∷ b) h = ground (arith, bytes_loop_iff a b)

pub bytes_equal_iff : (a b : List ℕ) → (bytes_equal a b ≡ true) ↔ (a ≡ b)
unfolding bytes_equal eqb
bytes_equal_iff a b = ground (arith, bytes_loop_iff a b)

same_iff : (a b : Bool) → (same a b ≡ true) ↔ (a ≡ b)
unfolding same
same_iff true b = ground arith
same_iff false b = ground arith

abbrev pub answer_of : Option GetResponse → Option Answer
answer_of none = none
answer_of (some resp) = some (record { value = resp.value; found = resp.found })

-- The client answers with `a`: no error, and these bytes and this flag.
abbrev pub Answers : String → Answer → NamedClient → Type 0
Answers key a nc = answer_of (nc.client (record { key = key })) ≡ some a

-- All clients answer, and they answer the same.
abbrev pub Agree : List NamedClient → String → Type 0
Agree clients key = (a : Answer) × All (Answers key a) clients

-- What the remaining clients must answer.
abbrev Fits : String → Option Answer → List NamedClient → Type 0
Fits key none clients = Agree clients key
Fits key (some a) clients = All (Answers key a) clients

-- ... and a client that answers `o` before them.
abbrev FitsNow : String → Option Answer → Option GetResponse → List NamedClient → Type 0
FitsNow key none o clients = (a : Answer) × (answer_of o ≡ some a) × All (Answers key a) clients
FitsNow key (some a) o clients = (answer_of o ≡ some a) × All (Answers key a) clients

abbrev Decides : String → List NamedClient → Scan → Type 0
Decides key clients t =
    ((scan key t clients).consistent ≡ true) ↔ ((t.consistent ≡ true) × Fits key t.ref clients)

match_consistent_iff :
    (s : Scan) (value : List ℕ) (found : Bool) (a : Answer)
    → ((match_ref s value found (some a)).consistent ≡ true)
      ↔ ((s.consistent ≡ true) × (value ≡ a.value) × (found ≡ a.found))
unfolding match_ref
match_consistent_iff s value found a =
    ground (arith, bytes_equal_iff value a.value, same_iff found a.found)

match_ref_kept :
    (s : Scan) (value : List ℕ) (found : Bool) (a : Answer)
    → (match_ref s value found (some a)).ref ≡ s.ref
unfolding match_ref
match_ref_kept s value found a = ground arith

dead :
    (key : String) (clients : List NamedClient) (t : Scan)
    → Decides key clients t
    → t.consistent ≡ false
    → ¬ ((scan key t clients).consistent ≡ true)
dead key clients t d off on = cc (d.0 on).0

step_iff :
    (key : String) (clients : List NamedClient) (address : String) (kr : KeyReport) (c : Bool)
    (ref : Option Answer) (o : Option GetResponse)
    → ((t : Scan) → Decides key clients t)
    → ((scan key
          (take_answer (record { kr = kr; ref = ref; consistent = c }) address o)
          clients).consistent
        ≡ true)
      ↔ ((c ≡ true) × FitsNow key ref o clients)
unfolding take_answer match_ref add_node
step_iff key clients address kr c none none ih =
    ((λ h. absurd (dead key clients _ (ih _) refl h)), (λ h. cc h.1.1))
step_iff key clients address kr c none (some resp) ih = (
  (λ h.
      let r = (ih _).0 h in (r.0, (record { value = resp.value; found = resp.found }, refl, r.1))),
  (λ h.
      (ih _).1
        (h.0, subst (λ (b : Answer). All (Answers key b) clients) (sym (some_inv h.1.1)) h.1.2)),
)
step_iff key clients address kr c (some a) none ih =
    ((λ h. absurd (dead key clients _ (ih _) refl h)), (λ h. cc h.1.0))
step_iff key clients address kr c (some a) (some resp) ih =
    let u =
      add_node (record { kr = kr; ref = some a; consistent = c })
        (record { address = address; value = resp.value; found = resp.found }) in
    let matched = match_consistent_iff u resp.value resp.found a in
    let kept = match_ref_kept u resp.value resp.found a in
    (
      (λ h.
          let r = (ih _).0 h in
          let m = matched.0 r.0 in
          (
            m.0,
            (
              (λ i. some (record { value = m.1 i; found = m.2 i })),
              subst (λ ref. Fits key ref clients) kept r.1,
            ),
          )),
      (λ h.
          let e = some_inv h.1.0 in
          (ih _).1 (
            matched.1 (h.0, ap (λ (b : Answer). b.value) e, ap (λ (b : Answer). b.found) e),
            subst (λ ref. Fits key ref clients) (sym kept) h.1.1,
          )),
    )

Fits-nil : (key : String) (ref : Option Answer) → Fits key ref []
Fits-nil key none = (record { value = []; found = false }, tt)
Fits-nil key (some a) = tt

Fits-cons :
    (key : String) (ref : Option Answer) (nc : NamedClient) (clients : List NamedClient)
    → FitsNow key ref (nc.client (record { key = key })) clients ↔ Fits key ref (nc ∷ clients)
Fits-cons key none nc clients = ((λ h. (h.0, (h.1, h.2))), (λ h. (h.0, h.1.0, h.1.1)))
Fits-cons key (some a) nc clients = ((λ h. h), (λ h. h))

scan_iff : (key : String) (clients : List NamedClient) (s : Scan) → Decides key clients s
unfolding scan
scan_iff key [] s = ((λ h. (h, Fits-nil key s.ref)), (λ h. h.0))
scan_iff key (nc ∷ clients) s =
    let step =
      step_iff key clients nc.address s.kr s.consistent s.ref (nc.client (record { key = key }))
        (scan_iff key clients) in
    let cons = Fits-cons key s.ref nc clients in
    ((λ h. let r = step.0 h in (r.0, cons.0 r.1)), (λ h. step.1 (h.0, cons.1 h.1)))

check_loop_iff :
    (clients : List NamedClient) (keys : List String) (report : Report)
    → ((check_loop clients report keys).consistent ≡ true)
      ↔ ((report.consistent ≡ true) × All (Agree clients) keys)
unfolding check_loop
check_loop_iff clients [] report = ((λ h. (h, tt)), (λ h. h.0))
check_loop_iff clients (key ∷ keys) report =
    let here = scan_iff key clients _ in
    let later = check_loop_iff clients keys _ in
    (
      (λ h. let r = later.0 h in let q = here.0 r.0 in (q.0, (q.1, r.1))),
      (λ h. later.1 (here.1 (h.0, h.1.0), h.1.1)),
    )

-- The checker's verdict is that the nodes are consistent exactly if, for every key checked, every node
-- answers without error and all answer the same bytes and the same flag.
pub check_keys-consistent_iff :
    (clients : List NamedClient) (keys : List String)
    → ((check_keys clients keys).consistent ≡ true) ↔ All (Agree clients) keys
unfolding check_keys
check_keys-consistent_iff clients keys =
    let loop = check_loop_iff clients keys _ in ((λ h. (loop.0 h).1), (λ h. loop.1 (refl, h)))
