-- ===== src/Buffer/Drain.antt =====
-- `drainLocked`: its rounds end, it applies only writes whose dependencies are met, and it leaves
-- none behind that it could apply.
use mathlib.Core.List.{append-nil, append_assoc}
use distributed_key_value_st.Prelude.{
  ℕ, zero, suc, ◌+◌, ◌≤◌, ◌<◌, ◌≡◌, refl, sym, ◌∙◌, inl, inr, true, false, List, [], ◌∷◌, ◌++◌,
  arith, All, length, length-append, Bool-cases,
}
use distributed_key_value_st.Store.{Store}
use distributed_key_value_st.Buffer.{
  Buffer, PendingWrite, Round, deps_satisfied, apply_locked, visit, sweep, round, drain_rounds,
  drain_locked,
}
use distributed_key_value_st.Buffer.Run.{Run, stay, take, Run-append}

abbrev pub IsBlocked : Store → PendingWrite → Type 0
IsBlocked s p = deps_satisfied s p.val.deps ≡ false

-- No held write could be applied.
abbrev pub IsDrained : Buffer → Type 0
IsDrained b = All (IsBlocked b.store) b.held

-- The buffer that a round leaves, with the writes `ps` still to visit.
abbrev pending : Round → List PendingWrite → Buffer
pending r ps = record { store = r.store; held = r.remaining ++ ps }

module _ (r : Round) (p : PendingWrite) where
  abbrev applying : Round
  applying = record r { store = apply_locked r.store p.key p.val; progressed = true }

  abbrev holding : Round
  holding = record r { remaining = r.remaining ++ p ∷ [] }

  sweep_met :
      (ps : List PendingWrite)
      → deps_satisfied r.store p.val.deps ≡ true
      → sweep r (p ∷ ps) ≡ sweep applying ps
  unfolding sweep visit
  sweep_met ps h = rw (h, visit)

  sweep_unmet :
      (ps : List PendingWrite)
      → deps_satisfied r.store p.val.deps ≡ false
      → sweep r (p ∷ ps) ≡ sweep holding ps
  unfolding sweep visit
  sweep_unmet ps h = rw (h, visit)

sweep-Run :
    (r : Round) (ps : List PendingWrite)
    → (applied : List PendingWrite) × Run (pending r ps) applied (pending (sweep r ps) [])
sweep-Run r [] = unfold sweep in ([], stay)
sweep-Run r (p ∷ ps) = elim (Bool-cases (deps_satisfied r.store p.val.deps)) [
  | inl met ↦
      let (applied, run) = sweep-Run (applying r p) ps in
      (p ∷ applied, rw (sweep_met r p ps met) (take p r.remaining ps refl met run))
  | inr unmet ↦
      let (applied, run) = sweep-Run (holding r p) ps in
      (applied, rw (sweep_unmet r p ps unmet) (rw append_assoc at run))
]

-- Once there is progress it stays noted.
sweep_progressed :
    (r : Round) (ps : List PendingWrite) → r.progressed ≡ true → (sweep r ps).progressed ≡ true
unfolding sweep visit
sweep_progressed r [] h = h
sweep_progressed r (p ∷ ps) h = sweep_progressed (visit r p) ps (ground arith)

record IsQuiet (r : Round) (ps : List PendingWrite) (r' : Round) : Type 0 where
  before : r.progressed ≡ false
  same_store : r'.store ≡ r.store
  kept : r'.remaining ≡ r.remaining ++ ps
  unmet : All (IsBlocked r.store) ps

-- A round that reports no progress has changed nothing, and found nothing to apply.
sweep-IsQuiet :
    (r : Round) (ps : List PendingWrite)
    → (sweep r ps).progressed ≡ false
    → IsQuiet r ps (sweep r ps)
sweep-IsQuiet r [] h =
    unfold sweep in record { before = h; same_store = refl; kept = sym (append-nil _); unmet = tt }
sweep-IsQuiet r (p ∷ ps) h = elim (Bool-cases (deps_satisfied r.store p.val.deps)) [
  | inl met ↦
      absurd (cc (sweep_progressed (applying r p) ps refl, (rw (sweep_met r p ps met) at h)))
  | inr unmet ↦
      let q = sweep-IsQuiet (holding r p) ps (rw (sweep_unmet r p ps unmet) at h) in
      rw (sweep_unmet r p ps unmet) (record {
        before = q.before;
        same_store = q.same_store;
        kept = q.kept ∙ append_assoc r.remaining (p ∷ []) ps;
        unmet = (unmet, q.unmet);
      })
]

-- A round keeps at most the writes that it visits, and fewer if it makes progress.
length-sweep :
    (r : Round) (ps : List PendingWrite)
    → length (sweep r ps).remaining ≤ length r.remaining + length ps
unfolding sweep visit
length-sweep r [] = omega arith
length-sweep r (p ∷ ps) =
    ground (arith, length-sweep (visit r p) ps, length-append r.remaining (p ∷ []))

length-sweep_progressed :
    (r : Round) (ps : List PendingWrite)
    → r.progressed ≡ false
    → (sweep r ps).progressed ≡ true
    → length (sweep r ps).remaining < length r.remaining + length ps
unfolding sweep visit
length-sweep_progressed r [] h k = cc
length-sweep_progressed r (p ∷ ps) h k = ground (
  arith,
  length-sweep (visit r p) ps,
  length-sweep_progressed (visit r p) ps,
  length-append r.remaining (p ∷ []),
)

-- The buffer after a round.
abbrev after_round : Buffer → Buffer
after_round b = record { store = (round b).store; held = (round b).remaining }

round-Run : (b : Buffer) → (applied : List PendingWrite) × Run b applied (after_round b)
unfolding round
round-Run b =
    let (applied, run) =
      sweep-Run (record { store = b.store; remaining = []; progressed = false }) b.held in
    (applied, rw append-nil at run)

round-IsDrained : (b : Buffer) → (round b).progressed ≡ false → IsDrained (after_round b)
unfolding round
round-IsDrained b h =
    let q =
      sweep-IsQuiet (record { store = b.store; remaining = []; progressed = false }) b.held h in
    rw (q.same_store, q.kept) q.unmet

length-round :
    (b : Buffer) → (round b).progressed ≡ true → length (round b).remaining < length b.held
unfolding round
length-round b h = omega (
  arith,
  length-sweep_progressed (record { store = b.store; remaining = []; progressed = false }) b.held
      refl h,
)

module _ (fuel : ℕ) (b : Buffer) where
  drain_on :
      (round b).progressed ≡ true → drain_rounds (suc fuel) b ≡ drain_rounds fuel (after_round b)
  unfolding drain_rounds
  drain_on h = rw h

  drain_stop : (round b).progressed ≡ false → drain_rounds (suc fuel) b ≡ after_round b
  unfolding drain_rounds
  drain_stop h = rw h

-- With more fuel than there are held writes, the loop ends because a round makes no progress.
drain_rounds-IsDrained :
    (fuel : ℕ) (b : Buffer) → length b.held < fuel → IsDrained (drain_rounds fuel b)
drain_rounds-IsDrained zero b h = absurd (omega arith)
drain_rounds-IsDrained (suc fuel) b h = elim (Bool-cases (round b).progressed) [
  | inl more ↦
      rw (drain_on fuel b more)
        (drain_rounds-IsDrained fuel (after_round b) (omega (arith, length-round b more)))
  | inr done ↦ rw (drain_stop fuel b done) (round-IsDrained b done)
]

drain_rounds-Run :
    (fuel : ℕ) (b : Buffer) → (applied : List PendingWrite) × Run b applied (drain_rounds fuel b)
drain_rounds-Run zero b = unfold drain_rounds in ([], stay)
drain_rounds-Run (suc fuel) b = elim (Bool-cases (round b).progressed) [
  | inl more ↦
      let (first, run) = round-Run b in
      let (rest, runs) = drain_rounds-Run fuel (after_round b) in
      (first ++ rest, rw (drain_on fuel b more) (Run-append run runs))
  | inr done ↦ rw (drain_stop fuel b done) (round-Run b)
]

-- Draining applies held writes one after the other, each with its dependencies met when it is
-- applied, and ends with none left that could be applied.
pub drain_locked_lem :
    (b : Buffer)
    → ((applied : List PendingWrite) × Run b applied (drain_locked b)) × IsDrained (drain_locked b)
unfolding drain_locked
drain_locked_lem b = (
  drain_rounds-Run (suc (length b.held)) b,
  drain_rounds-IsDrained (suc (length b.held)) b (omega arith),
)
