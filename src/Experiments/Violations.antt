-- ===== src/Experiments/Violations.antt =====
-- What a causal violation is.
use distributed_key_value_st.Prelude.{
  ℕ, ◌≡◌, ◌≢◌, ◌↔◌, refl, true, false, some, List, [], ◌∷◌, arith, Memᴰ, Option-cases, Bool-cases,
  inl, inr,
}
use distributed_key_value_st.Proto.Kv.{GetResponse}
use distributed_key_value_st.Checker.Consistent.{bytes_equal_iff}
use distributed_key_value_st.Experiments.{Look, shows, poll_causal_violation}

-- The replica showed the value of the second write, and then not that of the first.
abbrev pub IsViolated : List ℕ → List ℕ → Look → Type 0
IsViolated val_a val_b look =
    (resp_b : GetResponse) × (resp_a : GetResponse) × (look.reply_b ≡ some resp_b)
    × (look.reply_a ≡ some resp_a)
    × (resp_b.found ≡ true)
    × (resp_b.value ≡ val_b)
    × ((resp_a.found ≡ true) → resp_a.value ≢ val_a)

shows_iff :
    (resp : GetResponse) (val : List ℕ)
    → (shows resp val ≡ true) ↔ ((resp.found ≡ true) × (resp.value ≡ val))
unfolding shows
shows_iff resp val = ground (arith, bytes_equal_iff resp.value val)

here :
    (val_a val_b : List ℕ) (look : Look) (looks : List Look)
    → poll_causal_violation val_a val_b looks ≡ false
    → poll_causal_violation val_a val_b (look ∷ looks) ≡ true
    → IsViolated val_a val_b look
unfolding poll_causal_violation
here val_a val_b look looks quiet h = elim (Option-cases look.reply_b) [
  | inl f ↦ absurd (ground arith)
  | inr (resp_b, e) ↦ elim (Option-cases look.reply_a) [
    | inl f ↦ absurd (ground arith)
    | inr (resp_a, f) ↦
        let b = shows_iff resp_b val_b in
        let a = shows_iff resp_a val_a in
        (resp_b, resp_a, e, f, ground (arith, b), ground (arith, b), (λ g k. ground (arith, a)))
  ]
]

-- The poll reports a violation only if in one of its turns the replica, with no error, showed the
-- second write's value and then did not show the first's.
pub poll_causal_violation_lem :
    (val_a val_b : List ℕ) (looks : List Look)
    → poll_causal_violation val_a val_b looks ≡ true
    → (look : Look) × Memᴰ look looks × IsViolated val_a val_b look
poll_causal_violation_lem val_a val_b [] h = absurd (unfold poll_causal_violation in (ground arith))
poll_causal_violation_lem val_a val_b (look ∷ looks) h =
    elim (Bool-cases (poll_causal_violation val_a val_b looks)) [
      | inl later ↦
          let (l, m, v) = poll_causal_violation_lem val_a val_b looks later in (l, Memᴰ.tail m, v)
      | inr quiet ↦ (look, Memᴰ.head refl, here val_a val_b look looks quiet h)
    ]
