-- ===== src/Checker/Wait.antt =====
-- The wait for convergence: what it returns, and that it returns.
use distributed_key_value_st.Prelude.{
  subst, String, ◌≡◌, refl, true, false, none, some, List, [], ◌∷◌, arith, All, Memᴰ, Option-cases,
  some_inv, sym, ◌∙◌, ap, ◌≢◌, ◌⊎◌, inl, inr,
}
use distributed_key_value_st.Prelude.Int.{ℤ, ◌≤ℤ◌, ◌<ℤ◌, ◌+ℤ◌}
use distributed_key_value_st.Prelude.Result.{Result, ok, err, not_converged, context_done}
use distributed_key_value_st.Checker.{Report, Poll, check_keys, poll_until, wait_for_convergence}
use distributed_key_value_st.Checker.Consistent.{Agree, check_keys-consistent_iff}

-- What the wait returns, ended in this turn: the turn's report, and why it ended.
abbrev pub EndsAt : ℤ → List String → Report × Result (Unit {0}) → Poll → Type 0
EndsAt deadline keys (report, ok _) p =
    (report ≡ check_keys p.clients keys) × All (Agree p.clients) keys
EndsAt deadline keys (report, err not_converged) p =
    (report ≡ check_keys p.clients keys) × (¬ All (Agree p.clients) keys) × (deadline <ℤ p.now)
EndsAt deadline keys (report, err e) p =
    (report ≡ check_keys p.clients keys) × (¬ All (Agree p.clients) keys) × (p.cancelled ≡ true)

module _ (deadline : ℤ) (keys : List String) (p : Poll) (polls : List Poll) where
  abbrev last : Report
  last = check_keys p.clients keys

  -- The four ways out of a turn.
  turn :
      ((poll_until deadline keys (p ∷ polls) ≡ some (last, ok tt)) × (last.consistent ≡ true))
      ⊎ ((poll_until deadline keys (p ∷ polls) ≡ some (last, err not_converged))
          × (last.consistent ≡ false)
          × (deadline <ℤ p.now))
      ⊎ ((poll_until deadline keys (p ∷ polls) ≡ some (last, err context_done))
          × (last.consistent ≡ false)
          × (p.cancelled ≡ true))
      ⊎ ((poll_until deadline keys (p ∷ polls) ≡ poll_until deadline keys polls)
          × (p.now ≤ℤ deadline))
  unfolding poll_until
  turn = ground arith

  disagree : last.consistent ≡ false → ¬ All (Agree p.clients) keys
  disagree off all = cc ((check_keys-consistent_iff p.clients keys).1 all)

poll_until_nil : (deadline : ℤ) (keys : List String) → poll_until deadline keys [] ≡ none
unfolding poll_until
poll_until_nil deadline keys = refl

poll_until-EndsAt :
    (deadline : ℤ) (keys : List String) (polls : List Poll) (r : Report × Result (Unit {0}))
    → poll_until deadline keys polls ≡ some r
    → (p : Poll) × Memᴰ p polls × EndsAt deadline keys r p
poll_until-EndsAt deadline keys [] r h = cc (poll_until_nil deadline keys)
poll_until-EndsAt deadline keys (p ∷ polls) r h = elim (turn deadline keys p polls) [
  | inl (e, on) ↦ (
    p,
    Memᴰ.head refl,
    subst (λ r. EndsAt deadline keys r p) (some_inv (sym e ∙ h))
        (refl, (check_keys-consistent_iff p.clients keys).0 on),
  )
  | inr (inl (e, off, late)) ↦ (
    p,
    Memᴰ.head refl,
    subst (λ r. EndsAt deadline keys r p) (some_inv (sym e ∙ h))
        (refl, disagree deadline keys p polls off, late),
  )
  | inr (inr (inl (e, off, over))) ↦ (
    p,
    Memᴰ.head refl,
    subst (λ r. EndsAt deadline keys r p) (some_inv (sym e ∙ h))
        (refl, disagree deadline keys p polls off, over),
  )
  | inr (inr (inr (e, _))) ↦
      let (q, m, ends) = poll_until-EndsAt deadline keys polls r (sym e ∙ h) in
      (q, Memᴰ.tail m, ends)
]

poll_until_ends :
    (deadline : ℤ) (keys : List String) (polls : List Poll) (p : Poll)
    → Memᴰ p polls
    → deadline <ℤ p.now
    → poll_until deadline keys polls ≢ none
poll_until_ends deadline keys (q ∷ polls) p (Memᴰ.head e) h over =
    elim (turn deadline keys q polls) [
      | inl (f, _) ↦ cc
      | inr (inl (f, _, _)) ↦ cc
      | inr (inr (inl (f, _, _))) ↦ cc
      | inr (inr (inr (f, early))) ↦ absurd (ground (arith, ap (λ (q : Poll). q.now) e))
    ]
poll_until_ends deadline keys (q ∷ polls) p (Memᴰ.tail m) h over =
    elim (turn deadline keys q polls) [
      | inl (f, _) ↦ cc
      | inr (inl (f, _, _)) ↦ cc
      | inr (inr (inl (f, _, _))) ↦ cc
      | inr (inr (inr (f, early))) ↦ poll_until_ends deadline keys polls p m h (sym f ∙ over)
    ]
poll_until_ends deadline keys [] p m h over = elim m [ ]

-- The wait returns at the latest in the first turn whose check ends after the deadline. With no error
-- the nodes agreed in the last turn on every key; with an error they did not, and either the
-- deadline had passed or the context was done. The report is that of the last turn.
pub wait_for_convergence_lem :
    (start : ℤ) (keys : List String) (settle : ℤ) (polls : List Poll) (late : Poll)
    → Memᴰ late polls
    → start +ℤ settle <ℤ late.now
    → (r : Report × Result (Unit {0})) × (wait_for_convergence start keys settle polls ≡ some r)
      × ((p : Poll) × Memᴰ p polls × EndsAt (start +ℤ settle) keys r p)
unfolding wait_for_convergence
wait_for_convergence_lem start keys settle polls late m h =
    elim (Option-cases (poll_until (start +ℤ settle) keys polls)) [
      | inl over ↦ absurd (poll_until_ends (start +ℤ settle) keys polls late m h over)
      | inr (r, e) ↦ (r, e, poll_until-EndsAt (start +ℤ settle) keys polls r e)
    ]
