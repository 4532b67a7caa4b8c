-- ===== src/Buffer/Run.antt =====
-- What a buffer may do, with no order prescribed: apply held writes whose dependencies are met.
use distributed_key_value_st.Prelude.{◌≡◌, true, List, [], ◌∷◌, ◌++◌}
use distributed_key_value_st.Buffer.{Buffer, PendingWrite, deps_satisfied, apply_locked}

-- `Run b applied c`: from `b`, the writes `applied` leave the buffer for the store, one after the
-- other, each met by the store when it is applied.
pub data Run : Buffer → List PendingWrite → Buffer → Type 0 where
  stay : {b : Buffer} → Run b [] b
  take :
      {b c : Buffer} {applied : List PendingWrite} (p : PendingWrite) (xs ys : List PendingWrite)
      → b.held ≡ xs ++ p ∷ ys
      → deps_satisfied b.store p.val.deps ≡ true
      → Run (record { store = apply_locked b.store p.key p.val; held = xs ++ ys }) applied c
      → Run b (p ∷ applied) c

pub Run-append :
    {b c d : Buffer} {ps qs : List PendingWrite} → Run b ps c → Run c qs d → Run b (ps ++ qs) d
Run-append stay r = r
Run-append (take p xs ys e met q) r = take p xs ys e met (Run-append q r)
