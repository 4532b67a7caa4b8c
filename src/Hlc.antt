-- ===== src/Hlc.antt =====
-- internal/hlc/hlc.go: hybrid logical clock timestamps and the clock that issues them.
-- A reading of the machine's clock (`wallNow`) is the argument `now`. A method that holds the
-- clock's mutex is one function from the clock to the clock it leaves and its result.
pub mod Order
pub mod Monotone
pub mod Trace
pub mod Tie
use distributed_key_value_st.Prelude.{Bool, List, [], ◌∷◌, if◌then◌else◌}
use distributed_key_value_st.Prelude.Int.{ℤ, pos, negsuc, ltb_ℤ, leb_ℤ, eqb_ℤ, ◌+ℤ◌}
use distributed_key_value_st.Prelude.Result.{Result, ok, err, logical_overflow, invalid_logical}

pub record Timestamp : Type 0 where
  pub wall_time : ℤ
  pub logical : ℤ

abbrev pub max_logical : ℤ
max_logical = pos 2147483647

-- `Timestamp{}`
abbrev pub zero_ts : Timestamp
zero_ts = record { wall_time = pos 0; logical = pos 0 }

unfoldable pub compare : Timestamp → Timestamp → ℤ
compare a b =
    if ltb_ℤ a.wall_time b.wall_time
    then negsuc 0
    else if ltb_ℤ b.wall_time a.wall_time
    then pos 1
    else if ltb_ℤ a.logical b.logical
    then negsuc 0
    else if ltb_ℤ b.logical a.logical
    then pos 1
    else pos 0

unfoldable pub before : Timestamp → Timestamp → Bool
unfolding compare
before t other = ltb_ℤ (compare t other) (pos 0)

unfoldable pub after : Timestamp → Timestamp → Bool
unfolding compare
after t other = ltb_ℤ (pos 0) (compare t other)

unfoldable pub equal : Timestamp → Timestamp → Bool
unfolding compare
equal t other = eqb_ℤ (compare t other) (pos 0)

unfoldable pub after_or_equal : Timestamp → Timestamp → Bool
unfolding compare
after_or_equal t other = leb_ℤ (pos 0) (compare t other)

pub record Clock : Type 0 where
  pub l : ℤ
  pub c : ℤ

unfoldable pub new : ℤ → Clock
new now = record { l = now; c = pos 0 }

unfoldable pub reading : Clock → Timestamp
reading clk = record { wall_time = clk.l; logical = clk.c }

-- The loop of `max64` over `vals[1:]`, with `m` the maximum so far.
max64 : ℤ → List ℤ → ℤ
max64 m [] = m
max64 m (v ∷ vals) = max64 (if ltb_ℤ m v then v else m) vals

-- The clock after a step to the time `l`, with the timestamp that it hands out.
issue : ℤ → ℤ → Clock × Result Timestamp
issue l c = (record { l = l; c = c }, ok (record { wall_time = l; logical = c }))

unfoldable pub send : ℤ → Clock → Clock × Result Timestamp
unfolding max64 issue
send now clk =
    let l' = max64 clk.l (now ∷ []) in
    if eqb_ℤ l' clk.l
    then (if leb_ℤ max_logical clk.c
        then (clk, err logical_overflow)
        else issue l' (clk.c +ℤ pos 1))
    else issue l' (pos 0)

unfoldable pub receive : ℤ → Timestamp → Clock → Clock × Result Timestamp
unfolding max64 issue
receive now msg clk =
    let l' = max64 clk.l (msg.wall_time ∷ now ∷ []) in
    if ltb_ℤ msg.logical (pos 0)
    then (clk, err invalid_logical)
    else if eqb_ℤ l' clk.l
    then (if leb_ℤ max_logical clk.c
        then (clk, err logical_overflow)
        else issue l' (clk.c +ℤ pos 1))
    else if eqb_ℤ l' msg.wall_time
    then (if leb_ℤ max_logical msg.logical
        then (clk, err logical_overflow)
        else issue l' (msg.logical +ℤ pos 1))
    else issue l' (pos 0)
