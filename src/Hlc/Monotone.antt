-- ===== src/Hlc/Monotone.antt =====
-- `Send` and `Receive` on every branch: the timestamps that they issue, the errors, the counter's
-- range.
use distributed_key_value_st.Prelude.{◌≡◌, ◌⊎◌, inl, inr, ◌↔◌, ◌≢◌, arith}
use distributed_key_value_st.Prelude.Int.{ℤ, pos, ◌+ℤ◌, ◌<ℤ◌, ◌≤ℤ◌, +ℤ_parts, eq_of_parts}
use distributed_key_value_st.Prelude.Result.{Error, ok, err, logical_overflow, invalid_logical}
use distributed_key_value_st.Hlc.{Timestamp, Clock, max_logical, new, reading, send, receive}
use distributed_key_value_st.Hlc.Order.{Earlier}

-- The counter is an int32 that is not negative.
pub record IsValid (clk : Clock) : Type 0 where
  pub counter_nonneg : pos 0 ≤ℤ clk.c
  pub counter_bounded : clk.c ≤ℤ max_logical

pub new-IsValid : (now : ℤ) → IsValid (new now)
unfolding new
new-IsValid now = record { counter_nonneg = omega arith; counter_bounded = omega arith }

module _ (now : ℤ) (clk : Clock) where
  -- A send that succeeds hands out a timestamp later than the clock's reading before it, leaves the
  -- clock at it, and never lags behind the machine's clock.
  pub send-later :
      {clk' : Clock} {ts : Timestamp}
      → send now clk ≡ (clk', ok ts)
      → Earlier (reading clk) ts × (reading clk' ≡ ts) × (now ≤ℤ ts.wall_time)
  unfolding send reading
  send-later h = ground (arith, +ℤ_parts clk.c (pos 0), +ℤ_parts clk.c (pos 1))

  -- On a valid clock a send fails exactly if the counter is full and the machine's clock is not ahead
  -- of the clock; the clock is then unchanged.
  pub send-err_iff :
      IsValid clk
      → (send now clk ≡ (clk, err logical_overflow)) ↔ ((clk.c ≡ max_logical) × (now ≤ℤ clk.l))
  unfolding send
  send-err_iff v = ground (arith, eq_of_parts clk.c max_logical)

  pub send-IsValid : IsValid clk → IsValid (send now clk).0
  unfolding send
  send-IsValid v = ground (arith, +ℤ_parts clk.c (pos 1))

  pub send_unchanged : {clk' : Clock} {e : Error} → send now clk ≡ (clk', err e) → clk' ≡ clk
  unfolding send
  send_unchanged h = ground arith

  module _ (msg : Timestamp) where
    -- The three ways in which a receipt succeeds: the clock, the message or the machine's clock has
    -- the largest time.
    pub receive_cases :
        {clk' : Clock} {ts : Timestamp}
        → receive now msg clk ≡ (clk', ok ts)
        → ((msg.wall_time ≤ℤ clk.l)
            × (now ≤ℤ clk.l)
            × (ts.wall_time ≡ clk.l)
            × (ts.logical ≡ clk.c +ℤ pos 1))
          ⊎ ((clk.l <ℤ msg.wall_time)
              × (now ≤ℤ msg.wall_time)
              × (ts.wall_time ≡ msg.wall_time)
              × (ts.logical ≡ msg.logical +ℤ pos 1))
          ⊎ ((clk.l <ℤ now) × (msg.wall_time <ℤ now) × (ts.wall_time ≡ now) × (ts.logical ≡ pos 0))
    unfolding receive
    receive_cases {ts = ts} h =
        ground (arith, eq_of_parts msg.wall_time ts.wall_time, eq_of_parts clk.l ts.wall_time)

    pub receive-reading :
        {clk' : Clock} {ts : Timestamp} → receive now msg clk ≡ (clk', ok ts) → reading clk' ≡ ts
    unfolding receive reading
    receive-reading h = ground arith

    -- A receipt that succeeds is stamped later than the clock's reading before it, and no earlier
    -- than the machine's clock.
    pub receive-later :
        {clk' : Clock} {ts : Timestamp}
        → receive now msg clk ≡ (clk', ok ts)
        → Earlier (reading clk) ts × (now ≤ℤ ts.wall_time)
    unfolding reading
    receive-later h = elim (receive_cases h) [
      | inl kept ↦ ground (arith, +ℤ_parts clk.c (pos 1))
      | inr (inl adopted) ↦ ground arith
      | inr (inr jumped) ↦ ground arith
    ]

    -- A receipt that succeeds is stamped later than the message exactly if the clock did not
    -- stand at the message's wall time, or the machine's clock is ahead of the clock, or the
    -- message's counter is not larger than the clock's.
    pub receive-later_message_iff :
        {clk' : Clock} {ts : Timestamp}
        → receive now msg clk ≡ (clk', ok ts)
        → Earlier msg ts ↔ ((clk.l ≢ msg.wall_time) ⊎ (clk.l <ℤ now) ⊎ (msg.logical ≤ℤ clk.c))
    receive-later_message_iff h = elim (receive_cases h) [
      | inl kept ↦ ground (arith, +ℤ_parts clk.c (pos 1), eq_of_parts clk.l msg.wall_time)
      | inr (inl adopted) ↦ ground (arith, +ℤ_parts msg.logical (pos 1))
      | inr (inr jumped) ↦ ground (arith, eq_of_parts clk.l msg.wall_time)
    ]

    receive-invalid_iff :
        (receive now msg clk ≡ (clk, err invalid_logical)) ↔ (msg.logical <ℤ pos 0)
    unfolding receive
    receive-invalid_iff = ground arith

    receive-overflow_iff :
        IsValid clk
        → (receive now msg clk ≡ (clk, err logical_overflow)) ↔ (
            (pos 0 ≤ℤ msg.logical)
            × (((msg.wall_time ≤ℤ clk.l) × (now ≤ℤ clk.l) × (clk.c ≡ max_logical))
                ⊎ ((clk.l <ℤ msg.wall_time)
                    × (now ≤ℤ msg.wall_time)
                    × (max_logical ≤ℤ msg.logical))))
    unfolding receive
    receive-overflow_iff v =
        ground (arith, eq_of_parts clk.c max_logical, eq_of_parts clk.l msg.wall_time)

    -- On a valid clock a receipt fails exactly if the message's counter is negative, or if the
    -- counter that would be raised, the clock's or the message's, is full; the clock is then
    -- unchanged.
    receive-err_iff :
        IsValid clk
        → ((receive now msg clk ≡ (clk, err invalid_logical)) ↔ (msg.logical <ℤ pos 0))
          × ((receive now msg clk ≡ (clk, err logical_overflow)) ↔ (
              (pos 0 ≤ℤ msg.logical)
              × (((msg.wall_time ≤ℤ clk.l) × (now ≤ℤ clk.l) × (clk.c ≡ max_logical))
                  ⊎ ((clk.l <ℤ msg.wall_time)
                      × (now ≤ℤ msg.wall_time)
                      × (max_logical ≤ℤ msg.logical)))))
    receive-err_iff v = (receive-invalid_iff, receive-overflow_iff v)

    pub receive-IsValid : IsValid clk → IsValid (receive now msg clk).0
    unfolding receive
    receive-IsValid v = ground (arith, +ℤ_parts clk.c (pos 1), +ℤ_parts msg.logical (pos 1))

    pub receive_unchanged :
        {clk' : Clock} {e : Error} → receive now msg clk ≡ (clk', err e) → clk' ≡ clk
    unfolding receive
    receive_unchanged h = ground arith
