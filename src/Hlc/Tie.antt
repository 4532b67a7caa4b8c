-- ===== src/Hlc/Tie.antt =====
-- The one case in which `Receive` falls behind the message: what becomes of the next write.
use distributed_key_value_st.Prelude.{◌≡◌, ◌≢◌, ◌⊎◌, arith, inl, inr}
use distributed_key_value_st.Prelude.Int.{ℤ, pos, ◌<ℤ◌, ◌≤ℤ◌, ◌+ℤ◌, +ℤ_parts, eq_of_parts}
use distributed_key_value_st.Prelude.Result.{ok}
use distributed_key_value_st.Hlc.{Timestamp, Clock, reading, send, receive}
use distributed_key_value_st.Hlc.Order.{NotLater}
use distributed_key_value_st.Hlc.Monotone.{receive_cases, receive-reading}

-- The clock is in step with a message: a receipt at `now` will be stamped later than it.
abbrev pub InStep : ℤ → Timestamp → Clock → Type 0
InStep now msg clk = (clk.l ≢ msg.wall_time) ⊎ (clk.l <ℤ now) ⊎ (msg.logical ≤ℤ clk.c)

send_stalled :
    (later : ℤ) (clk : Clock) {clk' : Clock} {ts : Timestamp}
    → send later clk ≡ (clk', ok ts)
    → later ≤ℤ clk.l
    → (ts.wall_time ≡ clk.l) × (ts.logical ≡ clk.c +ℤ pos 1)
unfolding send
send_stalled later clk h n = ground (arith, eq_of_parts later clk.l)

receive_tied :
    (now : ℤ) (msg : Timestamp) (clk : Clock) {clk' : Clock} {stamp : Timestamp}
    → receive now msg clk ≡ (clk', ok stamp)
    → clk.l ≡ msg.wall_time
    → now ≤ℤ clk.l
    → (clk'.l ≡ clk.l) × (clk'.c ≡ clk.c +ℤ pos 1)
unfolding reading
receive_tied now msg clk h tie n =
    let r = receive-reading now clk msg h in
    elim (receive_cases now clk msg h) [
      | inl kept ↦ ground arith
      | inr (inl adopted) ↦ absurd (ground arith)
      | inr (inr jumped) ↦ absurd (ground arith)
    ]

-- A clock that receives a message with its own wall time and a counter at least two above its own,
-- and then stamps a write before the machine's clock has moved on, stamps it no later than the
-- message.
pub send-NotLater_tied :
    (now later : ℤ) (msg : Timestamp) (clk : Clock) {clk₁ clk₂ : Clock} {stamp ts : Timestamp}
    → receive now msg clk ≡ (clk₁, ok stamp)
    → send later clk₁ ≡ (clk₂, ok ts)
    → clk.l ≡ msg.wall_time
    → now ≤ℤ clk.l
    → later ≤ℤ clk.l
    → clk.c +ℤ pos 2 ≤ℤ msg.logical
    → NotLater ts msg
send-NotLater_tied now later msg clk {clk₁} h k tie n m above =
    let r = receive_tied now msg clk h tie n in
    let s = send_stalled later clk₁ k (rw r.0 m) in
    ground (arith, +ℤ_parts clk.c (pos 1), +ℤ_parts clk₁.c (pos 1), +ℤ_parts clk.c (pos 2))
