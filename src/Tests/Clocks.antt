-- ===== src/Tests/Clocks.antt =====
-- internal/hlc: runs of the clock.
use distributed_key_value_st.Prelude.{◌≡◌, ◌≢◌, ◌⊎◌, ◌↔◌, refl, List, [], ◌∷◌, arith}
use distributed_key_value_st.Prelude.Int.{ℤ, pos, negsuc, ◌≤ℤ◌, ◌<ℤ◌, ◌+ℤ◌}
use distributed_key_value_st.Prelude.Result.{ok, err, invalid_logical}
use distributed_key_value_st.Hlc.{Timestamp, Clock, max_logical, compare, reading, send, receive}
use distributed_key_value_st.Hlc.Order.{Earlier}
use distributed_key_value_st.Hlc.Monotone.{IsValid, receive-later_message_iff}
use distributed_key_value_st.Hlc.Trace.{
  Event, local, remote, issued, after_events, Increasing, issued-Increasing, after_events-IsValid,
}

abbrev older : Timestamp
older = record { wall_time = pos 100; logical = pos 1 }

abbrev newer : Timestamp
newer = record { wall_time = pos 100; logical = pos 2 }

abbrev much_newer : Timestamp
much_newer = record { wall_time = pos 200; logical = pos 0 }

-- TestCompareOrdering
compare_ordering :
    (compare older newer ≡ negsuc 0)
    × (compare newer much_newer ≡ negsuc 0)
    × (compare older older ≡ pos 0)
unfolding compare
compare_ordering = (refl, refl, refl)

abbrev behind : Clock
behind = record { l = pos 900; c = pos 2 }

abbrev from_remote : Timestamp
from_remote = record { wall_time = pos 2000; logical = pos 4 }

-- TestReceiveNewerRemote, TestReceiveRejectsNegativeLogical
receive_newer :
    receive (pos 1000) from_remote behind
    ≡ (record { l = pos 2000; c = pos 5 }, ok (record { wall_time = pos 2000; logical = pos 5 }))
unfolding receive ◌+ℤ◌
receive_newer = refl

receive_negative :
    receive (pos 1000) (record { wall_time = pos 1; logical = negsuc 0 }) behind
    ≡ (behind, err invalid_logical)
unfolding receive
receive_negative = refl

send_stalled :
    send (pos 5) behind
    ≡ (record { l = pos 900; c = pos 3 }, ok (record { wall_time = pos 900; logical = pos 3 }))
unfolding send ◌+ℤ◌
send_stalled = refl

abbrev full : Clock
full = record { l = pos 900; c = max_logical }

full-IsValid : IsValid full
full-IsValid = record { counter_nonneg = omega arith; counter_bounded = omega arith }

-- The clock stands at the message's wall time and the message's counter is larger.
abbrev tied : Timestamp
tied = record { wall_time = pos 900; logical = pos 7 }

receive-tied :
    receive (pos 5) tied behind
    ≡ (record { l = pos 900; c = pos 3 }, ok (record { wall_time = pos 900; logical = pos 3 }))
unfolding receive ◌+ℤ◌
receive-tied = refl

receive-later_message_iff_example :
    Earlier tied (record { wall_time = pos 900; logical = pos 3 })
    ↔ ((◌≢◌ {A = ℤ} (pos 900) (pos 900)) ⊎ (pos 900 <ℤ pos 5) ⊎ (pos 7 ≤ℤ pos 2))
receive-later_message_iff_example = receive-later_message_iff (pos 5) behind tied receive-tied

abbrev events : List Event
events = local (pos 5) ∷ remote (pos 1000) from_remote ∷ local (pos 3000) ∷ []

issued-Increasing_example : Increasing (reading behind) (issued behind events)
issued-Increasing_example = issued-Increasing behind events

behind-IsValid : IsValid behind
behind-IsValid = record { counter_nonneg = omega arith; counter_bounded = omega arith }

after_events-IsValid_example : IsValid (after_events behind events)
after_events-IsValid_example = after_events-IsValid behind events behind-IsValid
