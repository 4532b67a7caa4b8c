-- ===== src/Hlc/Trace.antt =====
-- A clock in use: any sequence of `Send` and `Receive`, with any readings of the machine's clock.
use distributed_key_value_st.Prelude.{◌≡◌, refl, List, [], ◌∷◌}
use distributed_key_value_st.Prelude.Int.{ℤ}
use distributed_key_value_st.Prelude.Result.{Error, Result, ok, err}
use distributed_key_value_st.Hlc.{Timestamp, Clock, reading, send, receive}
use distributed_key_value_st.Hlc.Order.{Earlier}
use distributed_key_value_st.Hlc.Monotone.{
  IsValid, send-IsValid, receive-IsValid, send-later, receive-later, receive-reading,
  send_unchanged, receive_unchanged,
}

pub data Event : Type 0 where
  local : ℤ → Event
  remote : ℤ → Timestamp → Event

unfoldable pub step : Event → Clock → Clock × Result Timestamp
step (local now) clk = send now clk
step (remote now msg) clk = receive now msg clk

-- What a result adds to the timestamps issued later.
issued_then : Result Timestamp → List Timestamp → List Timestamp
issued_then (ok ts) rest = ts ∷ rest
issued_then (err e) rest = rest

-- The timestamps that the calls return, in order; a call that fails returns none.
unfoldable pub issued : Clock → List Event → List Timestamp
unfolding step issued_then
issued clk [] = []
issued clk (e ∷ events) = issued_then (step e clk).1 (issued (step e clk).0 events)

unfoldable pub after_events : Clock → List Event → Clock
unfolding step
after_events clk [] = clk
after_events clk (e ∷ events) = after_events (step e clk).0 events

-- Each element is later than `from` and than the elements before it.
abbrev pub Increasing : Timestamp → List Timestamp → Type 0
Increasing from [] = Unit
Increasing from (ts ∷ rest) = Earlier from ts × Increasing ts rest

step-later :
    (e : Event) (clk : Clock) {clk' : Clock} {ts : Timestamp}
    → step e clk ≡ (clk', ok ts)
    → Earlier (reading clk) ts × (reading clk' ≡ ts)
unfolding step
step-later (local now) clk h = let r = send-later now clk h in (r.0, r.1)
step-later (remote now msg) clk h = ((receive-later now clk msg h).0, receive-reading now clk msg h)

step_unchanged :
    (e : Event) (clk : Clock) {clk' : Clock} {x : Error} → step e clk ≡ (clk', err x) → clk' ≡ clk
unfolding step
step_unchanged (local now) clk h = send_unchanged now clk h
step_unchanged (remote now msg) clk h = receive_unchanged now clk msg h

-- Whatever is sent and received and whatever the machine's clock shows, each timestamp that the
-- clock issues is later than its reading at the start and than all that it issued before.
pub issued-Increasing :
    (clk : Clock) (events : List Event) → Increasing (reading clk) (issued clk events)
unfolding issued
issued-Increasing clk [] = tt
issued-Increasing clk (e ∷ events) =
    go (step e clk).0 (step e clk).1 refl (issued-Increasing (step e clk).0 events)
  where
    go :
        (clk' : Clock) (r : Result Timestamp)
        → step e clk ≡ (clk', r)
        → Increasing (reading clk') (issued clk' events)
        → Increasing (reading clk) (issued_then r (issued clk' events))
    go clk' (ok ts) h later = let s = step-later e clk h in (s.0, rw s.1 at later)
    go clk' (err x) h later = rw (← step_unchanged e clk h) later

step-IsValid : (e : Event) (clk : Clock) → IsValid clk → IsValid (step e clk).0
unfolding step
step-IsValid (local now) clk v = send-IsValid now clk v
step-IsValid (remote now msg) clk v = receive-IsValid now clk msg v

-- From a clock whose counter lies in the range of an int32 that is not negative, whatever is sent
-- and received, messages with any counter included, it stays there: the counter never wraps.
pub after_events-IsValid :
    (clk : Clock) (events : List Event) → IsValid clk → IsValid (after_events clk events)
unfolding after_events
after_events-IsValid clk [] v = v
after_events-IsValid clk (e ∷ events) v =
    after_events-IsValid (step e clk).0 events (step-IsValid e clk v)
