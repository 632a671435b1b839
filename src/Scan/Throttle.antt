-- ===== src/Scan/Throttle.antt =====
-- The class Throttle of src/scan/throttle.h and throttle.cpp. Its QTimer is the time at which it was
-- started with the interval that it was given; the clock's readings are arguments of each call. The
-- differences of readings, 64-bit in the source, are exact.
pub mod Window
pub mod Spacing
mod Tests
use marupop.Prelude.{
  ℕ, ◌≡◌, refl, Bool, true, false, not, ◌&&◌, ◌||◌, Option, none, some, List, [], ◌∷◌, arith,
  if◌then◌else◌,
}
use marupop.Prelude.Int.{ℤ, pos, ◌-ℤ◌, ◌+ℤ◌, ltb_ℤ, max_ℤ, to_int32}

pub record Timer : Type 0 where
  pub started : ℤ
  pub interval : ℤ

pub record Throttle : Type 0 where
  pub timer : Option Timer
  pub interval_ms : ℤ
  pub last_fire_ms : ℤ
  pub has_fired : Bool

abbrev pub is_active : Option Timer → Bool
is_active none = false
is_active (some t) = true

-- A call returns the new state, and whether triggered() was emitted.
unfoldable pub new_throttle : Throttle
new_throttle = record {
  timer = none;
  interval_ms = pos 200;
  last_fire_ms = pos 0;
  has_fired = false;
}

unfoldable pub set_interval_ms : ℤ → Throttle → Throttle
set_interval_ms ms s = record s { interval_ms = max_ℤ ms (pos 1) }

unfoldable pub is_pending : Throttle → Bool
is_pending s = is_active s.timer

unfoldable pub cancel : Throttle → Throttle
cancel s = record s { timer = none }

unfoldable pub fire : ℤ → Throttle → Throttle × Bool
fire now s = (record s { timer = none; last_fire_ms = now; has_fired = true }, true)

-- The clock is read at `now`, and once more, at `fired_at`, where fire() is called.
unfoldable pub request : ℤ → ℤ → Throttle → Throttle × Bool
unfolding fire
request now fired_at s =
    let since_last_fire = now -ℤ s.last_fire_ms in
    let remaining = to_int32 (s.interval_ms -ℤ since_last_fire) in
    if is_active s.timer
    then (s, false)
    else if not s.has_fired || not (ltb_ℤ since_last_fire s.interval_ms)
    then fire fired_at s
    else (record s { timer = some (record { started = now; interval = remaining }) }, false)

-- What the owner and the event loop do. A request carries the second reading of the clock. A timeout
-- stops the single-shot timer and fires.
pub data Event : Type 0 where
  requests : ℤ → Event
  cancels : Event
  times_out : Event

unfoldable pub step : ℤ → Event → Throttle → Throttle × Bool
step now (requests fired_at) s = request now fired_at s
step now cancels s = (cancel s, false)
step now times_out s = fire now s

-- The times of the signals of a history.
unfoldable pub signals : List (ℤ × Event) → Throttle → List ℤ
unfolding step
signals [] s = []
signals ((now, e) ∷ es) s =
    let (s', signalled) = step now e s in
    let later = signals es s' in if signalled then s'.last_fire_ms ∷ later else later
