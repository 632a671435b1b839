-- ===== src/Scan/Throttle/Tests.antt =====
-- Runs of the throttle, and the theorems at concrete histories.
use marupop.Prelude.{◌≡◌, ◌⊎◌, refl, true, false, none, some, List, [], ◌∷◌, arith}
use marupop.Prelude.Int.{ℤ, pos, ◌+ℤ◌, ◌-ℤ◌, ltb_ℤ, to_int32}
use marupop.Scan.Throttle.{
  Timer, Throttle, Event, requests, cancels, times_out, request, step, signals, fire, cancel,
  new_throttle, set_interval_ms,
}
use marupop.Scan.Throttle.Window.{EndsWindow, request_served, request_clock_back}
use marupop.Scan.Throttle.Spacing.{IsHistory, Spaced, new_throttle-Spaced}

abbrev moves : List (ℤ × Event)
moves =
    (pos 1000, requests (pos 1003))
    ∷ (pos 1050, requests (pos 1050))
    ∷ (pos 1090, requests (pos 1090))
    ∷ (pos 1103, times_out)
    ∷ (pos 1150, requests (pos 1150))
    ∷ (pos 1160, cancels)
    ∷ (pos 1300, requests (pos 1301))
    ∷ []

moves-signals :
    signals moves (set_interval_ms (pos 100) new_throttle) ≡ pos 1003 ∷ pos 1103 ∷ pos 1301 ∷ []
unfolding signals step request fire cancel set_interval_ms new_throttle ◌-ℤ◌ to_int32
moves-signals = refl

moves-IsHistory : IsHistory (pos 0) moves (set_interval_ms (pos 100) new_throttle)
unfolding step request fire cancel set_interval_ms new_throttle ◌-ℤ◌ ◌+ℤ◌ to_int32
moves-IsHistory = omega arith

new_throttle-Spaced_example :
    Spaced (pos 100) (pos 0) (signals moves (set_interval_ms (pos 100) new_throttle))
new_throttle-Spaced_example =
    new_throttle-Spaced moves (pos 0) (pos 100) (omega arith) moves-IsHistory

abbrev fired_at_1000 : Throttle
fired_at_1000 = record {
  timer = none;
  interval_ms = pos 100;
  last_fire_ms = pos 1000;
  has_fired = true;
}

request_served_example :
    EndsWindow
      (request (pos 1050) (pos 1051) fired_at_1000).0
      (request (pos 1050) (pos 1051) fired_at_1000).0.timer
    × ((((request (pos 1050) (pos 1051) fired_at_1000).1 ≡ true)
          × ((request (pos 1050) (pos 1051) fired_at_1000).0.last_fire_ms ≡ pos 1051))
        ⊎ (((request (pos 1050) (pos 1051) fired_at_1000).1 ≡ false)
            × ((t : Timer) × ((request (pos 1050) (pos 1051) fired_at_1000).0.timer ≡ some t)
                × (t.started +ℤ t.interval ≡ pos 1000 +ℤ pos 100))))
request_served_example =
    request_served (pos 1050) (pos 1051) fired_at_1000 (omega arith) (λ f. omega arith) tt

remaining_in_range : to_int32 (pos 100 -ℤ (pos 400 -ℤ pos 1000)) ≡ pos 700
unfolding ◌-ℤ◌ to_int32
remaining_in_range = refl

-- The clock went back by 600 ms: the request waits 700 ms in place of at most 100.
request_clock_back_example :
    (t : Timer) × ((request (pos 400) (pos 401) fired_at_1000).0.timer ≡ some t)
    × (ltb_ℤ (pos 100) t.interval ≡ true)
unfolding ◌-ℤ◌
request_clock_back_example =
    request_clock_back (pos 400) (pos 401) fired_at_1000 refl refl (omega arith) (omega arith) refl
