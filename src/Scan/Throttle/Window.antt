-- ===== src/Scan/Throttle/Window.antt =====
-- What one request leaves behind (Throttle::request() of src/scan/throttle.cpp).
use marupop.Prelude.{
  ◌+◌, ◌≤◌, ◌<◌, ◌≡◌, true, false, Option, none, some, ◌⊎◌, inl, inr, arith, Bool-cases,
  Option-cases, not, ◌||◌,
}
use marupop.Prelude.Int.{
  IsInt32, to_int32, to_int32_in_range, IsInt32-of_parts, parts_of_IsInt32, parts_exclusive, ℤ, pos,
  pos_part, neg_part, ◌+ℤ◌, ◌-ℤ◌, ◌≤ℤ◌, ltb_ℤ, int_laws, -ℤ_parts,
}
use marupop.Scan.Throttle.{Timer, Throttle, request, fire}

-- A running timer ends when the window of the last signal does.
abbrev pub EndsWindow : Throttle → Option Timer → Type 0
EndsWindow s none = Unit
EndsWindow s (some t) =
    (t.started +ℤ t.interval ≡ s.last_fire_ms +ℤ s.interval_ms) × (s.has_fired ≡ true)

pub ≤ℤ_trans : (a b d : ℤ) → a ≤ℤ b → b ≤ℤ d → a ≤ℤ d
≤ℤ_trans a b d h k = omega arith

window_end : (now last interval : ℤ) → now +ℤ (interval -ℤ (now -ℤ last)) ≡ last +ℤ interval
window_end now last interval = omega int_laws

-- With the clock at or behind the last signal, what remains of the window fits an int.
remaining_fits :
    (now last ms : ℤ)
    → IsInt32 ms
    → last ≤ℤ now
    → ltb_ℤ (now -ℤ last) ms ≡ true
    → to_int32 (ms -ℤ (now -ℤ last)) ≡ ms -ℤ (now -ℤ last)
remaining_fits now last ms i l h =
    let r = ms -ℤ (now -ℤ last) in
    let (a, b) = parts_of_IsInt32 ms i in
    let h' : pos_part (now -ℤ last) + neg_part ms < pos_part ms + neg_part (now -ℤ last) =
      ground arith in
    to_int32_in_range r (
      IsInt32-of_parts r
        (omega (
          arith,
          parts_exclusive r,
          parts_exclusive ms,
          -ℤ_parts ms (now -ℤ last),
          -ℤ_parts now last,
        ))
        (omega (arith, parts_exclusive r, -ℤ_parts ms (now -ℤ last))))

pub late : (now last interval : ℤ) → ltb_ℤ (now -ℤ last) interval ≡ false → last +ℤ interval ≤ℤ now
late now last interval h =
    let h' : pos_part interval + neg_part (now -ℤ last)
        ≤ pos_part (now -ℤ last) + neg_part interval =
      ground arith in
    omega int_laws

-- The clock has not gone back behind the last signal.
abbrev pub IsForward : ℤ → Throttle → Type 0
IsForward now s = s.has_fired ≡ true → s.last_fire_ms ≤ℤ now

pub request-EndsWindow :
    (now fired_at : ℤ) (s : Throttle)
    → IsInt32 s.interval_ms
    → IsForward now s
    → EndsWindow s s.timer
    → EndsWindow (request now fired_at s).0 (request now fired_at s).0.timer
unfolding request fire
request-EndsWindow now fired_at s i l h = ground (
  arith,
  remaining_fits now s.last_fire_ms s.interval_ms i,
  window_end now s.last_fire_ms s.interval_ms,
)

served :
    (now fired_at : ℤ) (s : Throttle)
    → IsInt32 s.interval_ms
    → IsForward now s
    → EndsWindow s s.timer
    → (((request now fired_at s).1 ≡ true) × ((request now fired_at s).0.last_fire_ms ≡ fired_at))
      ⊎ (((request now fired_at s).1 ≡ false)
          × ((t : Timer) × ((request now fired_at s).0.timer ≡ some t)
              × (t.started +ℤ t.interval ≡ s.last_fire_ms +ℤ s.interval_ms)))
unfolding request fire
served now fired_at s i l w = elim (Option-cases s.timer) [
  | inr (t, e) ↦ inr (ground arith, (t, ground arith, ground arith))
  | inl e ↦
      elim (Bool-cases (not s.has_fired || not (ltb_ℤ (now -ℤ s.last_fire_ms) s.interval_ms))) [
        | inl f ↦ inl (ground arith, ground arith)
        | inr f ↦
            let r = to_int32 (s.interval_ms -ℤ (now -ℤ s.last_fire_ms)) in
            inr (
              ground arith,
              (
                record { started = now; interval = r },
                ground arith,
                ground (
                  arith,
                  remaining_fits now s.last_fire_ms s.interval_ms i,
                  window_end now s.last_fire_ms s.interval_ms,
                ),
              ),
            )
      ]
]

-- With an interval that is an int and a clock not behind the last signal, a request is served at
-- once or a timer is left running that ends with the window of the last signal, and the state
-- stays one in which a running timer ends so.
pub request_served :
    (now fired_at : ℤ) (s : Throttle)
    → IsInt32 s.interval_ms
    → IsForward now s
    → EndsWindow s s.timer
    → EndsWindow (request now fired_at s).0 (request now fired_at s).0.timer
      × ((((request now fired_at s).1 ≡ true)
            × ((request now fired_at s).0.last_fire_ms ≡ fired_at))
          ⊎ (((request now fired_at s).1 ≡ false)
              × ((t : Timer) × ((request now fired_at s).0.timer ≡ some t)
                  × (t.started +ℤ t.interval ≡ s.last_fire_ms +ℤ s.interval_ms))))
request_served now fired_at s i l w =
    (request-EndsWindow now fired_at s i l w, served now fired_at s i l w)

-- With no timer running, the clock behind the last signal and a rest of the window that fits an
-- int, a request starts a timer for longer than the interval, which is 1 or more.
pub request_clock_back :
    (now fired_at : ℤ) (s : Throttle)
    → s.timer ≡ none
    → s.has_fired ≡ true
    → IsInt32 (s.interval_ms -ℤ (now -ℤ s.last_fire_ms))
    → pos 1 ≤ℤ s.interval_ms
    → ltb_ℤ now s.last_fire_ms ≡ true
    → (t : Timer) × ((request now fired_at s).0.timer ≡ some t)
      × (ltb_ℤ s.interval_ms t.interval ≡ true)
unfolding request fire
request_clock_back now fired_at s w f i p b =
    let r = s.interval_ms -ℤ (now -ℤ s.last_fire_ms) in
    (
      record { started = now; interval = to_int32 r },
      ground (arith, -ℤ_parts now s.last_fire_ms),
      ground (
        arith,
        to_int32_in_range r i,
        -ℤ_parts now s.last_fire_ms,
        -ℤ_parts s.interval_ms (now -ℤ s.last_fire_ms),
      ),
    )
