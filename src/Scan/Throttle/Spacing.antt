-- ===== src/Scan/Throttle/Spacing.antt =====
-- When the throttle of src/scan/throttle.cpp fires.
use marupop.Prelude.{
  ◌≡◌, refl, Bool, true, false, Option, none, some, List, [], ◌∷◌, ◌⊎◌, inl, inr, arith, Bool-cases,
  subst, sym, ◌∙◌, if_true, if_false,
}
use marupop.Prelude.Int.{negsuc, IsInt32, ℤ, pos, ◌+ℤ◌, ◌≤ℤ◌, max_ℤ}
use marupop.Scan.Throttle.{
  Timer, Throttle, Event, requests, cancels, times_out, step, signals, request, fire, cancel,
  new_throttle, set_interval_ms,
}
use marupop.Scan.Throttle.Window.{EndsWindow, IsForward, late, ≤ℤ_trans, request-EndsWindow}

-- The last reading of the clock in an event.
abbrev pub last_reading : ℤ → Event → ℤ
last_reading now (requests fired_at) = fired_at
last_reading now cancels = now
last_reading now times_out = now

-- The clock does not go back within an event. The event loop delivers a timeout of an active timer
-- only, and not before its interval is over.
abbrev pub IsDue : ℤ → Event → Option Timer → Type 0
IsDue now (requests fired_at) t = now ≤ℤ fired_at
IsDue now cancels t = Unit
IsDue now times_out none = ⊥
IsDue now times_out (some t) = t.started +ℤ t.interval ≤ℤ now

-- A history that the event loop can deliver from time `t` on: the clock does not go back.
abbrev pub IsHistory : ℤ → List (ℤ × Event) → Throttle → Type 0
IsHistory t [] s = Unit
IsHistory t ((now, e) ∷ es) s =
    (t ≤ℤ now) × IsDue now e s.timer × IsHistory (last_reading now e) es (step now e s).0

-- The first time is not before `t`, and each next one not before `ms` after the one before.
abbrev pub Spaced : ℤ → ℤ → List ℤ → Type 0
Spaced ms t [] = Unit
Spaced ms t (f ∷ fs) = (t ≤ℤ f) × Spaced ms (f +ℤ ms) fs

step-EndsWindow :
    (now : ℤ) (e : Event) (s : Throttle)
    → IsInt32 s.interval_ms
    → IsForward now s
    → EndsWindow s s.timer
    → EndsWindow (step now e s).0 (step now e s).0.timer
unfolding step fire cancel
step-EndsWindow now (requests fired_at) s i l h = request-EndsWindow now fired_at s i l h
step-EndsWindow now cancels s i l h = tt
step-EndsWindow now times_out s i l h = tt

-- What a call does to the fields that the spacing rests on.
record Effect (at : ℤ) (s : Throttle) (r : Throttle × Bool) : Type 0 where
  interval : r.0.interval_ms ≡ s.interval_ms
  fields :
      ((r.1 ≡ true) × (r.0.last_fire_ms ≡ at) × (r.0.has_fired ≡ true))
      ⊎ ((r.1 ≡ false) × (r.0.last_fire_ms ≡ s.last_fire_ms) × (r.0.has_fired ≡ s.has_fired))

step-Effect : (now : ℤ) (e : Event) (s : Throttle) → Effect (last_reading now e) s (step now e s)
unfolding step request fire cancel
step-Effect now (requests fired_at) s = ground arith
step-Effect now cancels s = ground arith
step-Effect now times_out s = ground arith

-- `b` is no later than the end of the last signal's window, or than now, if nothing was signalled.
abbrev Bound : Throttle → ℤ → ℤ → Type 0
Bound s t b =
    ((s.has_fired ≡ false) × (b ≤ℤ t))
    ⊎ ((s.has_fired ≡ true) × (b ≤ℤ s.last_fire_ms +ℤ s.interval_ms))

request_signal :
    (now fired_at : ℤ) (s : Throttle)
    → (request now fired_at s).1 ≡ true
    → (s.has_fired ≡ false) ⊎ (s.last_fire_ms +ℤ s.interval_ms ≤ℤ now)
unfolding request fire
request_signal now fired_at s h = ground (arith, late now s.last_fire_ms s.interval_ms)

timeout_signal :
    (now : ℤ) (s : Throttle) (o : Option Timer)
    → EndsWindow s o
    → IsDue now times_out o
    → (s.has_fired ≡ true) × (s.last_fire_ms +ℤ s.interval_ms ≤ℤ now)
timeout_signal now s none h d = absurd d
timeout_signal now s (some t) (e, f) d = (f, subst (λ z. z ≤ℤ now) e d)

step_signal :
    (now t b : ℤ) (e : Event) (s : Throttle)
    → EndsWindow s s.timer
    → IsDue now e s.timer
    → t ≤ℤ now
    → Bound s t b
    → (step now e s).1 ≡ true
    → b ≤ℤ now
unfolding step
step_signal now t b (requests fired_at) s w d l h f =
    ground (arith, request_signal now fired_at s f)
step_signal now t b cancels s w d l h f = cc
step_signal now t b times_out s w d l h f = ground (arith, timeout_signal now s s.timer w d)

step-Bound :
    (now t b : ℤ) (e : Event) (s : Throttle)
    → t ≤ℤ last_reading now e
    → Bound s t b
    → (step now e s).1 ≡ false
    → Bound (step now e s).0 (last_reading now e) b
step-Bound now t b e s l h f = ground (arith, step-Effect now e s)

step-IsForward :
    (now : ℤ) (e : Event) (s : Throttle)
    → IsForward (last_reading now e) s
    → IsForward (last_reading now e) (step now e s).0
step-IsForward now e s g f = ground (arith, step-Effect now e s, g)

reading-forward :
    (now : ℤ) (e : Event) (o : Option Timer) → IsDue now e o → now ≤ℤ last_reading now e
reading-forward now (requests fired_at) o d = d
reading-forward now cancels o d = omega arith
reading-forward now times_out o d = omega arith

signals-Spaced :
    (es : List (ℤ × Event)) (s : Throttle) (t b ms : ℤ)
    → s.interval_ms ≡ ms
    → IsInt32 ms
    → IsForward t s
    → EndsWindow s s.timer
    → IsHistory t es s
    → Bound s t b
    → Spaced ms b (signals es s)
unfolding signals
signals-Spaced [] s t b ms i r g w h k = tt
signals-Spaced ((now, e) ∷ es) s t b ms i r g w (l, d, h) k =
    let s' = (step now e s).0 in
    let at = last_reading now e in
    let m = reading-forward now e s.timer d in
    let g' : IsForward now s = λ f. ≤ℤ_trans s.last_fire_ms t now (g f) l in
    let w' = step-EndsWindow now e s (subst IsInt32 (sym i) r) g' w in
    let g'' = step-IsForward now e s (λ f. ≤ℤ_trans s.last_fire_ms now at (g' f) m) in
    let effect = step-Effect now e s in
    let i' = effect.interval ∙ i in
    elim (Bool-cases (step now e s).1) [
      | inl f ↦
          let fired : s'.last_fire_ms ≡ at = ground (arith, effect) in
          subst (Spaced ms b) (sym (if_true _ f)) (
            subst (λ x. b ≤ℤ x) (sym fired)
                (≤ℤ_trans b now at (step_signal now t b e s w d l k f) m),
            signals-Spaced es s' at (s'.last_fire_ms +ℤ ms) ms i' r g'' w' h
                (ground (arith, effect)),
          )
      | inr f ↦ subst (Spaced ms b) (sym (if_false _ f)) (
          signals-Spaced es s' at b ms i' r g'' w' h
            (step-Bound now t b e s (≤ℤ_trans t now at l m) k f))
    ]

max-IsInt32 : (ms : ℤ) → IsInt32 ms → IsInt32 (max_ℤ ms (pos 1))
max-IsInt32 (pos n) i = ground arith
max-IsInt32 (negsuc n) i = ground arith

-- In every history of requests, cancellations and timeouts of a new throttle the signals stand an
-- interval apart at least, where the clock does not go back and no timer ends early; the interval
-- is an int, taken as 1 where it is less.
pub new_throttle-Spaced :
    (es : List (ℤ × Event)) (t ms : ℤ)
    → IsInt32 ms
    → IsHistory t es (set_interval_ms ms new_throttle)
    → Spaced (max_ℤ ms (pos 1)) t (signals es (set_interval_ms ms new_throttle))
unfolding new_throttle set_interval_ms
new_throttle-Spaced es t ms i h =
    signals-Spaced es _ t t (max_ℤ ms (pos 1)) refl (max-IsInt32 ms i) (λ f. cc) tt h
      (inl (refl, omega arith))
