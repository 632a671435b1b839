-- ===== src/Ocr/Wire/Invariant.antt =====
-- What the readers of src/ocr/screenaiproto.cpp give, followed through binds and the field loop.
use marupop.Prelude.{ℕ, zero, suc, List, [], ◌∷◌, Bool, true, false, if◌then◌else◌}
use marupop.Ocr.Wire.{
  Outcome, ok, malformed, out_of_fuel, Reader, Tag, and_then, ◌>>=◌, ◌>>◌, pure, read_tag,
  read_length_delimited, skip, skip_field, nested, field_loop,
}

-- A result, where there is one, has the property.
abbrev pub Returns : {A : Type 0} → (A → Type 0) → Outcome A → Type 0
Returns P (ok a) = P a
Returns P malformed = Unit
Returns P out_of_fuel = Unit

abbrev pub Gives : {A : Type 0} → (A → Type 0) → Reader A → Type 0
Gives P m = (bytes : List ℕ) → Returns (λ p. P p.0) (m bytes)

pub Returns-and_then :
    {A B : Type 0} (P : A → Type 0) (Q : B → Type 0) (o : Outcome A) (k : A → Outcome B)
    → Returns P o
    → ((a : A) → P a → Returns Q (k a))
    → Returns Q (and_then o k)
unfolding and_then
Returns-and_then P Q (ok a) k h g = g a h
Returns-and_then P Q malformed k h g = tt
Returns-and_then P Q out_of_fuel k h g = tt

-- A result of any kind.
pub Returns-any : {A : Type 0} (o : Outcome A) → Returns (λ a. Unit {0}) o
Returns-any (ok a) = tt
Returns-any malformed = tt
Returns-any out_of_fuel = tt

pub bind-Gives :
    {A B : Type 0} (P : A → Type 0) (Q : B → Type 0) (m : Reader A) (f : A → Reader B)
    → Gives P m
    → ((a : A) → P a → Gives Q (f a))
    → Gives Q (m >>= f)
unfolding ◌>>=◌
bind-Gives P Q m f h k bytes =
    Returns-and_then (λ p. P p.0) (λ p. Q p.0) (m bytes) (λ p. f p.0 p.1) (h bytes)
      (λ p g. k p.0 g p.1)

pub pure-Gives : {A : Type 0} (P : A → Type 0) (a : A) → P a → Gives P (pure a)
unfolding pure
pure-Gives P a h bytes = h

pub if-Gives :
    {A : Type 0} (P : A → Type 0) (b : Bool) (l r : Reader A)
    → Gives P l
    → Gives P r
    → Gives P (if b then l else r)
if-Gives P true l r h k = h
if-Gives P false l r h k = k

pub skip_field-Gives :
    {S : Type 0} (P : S → Type 0) (wire : ℕ) (s : S) → P s → Gives P (skip_field wire s)
unfolding skip_field ◌>>◌ pure
skip_field-Gives P wire s h bytes =
    Returns-and_then (λ p. Unit {0}) (λ p. P p.0) (skip wire bytes) (λ p. pure s p.1)
      (Returns-any (skip wire bytes)) (λ p _. h)

pub nested-Gives :
    {A : Type 0} (P : A → Type 0) (parse : List ℕ → Outcome A)
    → ((scope : List ℕ) → Returns P (parse scope))
    → Gives P (nested parse)
unfolding nested
nested-Gives P parse h =
    bind-Gives (λ _. Unit {0}) P read_length_delimited _
      (λ bytes. Returns-any (read_length_delimited bytes))
      (λ scope _ bytes.
        Returns-and_then P (λ p. P p.0) (parse scope) (λ a. ok (a, bytes)) (h scope) (λ a g. g))

-- A property of the loop's state that every field keeps.
pub field_loop-Returns :
    {S : Type 0} (P : S → Type 0) (field : Tag → S → Reader S)
    → ((tag : Tag) (s : S) → P s → Gives P (field tag s))
    → (fuel : ℕ) (s : S) (bytes : List ℕ) → P s
    → Returns P (field_loop field fuel s bytes)
unfolding field_loop
field_loop-Returns P field h fuel s [] k = k
field_loop-Returns P field h zero s (b ∷ bs) k = tt
field_loop-Returns P field h (suc fuel) s (b ∷ bs) k =
    Returns-and_then (λ p. P p.0) P _ (λ p. field_loop field fuel p.0 p.1)
      (bind-Gives (λ _. Unit {0}) P read_tag (λ tag. field tag s)
        (λ bytes. Returns-any (read_tag bytes)) (λ tag _. h tag s k) (b ∷ bs))
      (λ p g. field_loop-Returns P field h fuel p.0 p.1 g)
