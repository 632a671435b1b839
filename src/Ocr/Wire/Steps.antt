-- ===== src/Ocr/Wire/Steps.antt =====
-- The field loop of src/ocr/screenaiproto.cpp one written field at a time.
use marupop.Prelude.{
  ℕ, zero, suc, ◌+◌, ◌≤◌, ◌<◌, ◌≡◌, refl, ap, ◌∙◌, List, [], ◌∷◌, ◌++◌, arith, length, subst,
}
use marupop.Ocr.Wire.{
  Outcome, ok, malformed, out_of_fuel, Reader, Tag, and_then, ◌>>=◌, read_tag, field_loop, fields,
}
use marupop.Ocr.Wire.Bounds.{Leaves, IsReader, bind-IsReader, read_tag-IsReader}
use marupop.Ocr.Wire.Format.{bind_ok, IsNumber, tag_of, write_tag, read_tag-write_tag}

and_then-eq :
    {A B : Type 0} (n size : ℕ) (o : Outcome (A × List ℕ)) (k l : A × List ℕ → Outcome B)
    → Leaves n size o
    → ((p : A × List ℕ) → length p.1 + n ≤ size → k p ≡ l p)
    → and_then o k ≡ and_then o l
unfolding and_then
and_then-eq n size (ok p) k l h g = g p h
and_then-eq n size malformed k l h g = refl
and_then-eq n size out_of_fuel k l h g = refl

pub and_then_assoc :
    {A B C : Type 0} (o : Outcome A) (k : A → Outcome B) (l : B → Outcome C)
    → and_then (and_then o k) l ≡ and_then o (λ a. and_then (k a) l)
unfolding and_then
and_then_assoc (ok a) k l = refl
and_then_assoc malformed k l = refl
and_then_assoc out_of_fuel k l = refl

module _ {S : Type 0} (field : Tag → S → Reader S)
    (stays : (tag : Tag) (s : S) → IsReader 0 (field tag s)) where
  -- Fuel beyond the bytes changes nothing.
  field_loop_fuel :
      (fuel fuel' : ℕ) (s : S) (bytes : List ℕ)
      → length bytes ≤ fuel
      → length bytes ≤ fuel'
      → field_loop field fuel s bytes ≡ field_loop field fuel' s bytes
  unfolding field_loop
  field_loop_fuel fuel fuel' s [] h k = refl
  field_loop_fuel zero fuel' s (b ∷ bs) h k = absurd (omega arith)
  field_loop_fuel (suc fuel) zero s (b ∷ bs) h k = absurd (omega arith)
  field_loop_fuel (suc fuel) (suc fuel') s (b ∷ bs) h k =
      and_then-eq 1 _ _ (λ p. field_loop field fuel p.0 p.1) (λ p. field_loop field fuel' p.0 p.1)
        (bind-IsReader 1 read_tag (λ tag. field tag s) read_tag-IsReader (λ tag. stays tag s)
          (b ∷ bs))
        (λ p l. field_loop_fuel fuel fuel' p.0 p.1 (omega arith) (omega arith))

  fields_unfold :
      (s : S) (bytes : List ℕ)
      → 1 ≤ length bytes
      → fields field s bytes
        ≡ and_then ((read_tag >>= (λ tag. field tag s)) bytes) (λ p. fields field p.0 p.1)
  unfolding fields field_loop
  fields_unfold s [] h = absurd (omega arith)
  fields_unfold s (b ∷ bs) h =
      and_then-eq 1 _ _ (λ p. field_loop field (length bs) p.0 p.1)
        (λ p. field_loop field (length p.1) p.0 p.1)
        (bind-IsReader 1 read_tag (λ tag. field tag s) read_tag-IsReader (λ tag. stays tag s)
          (b ∷ bs))
        (λ p l. field_loop_fuel (length bs) (length p.1) p.0 p.1 (omega arith) (omega arith))

  -- A field that is written first, with what its reading `o` does to the state.
  pub fields-write :
      (number wire : ℕ) (payload rest : List ℕ) (s : S) (o : Outcome S)
      → IsNumber number
      → wire < 8
      → field (tag_of number wire) s (payload ++ rest) ≡ and_then o (λ s'. ok (s', rest))
      → fields field s (write_tag number wire ++ (payload ++ rest))
        ≡ and_then o (λ s'. fields field s' rest)
  unfolding and_then
  fields-write number wire payload rest s o h k e =
      let bytes = write_tag number wire ++ (payload ++ rest) in
      let tag = read_tag-write_tag number wire (payload ++ rest) h k in
      let next : S × List ℕ → Outcome S = λ p. fields field p.0 p.1 in
      fields_unfold s bytes
        (omega (arith, subst (Leaves 1 (length bytes)) tag (read_tag-IsReader bytes)))
      ∙ ap (λ r. and_then r next) (bind_ok read_tag (λ t. field t s) bytes _ _ tag ∙ e)
      ∙ and_then_assoc o (λ s'. ok (s', rest)) next
