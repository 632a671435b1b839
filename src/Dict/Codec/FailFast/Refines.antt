-- ===== src/Dict/Codec/FailFast/Refines.antt =====
-- The class Decoder of src/dict/codec.cpp and the reader that stops at the first failure: the
-- operations on fields, over any CBOR library.
use marupop.Prelude.{
  ℕ, zero, suc, ◌+◌, ◌*◌, ◌≡◌, refl, sym, ap, ◌∙◌, Bool, true, false, Option, none, some, List, [],
  ◌∷◌, Bool-cases, inl, inr, if_true, if◌then◌else◌, arith,
}
use marupop.Prelude.Int.{to_int32, to_uint8}
use marupop.Dict.Records.{ImageInfo}
use marupop.Dict.Cbor.{Cbor}
use marupop.Dict.Codec.Decoder.{
  Decoder, M, after, fail, enter_array, leave_array, push, ◌>>=◌, ◌>>◌,
}
use marupop.Dict.Codec.Decoder as D
use marupop.Dict.Codec.FailFast.{Step, then_with, enter, leave}
use marupop.Dict.Codec.FailFast as F

then_with_if :
    {R A B : Type 0} (b : Bool) (o : Option (A × R)) (g : A → Step R B)
    → then_with (if b then o else none) g ≡ (if b then then_with o g else none)
then_with_if true o g = refl
then_with_if false o g = refl

-- A function on the value commutes with what is left to do.
found_left :
    {R A B : Type 0} (o : Option (Unit {0} × R)) (v : A) (found : A → B)
    → then_with o (λ done r. some (found v, r))
      ≡ then_with (then_with o (λ done r. some (v, r))) (λ a r. some (found a, r))
found_left none v found = refl
found_left (some (done, r)) v found = refl

found_read :
    {R A B : Type 0} (o : Option (A × R)) (leaving : Step R (Unit {0})) (found : A → B)
    → then_with o (λ v r. then_with (leaving r) (λ done r'. some (found v, r')))
      ≡ then_with
          (then_with o (λ v r. then_with (leaving r) (λ done r'. some (v, r'))))
          (λ a r. some (found a, r))
found_read none leaving found = refl
found_read (some (v, r)) leaving found = found_left (leaving r) v found

found_entered :
    {R A B : Type 0} (o : Option (Unit {0} × R)) (fields : Step R A) (leaving : Step R (Unit {0}))
    (found : A → B)
    → then_with o (λ done r.
      then_with (fields r) (λ v r'. then_with (leaving r') (λ d r''. some (found v, r''))))
      ≡ then_with
          (then_with o (λ done r.
            then_with (fields r) (λ v r'. then_with (leaving r') (λ d r''. some (v, r'')))))
          (λ a r. some (found a, r))
found_entered none fields leaving found = refl
found_entered (some (done, r)) fields leaving found = found_read (fields r) leaving found

module _ (c : Cbor) where
  -- What an operation leaves, without a flag.
  abbrev pub outcome : {A : Type 0} → A × Decoder c → Option (A × c.Reader)
  outcome (a, d) = if d.ok then some (a, d.reader) else none

  -- From a decoder without a failure the operation does what the reader does; a failure stays one.
  pub record IsFailFast {A : Type 0} (m : M c A) (r : Step c.Reader A) : Type 0 where
    pub same : (d : Decoder c) → outcome (m d) ≡ (if d.ok then r d.reader else none)

  pub then_with-outcome :
      {A B : Type 0} (p : A × Decoder c) (g : A → Step c.Reader B)
      → then_with (outcome p) g ≡ (if p.1.ok then g p.0 p.1.reader else none)
  then_with-outcome p g = then_with_if p.1.ok (some (p.0, p.1.reader)) g

  pub IsFailFast-pure : {A : Type 0} (a : A) → IsFailFast (D.pure a) (F.pure a)
  unfolding D.pure F.pure
  IsFailFast-pure a = record { same = λ d. refl }

  pub IsFailFast-bind :
      {A B : Type 0} {m : M c A} {f : A → M c B} {r : Step c.Reader A} {g : A → Step c.Reader B}
      → IsFailFast m r
      → ((a : A) → IsFailFast (f a) (g a))
      → IsFailFast (m >>= f) (F.◌>>=◌ r g)
  unfolding ◌>>=◌ F.◌>>=◌
  IsFailFast-bind {m = m} {r = r} {g = g} p q = record {
    same = λ d.
        (q (m d).0).same (m d).1
        ∙ sym (then_with-outcome (m d) g)
        ∙ ap (λ o. then_with o g) (p.same d)
        ∙ then_with_if d.ok (r d.reader) g;
  }

  pub IsFailFast-then :
      {B : Type 0} {m : M c (Unit {0})} {k : M c B} {r : Step c.Reader (Unit {0})}
      {s : Step c.Reader B}
      → IsFailFast m r
      → IsFailFast k s
      → IsFailFast (m >> k) (F.◌>>◌ r s)
  unfolding ◌>>◌ F.◌>>◌
  IsFailFast-then {m = m} {r = r} {s = s} p q = record {
    same = λ d.
        q.same (m d).1
        ∙ sym (then_with-outcome (m d) (λ done. s))
        ∙ ap (λ o. then_with o (λ done. s)) (p.same d)
        ∙ then_with_if d.ok (r d.reader) (λ done. s);
  }

  pub IsFailFast-number : IsFailFast (D.number c) (F.number c)
  unfolding D.number F.number after fail
  IsFailFast-number = record { same = λ d. ground arith }

  pub IsFailFast-real : IsFailFast (D.real c) (F.real c)
  unfolding D.real F.real after fail
  IsFailFast-real = record { same = λ d. ground arith }

  pub IsFailFast-boolean : IsFailFast (D.boolean c) (F.boolean c)
  unfolding D.boolean F.boolean after fail
  IsFailFast-boolean = record { same = λ d. ground arith }

  pub IsFailFast-string : IsFailFast (D.string c) (F.string c)
  unfolding D.string F.string fail
  IsFailFast-string = record { same = λ d. ground arith }

  left_container-leaving :
      (d : Decoder c) (o : Option (Decoder c))
      → outcome (tt, D.left_container c d o) ≡ F.leaving c o
  unfolding after
  left_container-leaving d none = refl
  left_container-leaving d (some skipped) = refl

  leave_array-same :
      (r : c.Reader) (b : Bool)
      → outcome (leave_array c (record { reader = r; ok = b })) ≡ (if b then leave c r else none)
  unfolding leave_array leave
  leave_array-same r true =
      let d : Decoder c = record { reader = r; ok = true } in
      left_container-leaving d (D.skip_all c (2 * c.remaining r + 2) d)
  leave_array-same r false = refl

  -- Leaving an array keeps the failure of an element.
  IsFailFast-leave : IsFailFast (leave_array c) (leave c)
  IsFailFast-leave = record { same = λ d. leave_array-same d.reader d.ok }

  -- Behind enterArray() the fields are read, and where it fails nothing is.
  pub IsFailFast-entered :
      {A : Type 0} (inside : M c A) (r : Step c.Reader A) (a : A)
      → IsFailFast inside r
      → IsFailFast
          (enter_array c >>= λ entered. if entered then inside else D.pure a)
          (F.◌>>◌ (enter c) r)
  unfolding ◌>>=◌ F.◌>>◌ D.pure enter_array enter after fail
  IsFailFast-entered inside r a p = record {
    same = λ d. let e = p.same (after c (c.enter_container d.reader)) in ground (arith, e);
  }

  outcome-some :
      {A : Type 0} (p : A × Decoder c) (a : A) (r : c.Reader)
      → outcome p ≡ some (a, r)
      → (p.0 ≡ a) × (p.1.ok ≡ true) × (p.1.reader ≡ r)
  outcome-some p a r e = elim (Bool-cases p.1.ok) [
    | inl t ↦ (ground arith, t, ground arith)
    | inr f ↦ cc
  ]

  push-items :
      {A : Type 0} (o : Option A) (d : Decoder c) (rest : List A × Decoder c)
      (x : Option (A × c.Reader)) (more : Step c.Reader (List A))
      → outcome (o, d) ≡ then_with x (λ v r. some (some v, r))
      → outcome rest ≡ (if d.ok then more d.reader else none)
      → outcome (push c o d rest)
        ≡ then_with x (λ v r. then_with (more r) (λ vs r'. some (v ∷ vs, r')))
  unfolding push
  push-items none d rest none more e h = ground arith
  push-items none d rest (some x) more e h = ground arith
  push-items (some v) d rest none more e h = ground arith
  push-items (some v) d rest (some (w, r)) more e h =
      let (a, b, q) = outcome-some (some v, d) (some w) r e in
      let v' : v ≡ w = cc in
      sym (then_with-outcome rest (λ vs r'. some (v ∷ vs, r')))
      ∙ ap (λ o. then_with o (λ vs r'. some (v ∷ vs, r'))) (h ∙ if_true _ b ∙ ap more q)
      ∙ ap (λ u. then_with (more r) (λ vs r'. some (u ∷ vs, r'))) v'

  elements-items :
      {A : Type 0} (fuel : ℕ) (element : M c (Option A)) (item : Step c.Reader A)
      → IsFailFast element (F.◌>>=◌ item (λ v. F.pure (some v)))
      → IsFailFast (D.elements c fuel element) (F.items c fuel item)
  unfolding D.elements F.items F.◌>>=◌ F.pure fail
  elements-items zero element item p = record { same = λ d. ground arith }
  elements-items (suc fuel) element item p = record {
    same = λ d.
        let e = p.same d in
        let h = (elements-items fuel element item p).same (element d).1 in
        ground (
          arith,
          push-items (element d).0 (element d).1 (D.elements c fuel element (element d).1)
              (item d.reader) (F.items c fuel item),
        );
  }

  pub IsFailFast-int32 : IsFailFast (D.int32 c) (F.int32 c)
  unfolding D.int32 F.int32
  IsFailFast-int32 = IsFailFast-bind IsFailFast-number (λ v. IsFailFast-pure (to_int32 v))

  pub IsFailFast-uint8 : IsFailFast (D.uint8 c) (F.uint8 c)
  unfolding D.uint8 F.uint8
  IsFailFast-uint8 = IsFailFast-bind IsFailFast-number (λ v. IsFailFast-pure (to_uint8 v))

  element_loop-items :
      {A : Type 0} (element : M c (Option A)) (item : Step c.Reader A)
      → IsFailFast element (F.◌>>=◌ item (λ v. F.pure (some v)))
      → IsFailFast (D.element_loop c element) (λ r. F.items c (c.remaining r + 1) item r)
  unfolding D.element_loop
  element_loop-items element item p = record {
    same = λ d. (elements-items (c.remaining d.reader + 1) element item p).same d;
  }

  -- A list whose elements are read as the items of the reader are.
  IsFailFast-array_of :
      {A : Type 0} {element : M c (Option A)} (item : Step c.Reader A)
      → IsFailFast element (F.◌>>=◌ item (λ v. F.pure (some v)))
      → IsFailFast (D.array_of c element) (F.list_of c item)
  unfolding D.array_of F.list_of
  IsFailFast-array_of {element = element} item p = IsFailFast-entered _ _ [] (
      IsFailFast-bind (element_loop-items element item p)
        λ values. IsFailFast-then IsFailFast-leave (IsFailFast-pure values))

  IsFailFast-each :
      {A : Type 0} {m : M c A} {item : Step c.Reader A}
      → IsFailFast m item
      → IsFailFast (D.each c m) (F.◌>>=◌ item (λ v. F.pure (some v)))
  unfolding D.each
  IsFailFast-each p = IsFailFast-bind p (λ v. IsFailFast-pure (some v))

  framed_found :
      {A B : Type 0} (r : Step c.Reader A) (found : A → B) (x : c.Reader)
      → F.◌>>◌ (enter c) (F.◌>>=◌ r (λ v. F.◌>>◌ (leave c) (F.pure (found v)))) x
        ≡ F.◌>>=◌ (F.framed c r) (λ v. F.pure (found v)) x
  unfolding F.framed F.◌>>=◌ F.◌>>◌ F.pure
  framed_found r found x = found_entered (enter c x) r (leave c) found

  -- Fields between enterArray() and leaveArray().
  IsFailFast-fields_of :
      {A B : Type 0} {fields : M c A} {r : Step c.Reader A} (found : A → B) (missing : B)
      → IsFailFast fields r
      → IsFailFast
          (D.fields_of c fields found missing)
          (F.◌>>=◌ (F.framed c r) (λ v. F.pure (found v)))
  unfolding D.fields_of
  IsFailFast-fields_of {r = r} found missing p =
      let q =
        IsFailFast-entered _ _ missing
          (IsFailFast-bind p λ v. IsFailFast-then IsFailFast-leave (IsFailFast-pure (found v))) in
      record {
        same = λ d. q.same d ∙ ap (λ o. if d.ok then o else none) (framed_found r found d.reader);
      }

  then_with-pure : {R A : Type 0} (o : Option (A × R)) → then_with o (λ v. F.pure v) ≡ o
  unfolding F.pure
  then_with-pure none = refl
  then_with-pure (some (v, r)) = refl

  IsFailFast-framed :
      {A : Type 0} {fields : M c A} {r : Step c.Reader A} (missing : A)
      → IsFailFast fields r
      → IsFailFast (D.fields_of c fields (λ v. v) missing) (F.framed c r)
  unfolding F.◌>>=◌
  IsFailFast-framed {r = r} missing p = record {
    same = λ d.
        (IsFailFast-fields_of (λ v. v) missing p).same d
        ∙ ap (λ o. if d.ok then o else none) (then_with-pure (F.framed c r d.reader));
  }

  pub IsFailFast-string_list : IsFailFast (D.string_list c) (F.string_list c)
  unfolding D.string_list F.string_list
  IsFailFast-string_list = IsFailFast-array_of _ (IsFailFast-each IsFailFast-string)

  pub IsFailFast-byte_list : IsFailFast (D.byte_list c) (F.byte_list c)
  unfolding D.byte_list F.byte_list
  IsFailFast-byte_list = IsFailFast-array_of _ (IsFailFast-each IsFailFast-uint8)

  pub IsFailFast-string_list_list : IsFailFast (D.string_list_list c) (F.string_list_list c)
  unfolding D.string_list_list F.string_list_list
  IsFailFast-string_list_list = IsFailFast-array_of _ (IsFailFast-each IsFailFast-string_list)

  pub IsFailFast-sense_tags : IsFailFast (D.sense_tags c) (F.sense_tags c)
  unfolding D.sense_tags D.sense_tags_fields F.sense_tags
  IsFailFast-sense_tags = IsFailFast-framed _ (
      IsFailFast-bind IsFailFast-string_list
        λ shared. IsFailFast-bind IsFailFast-string_list_list λ per_sense. IsFailFast-pure _)

  IsFailFast-image : IsFailFast (D.image c) (F.image c)
  unfolding D.image D.image_fields F.image
  IsFailFast-image = IsFailFast-framed _ (
      IsFailFast-bind IsFailFast-string λ path. IsFailFast-bind IsFailFast-int32 λ pixel_width.
        IsFailFast-bind IsFailFast-int32 λ pixel_height.
          IsFailFast-bind IsFailFast-real
            λ width. IsFailFast-bind IsFailFast-real λ height. IsFailFast-pure _)

  pub IsFailFast-optional_image : IsFailFast (D.optional_image c) (F.optional_image c)
  unfolding D.optional_image F.optional_image after F.◌>>=◌ F.pure
  IsFailFast-optional_image = record {
    same = λ d.
        let g : ImageInfo → Step c.Reader (Option ImageInfo) = λ info r. some (some info, r) in
        let e =
          sym (then_with-outcome (D.image c d) g)
          ∙ ap (λ o. then_with o g) (IsFailFast-image.same d) in
        ground (arith, e);
  }

  pub IsFailFast-image_list : IsFailFast (D.image_list c) (F.image_list c)
  unfolding D.image_list F.image_list
  IsFailFast-image_list = IsFailFast-array_of _ (IsFailFast-each IsFailFast-image)

  pub IsFailFast-loanword_sources : IsFailFast (D.loanword_sources c) (F.loanword_sources c)
  unfolding D.loanword_sources D.loanword_source_fields F.loanword_sources
  IsFailFast-loanword_sources = IsFailFast-array_of _ (
      IsFailFast-fields_of some none (
        IsFailFast-bind IsFailFast-string λ language.
          IsFailFast-bind IsFailFast-string λ original_word.
            IsFailFast-bind IsFailFast-boolean
              λ is_part. IsFailFast-bind IsFailFast-boolean λ is_wasei. IsFailFast-pure _))

  pub IsFailFast-kanji_examples : IsFailFast (D.kanji_examples c) (F.kanji_examples c)
  unfolding D.kanji_examples D.kanji_example_fields F.kanji_examples
  IsFailFast-kanji_examples = IsFailFast-array_of _ (
      IsFailFast-fields_of some none (
        IsFailFast-bind IsFailFast-string λ spelling.
          IsFailFast-bind IsFailFast-string
            λ reading. IsFailFast-bind IsFailFast-string λ gloss. IsFailFast-pure _))
