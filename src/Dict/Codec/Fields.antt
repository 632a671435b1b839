-- ===== src/Dict/Codec/Fields.antt =====
-- Each field operation of the decoder on what the encoder's operation of the same name wrote
-- (the classes Encoder and Decoder of src/dict/codec.cpp).
use marupop.Prelude.{
  ℕ, ◌^◌, ◌<◌, ◌≡◌, refl, ap, subst, ◌∙◌, Bool, true, not, Option, some, List, [], ◌∷◌, ◌++◌,
  append_assoc, arith, length, All,
}
use marupop.Prelude.Int.{
  ℤ, pos, IsInt32, IsInt64, IsInt32-IsInt64, to_int32, to_int32_in_range, to_uint8,
  to_uint8_in_range,
}
use marupop.Dict.Records.{Text, Double}
use marupop.Dict.Cbor.{
  Cbor, CborLaws, Call, start_array, end_array, unsigned, Open, definite, consume, opened, nest,
  nest_all, items, IsText,
}
use marupop.Dict.Codec.Valid.{IsByte}
use marupop.Dict.Codec.Encoder as E
use marupop.Dict.Codec.Decoder as D
use marupop.Dict.Codec.Decoder.{
  Decoder, M, ◌>>=◌, ◌>>◌, pure, after, enter_array, leave_array, array_of, each, fields_of,
}
use marupop.Dict.Codec.Codes.{nest_all-append, items-append}
use marupop.Dict.Codec.Codes as K

definite_done : (n : ℕ) (s : List Open) → consume n (definite n ∷ s) ≡ some (definite 0 ∷ s)
definite_done n s = ground arith

array_nests :
    (n : ℕ) (ts : List Call) (s s' : List Open)
    → ((t t' : List Open) → consume n t ≡ some t' → nest_all t ts ≡ t')
    → consume 1 s ≡ some s'
    → nest_all s (start_array n ∷ (ts ++ (end_array ∷ []))) ≡ s'
unfolding nest_all
array_nests n ts s s' inside e =
    ap (λ o. nest_all (opened (definite n) o) (ts ++ (end_array ∷ []))) e
    ∙ nest_all-append (definite n ∷ s') ts (end_array ∷ [])
    ∙ ap (λ t. nest_all t (end_array ∷ [])) (inside _ _ (definite_done n s'))

-- One call that writes one item.
scalar_nests : (t : Call) (s s' : List Open) → nest s t ≡ s' → nest_all s (t ∷ []) ≡ s'
unfolding nest_all
scalar_nests t s s' e = e

module _ (c : Cbor) (laws : CborLaws c) where
  open laws use {Reads}

  -- Codes k m ts a: `m` reads `a` from what `ts` wrote, and `ts` are `k` items.
  abbrev pub Codes : {A : Type 0} → ℕ → M c A → List Call → A → Type 0
  Codes = K.Codes c laws

  abbrev pub IsElement : {A : Type 0} → M c (Option A) → List Call → A → Type 0
  IsElement = K.IsElement c laws

  -- A list field.
  pub Codes-array_of :
      {A : Type 0} (m : M c (Option A)) (enc : A → List Call) (xs : List A)
      → All (λ x. IsElement m (enc x) x) xs
      → Codes 1 (array_of c m) (E.array_of enc xs) xs
  unfolding E.array_of items
  Codes-array_of m enc xs v = record {
    run = λ rest d h. K.array_of-Run c laws m enc xs rest d v h;
    nests = λ s s' e.
        array_nests (length xs) (E.for_each enc xs) s s'
          (λ t t' e'. K.for_each-nests c laws m enc xs t t' v e') e;
    counts = omega arith;
  }

  -- Fields between enterArray() and leaveArray().
  pub Codes-fields_of :
      {A B : Type 0} {k : ℕ} {fields : M c A} {ts : List Call} {a : A} (found : A → B) (missing : B)
      → Codes k fields ts a
      → Codes 1
          (fields_of c fields found missing)
          (start_array k ∷ (ts ++ (end_array ∷ [])))
          (found a)
  unfolding fields_of items pure
  Codes-fields_of {k = k} {fields = fields} {ts = ts} {a = a} found missing p = record {
    run = λ rest d h.
        let inner = ts ++ (end_array ∷ rest) in
        let r' =
          subst (λ t. Reads d.reader (start_array k ∷ t)) (append_assoc ts (end_array ∷ []) rest)
            h.1 in
        K.Run-bind c laws (enter_array c) _ d true (found a) inner rest
          (K.enter_array-At c laws k inner d (h.0, r'))
          λ d₁ h₁.
            K.Run-bind c laws fields _ d₁ a (found a) (end_array ∷ rest) rest
              (p.run (end_array ∷ rest) d₁ h₁)
              λ d₂ h₂.
                K.Run-then c laws (leave_array c) _ d₂ (found a) rest
                  (refl, K.leave_array-At c laws rest d₂ h₂);
    nests = λ s s' e. array_nests k ts s s' p.nests e;
    counts = omega arith;
  }

  -- An item of a list behind `each`.
  pub Codes-each :
      {A : Type 0} {m : M c A} {ts : List Call} {a : A}
      → Codes 1 m ts a
      → Codes 1 (each c m) ts (some a)
  unfolding each
  Codes-each p = K.Codes-map c laws some p

  pub array_seen :
      (n : ℕ) (ts rest : List Call) (r : c.Reader)
      → Reads r ((start_array n ∷ ts) ++ rest)
      → c.has_next r ≡ true
  array_seen n ts rest r h = (laws.reads_array r n (ts ++ rest) h).2

  pub Codes-number : (v : ℤ) → IsInt64 v → Codes 1 (D.number c) (E.number v) v
  unfolding D.number E.number after nest_all items
  Codes-number v i = record {
    run = λ rest d h.
        let (a, b, _, e, r) = laws.reads_integer d.reader v rest i h.1 in rw (h.0, a) (b, (e, r));
    nests = λ s s' e. rw e;
    counts = omega arith;
  }

  pub Codes-int32 : (v : ℤ) → IsInt32 v → Codes 1 (D.int32 c) (E.number v) v
  unfolding D.int32
  Codes-int32 v i =
      subst (Codes 1 (D.number c >>= λ w. pure (to_int32 w)) (E.number v)) (to_int32_in_range v i)
        (K.Codes-map c laws to_int32 (Codes-number v (IsInt32-IsInt64 v i)))

  pub Codes-uint8 : (n : ℕ) → n < 2 ^ 8 → Codes 1 (D.uint8 c) (E.number_of_byte n) n
  unfolding D.uint8 E.number_of_byte E.number
  Codes-uint8 n i =
      subst (Codes 1 (D.number c >>= λ w. pure (to_uint8 w)) (E.number (pos n)))
        (to_uint8_in_range n i) (K.Codes-map c laws to_uint8 (Codes-number (pos n) (omega arith)))

  pub Codes-real : (x : Double) → Codes 1 (D.real c) (E.real x) x
  unfolding D.real E.real after nest_all items
  Codes-real x = record {
    run = λ rest d h.
        let (a, b, e, r) = laws.reads_double d.reader x rest h.1 in rw (h.0, a) (b, (e, r));
    nests = λ s s' e. rw e;
    counts = omega arith;
  }

  pub Codes-boolean : (b : Bool) → Codes 1 (D.boolean c) (E.bool_call b) b
  unfolding D.boolean E.bool_call after nest_all items
  Codes-boolean b = record {
    run = λ rest d h.
        let (a, v, e, r) = laws.reads_bool d.reader b rest h.1 in rw (h.0, a) (v, (e, r));
    nests = λ s s' e. rw e;
    counts = omega arith;
  }

  pub Codes-string : (s : Text) → IsText s → Codes 1 (D.string c) (E.string s) s
  unfolding D.string E.string nest_all items
  Codes-string s i = record {
    run = λ rest d h.
        let (a, _, v, r) = laws.reads_text d.reader s rest i h.1 in
        rw (h.0, a) (v, (ap not (laws.reads_healthy _ rest r), r));
    nests = λ t t' e. rw e;
    counts = omega arith;
  }

  string-IsElement : (s : Text) → IsText s → IsElement (each c (D.string c)) (E.string s) s
  unfolding E.string
  string-IsElement s i = record {
    codes = Codes-each (Codes-string s i);
    seen = λ rest r h. (laws.reads_text r s rest i h).1;
  }

  byte-IsElement : (n : ℕ) → IsByte n → IsElement (each c (D.uint8 c)) (E.byte_call n) n
  unfolding E.byte_call D.uint8 D.number after nest_all items
  byte-IsElement n i = record {
    codes = Codes-each (
        subst (Codes 1 (D.number c >>= λ w. pure (to_uint8 w)) (unsigned n ∷ []))
          (to_uint8_in_range n i)
          (K.Codes-map c laws to_uint8 (record {
            run = λ rest d h.
                let (a, b, _, e, r) = laws.reads_unsigned d.reader n rest (omega arith) h.1 in
                rw (h.0, a) (b, (e, r));
            nests = λ s s' e. rw e;
            counts = omega arith;
          })));
    seen = λ rest r h. (laws.reads_unsigned r n rest (omega arith) h).2;
  }

  pub All-elements :
      {A : Type 0} {P Q : A → Type 0} → ((x : A) → P x → Q x) → (xs : List A) → All P xs → All Q xs
  All-elements f [] v = tt
  All-elements f (x ∷ xs) (v, vs) = (f x v, All-elements f xs vs)

  pub Codes-string_list :
      (xs : List Text) → All IsText xs → Codes 1 (D.string_list c) (E.string_list xs) xs
  unfolding D.string_list E.string_list
  Codes-string_list xs v = Codes-array_of _ E.string xs (All-elements string-IsElement xs v)

  pub Codes-byte_list : (xs : List ℕ) → All IsByte xs → Codes 1 (D.byte_list c) (E.byte_list xs) xs
  unfolding D.byte_list E.byte_list
  Codes-byte_list xs v = Codes-array_of _ E.byte_call xs (All-elements byte-IsElement xs v)

  string_list-IsElement :
      (xs : List Text) → All IsText xs → IsElement (each c (D.string_list c)) (E.string_list xs) xs
  unfolding E.string_list E.array_of
  string_list-IsElement xs v = record {
    codes = Codes-each (Codes-string_list xs v);
    seen = λ rest r h. array_seen (length xs) _ rest r h;
  }

  pub Codes-string_list_list :
      (xs : List (List Text))
      → All (All IsText) xs
      → Codes 1 (D.string_list_list c) (E.string_list_list xs) xs
  unfolding D.string_list_list E.string_list_list
  Codes-string_list_list xs v =
      Codes-array_of _ E.string_list xs (All-elements string_list-IsElement xs v)
