-- ===== src/Dict/Codec/Codes.antt =====
-- When an operation of the decoder reads what an operation of the encoder wrote, and how such pairs
-- compose (src/dict/codec.cpp).
use marupop.Prelude.{
  ℕ, zero, suc, ◌+◌, ◌-◌, ◌*◌, ◌≤◌, ◌<◌, ◌≡◌, refl, sym, ap, subst, ◌∙◌, true, false, Option, some,
  List, [], ◌∷◌, ◌++◌, append_assoc, arith, length, All, if_true, if_false, and_true,
  and_false_right,
}
use marupop.Dict.Cbor.{
  Cbor, CborLaws, Call, start_array, end_array, Open, indefinite, definite, consume, nest, nest_all,
  items,
}
use marupop.Dict.Codec.Encoder as E
use marupop.Dict.Codec.Decoder.{
  Decoder, M, ◌>>=◌, ◌>>◌, pure, after, enter_array, leave_array, skip_all, elements, push,
  element_loop, array_of,
}

pub nest_all-append :
    (s : List Open) (ts us : List Call) → nest_all s (ts ++ us) ≡ nest_all (nest_all s ts) us
unfolding nest_all
nest_all-append s [] us = refl
nest_all-append s (t ∷ ts) us = nest_all-append (nest s t) ts us

consume_split :
    (k : ℕ) (s s' : List Open)
    → consume (suc k) s ≡ some s'
    → (s₁ : List Open) × (consume 1 s ≡ some s₁) × (consume k s₁ ≡ some s')
consume_split k [] s' e = cc
consume_split k (indefinite ∷ s) s' e = (indefinite ∷ s, refl, e)
consume_split k (definite n ∷ s) s' e = (definite (n - 1) ∷ s, ground arith, ground arith)

consume_zero : (s s' : List Open) → consume 0 s ≡ some s' → s ≡ s'
consume_zero [] s' e = cc
consume_zero (indefinite ∷ s) s' e = ground arith
consume_zero (definite n ∷ s) s' e = ground arith

pub items-append : (ts us : List Call) → items (ts ++ us) ≡ items ts + items us
unfolding items
items-append [] us = omega arith
items-append (t ∷ ts) us = omega (arith, items-append ts us)

module _ (c : Cbor) (laws : CborLaws c) where
  open laws use {Reads}

  -- The decoder is in good order, in front of what `ts` wrote.
  abbrev pub At : Decoder c → List Call → Type 0
  At d ts = (d.ok ≡ true) × Reads d.reader ts

  -- The operation reads the value `a` from what `ts` wrote, and `ts` are `k` items of an array.
  pub record Codes {A : Type 0} (k : ℕ) (m : M c A) (ts : List Call) (a : A) : Type 0 where
    pub run :
        (rest : List Call) (d : Decoder c) → At d (ts ++ rest) → ((m d).0 ≡ a) × At (m d).1 rest
    pub nests : (s s' : List Open) → consume k s ≡ some s' → nest_all s ts ≡ s'
    pub counts : k ≤ items ts

  pub Codes-bind :
      {A B : Type 0} {k : ℕ} {m : M c A} (f : A → M c B) {ts us : List Call} {a : A} {b : B}
      → Codes 1 m ts a
      → Codes k (f a) us b
      → Codes (suc k) (m >>= f) (ts ++ us) b
  unfolding ◌>>=◌
  Codes-bind {k = k} {m = m} f {ts = ts} {us = us} {a = a} {b = b} p q = record {
    run = λ rest d h.
        let (e, h') = p.run (us ++ rest) d (subst (At d) (append_assoc ts us rest) h) in
        subst (λ v. ((f v (m d).1).0 ≡ b) × At (f v (m d).1).1 rest) (sym e)
          (q.run rest (m d).1 h');
    nests = λ s s' e.
        let (s₁, e₁, e₂) = consume_split k s s' e in
        nest_all-append s ts us ∙ ap (λ t. nest_all t us) (p.nests s s₁ e₁) ∙ q.nests s₁ s' e₂;
    counts = omega (arith, p.counts, q.counts, items-append ts us);
  }

  -- The last field: the value is built from it.
  pub Codes-map :
      {A B : Type 0} {k : ℕ} {m : M c A} {ts : List Call} {a : A} (g : A → B)
      → Codes k m ts a
      → Codes k (m >>= λ v. pure (g v)) ts (g a)
  unfolding ◌>>=◌ pure
  Codes-map g p = record {
    run = λ rest d h. let (e, h') = p.run rest d h in (ap g e, h');
    nests = p.nests;
    counts = p.counts;
  }

  -- Run on `d`, the operation returns `a` and stops in good order in front of `ts`.
  abbrev pub Run : {A : Type 0} → M c A → Decoder c → A → List Call → Type 0
  Run m d a ts = ((m d).0 ≡ a) × At (m d).1 ts

  pub Run-bind :
      {A B : Type 0} (m : M c A) (f : A → M c B) (d : Decoder c) (a : A) (b : B) (ts us : List Call)
      → Run m d a ts
      → ((d' : Decoder c) → At d' ts → Run (f a) d' b us)
      → Run (m >>= f) d b us
  unfolding ◌>>=◌
  Run-bind m f d a b ts us (e, h) k = subst (λ v. Run (f v) (m d).1 b us) (sym e) (k (m d).1 h)

  pub Run-then :
      {B : Type 0} (m : M c (Unit {0})) (k : M c B) (d : Decoder c) (b : B) (us : List Call)
      → Run k (m d).1 b us
      → Run (m >> k) d b us
  unfolding ◌>>◌
  Run-then m k d b us h = h

  skip_all_at_end :
      (fuel : ℕ) (d : Decoder c) → c.has_next d.reader ≡ false → skip_all c fuel d ≡ some d
  unfolding skip_all
  skip_all_at_end zero d e = rw e
  skip_all_at_end (suc fuel) d e = rw e

  pub leave_array-At :
      (rest : List Call) (d : Decoder c) → At d (end_array ∷ rest) → At (leave_array c d).1 rest
  unfolding leave_array after
  leave_array-At rest d (o, r) =
      let (n, l, r') = laws.reads_end d.reader rest r in
      rw (skip_all_at_end (2 * c.remaining d.reader + 2) d n, o) (l, r')

  pub enter_array-At :
      (n : ℕ) (rest : List Call) (d : Decoder c)
      → At d (start_array n ∷ rest)
      → ((enter_array c d).0 ≡ true) × At (enter_array c d).1 rest
  unfolding enter_array after
  enter_array-At n rest d (o, r) =
      let (a, _, _, e, r') = laws.reads_array d.reader n rest r in rw (o, a) (e, (e, r'))

  -- One element of a list: the operation reads it, and the reader sees that there is one.
  pub record IsElement {A : Type 0} (m : M c (Option A)) (ts : List Call) (a : A) : Type 0 where
    pub codes : Codes 1 m ts (some a)
    pub seen : (rest : List Call) (r : c.Reader) → Reads r (ts ++ rest) → c.has_next r ≡ true

  module _ {A : Type 0} (m : M c (Option A)) (enc : A → List Call) where
    elements_end :
        (fuel : ℕ) (d : Decoder c) → c.has_next d.reader ≡ false → elements c fuel m d ≡ ([], d)
    unfolding elements
    elements_end zero d n = if_false _ (and_false_right d.ok n)
    elements_end (suc fuel) d n = if_false _ (and_false_right d.ok n)

    elements_more :
        (fuel : ℕ) (d : Decoder c) (x : A)
        → d.ok ≡ true
        → c.has_next d.reader ≡ true
        → (m d).0 ≡ some x
        → elements c (suc fuel) m d
          ≡ (x ∷ (elements c fuel m (m d).1).0, (elements c fuel m (m d).1).1)
    unfolding elements
    elements_more fuel d x o n e =
        if_true _ (and_true o n) ∙ ap (λ v. push c v (m d).1 (elements c fuel m (m d).1)) e

    elements-At :
        (fuel : ℕ) (xs : List A) (rest : List Call) (d : Decoder c)
        → length xs < fuel
        → All (λ x. IsElement m (enc x) x) xs
        → At d (E.for_each enc xs ++ (end_array ∷ rest))
        → ((elements c fuel m d).0 ≡ xs) × At (elements c fuel m d).1 (end_array ∷ rest)
    unfolding E.for_each
    elements-At zero xs rest d h v at_ = absurd (omega arith)
    elements-At (suc fuel) [] rest d h v (o, r) =
        let e = elements_end (suc fuel) d (laws.reads_end d.reader rest r).0 in
        subst (λ p. (p.0 ≡ []) × At p.1 (end_array ∷ rest)) (sym e) (refl, (o, r))
    elements-At (suc fuel) (x ∷ xs) rest d h (vx, vs) (o, r) =
        let tail_ = E.for_each enc xs ++ (end_array ∷ rest) in
        let r' =
          subst (Reads d.reader) (append_assoc (enc x) (E.for_each enc xs) (end_array ∷ rest)) r in
        let (ex, h') = vx.codes.run tail_ d (o, r') in
        let e = elements_more fuel d x o (vx.seen tail_ d.reader r') ex in
        let (exs, h'') = elements-At fuel xs rest (m d).1 (omega arith) vs h' in
        subst (λ p. (p.0 ≡ x ∷ xs) × At p.1 (end_array ∷ rest)) (sym e) (ap (λ t. x ∷ t) exs, h'')

    pub for_each-nests :
        (xs : List A) (s s' : List Open)
        → All (λ x. IsElement m (enc x) x) xs
        → consume (length xs) s ≡ some s'
        → nest_all s (E.for_each enc xs) ≡ s'
    unfolding nest_all E.for_each
    for_each-nests [] s s' v e = consume_zero s s' e
    for_each-nests (x ∷ xs) s s' (vx, vs) e =
        let (s₁, e₁, e₂) = consume_split (length xs) s s' e in
        nest_all-append s (enc x) (E.for_each enc xs)
        ∙ ap (λ t. nest_all t (E.for_each enc xs)) (vx.codes.nests s s₁ e₁)
        ∙ for_each-nests xs s₁ s' vs e₂

    items-for_each :
        (xs : List A) → All (λ x. IsElement m (enc x) x) xs → length xs ≤ items (E.for_each enc xs)
    unfolding items E.for_each
    items-for_each [] v = omega arith
    items-for_each (x ∷ xs) (vx, vs) =
        omega
          (arith, items-append (enc x) (E.for_each enc xs), vx.codes.counts, items-for_each xs vs)

    element_loop-At :
        (xs : List A) (rest : List Call) (d : Decoder c)
        → All (λ x. IsElement m (enc x) x) xs
        → At d (E.for_each enc xs ++ (end_array ∷ rest))
        → Run (element_loop c m) d xs (end_array ∷ rest)
    unfolding element_loop
    element_loop-At xs rest d v (o, r) =
        elements-At (c.remaining d.reader + 1) xs rest d
          (omega (
            arith,
            items-append (E.for_each enc xs) (end_array ∷ rest),
            items-for_each xs v,
            laws.reads_remaining d.reader (E.for_each enc xs ++ (end_array ∷ rest)) r,
          ))
          v (o, r)

    pub array_of-Run :
        (xs : List A) (rest : List Call) (d : Decoder c)
        → All (λ x. IsElement m (enc x) x) xs
        → At d (E.array_of enc xs ++ rest)
        → Run (array_of c m) d xs rest
    unfolding array_of E.array_of pure
    array_of-Run xs rest d v (o, r) =
        let body = E.for_each enc xs ++ (end_array ∷ rest) in
        let r' =
          subst (λ t. Reads d.reader (start_array (length xs) ∷ t))
            (append_assoc (E.for_each enc xs) (end_array ∷ []) rest) r in
        Run-bind (enter_array c) _ d true xs body rest (enter_array-At (length xs) body d (o, r'))
          λ d₁ h₁.
            Run-bind (element_loop c m) _ d₁ xs xs (end_array ∷ rest) rest
              (element_loop-At xs rest d₁ v h₁)
              λ d₂ h₂. Run-then (leave_array c) _ d₂ xs rest (refl, leave_array-At rest d₂ h₂)
