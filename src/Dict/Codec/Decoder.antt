-- ===== src/Dict/Codec/Decoder.antt =====
-- The class Decoder of src/dict/codec.cpp: the reader with the flag `m_ok`, over any CBOR library.
-- An operation takes the decoder's state and returns its value with the new state.
use marupop.Prelude.{
  ℕ, zero, suc, ◌+◌, ◌*◌, Bool, false, not, ◌&&◌, Option, none, some, List, [], ◌∷◌, if◌then◌else◌,
}
use marupop.Prelude.Int.{ℤ, pos, to_int32, to_uint8}
use marupop.Dict.Records.{Text, Double, ImageInfo, SenseTags, LoanwordSource, KanjiExample}
use marupop.Dict.Cbor.{Cbor}

pub record Decoder (c : Cbor) : Type 0 where
  pub reader : c.Reader
  pub ok : Bool

-- An operation of the decoder.
abbrev pub M : Cbor → Type 0 → Type 0
M c A = Decoder c → A × Decoder c

module _ {c : Cbor} where
  infixl 5 ◌>>=◌ ◌>>◌
  unfoldable pub ◌>>=◌ : {A B : Type 0} → M c A → (A → M c B) → M c B
  ◌>>=◌ m f d = let (a, d') = m d in f a d'

  unfoldable pub ◌>>◌ : {B : Type 0} → M c (Unit {0}) → M c B → M c B
  ◌>>◌ m k d = k (m d).1

  unfoldable pub pure : {A : Type 0} → A → M c A
  pure a d = (a, d)

module _ (c : Cbor) where
  open c use {
    Reader, is_array, is_integer, is_double, is_bool, is_string, is_byte_array, is_null,
    is_container, has_next, failed, to_integer, to_double, to_bool, next, enter_container,
    leave_container, read_all_string, read_all_byte_array, remaining, double_of_integer,
  }

  -- ok(): no field was malformed, and the reader met no error.
  unfoldable pub is_ok : Decoder c → Bool
  is_ok d = d.ok && not (failed d.reader)

  -- A call of the reader whose success becomes `m_ok`.
  unfoldable pub after : Bool × Reader → Decoder c
  after (done, r) = record { reader = r; ok = done }

  unfoldable pub fail : Decoder c → Decoder c
  fail d = record d { ok = false }

  unfoldable pub enter_array : M c Bool
  unfolding after fail
  enter_array d =
      if not d.ok
      then (false, d)
      else if not (is_array d.reader)
      then (false, fail d)
      else let d' = after (enter_container d.reader) in (d'.ok, d')

  -- skip() for an item that is no container.
  unfoldable pub skip_scalar : Decoder c → Decoder c
  unfolding after
  skip_scalar d =
      if is_string d.reader
      then record d { reader = (read_all_string d.reader).1 }
      else if is_byte_array d.reader
      then record d { reader = read_all_byte_array d.reader }
      else after (next d.reader)

  -- leaveContainer() behind what was skipped; a decoder whose fuel has ended fails.
  abbrev pub left_container : Decoder c → Option (Decoder c) → Decoder c
  left_container d none = record d { ok = false }
  left_container d (some skipped) = after (leave_container skipped.reader)

  -- What is skipped next, from where one item was skipped.
  abbrev pub skip_on : Option (Decoder c) → (Decoder c → Option (Decoder c)) → Option (Decoder c)
  skip_on none more = none
  skip_on (some d) more = more d

  -- `while (m_reader.hasNext()) skip();` on fuel; `none` where the fuel ends.
  unfoldable pub skip_all : ℕ → Decoder c → Option (Decoder c)
  unfolding after fail skip_scalar
  skip_all zero d = if has_next d.reader then none else some d
  skip_all (suc fuel) d =
      let (entered, inner) = enter_container d.reader in
      let inside = skip_all fuel (record d { reader = inner }) in
      let nested = skip_on inside (λ e. some (after (leave_container e.reader))) in
      let refused : Decoder c = record { reader = inner; ok = false } in
      let skipped =
        if is_container d.reader
        then (if entered then nested else some refused)
        else some (skip_scalar d) in
      let rest = skip_on skipped (λ e. skip_all fuel e) in
      if has_next d.reader then rest else some d

  unfoldable pub leave_array : M c (Unit {0})
  unfolding after
  leave_array d =
      let skipped = skip_all (2 * remaining d.reader + 2) d in
      if not d.ok then (tt, d) else (tt, left_container d skipped)

  unfoldable pub number : M c ℤ
  unfolding after fail
  number d =
      if not d.ok
      then (pos 0, d)
      else if not (is_integer d.reader)
      then (pos 0, fail d)
      else (to_integer d.reader, after (next d.reader))

  -- static_cast<qint32>(number()), and the same to int.
  unfoldable pub int32 : M c ℤ
  int32 = do v ← number; pure (to_int32 v)

  -- static_cast<quint8>(number()).
  unfoldable pub uint8 : M c ℕ
  uint8 = do v ← number; pure (to_uint8 v)

  unfoldable pub real : M c Double
  unfolding after fail
  real d =
      if not d.ok
      then (0, d)
      else if is_double d.reader
      then (to_double d.reader, after (next d.reader))
      else if is_integer d.reader
      then (double_of_integer (to_integer d.reader), after (next d.reader))
      else (0, fail d)

  unfoldable pub boolean : M c Bool
  unfolding after fail
  boolean d =
      if not d.ok
      then (false, d)
      else if not (is_bool d.reader)
      then (false, fail d)
      else (to_bool d.reader, after (next d.reader))

  unfoldable pub string : M c Text
  unfolding after fail
  string d =
      if not d.ok
      then ([], d)
      else if not (is_string d.reader)
      then ([], fail d)
      else let (value, r) = read_all_string d.reader in
        (value, record { reader = r; ok = not (failed r) })

  -- What an element adds to the list; `none` is a break.
  unfoldable pub push :
      {A : Type 0} → Option A → Decoder c → List A × Decoder c → List A × Decoder c
  push none d rest = ([], d)
  push (some v) d rest = (v ∷ rest.0, rest.1)

  -- `while (m_ok && m_reader.hasNext())` around an element, on fuel.
  unfoldable pub elements : {A : Type 0} → ℕ → M c (Option A) → M c (List A)
  unfolding fail push
  elements zero element d = if d.ok && has_next d.reader then ([], fail d) else ([], d)
  elements (suc fuel) element d =
      let rest = elements fuel element (element d).1 in
      let step = push (element d).0 (element d).1 rest in
      if d.ok && has_next d.reader then step else ([], d)

  -- An element is a byte at least, so the bytes that remain bound the rounds.
  unfoldable pub element_loop : {A : Type 0} → M c (Option A) → M c (List A)
  element_loop element d = elements (remaining d.reader + 1) element d

  unfoldable pub array_of : {A : Type 0} → M c (Option A) → M c (List A)
  array_of element = do
    entered ← enter_array
    if entered then (do values ← element_loop element; leave_array; pure values) else pure []

  unfoldable pub each : {A : Type 0} → M c A → M c (Option A)
  each m = do v ← m; pure (some v)

  unfoldable pub string_list : M c (List Text)
  string_list = array_of (each string)

  unfoldable pub byte_list : M c (List ℕ)
  byte_list = array_of (each uint8)

  unfoldable pub string_list_list : M c (List (List Text))
  string_list_list = array_of (each string_list)

  unfoldable pub sense_tags_fields : M c SenseTags
  sense_tags_fields = do
    shared ← string_list
    per_sense ← string_list_list
    pure (record { shared_by_all_senses = shared; per_sense = per_sense })

  -- Fields between enterArray() and leaveArray(); `missing` where there is no array.
  unfoldable pub fields_of : {A B : Type 0} → M c A → (A → B) → B → M c B
  fields_of fields found missing = do
    entered ← enter_array
    if entered then (do value ← fields; leave_array; pure (found value)) else pure missing

  unfoldable pub sense_tags : M c SenseTags
  sense_tags =
      fields_of sense_tags_fields (λ tags. tags)
        (record { shared_by_all_senses = []; per_sense = [] })

  unfoldable pub image_fields : M c ImageInfo
  image_fields = do
    path ← string
    pixel_width ← int32
    pixel_height ← int32
    width ← real
    height ← real
    pure (record {
      path = path;
      pixel_width = pixel_width;
      pixel_height = pixel_height;
      width = width;
      height = height;
    })

  unfoldable pub image : M c ImageInfo
  image =
      fields_of image_fields (λ info. info)
        (record { path = []; pixel_width = pos 0; pixel_height = pos 0; width = 0; height = 0 })

  unfoldable pub optional_image : M c (Option ImageInfo)
  unfolding after
  optional_image d =
      let (info, d') = image d in
      if not d.ok
      then (none, d)
      else if is_null d.reader
      then (none, after (next d.reader))
      else (some info, d')

  unfoldable pub image_list : M c (List ImageInfo)
  image_list = array_of (each image)

  unfoldable pub loanword_source_fields : M c LoanwordSource
  loanword_source_fields = do
    language ← string
    original_word ← string
    is_part ← boolean
    is_wasei ← boolean
    pure (record {
      language = language;
      original_word = original_word;
      is_part = is_part;
      is_wasei = is_wasei;
    })

  unfoldable pub loanword_sources : M c (List LoanwordSource)
  loanword_sources = array_of (fields_of loanword_source_fields some none)

  unfoldable pub kanji_example_fields : M c KanjiExample
  kanji_example_fields = do
    spelling ← string
    reading ← string
    gloss ← string
    pure (record { spelling = spelling; reading = reading; gloss = gloss })

  unfoldable pub kanji_examples : M c (List KanjiExample)
  kanji_examples = array_of (fields_of kanji_example_fields some none)
