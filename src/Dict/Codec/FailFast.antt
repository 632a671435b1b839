-- ===== src/Dict/Codec/FailFast.antt =====
-- A reader of payloads that stops at the first failure: what the class Decoder of src/dict/codec.cpp,
-- whose every operation tests a flag instead, is compared with, over any CBOR library.
pub mod Kinds
pub mod Refines
use marupop.Prelude.{
  Bool, ℕ, zero, suc, ◌+◌, ◌*◌, true, not, Option, none, some, List, [], ◌∷◌, if◌then◌else◌,
}
use marupop.Prelude.Int.{ℤ, to_int32, to_uint8}
use marupop.Dict.Records.{Text, Double, ImageInfo, SenseTags, LoanwordSource, KanjiExample}
use marupop.Dict.Cbor.{Cbor}
use marupop.Dict.Codec.Decoder.{Decoder, skip_all}

-- There is no flag: a failure is `none`, and what follows a failure is not run.
abbrev pub Step : Type 0 → Type 0 → Type 0
Step R A = R → Option (A × R)

abbrev pub then_with : {R A B : Type 0} → Option (A × R) → (A → Step R B) → Option (B × R)
then_with none f = none
then_with (some (a, r)) f = f a r

infixl 5 ◌>>=◌ ◌>>◌
unfoldable pub ◌>>=◌ : {R A B : Type 0} → Step R A → (A → Step R B) → Step R B
◌>>=◌ m f r = then_with (m r) f

unfoldable pub ◌>>◌ : {R B : Type 0} → Step R (Unit {0}) → Step R B → Step R B
◌>>◌ m k r = then_with (m r) (λ done. k)

unfoldable pub pure : {R A : Type 0} → A → Step R A
pure a r = some (a, r)

module _ (c : Cbor) where
  open c use {
    Reader, is_array, is_integer, is_double, is_bool, is_string, is_null, has_next, failed,
    to_integer, to_double, to_bool, next, enter_container, leave_container, read_all_string,
    remaining, double_of_integer,
  }

  -- A value, behind a call of the reader that did not refuse.
  abbrev pub value : {A : Type 0} → A → Bool × Reader → Option (A × Reader)
  value a (done, r) = if done then some (a, r) else none

  unfoldable pub enter : Step Reader (Unit {0})
  enter r = if is_array r then value tt (enter_container r) else none

  abbrev pub leaving : Option (Decoder c) → Option (Unit {0} × Reader)
  leaving none = none
  leaving (some skipped) = value tt (leave_container skipped.reader)

  -- What the fields have left over is skipped as the decoder does.
  unfoldable pub leave : Step Reader (Unit {0})
  leave r = leaving (skip_all c (2 * remaining r + 2) (record { reader = r; ok = true }))

  unfoldable pub number : Step Reader ℤ
  number r = if is_integer r then value (to_integer r) (next r) else none

  unfoldable pub int32 : Step Reader ℤ
  int32 = do v ← number; pure (to_int32 v)

  unfoldable pub uint8 : Step Reader ℕ
  uint8 = do v ← number; pure (to_uint8 v)

  unfoldable pub real : Step Reader Double
  real r =
      if is_double r
      then value (to_double r) (next r)
      else if is_integer r
      then value (double_of_integer (to_integer r)) (next r)
      else none

  unfoldable pub boolean : Step Reader Bool
  boolean r = if is_bool r then value (to_bool r) (next r) else none

  unfoldable pub string : Step Reader Text
  string r =
      let (text, r') = read_all_string r in
      if is_string r then value text (not (failed r'), r') else none

  -- The items up to the end of the container.
  unfoldable pub items : {A : Type 0} → ℕ → Step Reader A → Step Reader (List A)
  items zero item r = if has_next r then none else some ([], r)
  items (suc fuel) item r =
      let more = then_with (item r) λ v. items fuel item >>= λ vs. pure (v ∷ vs) in
      if has_next r then more else some ([], r)

  unfoldable pub list_of : {A : Type 0} → Step Reader A → Step Reader (List A)
  list_of item = do enter; values ← (λ r. items (remaining r + 1) item r); leave; pure values

  unfoldable pub framed : {A : Type 0} → Step Reader A → Step Reader A
  framed fields = do enter; value ← fields; leave; pure value

  unfoldable pub string_list : Step Reader (List Text)
  string_list = list_of string

  unfoldable pub byte_list : Step Reader (List ℕ)
  byte_list = list_of uint8

  unfoldable pub string_list_list : Step Reader (List (List Text))
  string_list_list = list_of string_list

  unfoldable pub sense_tags : Step Reader SenseTags
  sense_tags = framed (do
    shared ← string_list
    per_sense ← string_list_list
    pure (record { shared_by_all_senses = shared; per_sense = per_sense }))

  unfoldable pub image : Step Reader ImageInfo
  image = framed (do
    path ← string
    pixel_width ← int32
    pixel_height ← int32
    width ← real
    height ← real
    pure (record {
      path = path;
      pixel_width = pixel_width;
      pixel_height = pixel_height;
      width = width;
      height = height;
    }))

  unfoldable pub optional_image : Step Reader (Option ImageInfo)
  optional_image r =
      let found = (do info ← image; pure (some info)) r in
      if is_null r then value none (next r) else found

  unfoldable pub image_list : Step Reader (List ImageInfo)
  image_list = list_of image

  unfoldable pub loanword_sources : Step Reader (List LoanwordSource)
  loanword_sources = list_of (
      framed (do
        language ← string
        original_word ← string
        is_part ← boolean
        is_wasei ← boolean
        pure (record {
          language = language;
          original_word = original_word;
          is_part = is_part;
          is_wasei = is_wasei;
        })))

  unfoldable pub kanji_examples : Step Reader (List KanjiExample)
  kanji_examples = list_of (
      framed (do
        spelling ← string
        reading ← string
        gloss ← string
        pure (record { spelling = spelling; reading = reading; gloss = gloss })))
