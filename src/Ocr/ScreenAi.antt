-- ===== src/Ocr/ScreenAi.antt =====
-- The parsers of src/ocr/screenaiproto.cpp over its reader. A float is its 32-bit pattern.
pub mod Ends
pub mod Aligned
pub mod Messages
mod Tests
use marupop.Prelude.{
  ℕ, suc, ◌+◌, ◌*◌, ◌/◌, ◌%◌, ◌^◌, Bool, true, false, not, ◌&&◌, List, [], ◌∷◌, ◌++◌, ltb, leb,
  ◌==◌, length, if◌then◌else◌,
}
use marupop.Prelude.Int.{ℤ, pos, negsuc, ◌+ℤ◌, ◌-ℤ◌, int32_of_bits, sub_ℕ}
use marupop.Dict.Records.{Text}
use marupop.Ocr.Shapes.{Rect, Qt, CharBox, TextLine, no_rect}
use marupop.Ocr.Split.{split_char_boxes}
use marupop.Ocr.Wire.{
  Outcome, ok, Reader, Tag, and_then, ◌>>=◌, pure, read_varint, read_length_delimited, read_fixed32,
  skip_field, nested, fields, is_number,
}

pub record SymbolBox : Type 0 where
  pub box : Rect
  pub text : Text
  pub confidence : ℕ

pub record WordBox : Type 0 where
  pub symbols : List SymbolBox
  pub box : Rect
  pub text : Text
  pub language : Text
  pub direction : ℤ
  pub confidence : ℕ

-- `confidence > 0.0F` on the pattern: neither zero, nor negative, nor a NaN.
abbrev pub is_positive : ℕ → Bool
is_positive bits = ltb 0 bits && leb bits 2139095040

-- `field == number && wireType == wire`.
abbrev pub is_field : Tag → ℕ → ℕ → Bool
is_field tag number wire = is_number tag.field number && (tag.wire == wire)

abbrev pub is_rect_field : ℤ → Bool
is_rect_field (pos n) = leb 1 n && leb n 4
is_rect_field (negsuc n) = false

unfoldable pub set_rect_field : ℤ → ℤ → Rect → Rect
set_rect_field field value rect =
    if is_number field 1
    then record rect { x = value }
    else if is_number field 2
    then record rect { y = value }
    else if is_number field 3
    then record rect { width = value }
    else if is_number field 4
    then record rect { height = value }
    else rect

unfoldable pub rect_field : Tag → Rect → Reader Rect
rect_field tag rect =
    if (tag.wire == 0) && is_rect_field tag.field
    then (do value ← read_varint; pure (set_rect_field tag.field (int32_of_bits value) rect))
    else skip_field tag.wire rect

unfoldable pub parse_rect : List ℕ → Outcome Rect
parse_rect = fields rect_field no_rect

module _ (qt : Qt) where
  open qt use {from_utf8, to_ucs4, is_valid, united}

  unfoldable pub symbol_field : Tag → SymbolBox → Reader SymbolBox
  symbol_field tag symbol =
      if is_field tag 1 2
      then (do rect ← nested parse_rect; pure (record symbol { box = rect }))
      else if is_field tag 2 2
      then (do scope ← read_length_delimited; pure (record symbol { text = from_utf8 scope }))
      else if is_field tag 3 5
      then (do bits ← read_fixed32; pure (record symbol { confidence = bits }))
      else skip_field tag.wire symbol

  unfoldable pub parse_symbol_box : List ℕ → Outcome SymbolBox
  parse_symbol_box = fields symbol_field (record { box = no_rect; text = []; confidence = 0 })

  unfoldable pub word_field : Tag → WordBox → Reader WordBox
  word_field tag word =
      if is_field tag 1 2
      then (do
        symbol ← nested parse_symbol_box
        pure (record word { symbols = word.symbols ++ symbol ∷ [] }))
      else if is_field tag 2 2
      then (do rect ← nested parse_rect; pure (record word { box = rect }))
      else if is_field tag 3 2
      then (do scope ← read_length_delimited; pure (record word { text = from_utf8 scope }))
      else if is_field tag 5 2
      then (do scope ← read_length_delimited; pure (record word { language = from_utf8 scope }))
      else if is_field tag 12 0
      then (do value ← read_varint; pure (record word { direction = int32_of_bits value }))
      else if is_field tag 15 5
      then (do bits ← read_fixed32; pure (record word { confidence = bits }))
      else skip_field tag.wire word

  unfoldable pub parse_word_box : List ℕ → Outcome WordBox
  parse_word_box = fields word_field (record {
    symbols = [];
    box = no_rect;
    text = [];
    language = [];
    direction = pos 0;
    confidence = 0;
  })

module _ (qt : Qt) where
  unfoldable pub symbol_chars : ℕ → Bool → List SymbolBox → List CharBox
  symbol_chars word_confidence vertical [] = []
  symbol_chars word_confidence vertical (symbol ∷ symbols) =
      let confidence =
        if is_positive symbol.confidence then symbol.confidence else word_confidence in
      split_char_boxes qt symbol.text symbol.box vertical confidence
      ++ symbol_chars word_confidence vertical symbols

  -- kDirectionTopToBottom is 3.
  unfoldable pub word_chars : Bool → List WordBox → List CharBox
  word_chars line_vertical [] = []
  word_chars line_vertical (word ∷ words) =
      let vertical =
        if is_number word.direction 0 then line_vertical else is_number word.direction 3 in
      let whole = split_char_boxes qt word.text word.box vertical word.confidence in
      let parts = symbol_chars word.confidence vertical word.symbols in
      (if length word.symbols == 0 then whole else parts) ++ word_chars line_vertical words

-- QChar(static_cast<char16_t>(codePoint)) of each character.
unfoldable pub text_of : List CharBox → Text
text_of [] = []
text_of (char ∷ chars) = char.code_point % 2 ^ 16 ∷ text_of chars

-- The state of the loop of parseLineBox().
pub record LineFields : Type 0 where
  pub words : List WordBox
  pub bounding_box : Rect
  pub line_text : Text
  pub direction : ℤ
  pub confidence : ℕ

-- The direction of the first word that has one.
unfoldable pub words_vertical : List WordBox → Bool
words_vertical [] = false
words_vertical (word ∷ words) =
    let rest = words_vertical words in
    if is_number word.direction 0 then rest else is_number word.direction 3

unfoldable pub is_vertical : LineFields → Bool
is_vertical line =
    if is_number line.direction 0 then words_vertical line.words else is_number line.direction 3

module _ (qt : Qt) where
  open qt use {from_utf8, to_ucs4, is_valid, united}

  unfoldable pub line_field : Tag → LineFields → Reader LineFields
  line_field tag line =
      if is_field tag 1 2
      then (do
        word ← nested (parse_word_box qt)
        pure (record line { words = line.words ++ word ∷ [] }))
      else if is_field tag 2 2
      then (do rect ← nested parse_rect; pure (record line { bounding_box = rect }))
      else if is_field tag 3 2
      then (do scope ← read_length_delimited; pure (record line { line_text = from_utf8 scope }))
      else if is_field tag 4 2
      then (do scope ← read_length_delimited; pure line)
      else if is_field tag 7 0
      then (do value ← read_varint; pure (record line { direction = int32_of_bits value }))
      else if is_field tag 10 5
      then (do bits ← read_fixed32; pure (record line { confidence = bits }))
      else skip_field tag.wire line

  -- The characters of a line: those of its words, or of its own text where they have none.
  unfoldable pub line_chars : LineFields → List CharBox
  line_chars line =
      let vertical = is_vertical line in
      let own = split_char_boxes qt line.line_text line.bounding_box vertical line.confidence in
      let of_words = word_chars qt vertical line.words in
      if length of_words == 0 then own else of_words

  unfoldable pub bounds_of : Rect → List CharBox → Rect
  bounds_of bounds [] = bounds
  bounds_of bounds (char ∷ chars) = bounds_of (united bounds char.box) chars

  unfoldable pub line_of : LineFields → TextLine
  line_of line =
      let chars = line_chars line in
      record {
        text = text_of chars;
        chars = chars;
        box = if is_valid line.bounding_box then line.bounding_box else bounds_of no_rect chars;
        vertical = is_vertical line;
        confidence = line.confidence;
      }

  unfoldable pub parse_line_box : List ℕ → Outcome TextLine
  parse_line_box bytes =
      and_then
        (fields line_field
          (record {
            words = [];
            bounding_box = no_rect;
            line_text = [];
            direction = pos 0;
            confidence = 0;
          })
          bytes)
        (λ line. ok (line_of line))

  unfoldable pub annotation_field : Tag → List TextLine → Reader (List TextLine)
  annotation_field tag lines =
      if is_field tag 2 2
      then (do line ← nested parse_line_box; pure (lines ++ line ∷ []))
      else skip_field tag.wire lines

  unfoldable pub parse_visual_annotation : List ℕ → Outcome (List TextLine)
  parse_visual_annotation = fields annotation_field []
