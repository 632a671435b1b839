-- ===== src/Ocr/ScreenAi/Ends.antt =====
-- Termination of parseVisualAnnotation() of src/ocr/screenaiproto.cpp and of the parsers it calls.
use marupop.Prelude.{ℕ, Bool, List, ◌≢◌, ◌==◌, ◌&&◌, if◌then◌else◌, subst}
use marupop.Ocr.Shapes.{Rect, Qt, TextLine}
use marupop.Ocr.Wire.{
  Outcome, ok, malformed, out_of_fuel, Reader, Tag, and_then, ◌>>=◌, pure, read_varint,
  read_length_delimited, read_fixed32, nested,
}
use marupop.Ocr.Wire.Bounds.{
  Ends, IsReader, IsReader-weaken, bind-IsReader, pure-IsReader, if-IsReader, nested-IsReader,
  read_varint-IsReader, read_length_delimited-IsReader, read_fixed32-IsReader, skip_field-IsReader,
  fields-Ends,
}
use marupop.Ocr.ScreenAi.{
  SymbolBox, WordBox, LineFields, is_field, is_rect_field, rect_field, parse_rect, symbol_field,
  parse_symbol_box, word_field, parse_word_box, line_field, line_of, parse_line_box,
  annotation_field, parse_visual_annotation,
}

-- A field that is read with `m` and stored, and the fields that the tests after it choose.
stored-IsReader :
    {A S : Type 0} (b : Bool) (m : Reader A) (f : A → S) (other : Reader S)
    → IsReader 0 m
    → IsReader 0 other
    → IsReader 0 (if b then (do a ← m; pure (f a)) else other)
stored-IsReader b m f other h k =
    if-IsReader 0 b (m >>= (λ a. pure (f a))) other
      (bind-IsReader 0 m (λ a. pure (f a)) h (λ a. pure-IsReader (f a))) k

varint-IsReader : IsReader 0 read_varint
varint-IsReader = IsReader-weaken read_varint read_varint-IsReader

scope-IsReader : IsReader 0 read_length_delimited
scope-IsReader = IsReader-weaken read_length_delimited read_length_delimited-IsReader

rect_field-IsReader : (tag : Tag) (rect : Rect) → IsReader 0 (rect_field tag rect)
unfolding rect_field
rect_field-IsReader tag rect =
    stored-IsReader ((tag.wire == 0) && is_rect_field tag.field) read_varint _ _ varint-IsReader
      (skip_field-IsReader tag.wire rect)

parse_rect-Ends : (bytes : List ℕ) → Ends (parse_rect bytes)
unfolding parse_rect
parse_rect-Ends = fields-Ends rect_field _ rect_field-IsReader

rect-IsReader : IsReader 0 (nested parse_rect)
rect-IsReader = nested-IsReader parse_rect parse_rect-Ends

module _ (qt : Qt) where
  symbol_field-IsReader : (tag : Tag) (symbol : SymbolBox) → IsReader 0 (symbol_field qt tag symbol)
  unfolding symbol_field
  symbol_field-IsReader tag symbol =
      stored-IsReader (is_field tag 1 2) (nested parse_rect) _ _ rect-IsReader (
        stored-IsReader (is_field tag 2 2) read_length_delimited _ _ scope-IsReader (
          stored-IsReader (is_field tag 3 5) read_fixed32 _ _ read_fixed32-IsReader
            (skip_field-IsReader tag.wire symbol)))

  parse_symbol_box-Ends : (bytes : List ℕ) → Ends (parse_symbol_box qt bytes)
  unfolding parse_symbol_box
  parse_symbol_box-Ends = fields-Ends (symbol_field qt) _ symbol_field-IsReader

  word_field-IsReader : (tag : Tag) (word : WordBox) → IsReader 0 (word_field qt tag word)
  unfolding word_field
  word_field-IsReader tag word =
      stored-IsReader (is_field tag 1 2) (nested (parse_symbol_box qt)) _ _
        (nested-IsReader (parse_symbol_box qt) parse_symbol_box-Ends)
        (stored-IsReader (is_field tag 2 2) (nested parse_rect) _ _ rect-IsReader (
          stored-IsReader (is_field tag 3 2) read_length_delimited _ _ scope-IsReader (
            stored-IsReader (is_field tag 5 2) read_length_delimited _ _ scope-IsReader (
              stored-IsReader (is_field tag 12 0) read_varint _ _ varint-IsReader (
                stored-IsReader (is_field tag 15 5) read_fixed32 _ _ read_fixed32-IsReader
                  (skip_field-IsReader tag.wire word))))))

  parse_word_box-Ends : (bytes : List ℕ) → Ends (parse_word_box qt bytes)
  unfolding parse_word_box
  parse_word_box-Ends = fields-Ends (word_field qt) _ word_field-IsReader

  line_field-IsReader : (tag : Tag) (line : LineFields) → IsReader 0 (line_field qt tag line)
  unfolding line_field
  line_field-IsReader tag line =
      stored-IsReader (is_field tag 1 2) (nested (parse_word_box qt)) _ _
        (nested-IsReader (parse_word_box qt) parse_word_box-Ends)
        (stored-IsReader (is_field tag 2 2) (nested parse_rect) _ _ rect-IsReader (
          stored-IsReader (is_field tag 3 2) read_length_delimited _ _ scope-IsReader (
            stored-IsReader (is_field tag 4 2) read_length_delimited _ _ scope-IsReader (
              stored-IsReader (is_field tag 7 0) read_varint _ _ varint-IsReader (
                stored-IsReader (is_field tag 10 5) read_fixed32 _ _ read_fixed32-IsReader
                  (skip_field-IsReader tag.wire line))))))

  mapped-Ends :
      {A B : Type 0} (o : Outcome A) (f : A → B) → Ends o → Ends (and_then o (λ a. ok (f a)))
  unfolding and_then
  mapped-Ends (ok a) f h = tt
  mapped-Ends malformed f h = tt
  mapped-Ends out_of_fuel f h = h

  parse_line_box-Ends : (bytes : List ℕ) → Ends (parse_line_box qt bytes)
  unfolding parse_line_box
  parse_line_box-Ends bytes =
      mapped-Ends _ (line_of qt) (fields-Ends (line_field qt) _ line_field-IsReader bytes)

  pub annotation_field-IsReader :
      (tag : Tag) (lines : List TextLine) → IsReader 0 (annotation_field qt tag lines)
  unfolding annotation_field
  annotation_field-IsReader tag lines =
      stored-IsReader (is_field tag 2 2) (nested (parse_line_box qt)) _ _
        (nested-IsReader (parse_line_box qt) parse_line_box-Ends)
        (skip_field-IsReader tag.wire lines)

  parse_visual_annotation-Ends : (bytes : List ℕ) → Ends (parse_visual_annotation qt bytes)
  unfolding parse_visual_annotation
  parse_visual_annotation-Ends = fields-Ends (annotation_field qt) _ annotation_field-IsReader

-- On any bytes, truncated or malformed ones included, the parser ends: with the rounds that the
-- bytes of each scope give no loop of the message or of a message nested in it runs out of fuel.
pub parse_visual_annotation_total :
    (qt : Qt) (bytes : List ℕ) → parse_visual_annotation qt bytes ≢ out_of_fuel
parse_visual_annotation_total qt bytes e = subst Ends e (parse_visual_annotation-Ends qt bytes)
