-- ===== src/Ocr/ScreenAi/Aligned.antt =====
-- The invariant that src/ocr/ocrtypes.h states of a TextLine, for the parsers of screenaiproto.cpp.
use marupop.Prelude.{
  ℕ, ◌+◌, ◌≤◌, ◌≡◌, refl, ap, ◌∙◌, Bool, true, false, List, [], ◌∷◌, ◌++◌, map, arith, ltb, ◌==◌,
  length, length-map, All, if◌then◌else◌,
}
use marupop.Dict.Records.{Text}
use marupop.Ocr.Shapes.{Rect, Qt, CharBox, TextLine}
use marupop.Ocr.Split.{split_from, split_char_boxes}
use marupop.Ocr.Wire.{ok, Tag, nested, fields}
use marupop.Ocr.Wire.Invariant.{
  Returns, Gives, Returns-and_then, Returns-any, bind-Gives, pure-Gives, if-Gives, skip_field-Gives,
  nested-Gives, field_loop-Returns,
}
use marupop.Ocr.ScreenAi.{
  SymbolBox, WordBox, LineFields, is_field, symbol_chars, word_chars, text_of, line_chars, line_of,
  parse_line_box, annotation_field, parse_visual_annotation,
}

-- Every code point is one UTF-16 unit.
abbrev pub AllBmp : List CharBox → Type 0
AllBmp chars = All (λ c. c.code_point ≤ 65535) chars

-- The text has the code points of the characters, one unit for each.
abbrev pub IsAligned : TextLine → Type 0
IsAligned line =
    (line.text ≡ map (λ c. c.code_point) line.chars) × (length line.text ≡ length line.chars)

All-append : {A : Type 0} (P : A → Type 0) (xs ys : List A) → All P xs → All P ys → All P (xs ++ ys)
All-append P [] ys h k = k
All-append P (x ∷ xs) ys (h, hs) k = (h, All-append P xs ys hs k)

AllBmp-append : (xs ys : List CharBox) → AllBmp xs → AllBmp ys → AllBmp (xs ++ ys)
AllBmp-append = All-append (λ c. c.code_point ≤ 65535)

cong_cons : {m n : ℕ} {xs ys : List ℕ} → m ≡ n → xs ≡ ys → m ∷ xs ≡ n ∷ ys
cong_cons e f = cc

AllBmp-if : (b : Bool) (l r : List CharBox) → AllBmp l → AllBmp r → AllBmp (if b then l else r)
AllBmp-if true l r h k = h
AllBmp-if false l r h k = k

-- A character kept by the test on its code point.
AllBmp-kept :
    (n : ℕ) (c : CharBox) (rest : List CharBox)
    → c.code_point ≡ n
    → AllBmp rest
    → AllBmp (if ltb 65535 n then rest else c ∷ rest)
AllBmp-kept n c rest e h = ground (arith, h)

split_from-AllBmp :
    (box : Rect) (vertical : Bool) (confidence count index : ℕ) (code_points : List ℕ)
    → AllBmp (split_from box vertical confidence count index code_points)
unfolding split_from
split_from-AllBmp box vertical confidence count index [] = tt
split_from-AllBmp box vertical confidence count index (c ∷ cs) =
    AllBmp-kept c _ _ refl (split_from-AllBmp box vertical confidence count (index + 1) cs)

module _ (qt : Qt) where
  split_char_boxes-AllBmp :
      (text : Text) (box : Rect) (vertical : Bool) (confidence : ℕ)
      → AllBmp (split_char_boxes qt text box vertical confidence)
  unfolding split_char_boxes
  split_char_boxes-AllBmp text box vertical confidence =
      split_from-AllBmp box vertical confidence _ 0 _

  symbol_chars-AllBmp :
      (confidence : ℕ) (vertical : Bool) (symbols : List SymbolBox)
      → AllBmp (symbol_chars qt confidence vertical symbols)
  unfolding symbol_chars
  symbol_chars-AllBmp confidence vertical [] = tt
  symbol_chars-AllBmp confidence vertical (s ∷ ss) =
      AllBmp-append _ _ (split_char_boxes-AllBmp s.text s.box vertical _)
        (symbol_chars-AllBmp confidence vertical ss)

  word_chars-AllBmp :
      (vertical : Bool) (words : List WordBox) → AllBmp (word_chars qt vertical words)
  unfolding word_chars
  word_chars-AllBmp vertical [] = tt
  word_chars-AllBmp vertical (w ∷ ws) =
      AllBmp-append _ _
        (AllBmp-if (length w.symbols == 0) _ _ (split_char_boxes-AllBmp w.text w.box _ w.confidence)
          (symbol_chars-AllBmp w.confidence _ w.symbols))
        (word_chars-AllBmp vertical ws)

  line_chars-AllBmp : (line : LineFields) → AllBmp (line_chars qt line)
  unfolding line_chars
  line_chars-AllBmp line =
      AllBmp-if _ _ _ (split_char_boxes-AllBmp line.line_text line.bounding_box _ line.confidence)
        (word_chars-AllBmp _ line.words)

text_of_lem : (chars : List CharBox) → AllBmp chars → text_of chars ≡ map (λ c. c.code_point) chars
unfolding text_of
text_of_lem [] h = refl
text_of_lem (c ∷ cs) (h, hs) = cong_cons (omega arith) (text_of_lem cs hs)

line_of-IsAligned : (qt : Qt) (line : LineFields) → IsAligned (line_of qt line)
unfolding line_of
line_of-IsAligned qt line =
    let e = text_of_lem (line_chars qt line) (line_chars-AllBmp qt line) in
    (e, ap length e ∙ length-map (line_chars qt line) (λ c. c.code_point))

module _ (qt : Qt) where
  parse_line_box-Returns : (bytes : List ℕ) → Returns IsAligned (parse_line_box qt bytes)
  unfolding parse_line_box
  parse_line_box-Returns bytes =
      Returns-and_then (λ _. Unit {0}) IsAligned _ (λ line. ok (line_of qt line)) (Returns-any _)
        (λ line _. line_of-IsAligned qt line)

  annotation_field-Gives :
      (tag : Tag) (lines : List TextLine)
      → All IsAligned lines
      → Gives (All IsAligned) (annotation_field qt tag lines)
  unfolding annotation_field
  annotation_field-Gives tag lines h =
      if-Gives (All IsAligned) (is_field tag 2 2) _ _
        (bind-Gives IsAligned (All IsAligned) (nested (parse_line_box qt)) _
          (nested-Gives IsAligned (parse_line_box qt) parse_line_box-Returns)
          (λ line g.
            pure-Gives (All IsAligned) _ (All-append IsAligned lines (line ∷ []) h (g, tt))))
        (skip_field-Gives (All IsAligned) tag.wire lines h)

-- In every line that the parser returns, whatever the bytes and whatever Qt makes of their text,
-- the text has as many UTF-16 units as the line has characters, and each unit is the code point of
-- the character at its place.
pub parse_visual_annotation-IsAligned :
    (qt : Qt) (bytes : List ℕ) → Returns (All IsAligned) (parse_visual_annotation qt bytes)
unfolding parse_visual_annotation fields
parse_visual_annotation-IsAligned qt bytes =
    field_loop-Returns (All IsAligned) (annotation_field qt) (annotation_field-Gives qt)
      (length bytes) [] bytes tt
