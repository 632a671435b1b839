-- ===== src/Ocr/ScreenAi/Tests.antt =====
-- Runs of the parsers, and their theorems at concrete bytes.
use marupop.Prelude.{ℕ, ◌-◌, ◌^◌, ◌≡◌, ◌≢◌, refl, true, false, List, [], ◌∷◌, ◌++◌, All, arith, ltb}
use marupop.Prelude.Int.{pos, ◌+ℤ◌, ◌-ℤ◌, int32_of_bits}
use marupop.Ocr.Shapes.{Rect, Qt}
use marupop.Ocr.Wire.{
  ok, out_of_fuel, and_then, fields, field_loop, ◌>>=◌, ◌>>◌, read_tag, read_varint, varint_loop,
  checked_tag, pure, nested, read_length_delimited, read_bytes, skip, skip_field, refuse,
  read_fixed32,
}
use marupop.Ocr.Wire.Invariant.{Returns}
use marupop.Ocr.Wire.Varint.{write_varint, read_varint-write_varint}
use marupop.Ocr.Wire.Format.{varint}
use marupop.Ocr.Split.{split_char_boxes, split_from, part_of, division}
use marupop.Ocr.Split.Tiling.{Tiles, start_of, split_char_boxes-Tiles}
use marupop.Ocr.ScreenAi.{
  parse_visual_annotation, parse_line_box, line_field, parse_rect, rect_field, set_rect_field,
  line_of, line_chars, is_vertical, words_vertical, word_chars, text_of, bounds_of,
}
use marupop.Ocr.ScreenAi.Ends.{parse_visual_annotation_total}
use marupop.Ocr.ScreenAi.Aligned.{IsAligned, parse_visual_annotation-IsAligned}
use marupop.Ocr.ScreenAi.Messages.{
  Item, line_item, other_item, write_items, lines_of, parse_visual_annotation-write_items,
}

-- Text that is ASCII, and rectangles of which the first is taken.
abbrev ascii : Qt
ascii = record {
  from_utf8 = λ bytes. bytes;
  to_ucs4 = λ text. text;
  is_valid = λ r. ltb 0 1;
  united = λ r s. r;
}

-- A line with the text "AB" in a box 10 wide.
abbrev line_bytes : List ℕ
line_bytes = 18 ∷ 4 ∷ 24 ∷ 10 ∷ 32 ∷ 5 ∷ 26 ∷ 2 ∷ 65 ∷ 66 ∷ []

abbrev items : List Item
items = line_item line_bytes ∷ other_item 40 (varint 300) ∷ line_item line_bytes ∷ []

read_varint-write_varint_example :
    read_varint (write_varint (2 ^ 64 - 1) ++ 7 ∷ []) ≡ ok (2 ^ 64 - 1, 7 ∷ [])
read_varint-write_varint_example = read_varint-write_varint (2 ^ 64 - 1) (7 ∷ []) (omega arith)

parse_visual_annotation_total_example : parse_visual_annotation ascii (18 ∷ 200 ∷ []) ≢ out_of_fuel
parse_visual_annotation_total_example = parse_visual_annotation_total ascii (18 ∷ 200 ∷ [])

parse_visual_annotation-IsAligned_example :
    Returns (All IsAligned) (parse_visual_annotation ascii (18 ∷ 10 ∷ line_bytes))
parse_visual_annotation-IsAligned_example =
    parse_visual_annotation-IsAligned ascii (18 ∷ 10 ∷ line_bytes)

parse_visual_annotation-write_items_example :
    parse_visual_annotation ascii (write_items items) ≡ lines_of ascii [] items
parse_visual_annotation-write_items_example =
    parse_visual_annotation-write_items ascii items
      (omega arith, (((omega arith, omega arith), omega arith, refl), (omega arith, tt)))

abbrev box : Rect
box = record { x = pos 20; y = pos 5; width = pos 10; height = pos 31 }

split_char_boxes-Tiles_example :
    Tiles true box (start_of true box) (split_char_boxes ascii (65 ∷ 66 ∷ 67 ∷ []) box true 0)
split_char_boxes-Tiles_example =
    split_char_boxes-Tiles ascii (65 ∷ 66 ∷ 67 ∷ []) box true 0 (omega arith)
      (omega arith, (omega arith, (omega arith, tt)))

-- "AB" in a box 10 wide: two characters 5 wide each.
line_bytes_run :
    parse_line_box ascii line_bytes
    ≡ ok (record {
      text = 65 ∷ 66 ∷ [];
      chars =
          record {
            code_point = 65;
            box = record { x = pos 0; y = pos 0; width = pos 5; height = pos 5 };
            confidence = 0;
          }
          ∷ record {
            code_point = 66;
            box = record { x = pos 5; y = pos 0; width = pos 5; height = pos 5 };
            confidence = 0;
          }
          ∷ [];
      box = record { x = pos 0; y = pos 0; width = pos 10; height = pos 5 };
      vertical = false;
      confidence = 0;
    })
unfolding parse_line_box line_field parse_rect rect_field set_rect_field line_of line_chars
    is_vertical words_vertical word_chars text_of bounds_of and_then fields field_loop ◌>>=◌ ◌>>◌
    read_tag read_varint varint_loop checked_tag pure nested read_length_delimited read_bytes skip
    skip_field refuse read_fixed32 split_char_boxes split_from part_of division ◌+ℤ◌ ◌-ℤ◌
    int32_of_bits
line_bytes_run = refl
