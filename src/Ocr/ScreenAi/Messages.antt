-- ===== src/Ocr/ScreenAi/Messages.antt =====
-- Whole messages for parseVisualAnnotation() of src/ocr/screenaiproto.cpp, unknown fields included.
use marupop.Prelude.{
  ℕ, ◌^◌, ◌<◌, ◌≡◌, refl, sym, ap, ◌∙◌, false, List, [], ◌∷◌, ◌++◌, append_assoc, arith, length,
  All, if_false,
}
use marupop.Ocr.Shapes.{Qt, TextLine}
use marupop.Ocr.Wire.{Outcome, ok, Reader, and_then, ◌>>=◌, pure, field_loop, fields}
use marupop.Ocr.Wire.Format.{
  Value, delimited, IsValue, IsNumber, wire_of, write_value, write_tag, tag_of, nested-write,
  skip_field-write_value,
}
use marupop.Ocr.Wire.Steps.{fields-write, and_then_assoc}
use marupop.Ocr.ScreenAi.{is_field, parse_line_box, annotation_field, parse_visual_annotation}
use marupop.Ocr.ScreenAi.Ends.{annotation_field-IsReader}

-- A field of a VisualAnnotation: a line, by the bytes of its LineBox, or one that the parser does
-- not know.
pub data Item : Type 0 where
  line_item : List ℕ → Item
  other_item : ℕ → Value → Item

unfoldable pub write_item : Item → List ℕ
write_item (line_item scope) = write_tag 2 2 ++ write_value (delimited scope)
write_item (other_item number value) = write_tag number (wire_of value) ++ write_value value

unfoldable pub write_items : List Item → List ℕ
write_items [] = []
write_items (item ∷ items) = write_item item ++ write_items items

abbrev pub IsItem : Item → Type 0
IsItem (line_item scope) = length scope < 2 ^ 64
IsItem (other_item number value) =
    IsNumber number × IsValue value × (is_field (tag_of number (wire_of value)) 2 2 ≡ false)

-- The lines in their order after those that stand, and nothing where one is malformed.
unfoldable pub lines_of : Qt → List TextLine → List Item → Outcome (List TextLine)
lines_of qt lines [] = ok lines
lines_of qt lines (line_item scope ∷ items) =
    and_then (parse_line_box qt scope) (λ line. lines_of qt (lines ++ line ∷ []) items)
lines_of qt lines (other_item number value ∷ items) = lines_of qt lines items

wire_of_lt : (value : Value) → wire_of value < 8
wire_of_lt value = ground arith

module _ (qt : Qt) where
  line_item-fields :
      (scope rest : List ℕ) (lines : List TextLine)
      → length scope < 2 ^ 64
      → fields (annotation_field qt) lines (write_item (line_item scope) ++ rest)
        ≡ and_then
            (parse_line_box qt scope)
            (λ line. fields (annotation_field qt) (lines ++ line ∷ []) rest)
  unfolding annotation_field ◌>>=◌ pure and_then write_item
  line_item-fields scope rest lines h =
      let parsed = parse_line_box qt scope in
      let next : List TextLine → Outcome (List TextLine) =
        λ s. fields (annotation_field qt) s rest in
      ap (fields (annotation_field qt) lines)
        (append_assoc (write_tag 2 2) (write_value (delimited scope)) rest)
      ∙ fields-write (annotation_field qt) (annotation_field-IsReader qt) 2 2
          (write_value (delimited scope)) rest lines
          (and_then parsed (λ line. ok (lines ++ line ∷ []))) (omega arith, omega arith)
          (omega arith)
          (ap (λ o. and_then o (λ p. ok (lines ++ p.0 ∷ [], p.1)))
              (nested-write (parse_line_box qt) scope rest h)
            ∙ and_then_assoc parsed (λ a. ok (a, rest)) (λ p. ok (lines ++ p.0 ∷ [], p.1))
            ∙ sym (and_then_assoc parsed (λ line. ok (lines ++ line ∷ [])) (λ s. ok (s, rest))))
      ∙ and_then_assoc parsed (λ line. ok (lines ++ line ∷ [])) next

  other_item-fields :
      (number : ℕ) (value : Value) (rest : List ℕ) (lines : List TextLine)
      → IsItem (other_item number value)
      → fields (annotation_field qt) lines (write_item (other_item number value) ++ rest)
        ≡ fields (annotation_field qt) lines rest
  unfolding annotation_field and_then write_item
  other_item-fields number value rest lines (h, k, e) =
      ap (fields (annotation_field qt) lines)
        (append_assoc (write_tag number (wire_of value)) (write_value value) rest)
      ∙ fields-write (annotation_field qt) (annotation_field-IsReader qt) number (wire_of value)
          (write_value value) rest lines (ok lines) h (wire_of_lt value)
          (ap (λ (m : Reader (List TextLine)). m (write_value value ++ rest)) (if_false _ e)
            ∙ skip_field-write_value value lines rest k)

  items-fields :
      (items : List Item) (lines : List TextLine)
      → All IsItem items
      → fields (annotation_field qt) lines (write_items items) ≡ lines_of qt lines items
  unfolding write_items lines_of fields field_loop
  items-fields [] lines h = refl
  items-fields (line_item scope ∷ items) lines (h, hs) =
      line_item-fields scope (write_items items) lines h
      ∙ ap (λ k. and_then (parse_line_box qt scope) k)
          (λ i line. items-fields items (lines ++ line ∷ []) hs i)
  items-fields (other_item number value ∷ items) lines (h, hs) =
      other_item-fields number value (write_items items) lines h ∙ items-fields items lines hs

-- A message of well-formed fields, lines and fields unknown to the parser in any order, gives
-- exactly its lines in order, and is malformed where the bytes of a line are.
pub parse_visual_annotation-write_items :
    (qt : Qt) (items : List Item)
    → All IsItem items
    → parse_visual_annotation qt (write_items items) ≡ lines_of qt [] items
unfolding parse_visual_annotation
parse_visual_annotation-write_items qt items h = items-fields qt items [] h
