-- ===== src/Ocr/Shapes.antt =====
-- The shapes of src/ocr/ocrtypes.h that a line has, and what the parsers call of Qt. A float is its
-- 32-bit pattern.
use marupop.Prelude.{ℕ, Bool, List}
use marupop.Prelude.Int.{ℤ, pos}
use marupop.Dict.Records.{Text}

pub record Rect : Type 0 where
  pub x : ℤ
  pub y : ℤ
  pub width : ℤ
  pub height : ℤ

-- What the parsers call of Qt.
pub record Qt : Type 0 where
  pub from_utf8 : List ℕ → Text
  pub to_ucs4 : Text → List ℕ
  pub is_valid : Rect → Bool
  pub united : Rect → Rect → Rect

pub record CharBox : Type 0 where
  pub code_point : ℕ
  pub box : Rect
  pub confidence : ℕ

pub record TextLine : Type 0 where
  pub text : Text
  pub chars : List CharBox
  pub box : Rect
  pub vertical : Bool
  pub confidence : ℕ

abbrev pub no_rect : Rect
no_rect = record { x = pos 0; y = pos 0; width = pos 0; height = pos 0 }
