-- ===== src/Deconj/Process.antt =====
-- The paths of src/deconj/deconjugator.cpp: process nodes and the texts that show them.
pub mod Rendering
mod Tests
use marupop.Prelude.{
  ℕ, ◌-◌, Bool, true, false, ◌&&◌, Option, none, some, List, [], ◌∷◌, ◌++◌, leb, ◌==◌, length, take,
  drop, if◌then◌else◌,
}
use marupop.Prelude.Text.{Text, codes}

-- A ProcessPtr: null, or the address of a node with the parent, the detail and the step count.
pub data Process : Type 0 where
  null : Process
  node : ℕ → Process → Text → ℕ → Process

-- `p.get() == q.get()`.
abbrev pub same_pointer : Process → Process → Bool
same_pointer null null = true
same_pointer null (node b q e n) = false
same_pointer (node a p d m) null = false
same_pointer (node a p d m) (node b q e n) = a == b

unfoldable pub proper_step_count : Process → ℕ
proper_step_count null = 0
proper_step_count (node a parent detail n) = n

abbrev pub starts_with : ℕ → Text → Bool
starts_with c [] = false
starts_with c (d ∷ ds) = d == c

abbrev pub ends_on : ℕ → Text → Bool
ends_on c [] = false
ends_on c (d ∷ []) = d == c
ends_on c (d ∷ e ∷ es) = ends_on c (e ∷ es)

-- '(' is 40 and ')' is 41.
abbrev pub is_parenthesised : Text → Bool
is_parenthesised detail = leb 2 (length detail) && (starts_with 40 detail && ends_on 41 detail)

abbrev pub is_null : Process → Bool
is_null null = true
is_null (node a p d n) = false

abbrev pub non_empty : Text → Option Text
non_empty [] = none
non_empty (c ∷ cs) = some (c ∷ cs)

-- What a node shows of its detail, given its parent; `none` is a `continue`.
unfoldable pub shown_step : Process → Text → Option Text
shown_step parent detail =
    if is_parenthesised detail
    then if is_null parent then non_empty (take (length detail - 2) (drop 1 detail)) else none
    else non_empty detail

-- U+2192.
abbrev pub arrow : Text
arrow = codes "→"

abbrev pub append_step : Text → Bool → Option Text → Text
append_step rendered added none = rendered
append_step rendered true (some step) = rendered ++ (arrow ++ step)
append_step rendered false (some step) = rendered ++ step

abbrev pub is_shown : Bool → Option Text → Bool
is_shown added none = added
is_shown added (some step) = true

unfoldable pub format_from : Text → Bool → Process → Text
format_from rendered added null = rendered
format_from rendered added (node a parent detail n) =
    let step = shown_step parent detail in
    format_from (append_step rendered added step) (is_shown added step) parent

unfoldable pub formatted_process : Process → Text
formatted_process p = format_from [] false p

abbrev pub append_path : Text → Text → Text
append_path text [] = text
append_path [] (c ∷ cs) = codes "～" ++ c ∷ cs
append_path (t ∷ ts) (c ∷ cs) = (t ∷ ts) ++ (codes "; " ++ c ∷ cs)

unfoldable pub text_from : Text → List Process → Text
text_from text [] = text
text_from text (path ∷ paths) = text_from (append_path text (formatted_process path)) paths

unfoldable pub deconjugation_process_text : List Process → Text
deconjugation_process_text paths = text_from [] paths
