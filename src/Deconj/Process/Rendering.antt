-- ===== src/Deconj/Process/Rendering.antt =====
-- What the texts of src/deconj/deconjugator.cpp show of the paths.
use marupop.Prelude.{
  ℕ, ◌≡◌, refl, sym, ap, ◌∙◌, true, false, Option, none, some, List, [], ◌∷◌, ◌++◌, append_assoc,
  append-nil,
}
use marupop.Prelude.Text.{after_each, join, Text, codes}
use marupop.Deconj.Process.{
  Process, null, node, shown_step, arrow, append_step, is_shown, format_from, formatted_process,
  append_path, text_from, deconjugation_process_text,
}

abbrev pub cons_some : Option Text → List Text → List Text
cons_some none ts = ts
cons_some (some t) ts = t ∷ ts

-- The steps that a path shows, from the leaf to the root.
unfoldable pub shown_steps : Process → List Text
shown_steps null = []
shown_steps (node a parent detail n) = cons_some (shown_step parent detail) (shown_steps parent)

append_four : (a b c d : Text) → (a ++ (b ++ c)) ++ d ≡ a ++ (b ++ (c ++ d))
append_four a b c d = append_assoc a (b ++ c) d ∙ ap (λ t. a ++ t) (append_assoc b c d)

one_more :
    (parent : Process) (rendered : Text) (step : Option Text)
    → ((r : Text) → format_from r true parent ≡ r ++ after_each arrow (shown_steps parent))
    → format_from (append_step rendered true step) (is_shown true step) parent
      ≡ rendered ++ after_each arrow (cons_some step (shown_steps parent))
unfolding after_each
one_more parent rendered none h = h rendered
one_more parent rendered (some step) h =
    h (rendered ++ (arrow ++ step))
    ∙ append_four rendered arrow step (after_each arrow (shown_steps parent))

format_from-after_each :
    (p : Process) (rendered : Text)
    → format_from rendered true p ≡ rendered ++ after_each arrow (shown_steps p)
unfolding format_from shown_steps after_each
format_from-after_each null rendered = sym (append-nil rendered)
format_from-after_each (node a parent detail n) rendered =
    one_more parent rendered (shown_step parent detail) (format_from-after_each parent)

first_step :
    (parent : Process) (step : Option Text)
    → format_from [] false parent ≡ join arrow (shown_steps parent)
    → format_from (append_step [] false step) (is_shown false step) parent
      ≡ join arrow (cons_some step (shown_steps parent))
unfolding join
first_step parent none h = h
first_step parent (some step) h = format_from-after_each parent step

-- A path is shown as its steps from the leaf to the root, an arrow between two of them, where the
-- steps are the details that are not empty, an inner parenthesised detail left out and a
-- parenthesised detail of the root without its parentheses.
pub formatted_process-join : (p : Process) → formatted_process p ≡ join arrow (shown_steps p)
unfolding formatted_process format_from shown_steps join
formatted_process-join null = refl
formatted_process-join (node a parent detail n) =
    first_step parent (shown_step parent detail) (formatted_process-join parent)

abbrev pub cons_non_empty : Text → List Text → List Text
cons_non_empty [] ts = ts
cons_non_empty (c ∷ cs) ts = (c ∷ cs) ∷ ts

-- The paths that are shown as some text.
unfoldable pub renderings : List Process → List Text
renderings [] = []
renderings (path ∷ paths) = cons_non_empty (join arrow (shown_steps path)) (renderings paths)

unfoldable pub headed : List Text → Text
headed [] = []
headed (t ∷ ts) = codes "～" ++ join (codes "; ") (t ∷ ts)

one_more_path :
    (c : ℕ) (cs t : Text) (paths : List Process)
    → ((ds : Text)
        → text_from (c ∷ ds) paths ≡ (c ∷ ds) ++ after_each (codes "; ") (renderings paths))
    → text_from (append_path (c ∷ cs) t) paths
      ≡ (c ∷ cs) ++ after_each (codes "; ") (cons_non_empty t (renderings paths))
unfolding after_each
one_more_path c cs [] paths h = h cs
one_more_path c cs (d ∷ ds) paths h =
    h (cs ++ (codes "; " ++ d ∷ ds))
    ∙ append_four (c ∷ cs) (codes "; ") (d ∷ ds) (after_each (codes "; ") (renderings paths))

text_from-after_each :
    (paths : List Process) (c : ℕ) (cs : Text)
    → text_from (c ∷ cs) paths ≡ (c ∷ cs) ++ after_each (codes "; ") (renderings paths)
unfolding text_from renderings after_each
text_from-after_each [] c cs = sym (append-nil (c ∷ cs))
text_from-after_each (path ∷ paths) c cs =
    ap (λ t. text_from (append_path (c ∷ cs) t) paths) (formatted_process-join path)
    ∙ one_more_path c cs (join arrow (shown_steps path)) paths (text_from-after_each paths c)

first_path :
    (t : Text) (paths : List Process)
    → text_from [] paths ≡ headed (renderings paths)
    → text_from (append_path [] t) paths ≡ headed (cons_non_empty t (renderings paths))
unfolding headed join
first_path [] paths h = h
first_path (d ∷ ds) paths h = text_from-after_each paths _ (d ∷ ds)

-- The text of several paths is empty where none shows a step, and else a wave dash and the paths
-- that show one, each as its shown steps from the leaf to the root with arrows between them, with
-- a semicolon and a space between two paths.
pub deconjugation_process_text-headed :
    (paths : List Process) → deconjugation_process_text paths ≡ headed (renderings paths)
unfolding deconjugation_process_text text_from renderings headed
deconjugation_process_text-headed [] = refl
deconjugation_process_text-headed (path ∷ paths) =
    ap (λ t. text_from (append_path [] t) paths) (formatted_process-join path)
    ∙ first_path (join arrow (shown_steps path)) paths (deconjugation_process_text-headed paths)
