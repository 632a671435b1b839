-- ===== src/Deconj/Process/Tests.antt =====
-- The texts of src/deconj/deconjugator.cpp for some paths, and the theorems at them.
use marupop.Prelude.{◌≡◌, refl, [], ◌∷◌}
use marupop.Prelude.Text.{join, codes}
use marupop.Deconj.Process.{
  Process, null, node, arrow, shown_step, format_from, formatted_process, text_from,
  deconjugation_process_text,
}
use marupop.Deconj.Process.Rendering.{
  shown_steps, formatted_process-join, headed, renderings, deconjugation_process_text-headed,
}

-- A hidden stem between two proper steps, and a path that shows nothing.
abbrev polite_past : Process
polite_past =
    node 2 (node 1 (node 0 null (codes "past") 1) (codes "(masu stem)") 1) (codes "polite") 2

abbrev silent : Process
silent = node 3 null (codes "()") 1

abbrev stem_only : Process
stem_only = node 4 null (codes "(te)") 1

shown_polite : formatted_process polite_past ≡ codes "polite→past"
unfolding formatted_process format_from shown_step
shown_polite = refl

shown_paths :
    deconjugation_process_text (silent ∷ polite_past ∷ silent ∷ stem_only ∷ [])
    ≡ codes "～polite→past; te"
unfolding deconjugation_process_text text_from formatted_process format_from shown_step
shown_paths = refl

formatted_process-join_example :
    formatted_process polite_past ≡ join arrow (shown_steps polite_past)
formatted_process-join_example = formatted_process-join polite_past

deconjugation_process_text-headed_example :
    deconjugation_process_text (silent ∷ polite_past ∷ [])
    ≡ headed (renderings (silent ∷ polite_past ∷ []))
deconjugation_process_text-headed_example =
    deconjugation_process_text-headed (silent ∷ polite_past ∷ [])
