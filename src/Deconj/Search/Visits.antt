-- ===== src/Deconj/Search/Visits.antt =====
-- The forms that the search of src/deconj/deconjugator.cpp visits, apart from those that it keeps.
use marupop.Prelude.{
  ℕ, zero, suc, ◌≡◌, refl, sym, ap, ◌∙◌, Option, none, some, List, [], ◌∷◌, ◌++◌, length, min,
}
use marupop.Deconj.Rules.{RuleSet}
use marupop.Deconj.Search.{Form, NewForms, Found, expand_form, generation, search_loop, accept}
use marupop.Deconj.Search.Fewest.{keep_all}

unfoldable pub expand_all : RuleSet → List Form → NewForms → NewForms
expand_all rules [] new = new
expand_all rules (form ∷ forms) new = expand_all rules forms (expand_form rules form new)

abbrev pub append_visits : List Form → Option (List Form) → Option (List Form)
append_visits forms none = none
append_visits forms (some vs) = some (forms ++ vs)

abbrev pub no_forms : ℕ → NewForms
no_forms next = record { forms = []; next = next }

-- All forms of all generations, in the order of the search.
unfoldable pub visits : ℕ → RuleSet → List Form → ℕ → Option (List Form)
visits fuel rules [] next = some []
visits zero rules (form ∷ forms) next = none
visits (suc fuel) rules (form ∷ forms) next =
    let new = expand_all rules (form ∷ forms) (no_forms next) in
    append_visits (form ∷ forms) (visits fuel rules new.forms new.next)

unfoldable pub shortest_of : ℕ → List Form → ℕ
shortest_of n [] = n
shortest_of n (form ∷ forms) = shortest_of (min n (length form.text)) forms

abbrev pub found_of : Found → List Form → Found
found_of found vs = record {
  processed = keep_all found.processed vs;
  shortest = shortest_of found.shortest vs;
}

generation-visits :
    (rules : RuleSet) (forms : List Form) (found : Found) (new : NewForms)
    → generation rules forms found new ≡ (found_of found forms, expand_all rules forms new)
unfolding generation expand_all keep_all shortest_of
generation-visits rules [] found new = refl
generation-visits rules (form ∷ forms) found new =
    generation-visits rules forms _ (expand_form rules form new)

found_of-append :
    (us vs : List Form) (found : Found)
    → found_of found (us ++ vs) ≡ found_of (found_of found us) vs
unfolding keep_all shortest_of
found_of-append [] vs found = refl
found_of-append (u ∷ us) vs found =
    found_of-append us vs (record {
      processed = accept found.processed u;
      shortest = min found.shortest (length u.text);
    })

abbrev pub found_in : Found → Option (List Form) → Option Found
found_in found none = none
found_in found (some vs) = some (found_of found vs)

found_in-append :
    (found : Found) (us : List Form) (o : Option (List Form))
    → found_in (found_of found us) o ≡ found_in found (append_visits us o)
found_in-append found us none = refl
found_in-append found us (some vs) = ap some (sym (found_of-append us vs found))

-- The loop finds what a pass over all visited forms finds.
pub search_loop-visits :
    (fuel : ℕ) (rules : RuleSet) (forms : List Form) (found : Found) (next : ℕ)
    → search_loop fuel rules forms found next ≡ found_in found (visits fuel rules forms next)
unfolding search_loop visits keep_all shortest_of
search_loop-visits fuel rules [] found next = refl
search_loop-visits zero rules (form ∷ forms) found next = refl
search_loop-visits (suc fuel) rules (form ∷ forms) found next =
    let fs = form ∷ forms in
    let new = expand_all rules fs (no_forms next) in
    ap
      (λ (r : Found × NewForms).
        let (found', new) = r in search_loop fuel rules new.forms found' new.next)
      (generation-visits rules fs found (no_forms next))
    ∙ (search_loop-visits fuel rules new.forms (found_of found fs) new.next
        ∙ found_in-append found fs (visits fuel rules new.forms new.next))
