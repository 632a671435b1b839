-- ===== src/Deconj/Search/Result.antt =====
-- deconjugate() of src/deconj/deconjugator.cpp: the forms and the untouched prefix.
use marupop.Prelude.{
  ℕ, zero, ◌+◌, ◌-◌, ◌*◌, ◌≤◌, ◌≡◌, refl, ap, ◌∙◌, inl, inr, Option, none, some, List, [], ◌∷◌,
  ◌++◌, suc, length, length-append, min, take, Has, All, All-Has, arith,
}
use marupop.Prelude.Text.{Text}
use marupop.Deconj.Rules.{Rule, RuleSet}
use marupop.Deconj.Rules.Buckets.{IsIndexed}
use marupop.Deconj.Search.{Form, Found, seed_form, deconjugate}
use marupop.Deconj.Search.Fewest.{keep_all, keep_all-IsKeptOf}
use marupop.Deconj.Search.Visits.{visits, search_loop-visits, found_in, shortest_of}
use marupop.Deconj.Search.Derivation.{Derives, start, step, IsDerived}
use marupop.Deconj.Search.Complete.{IsClosed, visits-IsClosed, visits-starts}
use marupop.Deconj.Search.Ends.{Descends, visits-end}
use marupop.Deconj.Search.Optimal.{
  derives-visited, Solves, seed-IsDerived, seed-Stored, kept-Solves, visits-IsDerived,
}

-- A bound on the generations for a bound on the ranks.
abbrev pub generations_for : ℕ → ℕ
generations_for bound = suc bound * 8 + 1

-- The result of the loop, from what is found.
abbrev pub result_of : RuleSet → Option Found → Option (List Form × ℕ)
result_of rules none = none
result_of rules (some found) = some (found.processed, found.shortest - rules.longest_con_end)

deconjugate-visits :
    (fuel : ℕ) (rules : RuleSet) (text : Text) (vs : List Form)
    → visits fuel rules (seed_form text ∷ []) 0 ≡ some vs
    → deconjugate fuel rules text
      ≡ some (keep_all [] vs, shortest_of (length text) vs - rules.longest_con_end)
unfolding deconjugate
deconjugate-visits fuel rules text vs e =
    let found : Found = record { processed = []; shortest = length text } in
    ap
      (λ (o : Option Found). elim o [
        | none ↦ none
        | some found ↦ some (found.processed, found.shortest - rules.longest_con_end)
      ])
      (search_loop-visits fuel rules (seed_form text ∷ []) found 0 ∙ ap (found_in found) e)

shortest_of-le : (n : ℕ) (vs : List Form) → shortest_of n vs ≤ n
unfolding shortest_of
shortest_of-le n [] = omega arith
shortest_of-le n (v ∷ vs) = omega (arith, shortest_of-le (min n (length v.text)) vs)

shortest_of-Has : (n : ℕ) (vs : List Form) (v : Form) → Has vs v → shortest_of n vs ≤ length v.text
unfolding shortest_of
shortest_of-Has n [] v h = elim h [ ]
shortest_of-Has n (w ∷ vs) v (inl e) =
    let k : length w.text ≡ length v.text = ap (λ (f : Form). length f.text) e in
    omega (arith, shortest_of-le (min n (length w.text)) vs)
shortest_of-Has n (w ∷ vs) v (inr h) = shortest_of-Has (min n (length w.text)) vs v h

take-prefix : (n : ℕ) (s t u : Text) → n ≤ length s → take n (s ++ t) ≡ take n (s ++ u)
take-prefix zero s t u h = refl
take-prefix (suc n) [] t u h = absurd (omega arith)
take-prefix (suc n) (c ∷ s) t u h = ap (λ x. c ∷ x) (take-prefix n s t u (omega arith))

-- Where no derived text is shorter than the prefix and an ending, no step touches the prefix.
prefix_kept :
    (n longest : ℕ) (rs : List Rule) (text : Text)
    → All (λ r. length r.con_end ≤ longest) rs
    → ((t tag : Text) (details : List Text)
        → Derives rs text t tag details
        → n ≤ length t - longest)
    → (t tag : Text) (details : List Text) → Derives rs text t tag details
    → take n t ≡ take n text
prefix_kept n longest rs text all short t tag ds start = refl
prefix_kept n longest rs text all short t tag ds
      (step {tag = before} {details = details} stem r d virtual first permits full few) =
    let a = All-Has (λ r. length r.con_end ≤ longest) rs r all virtual in
    let b = short (stem ++ r.con_end) before details d in
    let l = length-append stem r.con_end in
    take-prefix n stem r.dec_end r.con_end (omega arith)
    ∙ prefix_kept n longest rs text all short (stem ++ r.con_end) before details d

-- The visited forms of a search, with what is known of them.
record Searched (fuel : ℕ) (rules : RuleSet) (text : Text) : Type 0 where
  vs : List Form
  visited : visits fuel rules (seed_form text ∷ []) 0 ≡ some vs
  seed : Has vs (seed_form text)
  derived : All (IsDerived rules text) vs
  closed : IsClosed rules vs vs

search_ends :
    (rank : Text → ℕ) (bound : ℕ) (rules : RuleSet)
    → All (Descends rank bound) rules.virtual_rules
    → IsIndexed rules
    → (text : Text) → Searched (generations_for bound) rules text
search_ends rank bound rules descends indexed text =
    let (vs, e) = visits-end rank bound rules descends indexed text in
    let n = generations_for bound in
    record {
      vs = vs;
      visited = e;
      seed = visits-starts n rules (seed_form text ∷ []) 0 vs e (seed_form text) (inl refl);
      derived =
          visits-IsDerived rules text indexed n (seed_form text ∷ []) 0 vs
            (seed-IsDerived rules text, tt) e;
      closed =
          visits-IsClosed n rules (seed_form text ∷ []) 0 vs [] indexed (seed-Stored text, tt) refl
            e;
    }

-- Where the rules without a proper detail lead down in a rank of the tags, deconjugate() returns
-- within eight generations for each rank and one more, and its forms solve the search: each is
-- derived from the text by the virtual rules, with its path and step count, and has a terminal word
-- class; no derivation of its text and class has fewer proper steps; and each text and terminal
-- class that has a derivation has a form.
pub deconjugate-Solves :
    (rank : Text → ℕ) (bound : ℕ) (rules : RuleSet)
    → All (Descends rank bound) rules.virtual_rules
    → IsIndexed rules
    → (text : Text)
    → (ps : List Form) × (n : ℕ) × (deconjugate (generations_for bound) rules text ≡ some (ps, n))
      × Solves rules text ps
deconjugate-Solves rank bound rules descends indexed text =
    let s = search_ends rank bound rules descends indexed text in
    (
      keep_all [] s.vs,
      shortest_of (length text) s.vs - rules.longest_con_end,
      deconjugate-visits (generations_for bound) rules text s.vs s.visited,
      kept-Solves rules text s.vs (keep_all [] s.vs) (keep_all-IsKeptOf s.vs) s.seed s.derived
          s.closed,
    )

-- For rules whose improper steps lead down in a rank of the tags, the second result of
-- deconjugate() is a number of code units that each derived text shares with the searched text at
-- its start.
pub deconjugate-untouched :
    (rank : Text → ℕ) (bound : ℕ) (rules : RuleSet)
    → All (Descends rank bound) rules.virtual_rules
    → IsIndexed rules
    → (text t tag : Text) (details : List Text) → Derives rules.virtual_rules text t tag details
    → (ps : List Form) × (n : ℕ) × (deconjugate (generations_for bound) rules text ≡ some (ps, n))
      × (take n t ≡ take n text)
deconjugate-untouched rank bound rules descends indexed text t tag details d =
    let s = search_ends rank bound rules descends indexed text in
    let longest = rules.longest_con_end in
    let n = shortest_of (length text) s.vs - longest in
    (
      keep_all [] s.vs,
      n,
      deconjugate-visits (generations_for bound) rules text s.vs s.visited,
      prefix_kept n longest rules.virtual_rules text indexed.longest
          (λ u tag details x.
            let (v, a, e, _, _) = derives-visited rules text s.vs s.seed s.derived s.closed x in
            let k = shortest_of-Has (length text) s.vs v a in
            let l : length v.text ≡ length u = ap length e in omega arith)
          t tag details d,
    )
