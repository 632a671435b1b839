-- ===== src/Deconj/Search/Complete.antt =====
-- The forms that src/deconj/deconjugator.cpp visits are closed under the rules that apply to them.
use marupop.Prelude.{
  ℕ, zero, suc, ◌≡◌, refl, sym, ap, ◌∙◌, subst, inl, inr, Bool, true, false, Option, none, some,
  List, [], ◌∷◌, ◌++◌, length, Has, Has-append, Has-append_left, Has-append_right, All,
  Option-cases, arith,
}
use marupop.Prelude.Text.{Text}
use marupop.Deconj.Rules.{Rule, RuleBucket, RuleSet, back, bucket_for_last_char}
use marupop.Deconj.Rules.Buckets.{IsBucket, IsIndexed, ends_in, is_free, is_last, has_no_end}
use marupop.Deconj.Process.{Process}
use marupop.Deconj.Search.{
  Form, NewForms, applies, stem_of, rules_for, apply_bucket, apply_last, expand_form,
}
use marupop.Deconj.Search.Visits.{visits, append_visits, expand_all, no_forms}
use marupop.Deconj.Search.Derivation.{applies-Applied}
use marupop.Deconj.Search.Expanded.{Allows}
use marupop.Deconj.Search.Store.{
  Stored, Stored-append, IsStore, Grown, Grown-self, Grown-trans, HasRealised,
}
use marupop.Deconj.Search.Closed.{apply_rules-Completed, HasRealised-keeps, Allows-rules_for}

back-append : (s t : Text) (c : ℕ) → back t ≡ some c → back (s ++ t) ≡ some c
back-append [] t c e = e
back-append (x ∷ []) [] c e = cc
back-append (x ∷ []) (d ∷ t) c e = e
back-append (x ∷ y ∷ s) t c e = back-append (y ∷ s) t c e

-- A vector that has grown, with a form for each allowed rule that passes a test and applies.
record Closes (rules : RuleSet) (f : Form) (test : Rule → Bool) (store : List Process)
    (before after : NewForms) : Type 0 where
  grown : Grown store before after
  realised :
      (r : Rule)
      → Allows rules f r
      → test r ≡ true
      → applies f r ≡ true
      → HasRealised f r after.forms

apply_bucket-Closes :
    (rules : RuleSet) (f : Form) (test : Rule → Bool) (b : RuleBucket) (store : List Process)
    (new : NewForms)
    → IsBucket test rules.virtual_rules b
    → Stored store f.process
    → IsStore store new
    → Closes rules f test store new (apply_bucket f b new)
unfolding apply_bucket
apply_bucket-Closes rules f test b store new i h s =
    let c = apply_rules-Completed (rules_for f b) store f new h s in
    record {
      grown = c.grown;
      realised = λ r a t e. c.realised r (Allows-rules_for rules f test b r i a t) e;
    }

abbrev ends_with : Option ℕ → Rule → Bool
ends_with none r = false
ends_with (some c) r = ends_in c r

apply_last-Closes :
    (rules : RuleSet) (f : Form) (o : Option ℕ) (store : List Process) (new : NewForms)
    → IsIndexed rules
    → Stored store f.process
    → IsStore store new
    → Closes rules f (ends_with o) store new (apply_last o rules f new)
unfolding bucket_for_last_char
apply_last-Closes rules f none store new i h s = record {
  grown = Grown-self store new s;
  realised = λ r a t e. cc;
}
apply_last-Closes rules f (some c) store new i h s =
    apply_bucket-Closes rules f (ends_in c) (rules.by_last_con_end_char c) store new (i.by_last c) h
      s

-- A rule that applies and has an ending ends on the form's last character.
applies-ends_with :
    (f : Form) (r : Rule) (c : ℕ)
    → applies f r ≡ true
    → back r.con_end ≡ some c
    → ends_with (back f.text) r ≡ true
applies-ends_with f r c e b =
    let x = applies-Applied f r e in
    let g : back f.text ≡ some c = ap back x.stem ∙ back-append (stem_of f.text r) r.con_end c b in
    ap (λ o. ends_with o r) g ∙ (ap (λ o. is_last o c) b ∙ ground arith)

abbrev always : Rule → Bool
always r = true

expand_form-Closes :
    (rules : RuleSet) (f : Form) (store : List Process) (new : NewForms)
    → IsIndexed rules
    → Stored store f.process
    → IsStore store new
    → Closes rules f always store new (expand_form rules f new)
unfolding expand_form
expand_form-Closes rules f store new i h s =
    let mid = apply_last (back f.text) rules f new in
    let last = apply_last-Closes rules f (back f.text) store new i h s in
    let more = last.grown.more in
    let free =
      apply_bucket-Closes rules f is_free rules.empty_con_end (store ++ more) mid i.free
        (Stored-append store more f.process h) last.grown.is_store in
    let after = apply_bucket f rules.empty_con_end mid in
    record {
      grown = Grown-trans store new mid after last.grown free.grown;
      realised = λ r a t e. elim (Option-cases (back r.con_end)) [
        | inl n ↦ free.realised r a (ap has_no_end n) e
        | inr (c, b) ↦
            HasRealised-keeps (store ++ more) f r mid after free.grown
              (last.realised r a (applies-ends_with f r c e b) e)
      ];
    }

-- Every form of `fs` has a form in `ws` for each rule that may consume it and applies.
abbrev pub IsClosed : RuleSet → List Form → List Form → Type 0
IsClosed rules fs ws =
    (f : Form) → Has fs f → (r : Rule) → Allows rules f r → applies f r ≡ true → HasRealised f r ws

abbrev AllStored : List Process → List Form → Type 0
AllStored store fs = All (λ f. Stored store f.process) fs

AllStored-append :
    (store more : List Process) (fs : List Form) → AllStored store fs → AllStored (store ++ more) fs
AllStored-append store more [] h = tt
AllStored-append store more (f ∷ fs) (h, hs) =
    (Stored-append store more f.process h, AllStored-append store more fs hs)

expand_all-Closed :
    (rules : RuleSet) (fs : List Form) (store : List Process) (new : NewForms)
    → IsIndexed rules
    → AllStored store fs
    → IsStore store new
    → Grown store new (expand_all rules fs new) × IsClosed rules fs (expand_all rules fs new).forms
unfolding expand_all
expand_all-Closed rules [] store new i h s = (Grown-self store new s, λ f g. elim g [ ])
expand_all-Closed rules (f ∷ fs) store new i (h, hs) s =
    let mid = expand_form rules f new in
    let c = expand_form-Closes rules f store new i h s in
    let more = c.grown.more in
    let (g, k) =
      expand_all-Closed rules fs (store ++ more) mid i (AllStored-append store more fs hs)
        c.grown.is_store in
    (
      Grown-trans store new mid (expand_all rules fs mid) c.grown g,
      λ q m. elim m [
        | inl d ↦
            subst
              (λ q.
                (r : Rule)
                → Allows rules q r
                → applies q r ≡ true
                → HasRealised q r (expand_all rules fs mid).forms)
              d
              (λ r a e.
                HasRealised-keeps (store ++ more) f r mid (expand_all rules fs mid) g
                  (c.realised r a refl e))
        | inr m ↦ k q m
      ],
    )

pub visits-starts :
    (n : ℕ) (rules : RuleSet) (fs : List Form) (next : ℕ) (vs : List Form)
    → visits n rules fs next ≡ some vs
    → (f : Form) → Has fs f
    → Has vs f
unfolding visits
visits-starts n rules [] next vs e f h = elim h [ ]
visits-starts zero rules (g ∷ gs) next vs e f h = cc
visits-starts (suc n) rules (g ∷ gs) next vs e f h =
    let new = expand_all rules (g ∷ gs) (no_forms next) in
    elim (Option-cases (visits n rules new.forms new.next)) [
      | inl d ↦
          (let x : append_visits (g ∷ gs) none ≡ some vs =
              ap (append_visits (g ∷ gs)) (sym d) ∙ e in
            cc)
      | inr (us, d) ↦
          (let x : append_visits (g ∷ gs) (some us) ≡ some vs =
              ap (append_visits (g ∷ gs)) (sym d) ∙ e in
            let y : (g ∷ gs) ++ us ≡ vs = cc in
            subst (λ (l : List Form). Has l f) y (Has-append_left (g ∷ gs) us f h))
    ]

HasRealised-right :
    (f : Form) (r : Rule) (us ws : List Form) → HasRealised f r ws → HasRealised f r (us ++ ws)
HasRealised-right f r us ws (w, h, x) = (w, Has-append_right us ws w h, x)

pub visits-IsClosed :
    (n : ℕ) (rules : RuleSet) (fs : List Form) (next : ℕ) (vs : List Form) (store : List Process)
    → IsIndexed rules
    → AllStored store fs
    → next ≡ length store
    → visits n rules fs next ≡ some vs
    → IsClosed rules vs vs
unfolding visits
visits-IsClosed n rules [] next vs store i h s e =
    let y : [] ≡ vs = cc in
    let k : IsClosed rules [] [] = λ f h. elim h [ ] in
    subst (λ (vs : List Form). IsClosed rules vs vs) y k
visits-IsClosed zero rules (g ∷ gs) next vs store i h s e = cc
visits-IsClosed (suc n) rules (g ∷ gs) next vs store i h s e =
    let fs = g ∷ gs in
    let new = expand_all rules fs (no_forms next) in
    let (grown, closed) =
      expand_all-Closed rules fs store (no_forms next) i h (record { size = s; stored = tt }) in
    elim (Option-cases (visits n rules new.forms new.next)) [
      | inl d ↦ (let x : append_visits fs none ≡ some vs = ap (append_visits fs) (sym d) ∙ e in cc)
      | inr (us, d) ↦
          (let x : append_visits fs (some us) ≡ some vs = ap (append_visits fs) (sym d) ∙ e in
            let y : fs ++ us ≡ vs = cc in
            let k =
              visits-IsClosed n rules new.forms new.next us (store ++ grown.more) i
                grown.is_store.stored grown.is_store.size d in
            subst (λ (vs : List Form). IsClosed rules vs vs) y
              (λ f m r a t. elim (Has-append fs us f m) [
                | inl m ↦
                    (let (w, b, z) = closed f m r a t in
                      (
                        w,
                        Has-append_right fs us w
                            (visits-starts n rules new.forms new.next us d w b),
                        z,
                      ))
                | inr m ↦ HasRealised-right f r fs us (k f m r a t)
              ]))
    ]
