-- ===== src/Deconj/Rules/Buckets.antt =====
-- The buckets of src/deconj/deconjugator.cpp against the list of all virtual rules.
use marupop.Prelude.{
  ℕ, zero, suc, ◌+◌, ◌≤◌, ◌≡◌, refl, sym, ap, ◌∙◌, subst, Bool, true, false, ◌&&◌, Option, none,
  some, List, [], ◌∷◌, ◌++◌, arith, ◌==◌, length, if◌then◌else◌, if_true, if_false, Bool-cases, inl,
  inr, All, All-append,
}
use marupop.Prelude.Text.{Text, text_eq}
use marupop.Deconj.Rules.{
  Rule, RawRule, RuleBucket, RuleSet, new_rule_set, add_to_bucket, add_at, add_virtual_rule, back,
  larger, virtual_rule, expand_from, expand, load_from_json, Loaded, ok, ◌>>=◌, refused, Document,
  json_array, parse_error, no_array, read_raw_rules,
}

-- The rules of a list that pass a test, in their order.
unfoldable pub select : (Rule → Bool) → List Rule → List Rule
select test [] = []
select test (r ∷ rs) = if test r then r ∷ select test rs else select test rs

select-snoc :
    (test : Rule → Bool) (rs : List Rule) (r : Rule)
    → select test (rs ++ r ∷ []) ≡ (if test r then select test rs ++ r ∷ [] else select test rs)
unfolding select
select-snoc test [] r = refl
select-snoc test (q ∷ qs) r = ground (arith, select-snoc test qs r)

abbrev pub is_last : Option ℕ → ℕ → Bool
is_last none c = false
is_last (some d) c = d == c

abbrev pub ends_in : ℕ → Rule → Bool
ends_in c r = is_last (back r.con_end) c

abbrev pub has_no_end : Option ℕ → Bool
has_no_end none = true
has_no_end (some c) = false

abbrev pub is_free : Rule → Bool
is_free r = has_no_end (back r.con_end)

-- A bucket holds the rules of `rs` that pass the test, and those of each con_tag among them.
pub record IsBucket (test : Rule → Bool) (rs : List Rule) (b : RuleBucket) : Type 0 where
  pub all : b.all_rules ≡ select test rs
  pub tagged :
      (tag : Text) → b.rules_by_con_tag tag ≡ select (λ r. test r && text_eq r.con_tag tag) rs

-- The index of a rule set is that of its virtual rules.
pub record IsIndexed (set : RuleSet) : Type 0 where
  pub by_last : (c : ℕ) → IsBucket (ends_in c) set.virtual_rules (set.by_last_con_end_char c)
  pub free : IsBucket is_free set.virtual_rules set.empty_con_end
  pub longest : All (λ r. length r.con_end ≤ set.longest_con_end) set.virtual_rules

guarded :
    (p q : Bool) (l s : List Rule) (r : Rule)
    → p ≡ true
    → l ≡ s
    → (if q then l ++ r ∷ [] else l) ≡ (if p && q then s ++ r ∷ [] else s)
guarded p q l s r e f = ground arith

unguarded : (p q : Bool) → p ≡ false → (p && q) ≡ false
unguarded p q e = ground arith

-- A rule that passes the test, added to the bucket, and one that does not, left out.
IsBucket-added :
    (test : Rule → Bool) (rs : List Rule) (b : RuleBucket) (r : Rule)
    → test r ≡ true
    → IsBucket test rs b
    → IsBucket test (rs ++ r ∷ []) (add_to_bucket r b)
unfolding add_to_bucket
IsBucket-added test rs b r e i = record {
  all = ap (λ l. l ++ r ∷ []) i.all ∙ sym (select-snoc test rs r ∙ if_true _ e);
  tagged = λ tag.
      guarded (test r) (text_eq r.con_tag tag) (b.rules_by_con_tag tag) _ r e (i.tagged tag)
      ∙ sym (select-snoc (λ r. test r && text_eq r.con_tag tag) rs r);
}

IsBucket-left :
    (test : Rule → Bool) (rs : List Rule) (b : RuleBucket) (r : Rule)
    → test r ≡ false
    → IsBucket test rs b
    → IsBucket test (rs ++ r ∷ []) b
IsBucket-left test rs b r e i = record {
  all = i.all ∙ sym (select-snoc test rs r ∙ if_false _ e);
  tagged = λ tag.
      i.tagged tag
      ∙ sym (
          select-snoc (λ r. test r && text_eq r.con_tag tag) rs r
          ∙ if_false _ (unguarded (test r) (text_eq r.con_tag tag) e));
}

All-le :
    (m n : ℕ) (rs : List Rule)
    → m ≤ n
    → All (λ r. length r.con_end ≤ m) rs
    → All (λ r. length r.con_end ≤ n) rs
All-le m n [] h k = tt
All-le m n (r ∷ rs) h (k, ks) = (omega arith, All-le m n rs h ks)

longest-added :
    (rs : List Rule) (r : Rule) (n : ℕ)
    → All (λ r. length r.con_end ≤ n) rs
    → All (λ q. length q.con_end ≤ larger n (length r.con_end)) (rs ++ r ∷ [])
longest-added rs r n h =
    let m = larger n (length r.con_end) in
    All-append (λ q. length q.con_end ≤ m) rs (r ∷ []) (All-le n m rs (ground arith) h)
      (ground arith, tt)

-- The rule goes where its last character says, and nowhere else.
add_at-IsIndexed :
    (o : Option ℕ) (r : Rule) (set : RuleSet)
    → back r.con_end ≡ o
    → IsIndexed set
    → IsIndexed (
        add_at o r (record set {
          virtual_rules = set.virtual_rules ++ r ∷ [];
          longest_con_end = larger set.longest_con_end (length r.con_end);
        }))
unfolding add_at
add_at-IsIndexed none r set e i = record {
  by_last = λ c.
      IsBucket-left (ends_in c) set.virtual_rules (set.by_last_con_end_char c) r
        (ap (λ o. is_last o c) e) (i.by_last c);
  free = IsBucket-added is_free set.virtual_rules set.empty_con_end r (ap has_no_end e) i.free;
  longest = longest-added set.virtual_rules r set.longest_con_end i.longest;
}
add_at-IsIndexed (some d) r set e i = record {
  by_last = λ c.
      let bucket = set.by_last_con_end_char c in
      let test : ends_in c r ≡ (d == c) = ap (λ o. is_last o c) e in
      elim (Bool-cases (d == c)) [
        | inl t ↦
            subst (IsBucket (ends_in c) (set.virtual_rules ++ r ∷ [])) (sym (if_true bucket t))
              (IsBucket-added (ends_in c) set.virtual_rules bucket r (test ∙ t) (i.by_last c))
        | inr f ↦
            subst (IsBucket (ends_in c) (set.virtual_rules ++ r ∷ []))
              (sym (if_false (add_to_bucket r bucket) f))
              (IsBucket-left (ends_in c) set.virtual_rules bucket r (test ∙ f) (i.by_last c))
      ];
  free = IsBucket-left is_free set.virtual_rules set.empty_con_end r (ap has_no_end e) i.free;
  longest = longest-added set.virtual_rules r set.longest_con_end i.longest;
}

add_virtual_rule-IsIndexed :
    (r : Rule) (set : RuleSet) → IsIndexed set → IsIndexed (add_virtual_rule r set)
unfolding add_virtual_rule
add_virtual_rule-IsIndexed r set i = add_at-IsIndexed (back r.con_end) r set refl i

expand_from-IsIndexed :
    (raw : RawRule) (rounds i : ℕ) (set : RuleSet)
    → IsIndexed set
    → IsIndexed (expand_from raw rounds i set)
unfolding expand_from
expand_from-IsIndexed raw zero i set x = x
expand_from-IsIndexed raw (suc rounds) i set x =
    expand_from-IsIndexed raw rounds (i + 1) (add_virtual_rule (virtual_rule raw i) set)
      (add_virtual_rule-IsIndexed (virtual_rule raw i) set x)

pub expand-IsIndexed :
    (raws : List RawRule) (set : RuleSet) → IsIndexed set → IsIndexed (expand raws set)
unfolding expand
expand-IsIndexed [] set x = x
expand-IsIndexed (raw ∷ raws) set x =
    expand-IsIndexed raws (expand_from raw (length raw.con_ends) 0 set)
      (expand_from-IsIndexed raw (length raw.con_ends) 0 set x)

pub new_rule_set-IsIndexed : (n : ℕ) → IsIndexed (record new_rule_set { rule_count = n })
unfolding new_rule_set select
new_rule_set-IsIndexed n = record {
  by_last = λ c. record { all = refl; tagged = λ tag. refl };
  free = record { all = refl; tagged = λ tag. refl };
  longest = tt;
}

-- What loading gives: an indexed rule set, or an error.
abbrev pub LoadsIndexed : Loaded RuleSet → Type 0
LoadsIndexed (ok set) = IsIndexed set
LoadsIndexed (refused e) = Unit

loaded :
    (r : Loaded (List RawRule)) (f : List RawRule → RuleSet)
    → ((raws : List RawRule) → IsIndexed (f raws))
    → LoadsIndexed (r >>= λ raws. ok (f raws))
loaded (ok raws) f h = h raws
loaded (refused e) f h = tt

-- In every rule set that loads, the bucket of a character holds exactly the virtual rules whose
-- con_end ends on it, in file order, and under each tag exactly those of them whose con_tag it is;
-- the bucket without a character holds those with an empty con_end in the same way; and no con_end is
-- longer than longest_con_end.
pub load_from_json-LoadsIndexed : (d : Document) → LoadsIndexed (load_from_json d)
unfolding load_from_json
load_from_json-LoadsIndexed parse_error = tt
load_from_json-LoadsIndexed no_array = tt
load_from_json-LoadsIndexed (json_array es) =
    loaded (read_raw_rules 0 es)
      (λ raws. expand raws (record new_rule_set { rule_count = length raws }))
      (λ raws. expand-IsIndexed raws _ (new_rule_set-IsIndexed (length raws)))
