-- ===== src/Scan/Cache/Lookup.antt =====
-- What find(), insert() and invalidate() answer and leave (src/scan/scancache.cpp).
use mathlib.Core.List.{perm_middle, Perm}
use mathlib.Core.List.Perm
use marupop.Prelude.{
  ℕ, not, ◌&&◌, if◌then◌else◌, arith, ◌-◌, ◌≤◌, ◌≡◌, inl, inr, refl, sym, ap, ◌∙◌, Bool, true,
  false, Option, none, some, List, [], ◌∷◌, if_true, if_false, take, Bool-cases, All,
}
use marupop.Dict.Records.{Double}
use marupop.Scan.Cache.{
  Geometry, CachedScan, ScanCache, matches, remove_if, promoted, take_match, keep_first, find,
  insert, invalidate,
}
use marupop.Scan.Cache.Order.{matches_iff, Taken, take_match-Taken}
use marupop.Scan.Cache.Invariant.{insert-entries}

module _ {g : Geometry} {Content : Type 0} where
  -- A miss leaves the cache as it is, and no entry has the key. A hit has exactly the key, is the
  -- first entry afterwards, and the entries are the same as before.
  abbrev pub Finds :
      g.Rect
      → ℕ
      → ScanCache g Content
      → Option (CachedScan g Content) × ScanCache g Content
      → Type 0
  Finds r h s (none, s') = (s' ≡ s) × All (λ f. matches r h f ≡ false) s.entries
  Finds r h s (some e, s') =
      (e.logical_rect ≡ r)
      × (e.hash ≡ h)
      × (s'.capacity ≡ s.capacity)
      × ((fs : List (CachedScan g Content)) × (s'.entries ≡ e ∷ fs))
      × Perm s'.entries s.entries

  promoted-Finds :
      (r : g.Rect) (h : ℕ) (s : ScanCache g Content)
      (o : Option (CachedScan g Content × List (CachedScan g Content)))
      → Taken r h s.entries o
      → Finds r h s (promoted s o)
  promoted-Finds r h s none t = (refl, t)
  promoted-Finds r h s (some (e, fs)) (before, after, p, q, _, hit) =
      let (eh, er) = (matches_iff r h e).0 hit in
      (er, eh, refl, (fs, refl), rw (p, q) (Perm.symm (perm_middle before after)))

  -- find() answers an entry of exactly the region and the hash that it is asked for and moves it
  -- to the front, or, where no entry has them, answers nothing and changes nothing.
  pub find-Finds : (r : g.Rect) (h : ℕ) (s : ScanCache g Content) → Finds r h s (find r h s)
  unfolding find
  find-Finds r h s =
      promoted-Finds r h s (take_match r h s.entries) (take_match-Taken r h s.entries)

  take_match_first :
      (r : g.Rect) (h : ℕ) (e : CachedScan g Content) (es : List (CachedScan g Content))
      → matches r h e ≡ true
      → take_match r h (e ∷ es) ≡ some (e, es)
  unfolding take_match
  take_match_first r h e es hit = if_true _ hit

  -- find() after insert() answers what was inserted, whatever the cache held, where its capacity
  -- is 1 or more.
  pub find-insert :
      (extent : Content → Double) (r : g.Rect) (h : ℕ) (scale : Double) (result : Content)
      (occluded : g.Rect) (s : ScanCache g Content)
      → 1 ≤ s.capacity
      → (find r h (insert extent r h scale result occluded s)).0
        ≡ some (record {
          logical_rect = r;
          hash = h;
          scale = scale;
          result = result;
          median_char_extent = extent result;
          occluded = occluded;
        })
  unfolding find
  find-insert extent r h scale result occluded s p =
      let e = insert-entries extent r h scale result occluded s p in
      let new : CachedScan g Content = record {
        logical_rect = r;
        hash = h;
        scale = scale;
        result = result;
        median_char_extent = extent result;
        occluded = occluded;
      } in
      let others = take (s.capacity - 1) (remove_if (matches r h) s.entries) in
      let t = insert extent r h scale result occluded s in
      ap (λ es. (promoted t (take_match r h es)).0) e
      ∙ ap (λ o. (promoted t o).0)
          (take_match_first r h new others ((matches_iff r h new).1 (refl, refl)))

  -- What find() answers, of the search and of the state behind it.
  abbrev answer :
      Option (CachedScan g Content × List (CachedScan g Content)) → Option (CachedScan g Content)
  answer none = none
  answer (some (e, es)) = some e

  promoted-answer :
      (s : ScanCache g Content) (o : Option (CachedScan g Content × List (CachedScan g Content)))
      → (promoted s o).0 ≡ answer o
  promoted-answer s none = refl
  promoted-answer s (some (e, es)) = refl

  answer-keep_first :
      (e f : CachedScan g Content)
      (o q : Option (CachedScan g Content × List (CachedScan g Content)))
      → answer o ≡ answer q
      → answer (keep_first e o) ≡ answer (keep_first f q)
  answer-keep_first e f none none h = refl
  answer-keep_first e f none (some x) h = cc
  answer-keep_first e f (some x) none h = cc
  answer-keep_first e f (some (a, others)) (some (b, rest)) h = h

  answer-skipped :
      (e : CachedScan g Content) (o : Option (CachedScan g Content × List (CachedScan g Content)))
      → answer (keep_first e o) ≡ answer o
  answer-skipped e none = refl
  answer-skipped e (some x) = refl

  -- Where every entry of the key is removed, the key is not found; where none is, the same entry is.
  take_match-gone :
      (p : CachedScan g Content → Bool) (q : g.Rect) (h : ℕ) (es : List (CachedScan g Content))
      → ((e : CachedScan g Content) → matches q h e ≡ true → p e ≡ true)
      → answer (take_match q h (remove_if p es)) ≡ none
  unfolding take_match
  take_match-gone p q h [] all = refl
  take_match-gone p q h (e ∷ es) all =
      let rest = take_match-gone p q h es all in
      elim (Bool-cases (p e)) [
        | inl t ↦ ground (arith, rest)
        | inr f ↦ elim (Bool-cases (matches q h e)) [
          | inl m ↦ cc (all e m)
          | inr m ↦
              ap (λ fs. answer (take_match q h fs)) (if_false _ f)
              ∙ ap answer (if_false _ m)
              ∙ answer-skipped e _
              ∙ rest
        ]
      ]

  take_match-kept :
      (p : CachedScan g Content → Bool) (q : g.Rect) (h : ℕ) (es : List (CachedScan g Content))
      → ((e : CachedScan g Content) → matches q h e ≡ true → p e ≡ false)
      → answer (take_match q h (remove_if p es)) ≡ answer (take_match q h es)
  unfolding take_match
  take_match-kept p q h [] all = refl
  take_match-kept p q h (e ∷ es) all =
      let rest = take_match-kept p q h es all in
      elim (Bool-cases (matches q h e)) [
        | inl m ↦
            ap (λ fs. answer (take_match q h fs)) (if_false _ (all e m))
            ∙ ap answer (if_true _ m)
            ∙ sym (ap answer (if_true _ m))
        | inr m ↦ elim (Bool-cases (p e)) [
          | inl t ↦
              ap (λ fs. answer (take_match q h fs)) (if_true _ t)
              ∙ rest
              ∙ sym (answer-skipped e _)
              ∙ sym (ap answer (if_false _ m))
          | inr f ↦
              ap (λ fs. answer (take_match q h fs)) (if_false _ f)
              ∙ ap answer (if_false _ m)
              ∙ answer-keep_first e e _ _ rest
              ∙ sym (ap answer (if_false _ m))
        ]
      ]

  find-answer :
      (q : g.Rect) (h : ℕ) (s : ScanCache g Content)
      → (find q h s).0 ≡ answer (take_match q h s.entries)
  unfolding find
  find-answer q h s = promoted-answer s (take_match q h s.entries)

  -- A lookup after invalidate() misses where its region meets the rectangle and the rectangle is
  -- not empty, and answers what it did before in every other case, among them the empty rectangle.
  pub find-invalidate :
      (r q : g.Rect) (h : ℕ) (s : ScanCache g Content)
      → (find q h (invalidate r s)).0
        ≡ (if not (g.is_empty r) && g.intersects q r then none else (find q h s).0)
  unfolding invalidate
  find-invalidate r q h s =
      let drops = not (g.is_empty r) && g.intersects q r in
      let p = λ (x : CachedScan g Content). g.intersects x.logical_rect r in
      let meets : (b : Bool)
          → g.intersects q r ≡ b
          → (e : CachedScan g Content) → matches q h e ≡ true
          → p e ≡ b =
        λ b i e m. ap (λ x. g.intersects x r) ((matches_iff q h e).0 m).1 ∙ i in
      find-answer q h (invalidate r s) ∙ elim (Bool-cases (g.is_empty r)) [
        | inl t ↦
            ap (λ (u : ScanCache g Content). answer (take_match q h u.entries)) (if_true _ t)
            ∙ sym (find-answer q h s)
            ∙ sym (if_false {b = drops} _ (ground arith))
        | inr f ↦
            ap (λ (u : ScanCache g Content). answer (take_match q h u.entries)) (if_false s f)
            ∙ elim (Bool-cases (g.intersects q r)) [
              | inl t ↦
                  take_match-gone p q h s.entries (meets true t)
                  ∙ sym (if_true {b = drops} _ (ground arith))
              | inr n ↦
                  take_match-kept p q h s.entries (meets false n)
                  ∙ sym (find-answer q h s)
                  ∙ sym (if_false {b = drops} _ (ground arith))
            ]
      ]
