-- ===== src/Scan/Cache/Invariant.antt =====
-- The capacity and the distinct keys of the scan cache over its calls
-- (src/scan/scancache.cpp).
use marupop.Prelude.{
  ℕ, suc, ◌-◌, ◌≤◌, ◌≡◌, inl, inr, sym, ap, ◌∙◌, subst, false, Option, none, some, List, [], ◌∷◌,
  if_true, if_false, length, take, length-take, length-append, arith, Bool-cases,
}
use marupop.Dict.Records.{Double}
use marupop.Scan.Cache.{
  Geometry, CachedScan, ScanCache, matches, remove_if, promoted, take_match, new_cache, find,
  insert, clear, invalidate,
}
use marupop.Scan.Cache.Order.{evict-take, Taken, take_match-Taken}
use marupop.Scan.Cache.Distinct.{
  Distinct, removed, remove_if-Distinct, length-remove_if, All-take, take-Distinct, move-Distinct,
}

-- The calls of the scan loop on the cache.
pub data CacheCall (g : Geometry) (Content : Type 0) : Type 0 where
  finds : g.Rect → ℕ → CacheCall g Content
  inserts : (Content → Double) → g.Rect → ℕ → Double → Content → g.Rect → CacheCall g Content
  clears : CacheCall g Content
  invalidates : g.Rect → CacheCall g Content

module _ {g : Geometry} {Content : Type 0} where
  pub record IsValid (s : ScanCache g Content) : Type 0 where
    pub distinct : Distinct s.entries
    pub bounded : length s.entries ≤ s.capacity
    pub positive : 1 ≤ s.capacity

  unfoldable pub cache_step : CacheCall g Content → ScanCache g Content → ScanCache g Content
  cache_step (finds r h) s = (find r h s).1
  cache_step (inserts extent r h scale result occluded) s =
      insert extent r h scale result occluded s
  cache_step clears s = clear s
  cache_step (invalidates r) s = invalidate r s

  unfoldable pub cache_run : List (CacheCall g Content) → ScanCache g Content → ScanCache g Content
  cache_run [] s = s
  cache_run (c ∷ cs) s = cache_run cs (cache_step c s)

  promoted-IsValid :
      (r : g.Rect) (h : ℕ) (s : ScanCache g Content)
      (o : Option (CachedScan g Content × List (CachedScan g Content)))
      → Taken r h s.entries o
      → IsValid s
      → IsValid (promoted s o).1
  promoted-IsValid r h s none t v = v
  promoted-IsValid r h s (some (e, fs)) (before, after, p, q, _, _) v = record {
    distinct =
        subst (λ t. Distinct (e ∷ t)) (sym q)
          (move-Distinct before after e (subst Distinct p v.distinct));
    bounded = omega (
      arith,
      v.bounded,
      ap length p,
      ap length q,
      length-append before after,
      length-append before (e ∷ after),
    );
    positive = v.positive;
  }

  find-IsValid : (r : g.Rect) (h : ℕ) (s : ScanCache g Content) → IsValid s → IsValid (find r h s).1
  unfolding find
  find-IsValid r h s v =
      promoted-IsValid r h s (take_match r h s.entries) (take_match-Taken r h s.entries) v

  -- The eviction loop of insert() leaves the new entry and the most recent others that fit, where
  -- the capacity is 1 or more.
  pub insert-entries :
      (extent : Content → Double) (r : g.Rect) (h : ℕ) (scale : Double) (result : Content)
      (occluded : g.Rect) (s : ScanCache g Content)
      → 1 ≤ s.capacity
      → (insert extent r h scale result occluded s).entries
        ≡ record {
          logical_rect = r;
          hash = h;
          scale = scale;
          result = result;
          median_char_extent = extent result;
          occluded = occluded;
        }
          ∷ take (s.capacity - 1) (remove_if (matches r h) s.entries)
  unfolding insert
  insert-entries extent r h scale result occluded s p =
      let others = remove_if (matches r h) s.entries in
      let e : CachedScan g Content = record {
        logical_rect = r;
        hash = h;
        scale = scale;
        result = result;
        median_char_extent = extent result;
        occluded = occluded;
      } in
      let c : s.capacity ≡ suc (s.capacity - 1) = omega arith in
      evict-take (length (e ∷ others)) s.capacity (e ∷ others) (omega arith)
      ∙ ap (λ n. take n (e ∷ others)) c

  insert-IsValid :
      (extent : Content → Double) (r : g.Rect) (h : ℕ) (scale : Double) (result : Content)
      (occluded : g.Rect) (s : ScanCache g Content)
      → IsValid s
      → IsValid (insert extent r h scale result occluded s)
  insert-IsValid extent r h scale result occluded s v =
      let others = remove_if (matches r h) s.entries in
      let e = insert-entries extent r h scale result occluded s v.positive in
      let n = s.capacity - 1 in
      record {
        distinct = subst Distinct (sym e) (
          All-take (λ f. matches r h f ≡ false) n others (removed (matches r h) s.entries),
          take-Distinct n others (remove_if-Distinct (matches r h) s.entries v.distinct),
        );
        bounded = unfold insert in omega (arith, ap length e, length-take n others, v.positive);
        positive = unfold insert in v.positive;
      }

  invalidate-IsValid : (r : g.Rect) (s : ScanCache g Content) → IsValid s → IsValid (invalidate r s)
  unfolding invalidate
  invalidate-IsValid r s v = elim (Bool-cases (g.is_empty r)) [
    | inl t ↦ subst IsValid (sym (if_true _ t)) v
    | inr f ↦
        let p = λ (e : CachedScan g Content). g.intersects e.logical_rect r in
        subst IsValid (sym (if_false _ f)) (record {
          distinct = remove_if-Distinct p s.entries v.distinct;
          bounded = omega (arith, v.bounded, length-remove_if p s.entries);
          positive = v.positive;
        })
  ]

  cache_step-IsValid :
      (c : CacheCall g Content) (s : ScanCache g Content) → IsValid s → IsValid (cache_step c s)
  unfolding cache_step clear
  cache_step-IsValid (finds r h) s v = find-IsValid r h s v
  cache_step-IsValid (inserts extent r h scale result occluded) s v =
      insert-IsValid extent r h scale result occluded s v
  cache_step-IsValid clears s v = record {
    distinct = tt;
    bounded = omega arith;
    positive = v.positive;
  }
  cache_step-IsValid (invalidates r) s v = invalidate-IsValid r s v

  cache_run-IsValid :
      (cs : List (CacheCall g Content)) (s : ScanCache g Content)
      → IsValid s
      → IsValid (cache_run cs s)
  unfolding cache_run
  cache_run-IsValid [] s v = v
  cache_run-IsValid (c ∷ cs) s v = cache_run-IsValid cs (cache_step c s) (cache_step-IsValid c s v)

  -- After any calls the cache holds no more entries than its capacity, and no two for one region and
  -- hash.
  pub cache_run-new_cache :
      (capacity : ℕ) (cs : List (CacheCall g Content)) → IsValid (cache_run cs (new_cache capacity))
  unfolding new_cache
  cache_run-new_cache capacity cs =
      cache_run-IsValid cs _
        (record { distinct = tt; bounded = omega arith; positive = omega arith })
