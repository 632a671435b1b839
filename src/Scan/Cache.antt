-- ===== src/Scan/Cache.antt =====
-- The class ScanCache of src/scan/scancache.h and scancache.cpp. QRect and the recognition result are
-- parameters; so is ocr::medianCharExtent(), of which the cache only keeps the value.
pub mod Order
pub mod Distinct
pub mod Invariant
pub mod Lookup
mod Tests
use marupop.Prelude.{
  ℕ, zero, suc, ◌-◌, ◌≡◌, ◌↔◌, Bool, true, false, not, ◌&&◌, ◌||◌, Option, none, some, List, [],
  ◌∷◌, ltb, ◌==◌, if◌then◌else◌, length, max,
}
use marupop.Dict.Records.{Double}

-- QRect, as far as the cache uses it.
pub record Geometry : Type 1 where
  pub Rect : Type 0
  pub rect_eq : Rect → Rect → Bool
  pub rect_eq_iff : (a b : Rect) → (rect_eq a b ≡ true) ↔ (a ≡ b)
  pub intersects : Rect → Rect → Bool
  pub is_empty : Rect → Bool

module _ (g : Geometry) (Content : Type 0) where
  pub record CachedScan : Type 0 where
    pub logical_rect : g.Rect
    pub hash : ℕ
    pub scale : Double
    pub result : Content
    pub median_char_extent : Double
    pub occluded : g.Rect

  -- Most recently used first.
  pub record ScanCache : Type 0 where
    pub entries : List CachedScan
    pub capacity : ℕ

module _ {g : Geometry} {Content : Type 0} where
  -- ScanCache(capacity), for a capacity that is not negative.
  unfoldable pub new_cache : ℕ → ScanCache g Content
  new_cache capacity = record { entries = []; capacity = max capacity 1 }

  abbrev pub matches : g.Rect → ℕ → CachedScan g Content → Bool
  matches rect hash e = (e.hash == hash) && g.rect_eq e.logical_rect rect

  abbrev pub remove_if :
      (CachedScan g Content → Bool) → List (CachedScan g Content) → List (CachedScan g Content)
  remove_if p [] = []
  remove_if p (e ∷ es) = if p e then remove_if p es else e ∷ remove_if p es

  abbrev pub keep_first :
      CachedScan g Content
      → Option (CachedScan g Content × List (CachedScan g Content))
      → Option (CachedScan g Content × List (CachedScan g Content))
  keep_first e none = none
  keep_first e (some (f, fs)) = some (f, e ∷ fs)

  -- The first entry that matches, with the others in their order.
  unfoldable pub take_match :
      g.Rect
      → ℕ
      → List (CachedScan g Content)
      → Option (CachedScan g Content × List (CachedScan g Content))
  take_match rect hash [] = none
  take_match rect hash (e ∷ es) =
      let rest = take_match rect hash es in
      if matches rect hash e then some (e, es) else keep_first e rest

  abbrev pub promoted :
      ScanCache g Content
      → Option (CachedScan g Content × List (CachedScan g Content))
      → Option (CachedScan g Content) × ScanCache g Content
  promoted s none = (none, s)
  promoted s (some (e, es)) = (some e, record s { entries = e ∷ es })

  unfoldable pub find :
      g.Rect → ℕ → ScanCache g Content → Option (CachedScan g Content) × ScanCache g Content
  find rect hash s = promoted s (take_match rect hash s.entries)

  unfoldable pub pop_back : List (CachedScan g Content) → List (CachedScan g Content)
  pop_back [] = []
  pop_back (e ∷ []) = []
  pop_back (e ∷ f ∷ es) = e ∷ pop_back (f ∷ es)

  -- The `while` loop of insert(): each round drops one entry, so their number is fuel enough.
  unfoldable pub evict : ℕ → ℕ → List (CachedScan g Content) → List (CachedScan g Content)
  evict zero capacity es = es
  evict (suc fuel) capacity es =
      let rest = evict fuel capacity (pop_back es) in if ltb capacity (length es) then rest else es

  unfoldable pub insert :
      (Content → Double)
      → g.Rect
      → ℕ
      → Double
      → Content
      → g.Rect
      → ScanCache g Content
      → ScanCache g Content
  unfolding evict
  insert median_char_extent rect hash scale result occluded s =
      let e : CachedScan g Content = record {
        logical_rect = rect;
        hash = hash;
        scale = scale;
        result = result;
        median_char_extent = median_char_extent result;
        occluded = occluded;
      } in
      let es = e ∷ remove_if (matches rect hash) s.entries in
      record s { entries = evict (length es) s.capacity es }

  unfoldable pub clear : ScanCache g Content → ScanCache g Content
  clear s = record s { entries = [] }

  unfoldable pub invalidate : g.Rect → ScanCache g Content → ScanCache g Content
  invalidate rect s =
      if g.is_empty rect
      then s
      else record s { entries = remove_if (λ e. g.intersects e.logical_rect rect) s.entries }

  unfoldable pub size : ScanCache g Content → ℕ
  size s = length s.entries
