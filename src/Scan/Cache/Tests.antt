-- ===== src/Scan/Cache/Tests.antt =====
-- The scan cache over regions that are numbered cells, and the theorems at concrete calls.
use marupop.Prelude.{ℕ, ◌+◌, ◌≡◌, some, List, [], ◌∷◌, arith, ◌==◌, ==_iff}
use marupop.Scan.Cache.{Geometry, CachedScan, ScanCache, new_cache, find, insert, invalidate}
use marupop.Scan.Cache.Invariant.{
  IsValid, CacheCall, finds, inserts, invalidates, cache_run, cache_run-new_cache, insert-entries,
}
use marupop.Scan.Cache.Lookup.{Finds, find-Finds, find-insert, find-invalidate}

-- A region is a cell of the screen; cell 0 is empty, and a cell meets only itself.
abbrev cells : Geometry
cells = record {
  Rect = ℕ;
  rect_eq = ◌==◌;
  rect_eq_iff = ==_iff;
  intersects = ◌==◌;
  is_empty = λ r. r == 0;
}

abbrev scan : ℕ → ℕ → CachedScan cells ℕ
scan r h = record {
  logical_rect = r;
  hash = h;
  scale = 1;
  result = 7;
  median_char_extent = 8;
  occluded = 0;
}

abbrev two_scans : ScanCache cells ℕ
two_scans = record { entries = scan 1 11 ∷ scan 2 22 ∷ []; capacity = 2 }

abbrev calls : List (CacheCall cells ℕ)
calls =
    inserts (λ n. n) 1 11 1 7 0
    ∷ inserts (λ n. n) 2 22 1 7 0
    ∷ finds 1 11
    ∷ inserts (λ n. n) 3 33 1 7 0
    ∷ invalidates 3
    ∷ []

cache_run-new_cache_example : IsValid (cache_run calls (new_cache 2))
cache_run-new_cache_example = cache_run-new_cache 2 calls

find-Finds_example : Finds 2 22 two_scans (find 2 22 two_scans)
find-Finds_example = find-Finds 2 22 two_scans

find-insert_example : (find 3 33 (insert (λ n. n + 1) 3 33 1 7 0 two_scans)).0 ≡ some (scan 3 33)
find-insert_example = find-insert (λ n. n + 1) 3 33 1 7 0 two_scans (omega arith)

insert-entries_example :
    (insert (λ n. n + 1) 3 33 1 7 0 two_scans).entries ≡ scan 3 33 ∷ scan 1 11 ∷ []
insert-entries_example = insert-entries (λ n. n + 1) 3 33 1 7 0 two_scans (omega arith)

find-invalidate_example : (find 2 22 (invalidate 1 two_scans)).0 ≡ (find 2 22 two_scans).0
find-invalidate_example = find-invalidate 1 2 22 two_scans
