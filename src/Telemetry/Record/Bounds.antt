-- ===== src/Telemetry/Record/Bounds.antt =====
-- Shortened texts keep their limits.
use portolan.Prelude.{
  ℕ, zero, suc, ◌+◌, ◌-◌, ◌/◌, ◌≤◌, min, max, List, [], ◌∷◌, ◌++◌, Bytes, map, ltb, if◌then◌else◌,
  length, length-append, length-take, arith,
}
use portolan.Telemetry.Record.{valid_prefix, digest_mark, Field, bounded_string, halve, is_above}

length-valid_prefix : (n : ℕ) (value : Bytes) → length (valid_prefix n value) ≤ n
unfolding valid_prefix
length-valid_prefix zero value = omega arith
length-valid_prefix (suc n) value =
    ground (arith, length-valid_prefix n value, length-take (suc n) value)

-- The sum of the limits.
unfoldable pub total : List Field → ℕ
total [] = 0
total (f ∷ fs) = f.limit + total fs

-- Every text is within its limit, of which one byte is always left.
abbrev pub AllWithin : List Field → Type 0
AllWithin [] = Unit
AllWithin (f ∷ fs) = (length f.shown ≤ max 1 f.limit) × AllWithin fs

module _ (digest : Bytes → Bytes) where
  -- A shortened text is never longer than its limit, or one byte.
  pub length-bounded_string :
      (value : Bytes) (limit : ℕ) → length (bounded_string digest value limit) ≤ max 1 limit
  unfolding bounded_string
  length-bounded_string value limit =
      let suffix = digest_mark ++ digest value in
      ground (
        arith,
        length-take (min (length (digest value)) (max 1 limit)) (digest value),
        length-append (valid_prefix (limit - length suffix) value) suffix,
        length-valid_prefix (limit - length suffix) value,
      )

  halve_within :
      (least : ℕ) (f : Field)
      → length f.shown ≤ max 1 f.limit
      → length (halve digest least f).shown ≤ max 1 (halve digest least f).limit
  unfolding halve
  halve_within least f h =
      ground (arith, h, length-bounded_string f.original (max least (f.limit / 2)))

  pub halve-AllWithin :
      (least : ℕ) (fs : List Field) → AllWithin fs → AllWithin (map (halve digest least) fs)
  halve-AllWithin least [] h = tt
  halve-AllWithin least (f ∷ fs) h = (halve_within least f h.0, halve-AllWithin least fs h.1)

  halve_limit :
      (least : ℕ) (f : Field)
      → 1 ≤ least
      → (halve digest least f).limit + (if ltb least f.limit then 1 else 0) ≤ f.limit
  unfolding halve
  halve_limit least f h = ground (arith, h)

  pub halve-total :
      (least : ℕ) (fs : List Field)
      → 1 ≤ least
      → total (map (halve digest least) fs) + (if is_above digest least fs then 1 else 0) ≤ total fs
  unfolding total is_above
  halve-total least [] h = omega arith
  halve-total least (f ∷ fs) h = ground (arith, halve_limit least f h, halve-total least fs h)
