-- ===== src/Telemetry/Record/Ending.antt =====
-- The encoding of a record ends, within its number of bytes.
use portolan.Prelude.{
  ℕ, zero, suc, ◌+◌, ◌/◌, ◌≤◌, ◌<◌, Bool, true, false, Option, none, some, List, [], ◌∷◌, ◌++◌,
  Bytes, map, leb, if◌then◌else◌, length, length-append, length-map, ◌≡◌, refl, ◌∙◌, inl, inr,
  Bool-cases, arith, all_of,
}
use portolan.Context.{Result, ok, err, message}
use portolan.Telemetry.Record.{
  Extra, no_extra, oversize_of, values, Field, Line, total_length, halve, is_above, untouched,
  shortened_last, marshal_line, fits, halve_to_96, halve_to_1, encode_short, encode_oversize,
  as_line, encode_line, error_text, encode_jsonl_record,
}
use portolan.Telemetry.Record.Bounds.{
  total, AllWithin, halve-AllWithin, halve-total, length-bounded_string,
}

all_short : List Bytes → Bool
all_short ss = all_of (λ s. leb (length s) 1) ss

module _ (digest : Bytes → Bytes) {V : Type 0} (marshal : List Bytes → Extra V → Result Bytes)
    (max_bytes : ℕ)
    (small : (texts : List Bytes) (b : Bytes)
      → length texts ≡ 5
      → all_of (λ s. leb (length s) 1) texts ≡ true
      → marshal texts no_extra ≡ ok b
      → length b < max_bytes)
    (room : 512 ≤ max_bytes) where
  -- Where no limit is above one byte, the line without extra values fits.
  shown_short :
      (fs : List Field)
      → AllWithin fs
      → is_above digest 1 fs ≡ false
      → all_of (λ s. leb (length s) 1) (map (λ (f : Field). f.shown) fs) ≡ true
  unfolding is_above
  shown_short [] v h = refl
  shown_short (f ∷ fs) v h = ground (arith, v.0, shown_short fs v.1)

  shortest_fits :
      (fs : List Field)
      → length fs ≡ 5
      → AllWithin fs
      → is_above digest 1 fs ≡ false
      → fits digest marshal max_bytes (marshal_line digest marshal max_bytes fs no_extra) ≡ true
  unfolding marshal_line
  shortest_fits fs n v h = marshaled (marshal (map (λ (f : Field). f.shown) fs) no_extra) refl
    where
      marshaled :
          (r : Result Bytes)
          → marshal (map (λ (f : Field). f.shown) fs) no_extra ≡ r
          → leb
              (length (elim r as (λ _. Bytes) [ ok b ↦ b | err e ↦ [] ] ++ (b'\n' ∷ [])))
              max_bytes
            ≡ true
      marshaled (ok b) e =
          let l =
            small (map (λ (f : Field). f.shown) fs) b (length-map (λ (f : Field). f.shown) fs ∙ n)
              (shown_short fs v h) e in
          ground (arith, length-append b (b'\n' ∷ []), l)
      marshaled (err f) e = ground (arith, room)

  -- A line within the number of bytes.
  abbrev Short : Option Bytes → Type 0
  Short none = ⊥
  Short (some l) = length l ≤ max_bytes

  Short-if :
      (l : Bytes) (rest : Option Bytes)
      → (leb (length l) max_bytes ≡ false → Short rest)
      → Short (if leb (length l) max_bytes then some l else rest)
  Short-if l rest h = elim (Bool-cases (leb (length l) max_bytes)) [
    | inl e ↦ rw e (ground (arith, e))
    | inr e ↦ rw e (h e)
  ]

  halve_to_1-Short :
      (fuel : ℕ) (fs : List Field)
      → total fs < fuel
      → length fs ≡ 5
      → AllWithin fs
      → Short (halve_to_1 digest marshal max_bytes fuel fs)
  unfolding halve_to_1
  halve_to_1-Short zero fs h n v = absurd (omega arith)
  halve_to_1-Short (suc fuel) fs h n v =
      let t = halve-total digest 1 fs (omega arith) in
      Short-if (marshal_line digest marshal max_bytes fs no_extra)
        (halve_to_1 digest marshal max_bytes fuel (map (halve digest 1) fs))
        (λ long. elim (Bool-cases (is_above digest 1 fs)) [
          | inl above ↦
              halve_to_1-Short fuel (map (halve digest 1) fs) (ground (arith, t, above, h))
                (length-map (halve digest 1) fs ∙ n) (halve-AllWithin digest 1 fs v)
          | inr e ↦ let z = shortest_fits fs n v e in absurd (cc)
        ])

  -- What the first loop leaves.
  abbrev Left : ℕ → Option (List Field) → Type 0
  Left bound none = ⊥
  Left bound (some gs) = (total gs ≤ bound) × (length gs ≡ 5) × AllWithin gs

  Left-if :
      (b : Bool) (bound : ℕ) (o p : Option (List Field))
      → Left bound o
      → (b ≡ false → Left bound p)
      → Left bound (if b then o else p)
  Left-if true bound o p h k = h
  Left-if false bound o p h k = k refl

  Left-mono : (a b : ℕ) (o : Option (List Field)) → a ≤ b → Left a o → Left b o
  Left-mono a b none h l = l
  Left-mono a b (some gs) h l = (omega (arith, l.0), l.1, l.2)

  halve_to_96-Left :
      (extra : Extra V) (fuel : ℕ) (fs : List Field)
      → total fs < fuel
      → length fs ≡ 5
      → AllWithin fs
      → Left (total fs) (halve_to_96 digest marshal max_bytes fuel fs extra)
  unfolding halve_to_96
  halve_to_96-Left extra zero fs h n v = absurd (omega arith)
  halve_to_96-Left extra (suc fuel) fs h n v =
      let t = halve-total digest 96 fs (omega arith) in
      let gs = map (halve digest 96) fs in
      Left-if (leb (length (marshal_line digest marshal max_bytes fs extra)) max_bytes) (total fs)
        (some fs) _ (omega arith, n, v)
        (λ long. elim (Bool-cases (is_above digest 96 fs)) [
          | inl above ↦ rw above (
              Left-mono (total gs) (total fs) (halve_to_96 digest marshal max_bytes fuel gs extra)
                (omega (arith, t))
                (halve_to_96-Left extra fuel gs (ground (arith, t, above, h))
                  (length-map (halve digest 96) fs ∙ n) (halve-AllWithin digest 96 fs v)))
          | inr e ↦ rw e (omega arith, n, v)
        ])

  untouched-AllWithin : (texts : List Bytes) → AllWithin (map (untouched digest) texts)
  untouched-AllWithin [] = tt
  untouched-AllWithin (s ∷ ss) = (omega arith, untouched-AllWithin ss)

  untouched-total : (texts : List Bytes) → total (map (untouched digest) texts) ≡ total_length texts
  unfolding total total_length
  untouched-total [] = refl
  untouched-total (s ∷ ss) = omega (arith, untouched-total ss)

  shortened_last-Left :
      (limit : ℕ) (fs : List Field)
      → AllWithin fs
      → (total (shortened_last digest limit fs) ≤ total fs + limit)
        × (length (shortened_last digest limit fs) ≡ length fs)
        × AllWithin (shortened_last digest limit fs)
  unfolding shortened_last total
  shortened_last-Left limit [] v = (omega arith, refl, tt)
  shortened_last-Left limit (f ∷ []) v =
      (omega arith, refl, (length-bounded_string digest f.original limit, tt))
  shortened_last-Left limit (f ∷ g ∷ fs) v =
      let (t, n, w) = shortened_last-Left limit (g ∷ fs) v.1 in
      (omega (arith, t), omega (arith, n), (v.0, w))

  encode_short-Short :
      (fuel bound : ℕ) (extra : Extra V) (o : Option (List Field))
      → bound < fuel
      → Left bound o
      → Short (encode_short digest marshal max_bytes fuel extra o)
  unfolding encode_short
  encode_short-Short fuel bound extra none h l = l
  encode_short-Short fuel bound extra (some fs) h l =
      Short-if (marshal_line digest marshal max_bytes fs extra)
        (halve_to_1 digest marshal max_bytes fuel fs)
        (λ long. halve_to_1-Short fuel fs (omega (arith, l.0, h)) l.1 l.2)

  encode_oversize-Short :
      (fuel : ℕ) (texts : List Bytes) (size : ℕ)
      → length texts ≡ 5
      → total_length texts + max_bytes < fuel
      → Short (encode_oversize digest marshal max_bytes fuel texts size)
  unfolding encode_oversize
  encode_oversize-Short fuel texts size n h =
      let fs = map (untouched digest) texts in
      let gs = shortened_last digest (max_bytes / 4) fs in
      let s = shortened_last-Left (max_bytes / 4) fs (untouched-AllWithin texts) in
      let bound : total gs < fuel = omega (arith, s.0, untouched-total texts, h) in
      Short-if (marshal_line digest marshal max_bytes fs (oversize_of size)) _ (λ long.
        Short-if (marshal_line digest marshal max_bytes gs (oversize_of size)) _ (λ longer.
          encode_short-Short fuel (total gs) (oversize_of size) _ bound (
            halve_to_96-Left (oversize_of size) fuel gs bound
              (s.1 ∙ length-map (untouched digest) texts ∙ n) s.2)))

  -- A record that is encoded, within the number of bytes.
  abbrev Encoded : Option Line → Type 0
  Encoded o = (l : Line) × (o ≡ some l) × (length l.line ≤ max_bytes)

  as_line-Encoded :
      (fallback : Bool) (o : Option Bytes)
      → Short o
      → Encoded (as_line digest marshal max_bytes fallback o)
  unfolding as_line
  as_line-Encoded fallback none h = absurd h
  as_line-Encoded fallback (some l) h =
      (record { line = l; oversize = true; fallback = fallback }, refl, h)

  encode_line-Encoded :
      (texts : List Bytes) (fallback : Bool) (encoded : Bytes)
      → length texts ≡ 5
      → Encoded (encode_line digest marshal max_bytes texts fallback encoded)
  unfolding encode_line
  encode_line-Encoded texts fallback encoded n =
      elim (Bool-cases (leb (length (encoded ++ (b'\n' ∷ []))) max_bytes)) [
        | inl e ↦ rw e (
          record { line = encoded ++ (b'\n' ∷ []); oversize = false; fallback = fallback },
          refl,
          ground (arith, e),
        )
        | inr e ↦ rw e (
            as_line-Encoded fallback _ (
              encode_oversize-Short (total_length texts + max_bytes + 1) texts
                (length (encoded ++ (b'\n' ∷ []))) n (omega arith)))
      ]

  encode_ok-Encoded :
      (texts : List Bytes) (r : Result Bytes)
      → length texts ≡ 5
      → Encoded (elim r as (λ _. Option Line) [
        | ok b ↦ encode_line digest marshal max_bytes texts false b
        | err e ↦
            encode_line digest marshal max_bytes texts true
              (error_text digest marshal max_bytes texts (message e))
      ])
  encode_ok-Encoded texts (ok b) n = encode_line-Encoded texts false b n
  encode_ok-Encoded texts (err e) n =
      encode_line-Encoded texts true (error_text digest marshal max_bytes texts (message e)) n

  -- Where json.Marshal, given five texts of at most one byte and no extra values, makes less than `max_bytes`
  -- bytes, and `max_bytes` is at least 512, encoding ends for every event and snapshot, with a line of at most
  -- `max_bytes` bytes.
  pub encode_jsonl_record-length :
      (texts : List Bytes) (extra : Result V)
      → length texts ≡ 5
      → (l : Line) × (encode_jsonl_record digest marshal max_bytes texts extra ≡ some l)
        × (length l.line ≤ max_bytes)
  unfolding encode_jsonl_record
  encode_jsonl_record-length texts (err failure) n =
      encode_line-Encoded texts true (error_text digest marshal max_bytes texts (message failure)) n
  encode_jsonl_record-length texts (ok v) n = encode_ok-Encoded texts (marshal texts (values v)) n
