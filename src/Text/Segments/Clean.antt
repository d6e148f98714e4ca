-- ===== src/Text/Segments/Clean.antt =====
-- A cleaned path: its segments, that it is left as it is, and that no byte is new.
use portolan.Prelude.{
  ℕ, Bool, true, not, ◌&&◌, ◌||◌, List, [], ◌∷◌, ◌++◌, append-nil, append_assoc, Bytes, codes,
  equal, ◌==◌, is_empty, all_of, ◌≡◌, refl, sym, ◌∙◌, ap, arith, Bool-cases, inl, inr,
}
use portolan.Text.Segments.{
  prepend, split_slash, slashed, rooted, drop_last, put_segment, resolve_segments, clean_rooted,
  no_slash, is_proper,
}

module _ {ℓ} {A : Type ℓ} (p : A → Bool) where
  pub all_of-append :
      (xs ys : List A) → all_of p xs ≡ true → all_of p ys ≡ true → all_of p (xs ++ ys) ≡ true
  all_of-append [] ys h k = k
  all_of-append (x ∷ xs) ys h k = ground (arith, all_of-append xs ys)

pub split_slash-append :
    (s : Bytes) (ss : List Bytes)
    → all_of no_slash s ≡ true
    → all_of (λ t. all_of no_slash t) ss ≡ true
    → split_slash (s ++ slashed ss) ≡ s ∷ ss
unfolding split_slash slashed
split_slash-append [] [] h k = refl
split_slash-append [] (t ∷ ts) h k = ground (arith, split_slash-append t ts)
split_slash-append (b ∷ bs) ss h k = ground (arith, split_slash-append bs ss)

resolve_segments_proper :
    (out ss : List Bytes) → all_of is_proper ss ≡ true → resolve_segments out ss ≡ out ++ ss
unfolding resolve_segments
resolve_segments_proper out [] h = sym (append-nil out)
resolve_segments_proper out (s ∷ ss) h =
    ground (arith, resolve_segments_proper (out ++ (s ∷ [])) ss, append_assoc out (s ∷ []) ss)

-- What holds for every byte of a path, the slashes among them, holds for every byte of its segments.
module _ (q : ℕ → Bool) where
  prepend-all :
      (b : ℕ) (ss : List Bytes)
      → q b ≡ true
      → all_of (λ s. all_of q s) ss ≡ true
      → all_of (λ s. all_of q s) (prepend b ss) ≡ true
  unfolding prepend
  prepend-all b [] h k = ground arith
  prepend-all b (s ∷ ss) h k = ground arith

  split_slash-all :
      (p : Bytes) → all_of q p ≡ true → all_of (λ s. all_of q s) (split_slash p) ≡ true
  unfolding split_slash
  split_slash-all [] h = refl
  split_slash-all (b ∷ bs) h = ground (arith, split_slash-all bs, prepend-all b (split_slash bs))

  slashed-all :
      (ss : List Bytes)
      → q b'/' ≡ true
      → all_of (λ s. all_of q s) ss ≡ true
      → all_of q (slashed ss) ≡ true
  unfolding slashed
  slashed-all [] h k = refl
  slashed-all (s ∷ ss) h k = ground (arith, slashed-all ss, all_of-append q s (slashed ss))

-- The segments that are kept are segments of the path.
module _ (q : Bytes → Bool) where
  drop_last-all : (ss : List Bytes) → all_of q ss ≡ true → all_of q (drop_last ss) ≡ true
  drop_last-all [] h = refl
  drop_last-all (s ∷ []) h = refl
  drop_last-all (s ∷ t ∷ ts) h = ground (arith, drop_last-all (t ∷ ts))

  put_segment-all :
      (out : List Bytes) (s : Bytes)
      → all_of q out ≡ true
      → q s ≡ true
      → all_of q (put_segment out s) ≡ true
  unfolding put_segment
  put_segment-all out s h k = ground (arith, drop_last-all out, all_of-append q out (s ∷ []))

  resolve_segments-all :
      (out ss : List Bytes)
      → all_of q out ≡ true
      → all_of q ss ≡ true
      → all_of q (resolve_segments out ss) ≡ true
  unfolding resolve_segments
  resolve_segments-all out [] h k = h
  resolve_segments-all out (s ∷ ss) h k =
      resolve_segments-all (put_segment out s) ss (put_segment-all out s h (ground arith))
        (ground arith)

-- Dots never remain.
abbrev is_named : Bytes → Bool
is_named s = not (is_empty s || equal s (codes ".")) && not (equal s (codes ".."))

put_segment-named :
    (out : List Bytes) (s : Bytes)
    → all_of is_named out ≡ true
    → all_of is_named (put_segment out s) ≡ true
unfolding put_segment
put_segment-named out s h =
    ground (arith, drop_last-all is_named out, all_of-append is_named out (s ∷ []))

resolve_segments-named :
    (out ss : List Bytes)
    → all_of is_named out ≡ true
    → all_of is_named (resolve_segments out ss) ≡ true
unfolding resolve_segments
resolve_segments-named out [] h = h
resolve_segments-named out (s ∷ ss) h =
    resolve_segments-named (put_segment out s) ss (put_segment-named out s h)

pub split_slash-no_slash : (p : Bytes) → all_of (λ s. all_of no_slash s) (split_slash p) ≡ true
unfolding split_slash prepend
split_slash-no_slash [] = refl
split_slash-no_slash (b ∷ bs) = elim (Bool-cases (b == b'/')) [
  | inl slash ↦ rw slash (split_slash-no_slash bs)
  | inr other ↦
      rw other (prepend-all no_slash b (split_slash bs) (ground arith) (split_slash-no_slash bs))
]

all_of-both :
    (ss : List Bytes)
    → all_of is_named ss ≡ true
    → all_of (λ s. all_of no_slash s) ss ≡ true
    → all_of is_proper ss ≡ true
all_of-both [] h k = refl
all_of-both (s ∷ ss) h k = ground (arith, all_of-both ss)

-- The segments of a clean path.
pub record IsClean (q : Bytes) : Type 0 where
  pub segments : List Bytes
  pub proper : all_of is_proper segments ≡ true
  pub is_rooted : q ≡ rooted segments

pub clean_rooted-IsClean : (p : Bytes) → IsClean (clean_rooted p)
unfolding clean_rooted
clean_rooted-IsClean p =
    let ss = resolve_segments [] (split_slash p) in
    record {
      segments = ss;
      proper = all_of-both ss (resolve_segments-named [] (split_slash p) refl) (
          resolve_segments-all (λ s. all_of no_slash s) [] (split_slash p) refl
            (split_slash-no_slash p));
      is_rooted = refl;
    }

pub proper-no_slash :
    (ss : List Bytes) → all_of is_proper ss ≡ true → all_of (λ s. all_of no_slash s) ss ≡ true
proper-no_slash [] h = refl
proper-no_slash (s ∷ ss) h = ground (arith, proper-no_slash ss)

-- The segments of a clean path are found back.
pub split_slash-slashed :
    (s : Bytes) (ss : List Bytes)
    → all_of is_proper (s ∷ ss) ≡ true
    → split_slash (slashed (s ∷ ss)) ≡ [] ∷ s ∷ ss
unfolding split_slash slashed
split_slash-slashed s ss h =
    let k = proper-no_slash (s ∷ ss) h in ground (arith, split_slash-append s ss)

pub clean_rooted-rooted :
    (ss : List Bytes) → all_of is_proper ss ≡ true → clean_rooted (rooted ss) ≡ rooted ss
unfolding clean_rooted rooted
clean_rooted-rooted [] h = refl
clean_rooted-rooted (s ∷ ss) h =
    rw (split_slash-slashed s ss h) (ap rooted (resolve_segments_proper [] (s ∷ ss) h))

-- A clean path is left as it is.
pub IsClean-clean_rooted : (q : Bytes) → IsClean q → clean_rooted q ≡ q
IsClean-clean_rooted q c =
    ap clean_rooted c.is_rooted ∙ clean_rooted-rooted c.segments c.proper ∙ sym c.is_rooted

rooted-all :
    (q : ℕ → Bool) (ss : List Bytes)
    → q b'/' ≡ true
    → all_of (λ s. all_of q s) ss ≡ true
    → all_of q (rooted ss) ≡ true
unfolding rooted
rooted-all q [] h k = ground arith
rooted-all q (s ∷ ss) h k = slashed-all q (s ∷ ss) h k

-- Cleaning makes no new bytes but slashes.
pub clean_rooted-all :
    (q : ℕ → Bool) (p : Bytes)
    → q b'/' ≡ true
    → all_of q p ≡ true
    → all_of q (clean_rooted p) ≡ true
unfolding clean_rooted
clean_rooted-all q p h k =
    rooted-all q _ h
      (resolve_segments-all (λ s. all_of q s) [] (split_slash p) refl (split_slash-all q p k))
