-- ===== src/Lsp/Headers/Cuts.antt =====
-- Texts cut out of texts, as the passes over a declaration hand them on.
use portolan.Prelude.{
  ℕ, zero, suc, ◌+◌, ◌-◌, ◌≤◌, ◌<◌, Bool, true, List, [], ◌∷◌, ◌++◌, Bytes, take, drop, length,
  all_of, ◌≡◌, refl, sym, ap, ◌∙◌, arith, length-take, take_nil, append-nil, length-drop,
}
use portolan.Lsp.Lexical.{has_prefix, byte_at, between}

has_prefix-append_self : (w u : Bytes) → has_prefix w (w ++ u) ≡ true
unfolding has_prefix
has_prefix-append_self [] u = refl
has_prefix-append_self (p ∷ w) u = ground (arith, has_prefix-append_self w u)

pub has_prefix_refl : (w : Bytes) → has_prefix w w ≡ true
has_prefix_refl w = rw (append-nil w) at (has_prefix-append_self w [])

pub has_prefix→append : (w t : Bytes) → has_prefix w t ≡ true → (u : Bytes) × (t ≡ w ++ u)
unfolding has_prefix
has_prefix→append [] t h = (t, refl)
has_prefix→append (p ∷ w) [] h = absurd (cc)
has_prefix→append (p ∷ w) (c ∷ t) h =
    let (u, e) = has_prefix→append w t (ground arith) in
    let f : p ≡ c = ground arith in (u, ground (arith, e, f))

module _ {A : Type 0} where
  pub drop-take : (k e : ℕ) (xs : List A) → drop k (take e xs) ≡ take (e - k) (drop k xs)
  drop-take zero e xs = let f : e - zero ≡ e = omega arith in rw f refl
  drop-take (suc k) zero xs = let f : 0 - suc k ≡ 0 = omega arith in rw f refl
  drop-take (suc k) (suc e) [] = sym (take_nil (suc e - suc k))
  drop-take (suc k) (suc e) (x ∷ xs) =
      let f : suc e - suc k ≡ e - k = omega arith in rw f (drop-take k e xs)

  pub take-take : (j m : ℕ) (xs : List A) → j ≤ m → take j (take m xs) ≡ take j xs
  take-take zero m xs h = refl
  take-take (suc j) zero xs h = absurd (omega arith)
  take-take (suc j) (suc m) [] h = refl
  take-take (suc j) (suc m) (x ∷ xs) h = ap (◌∷◌ x) (take-take j m xs (omega arith))

  pub take_append : (w u : List A) (j : ℕ) → take (length w + j) (w ++ u) ≡ w ++ take j u
  take_append [] u j = let f : 0 + j ≡ j = omega arith in rw f refl
  take_append (x ∷ w) u j =
      let f : suc (length w) + j ≡ suc (length w + j) = omega arith in
      rw f (ap (◌∷◌ x) (take_append w u j))

-- A shorter cut from the same offset.
pub between_cut : (k b e : ℕ) (s : Bytes) → b ≤ e → between k b s ≡ take (b - k) (between k e s)
between_cut k b e s h =
    drop-take k b s
    ∙ sym (take-take (b - k) (e - k) (drop k s) (omega arith))
    ∙ ap (take (b - k)) (sym (drop-take k e s))

byte_at-drop : (k j : ℕ) (s : Bytes) → byte_at (drop k s) j ≡ byte_at s (k + j)
unfolding byte_at
byte_at-drop zero j s = let f : 0 + j ≡ j = omega arith in rw f refl
byte_at-drop (suc k) j [] = refl
byte_at-drop (suc k) j (x ∷ s) =
    let f : suc k + j ≡ suc (k + j) = omega arith in rw f (byte_at-drop k j s)

byte_at-take : (e j : ℕ) (s : Bytes) → j < e → byte_at (take e s) j ≡ byte_at s j
unfolding byte_at
byte_at-take zero j s h = absurd (omega arith)
byte_at-take (suc e) j [] h = refl
byte_at-take (suc e) zero (x ∷ s) h = refl
byte_at-take (suc e) (suc j) (x ∷ s) h = byte_at-take e j s (omega arith)

pub byte_at-between :
    (k e j : ℕ) (s : Bytes) → k + j < e → byte_at (between k e s) j ≡ byte_at s (k + j)
byte_at-between k e j s h = byte_at-drop k j (take e s) ∙ byte_at-take e (k + j) s h

pub all_of-byte_at :
    (p : ℕ → Bool) (w u : Bytes) (j : ℕ)
    → all_of p w ≡ true
    → j < length w
    → p (byte_at (w ++ u) j) ≡ true
unfolding byte_at
all_of-byte_at p [] u j h l = absurd (omega arith)
all_of-byte_at p (x ∷ w) u zero h l = ground arith
all_of-byte_at p (x ∷ w) u (suc j) h l = all_of-byte_at p w u j (ground arith) (omega arith)

-- Text at an offset lies in front of the end.
pub lt_of_between : (k e : ℕ) (s : Bytes) → 0 < length (between k e s) → k < e
lt_of_between k e s h = omega (arith, length-drop k (take e s), length-take e s)

pub byte_at_first : (s : Bytes) → byte_at s 0 ≡ b'{' → 0 < length s
unfolding byte_at
byte_at_first [] h = absurd (cc)
byte_at_first (x ∷ s) h = omega arith
