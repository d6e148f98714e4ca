-- ===== src/Lsp/Source/Runes.antt =====
-- How the loop over the runes of a line and the loop of `positionAt` keep in step.
use portolan.Prelude.{
  ℕ, zero, suc, ◌+◌, ◌-◌, ◌≤◌, false, not, ◌&&◌, [], ◌∷◌, Bytes, ltb, ◌==◌, take, take_all, ◌≡◌,
  refl, sym, subst, inl, inr, arith,
}
use portolan.Context.{ok, Context}
use portolan.Context.Success.{passed, passed_if, given}
use portolan.Text.Utf8.{decode_rune, decode_rune_size, utf16_length}
use portolan.Prelude.Int.{pos}
use portolan.Lsp.Source.{Cursor, poll_at, find_unit, position_from}

-- No line feed among the first bytes.
abbrev pub Clear : ℕ → Bytes → Type 0
Clear zero s = Unit
Clear (suc k) [] = Unit
Clear (suc k) (c ∷ cs) = (c == b'\n' ≡ false) × Clear k cs

-- The bytes behind the first one of a rune are no line feeds.
pub decode_rune-Clear : (b : ℕ) (s : Bytes) → Clear ((decode_rune (b ∷ s)).1 - 1) s
unfolding decode_rune
decode_rune-Clear b [] = ground arith
decode_rune-Clear b (c ∷ []) = ground arith
decode_rune-Clear b (c ∷ d ∷ []) = ground arith
decode_rune-Clear b (c ∷ d ∷ e ∷ s) = ground arith

-- Only a line feed decodes to one.
pub decode_rune-line_feed :
    (b : ℕ) (s : Bytes) → b == b'\n' ≡ false → (decode_rune (b ∷ s)).0 == b'\n' ≡ false
unfolding decode_rune
decode_rune-line_feed b [] h = ground arith
decode_rune-line_feed b (c ∷ []) h = ground arith
decode_rune-line_feed b (c ∷ d ∷ []) h = ground arith
decode_rune-line_feed b (c ∷ d ∷ e ∷ s) h = ground arith

-- A rune that ends within the front of a text decodes alike there.
decode_rune-take :
    (b m : ℕ) (s : Bytes)
    → (decode_rune (b ∷ s)).1 ≤ suc m
    → decode_rune (b ∷ take m s) ≡ decode_rune (b ∷ s)
unfolding decode_rune
decode_rune-take b m [] h =
    subst (λ t. decode_rune (b ∷ t) ≡ decode_rune (b ∷ [])) (sym (take_all m [] (omega arith))) refl
decode_rune-take b zero (c ∷ []) h = ground arith
decode_rune-take b (suc m) (c ∷ []) h =
    subst (λ t. decode_rune (b ∷ c ∷ t) ≡ decode_rune (b ∷ c ∷ []))
      (sym (take_all m [] (omega arith))) refl
decode_rune-take b zero (c ∷ d ∷ []) h = ground arith
decode_rune-take b (suc zero) (c ∷ d ∷ []) h = ground arith
decode_rune-take b (suc (suc m)) (c ∷ d ∷ []) h =
    subst (λ t. decode_rune (b ∷ c ∷ d ∷ t) ≡ decode_rune (b ∷ c ∷ d ∷ []))
      (sym (take_all m [] (omega arith))) refl
decode_rune-take b zero (c ∷ d ∷ e ∷ s) h = ground arith
decode_rune-take b (suc zero) (c ∷ d ∷ e ∷ s) h = ground arith
decode_rune-take b (suc (suc zero)) (c ∷ d ∷ e ∷ s) h = ground arith
decode_rune-take b (suc (suc (suc m))) (c ∷ d ∷ e ∷ s) h = refl

-- What the loop over the runes has passed is a text in which `positionAt` counts alike.
pub record UnitWalk (units offset skip : ℕ) (s : Bytes) (u : Cursor) : Type 0 where
  pub bytes : ℕ
  pub ends : u.offset + skip ≡ offset + bytes
  pub enough : skip ≤ bytes
  pub walk :
      (line : ℕ)
      → position_from line units skip (take bytes s)
        ≡ record { line = pos line; character = pos u.count }

pub find_unit-UnitWalk :
    (target units offset skip : ℕ) (s : Bytes) (c : Context) {u : Cursor} {d : Context}
    → find_unit target units offset skip s c ≡ ok (u, d)
    → UnitWalk units offset skip s u
unfolding find_unit position_from
find_unit-UnitWalk target units offset zero [] c {u = u} h =
    let e = given h in
    record { bytes = 0; ends = ground arith; enough = omega arith; walk = λ line. ground arith }
find_unit-UnitWalk target units offset (suc skip) [] c {u = u} h =
    let e = given h in
    record {
      bytes = suc skip;
      ends = ground arith;
      enough = omega arith;
      walk = λ line. ground arith;
    }
find_unit-UnitWalk target units offset (suc skip) (b ∷ bs) c h =
    let w = find_unit-UnitWalk target units offset skip bs c h in
    record {
      bytes = suc w.bytes;
      ends = omega (arith, w.ends);
      enough = omega (arith, w.enough);
      walk = w.walk;
    }
find_unit-UnitWalk target units offset zero (b ∷ bs) c {u = u} h =
    elim (passed_if (not (b == b'\n') && ltb units target) _ _ c h) [
      | inl more ↦
          let size = decode_rune_size b bs in
          let r = decode_rune (b ∷ bs) in
          let p = passed (poll_at (offset + r.1)) _ c more.1 in
          let w =
            find_unit-UnitWalk target (units + utf16_length r.0) (offset + r.1) (r.1 - 1) bs
              p.between p.behind in
          let same = decode_rune-take b w.bytes bs (omega (arith, w.enough)) in
          let apart = decode_rune-line_feed b bs (ground arith) in
          record {
            bytes = suc w.bytes;
            ends = omega (arith, w.ends);
            enough = omega arith;
            walk = λ line. rw (same, apart) (w.walk line);
          }
      | inr stop ↦
          let e = given stop.1 in
          record {
            bytes = 0;
            ends = ground arith;
            enough = omega arith;
            walk = λ line. ground arith;
          }
    ]
