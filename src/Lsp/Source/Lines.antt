-- ===== src/Lsp/Source/Lines.antt =====
-- The loop over the bytes of the lines in front, beside the loop over their runes of `positionAt`.
use portolan.Prelude.{
  ℕ, zero, suc, ◌+◌, ◌-◌, ◌<◌, Bool, Bool-cases, true, false, [], ◌∷◌, Bytes, ltb, ◌==◌,
  if◌then◌else◌, take, ◌≡◌, sym, subst, ◌∙◌, ap, inl, inr, arith,
}
use portolan.Context.{ok, Context}
use portolan.Context.Success.{passed, passed_if, given}
use portolan.Text.Utf8.{decode_rune, utf16_length}
use portolan.Lsp.Source.{Cursor, poll_at, find_line, position_from}
use portolan.Lsp.Source.Runes.{Clear, decode_rune-Clear, decode_rune-line_feed}

-- What the loop over the lines has passed is a text behind which `positionAt` is at the start of line
-- `target`: if it begins at the start of line `line`, and wherever in a rune of that line it begins.
pub record LineStart (target line offset : ℕ) (s : Bytes) (u : Cursor) : Type 0 where
  pub bytes : ℕ
  pub ends : u.offset ≡ offset + bytes
  pub from_start :
      (total more : ℕ)
      → total ≡ bytes + more
      → position_from line 0 0 (take total s) ≡ position_from target 0 0 (take more u.rest)

record LineWalk (target line offset : ℕ) (s : Bytes) (u : Cursor) : Type 0 where
  bytes : ℕ
  ends : u.offset ≡ offset + bytes
  walk :
      (units skip total more : ℕ)
      → total ≡ bytes + more
      → Clear skip (take total s)
      → position_from line units skip (take total s) ≡ position_from target 0 0 (take more u.rest)

find_line-here :
    (line offset : ℕ) (s : Bytes) (c : Context) {u : Cursor} {d : Context}
    → find_line line line offset s c ≡ ok (u, d)
    → u ≡ record { count = line; offset = offset; rest = s }
unfolding find_line
find_line-here line offset [] c h = sym (given h)
find_line-here line offset (b ∷ bs) c h = elim (passed_if (ltb line line) _ _ c h) [
  | inl more ↦ absurd (ground arith)
  | inr stop ↦ sym (given stop.1)
]

LineWalk-LineStart :
    (target line offset : ℕ) (s : Bytes) (u : Cursor)
    → LineWalk target line offset s u
    → LineStart target line offset s u
LineWalk-LineStart target line offset s u w = record {
  bytes = w.bytes;
  ends = w.ends;
  from_start = λ total more e. w.walk 0 0 total more e tt;
}

find_line-LineStart :
    (line offset : ℕ) (s : Bytes) (c : Context) {u : Cursor} {d : Context}
    → find_line line line offset s c ≡ ok (u, d)
    → LineStart line line offset s u
find_line-LineStart line offset s c {u = u} h =
    let e = find_line-here line offset s c h in
    record {
      bytes = 0;
      ends = ground arith;
      from_start = λ total more t.
          ap (λ n. position_from line 0 0 (take n s)) (omega arith)
          ∙ ap (λ (v : Cursor). position_from line 0 0 (take more v.rest)) (sym e);
    }

find_line-LineStart-at :
    (target line offset : ℕ) (s : Bytes) (c : Context) {u : Cursor} {d : Context}
    → line ≡ target
    → find_line target line offset s c ≡ ok (u, d)
    → LineStart target line offset s u
find_line-LineStart-at target line offset s c {u = u} {d = d} e h =
    subst (λ t. LineStart t line offset s u) e
      (find_line-LineStart line offset s c
        (subst (λ t. find_line t line offset s c ≡ ok (u, d)) (sym e) h))

-- One byte of the line, and the rest of the loop.
module _ (target line offset b : ℕ) (bs : Bytes) (u : Cursor) where
  byte_walk :
      b == b'\n' ≡ false
      → (w : LineWalk target line (offset + 1) bs u) (units skip total more : ℕ)
      → total ≡ suc w.bytes + more
      → Clear skip (take total (b ∷ bs))
      → position_from line units skip (take total (b ∷ bs))
        ≡ position_from target 0 0 (take more u.rest)
  unfolding position_from
  byte_walk h w units skip zero more e clear = absurd (omega arith)
  byte_walk h w units zero (suc total) more e clear =
      let t = take total bs in
      let r = decode_rune (b ∷ t) in
      rw (decode_rune-line_feed b t h) (
        w.walk (units + utf16_length r.0) (r.1 - 1) total more (omega arith)
          (decode_rune-Clear b t))
  byte_walk h w units (suc skip) (suc total) more e clear =
      w.walk units skip total more (omega arith) clear.1

  byte-LineWalk :
      b == b'\n' ≡ false
      → LineWalk target line (offset + 1) bs u
      → LineWalk target line offset (b ∷ bs) u
  byte-LineWalk h w = record {
    bytes = suc w.bytes;
    ends = omega (arith, w.ends);
    walk = byte_walk h w;
  }

  -- A line feed, behind which a new line begins.
  feed_walk :
      b == b'\n' ≡ true
      → (w : LineStart target (line + 1) (offset + 1) bs u) (units skip total more : ℕ)
      → total ≡ suc w.bytes + more
      → Clear skip (take total (b ∷ bs))
      → position_from line units skip (take total (b ∷ bs))
        ≡ position_from target 0 0 (take more u.rest)
  unfolding position_from
  feed_walk h w units skip zero more e clear = absurd (omega arith)
  feed_walk h w units zero (suc total) more e clear =
      let t = take total bs in
      let one : decode_rune (b ∷ t) ≡ (b, 1) = unfold decode_rune in ground arith in
      rw (one, h) (w.from_start total more (omega arith))
  feed_walk h w units (suc skip) (suc total) more e clear = absurd (ground (arith, clear.0))

  feed-LineWalk :
      b == b'\n' ≡ true
      → LineStart target (line + 1) (offset + 1) bs u
      → LineWalk target line offset (b ∷ bs) u
  feed-LineWalk h w = record {
    bytes = suc w.bytes;
    ends = omega (arith, w.ends);
    walk = feed_walk h w;
  }

find_line-LineWalk :
    (target line offset : ℕ) (s : Bytes) (c : Context) {u : Cursor} {d : Context}
    → line < target
    → find_line target line offset s c ≡ ok (u, d)
    → u.count ≡ target
    → LineWalk target line offset s u
unfolding find_line
find_line-LineWalk target line offset [] c v h n = let e = given h in absurd (ground arith)
find_line-LineWalk target line offset (b ∷ bs) c {u = u} {d = d} v h n =
    elim (passed_if (ltb line target) _ _ c h) [
      | inl more ↦
          let p = passed (poll_at (offset + 1)) _ c more.1 in
          elim (Bool-cases (b == b'\n')) [
            | inl feed ↦
                let after =
                  subst (λ k. find_line target k (offset + 1) bs p.between ≡ ok (u, d))
                    (ap (λ (t : Bool). if t then line + 1 else line) feed) p.behind in
                feed-LineWalk target line offset b bs u feed
                  (elim (Bool-cases (ltb (line + 1) target)) [
                    | inl deeper ↦ LineWalk-LineStart target (line + 1) (offset + 1) bs u (
                        find_line-LineWalk target (line + 1) (offset + 1) bs p.between
                          (ground arith) after n)
                    | inr arrived ↦
                        find_line-LineStart-at target (line + 1) (offset + 1) bs p.between
                          (ground arith) after
                  ])
            | inr other ↦
                let after =
                  subst (λ k. find_line target k (offset + 1) bs p.between ≡ ok (u, d))
                    (ap (λ (t : Bool). if t then line + 1 else line) other) p.behind in
                byte-LineWalk target line offset b bs u other
                  (find_line-LineWalk target line (offset + 1) bs p.between v after n)
          ]
      | inr stop ↦ absurd (ground (arith, stop.0))
    ]

-- From the start of the text to the line.
pub line_start :
    (target : ℕ) (s : Bytes) (c : Context) {u : Cursor} {d : Context}
    → find_line target 0 0 s c ≡ ok (u, d)
    → u.count ≡ target
    → LineStart target 0 0 s u
line_start target s c h n = elim (Bool-cases (ltb 0 target)) [
  | inl some_line ↦
      LineWalk-LineStart target 0 0 s _ (find_line-LineWalk target 0 0 s c (ground arith) h n)
  | inr first ↦ find_line-LineStart-at target 0 0 s c (ground arith) h
]
