-- ===== src/Lsp/Stderr.antt =====
-- internal/lsp/stderr.go: the buffer that keeps the last diagnostics of the server process.
use portolan.Prelude.{
  ℕ, zero, suc, ◌+◌, ◌-◌, ◌≤◌, Bool, Bool-cases, List, [], ◌∷◌, ◌++◌, append-nil, append_assoc,
  Bytes, ltb, is_empty, if◌then◌else◌, length, length-append, length-drop, drop, ◌≡◌, refl, sym,
  ◌∙◌, ap, inl, inr, arith,
}

abbrev pub stderr_buffer_cap : ℕ
stderr_buffer_cap = 8192

-- What one `Read` of the process's output gives: its bytes, and whether an error comes with them.
pub record Read : Type 0 where
  pub bytes : Bytes
  pub ended : Bool

-- The end of a buffer that has grown past the cap.
unfoldable pub keep_last : Bytes → Bytes
keep_last b = if ltb stderr_buffer_cap (length b) then drop (length b - stderr_buffer_cap) b else b

unfoldable pub append_read : Bytes → Bytes → Bytes
append_read b chunk = if is_empty chunk then b else keep_last (b ++ chunk)

-- `drain` over the reads, up to the first one with an error.
unfoldable pub drain : Bytes → List Read → Bytes
drain b [] = b
drain b (r ∷ rs) =
    let rest = drain (append_read b r.bytes) rs in if r.ended then append_read b r.bytes else rest

-- Everything that was read.
abbrev pub received : List Read → Bytes
received [] = []
received (r ∷ rs) = let rest = received rs in r.bytes ++ (if r.ended then [] else rest)

drop-append : (n : ℕ) (a b : Bytes) → n ≤ length a → drop n (a ++ b) ≡ drop n a ++ b
drop-append zero a b h = refl
drop-append (suc n) [] b h = absurd (omega arith)
drop-append (suc n) (x ∷ a) b h = drop-append n a b (omega arith)

drop-nil : (n : ℕ) → drop {A = ℕ} n [] ≡ []
drop-nil zero = refl
drop-nil (suc n) = refl

drop-drop : (m n t : ℕ) (a : Bytes) → t ≡ n + m → drop m (drop n a) ≡ drop t a
drop-drop m zero t a h = ap (λ k. drop k a) (omega arith)
drop-drop m (suc n) t [] h = drop-nil m ∙ sym (drop-nil t)
drop-drop m (suc n) zero (x ∷ a) h = absurd (omega arith)
drop-drop m (suc n) (suc t) (x ∷ a) h = drop-drop m n t a (omega arith)

keep_last_lem : (b : Bytes) → keep_last b ≡ drop (length b - stderr_buffer_cap) b
unfolding keep_last
keep_last_lem b = elim (Bool-cases (ltb stderr_buffer_cap (length b))) [
  | inl long ↦ rw long refl
  | inr short ↦
      let e : 0 ≡ length b - stderr_buffer_cap = ground arith in rw short (ap (λ k. drop k b) e)
]

-- What the cap cuts off in front never comes back.
keep_last-append : (a b : Bytes) → keep_last (keep_last a ++ b) ≡ keep_last (a ++ b)
keep_last-append a b =
    let k = length a - stderr_buffer_cap in
    let n = length-append a b in
    let m = length-append (drop k a) b in
    let d = length-drop k a in
    rw (keep_last_lem a, keep_last_lem (drop k a ++ b), keep_last_lem (a ++ b))
      (ap (drop _) (sym (drop-append k a b (omega arith))) ∙ drop-drop _ k _ (a ++ b) (omega arith))

keep_last_idem : (a : Bytes) → keep_last (keep_last a) ≡ keep_last a
keep_last_idem a =
    ap keep_last (sym (append-nil (keep_last a)))
    ∙ keep_last-append a []
    ∙ ap keep_last (append-nil a)

append_read_lem : (b chunk : Bytes) → keep_last b ≡ b → append_read b chunk ≡ keep_last (b ++ chunk)
unfolding append_read
append_read_lem b [] h = sym h ∙ ap keep_last (sym (append-nil b))
append_read_lem b (c ∷ cs) h = refl

drain_from :
    (rs : List Read) (b : Bytes) → keep_last b ≡ b → drain b rs ≡ keep_last (b ++ received rs)
unfolding drain
drain_from [] b h = sym h ∙ ap keep_last (sym (append-nil b))
drain_from (r ∷ rs) b h =
    let e = append_read_lem b r.bytes h in
    elim (Bool-cases r.ended) [
      | inl last ↦ rw last (e ∙ ap (λ t. keep_last (b ++ t)) (sym (append-nil r.bytes)))
      | inr more ↦
          let kept = ap keep_last e ∙ keep_last_idem (b ++ r.bytes) ∙ sym e in
          rw more (
            drain_from rs (append_read b r.bytes) kept
            ∙ ap (λ t. keep_last (t ++ received rs)) e
            ∙ keep_last-append (b ++ r.bytes) (received rs)
            ∙ ap keep_last (append_assoc b r.bytes (received rs)))
    ]

keep_last-length : (b : Bytes) → length (keep_last b) ≤ stderr_buffer_cap
keep_last-length b =
    rw (keep_last_lem b) (omega (arith, length-drop (length b - stderr_buffer_cap) b))

-- However the output of the process is cut into reads, the buffer ends up with the last 8192 bytes of all
-- that was read up to the first error, or with all of them where there are fewer.
pub drain-received :
    (rs : List Read)
    → (drain [] rs ≡ drop (length (received rs) - stderr_buffer_cap) (received rs))
      × (length (drain [] rs) ≤ stderr_buffer_cap)
unfolding keep_last
drain-received rs =
    let whole = drain_from rs [] refl in
    (whole ∙ keep_last_lem (received rs), rw whole (keep_last-length (received rs)))
