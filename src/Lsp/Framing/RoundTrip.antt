-- ===== src/Lsp/Framing/RoundTrip.antt =====
-- What `frameBytes` writes `readFrame` reads back, and leaves what follows.
use portolan.Prelude.{
  ℕ, ◌<◌, Bool, true, not, some, [], ◌∷◌, ◌++◌, append-nil, append_assoc, Bytes, codes, equal, ◌==◌,
  all_of, length, length-append, take_prefix, drop_prefix, ◌≡◌, refl, sym, ap, ◌∙◌, arith,
}
use portolan.Prelude.Int.{ℤ, pos, negsuc}
use portolan.Context.{ok}
use portolan.Text.Decimal.{is_digit, decimal, digit-decimal}
use portolan.Text.Space.{trim_space, trim_line_end, trim_space_digits}
use portolan.Text.Utf8.{decode_rune}
use portolan.Text.Atoi.{int_limit, atoi, atoi-decimal}
use portolan.Lsp.Framing.{
  next, split_colon, after_split, after_length, header_line, read_headers, read_body, after_headers,
  read_frame, frame_bytes,
}

abbrev no_line_feed : ℕ → Bool
no_line_feed c = not (c == b'\n')

-- A line without a line feed is collected up to the one that ends it.
read_headers-line :
    (s line : Bytes) (n : ℤ) (rest : Bytes)
    → all_of no_line_feed s ≡ true
    → read_headers line n (s ++ (b'\n' ∷ rest)) ≡ read_headers (line ++ s) n (b'\n' ∷ rest)
unfolding read_headers
read_headers-line [] line n rest h = rw (append-nil line) refl
read_headers-line (c ∷ s) line n rest h =
    ground (arith, read_headers-line s (line ++ (c ∷ [])) n rest, append_assoc line (c ∷ []) s)

trim_line_end-digits :
    (s : Bytes) → all_of is_digit s ≡ true → trim_line_end (s ++ (b'\r' ∷ b'\n' ∷ [])) ≡ s
unfolding trim_line_end
trim_line_end-digits [] h = refl
trim_line_end-digits (c ∷ s) h = ground (arith, trim_line_end-digits s)

trim_line_end-header :
    (s : Bytes)
    → all_of is_digit s ≡ true
    → trim_line_end (codes "Content-Length: " ++ (s ++ (b'\r' ∷ b'\n' ∷ [])))
      ≡ codes "Content-Length: " ++ s
trim_line_end-header s h =
    unfold trim_line_end in ap (λ t. codes "Content-Length: " ++ t) (trim_line_end-digits s h)

split_colon-header :
    (s : Bytes)
    → split_colon (codes "Content-Length: " ++ s) ≡ some (codes "Content-Length", b' ' ∷ s)
unfolding split_colon
split_colon-header s = refl

after_split-header :
    (n : ℤ) (s : Bytes)
    → after_split n (some (codes "Content-Length", s)) ≡ after_length (atoi (trim_space s))
unfolding after_split trim_space decode_rune equal
after_split-header n s = refl

header_line-content_length :
    (n : ℤ) (k : ℕ)
    → k < int_limit
    → header_line n (codes "Content-Length: " ++ (decimal k ++ (b'\r' ∷ b'\n' ∷ []))) ≡ next (pos k)
unfolding header_line
header_line-content_length n k h =
    rw (trim_line_end-header (decimal k) (digit-decimal k), split_colon-header (decimal k))
      (after_split-header n (b' ' ∷ decimal k)
        ∙ rw (trim_space_digits (decimal k) (digit-decimal k), atoi-decimal k h)
            (unfold after_length in refl))

read_headers-next :
    (line : Bytes) (n : ℤ) (cs : Bytes) {m : ℤ}
    → header_line n (line ++ (b'\n' ∷ [])) ≡ next m
    → read_headers line n (b'\n' ∷ cs) ≡ read_headers [] m cs
unfolding read_headers
read_headers-next line n cs h = ground arith

read_headers-blank :
    (n : ℤ) (rest : Bytes) → read_headers [] n (b'\r' ∷ b'\n' ∷ rest) ≡ ok (n, rest)
unfolding read_headers header_line trim_line_end
read_headers-blank n rest = refl

digits-no_line_feed :
    (s : Bytes) → all_of is_digit s ≡ true → all_of no_line_feed (s ++ (b'\r' ∷ [])) ≡ true
digits-no_line_feed [] h = refl
digits-no_line_feed (c ∷ s) h = ground (arith, digits-no_line_feed s)

-- The header and the blank line behind it are read as the length of the body.
read_headers-header :
    (k : ℕ) (rest : Bytes)
    → k < int_limit
    → read_headers []
        (negsuc 0)
        (codes "Content-Length: " ++ (decimal k ++ (b'\r' ∷ b'\n' ∷ b'\r' ∷ b'\n' ∷ rest)))
      ≡ ok (pos k, rest)
read_headers-header k rest h =
    let line = codes "Content-Length: " ++ (decimal k ++ (b'\r' ∷ [])) in
    ap (λ t. read_headers [] (negsuc 0) (codes "Content-Length: " ++ t))
      (sym (append_assoc (decimal k) (b'\r' ∷ []) (b'\n' ∷ b'\r' ∷ b'\n' ∷ rest)))
    ∙ read_headers-line line [] (negsuc 0) (b'\r' ∷ b'\n' ∷ rest)
        (digits-no_line_feed (decimal k) (digit-decimal k))
    ∙ read_headers-next line (negsuc 0) (b'\r' ∷ b'\n' ∷ rest) (
        ap (λ t. header_line (negsuc 0) (codes "Content-Length: " ++ t))
          (append_assoc (decimal k) (b'\r' ∷ []) (b'\n' ∷ []))
        ∙ header_line-content_length (negsuc 0) k h)
    ∙ read_headers-blank (pos k) rest

read_body-append : (body rest : Bytes) → read_body (length body) (body ++ rest) ≡ ok (body, rest)
unfolding read_body
read_body-append body rest =
    ground (arith, length-append body rest, take_prefix body rest, drop_prefix body rest)

-- What `frameBytes` makes of a body whose length is an int `readFrame` reads back, and it leaves exactly
-- what follows.
pub read_frame-frame_bytes :
    (body rest : Bytes)
    → length body < int_limit
    → read_frame (frame_bytes body ++ rest) ≡ ok (body, rest)
unfolding read_frame frame_bytes
read_frame-frame_bytes body rest h =
    ap (λ t. read_frame (codes "Content-Length: " ++ t))
      (append_assoc (decimal (length body)) (b'\r' ∷ b'\n' ∷ b'\r' ∷ b'\n' ∷ body) rest)
    ∙ ap after_headers (read_headers-header (length body) (body ++ rest) h)
    ∙ read_body-append body rest
