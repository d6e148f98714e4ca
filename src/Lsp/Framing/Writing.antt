-- ===== src/Lsp/Framing/Writing.antt =====
-- `writeFull` of internal/lsp/framing.go. The writer answers each call, which it is offered `left`
-- bytes, with how many it took and with an error; of a count beyond the offer, with which the slice
-- would panic, the model takes the offer.
use portolan.Prelude.{
  ℕ, zero, suc, ◌<◌, Option, none, some, [], ◌∷◌, ◌++◌, Bytes, ◌==◌, if◌then◌else◌, length, take,
  drop, ◌≡◌, ◌≢◌, refl, sym, append_assoc, take-append-drop, ◌∙◌, ap, arith, inl, inr, Bool-cases,
  length-drop,
}
use portolan.Context.{Error}

-- The answer to call number `round`.
abbrev pub Writer : Type 0
Writer = ℕ → ℕ → ℕ × Option Error

-- How the loop ends: with `complete` called, with the writer's error, with io.ErrShortWrite.
pub data Ending : Type 0 where
  completed short_write out_of_fuel : Ending
  write_failed : Error → Ending

-- The bytes taken, and the end.
pub record Written : Type 0 where
  pub taken : Bytes
  pub ending : Ending

-- One round with the answer in hand; `rest` is the loop on what is left.
write_round : Bytes → ℕ → Option Error → Written → Written
write_round s n (some e) rest = record { taken = take n s; ending = write_failed e }
write_round s n none rest =
    if n == 0
    then record { taken = []; ending = short_write }
    else record { taken = take n s ++ rest.taken; ending = rest.ending }

-- The loop, with fuel for `fuel` rounds.
unfoldable pub write_loop : Writer → ℕ → ℕ → Bytes → Written
unfolding write_round
write_loop w zero round s = record { taken = []; ending = out_of_fuel }
write_loop w (suc fuel) round [] = record { taken = []; ending = completed }
write_loop w (suc fuel) round (c ∷ cs) =
    let answer = w round (length (c ∷ cs)) in
    let rest = write_loop w fuel (suc round) (drop answer.0 (c ∷ cs)) in
    write_round (c ∷ cs) answer.0 answer.1 rest

-- Each round writes a byte or ends the loop, so one round more than there are bytes is enough.
unfoldable pub write_full : Writer → Bytes → Written
write_full w s = write_loop w (suc (length s)) 0 s

-- The loop ends, it completes exactly when every byte has been taken, and what has been taken is in any
-- case the front of the data.
pub record IsWritten (s : Bytes) (r : Written) : Type 0 where
  pub ends : r.ending ≢ out_of_fuel
  pub left : Bytes
  pub front : s ≡ r.taken ++ left
  pub all_taken : r.ending ≡ completed → left ≡ []

module _ (w : Writer) where
  write_round-IsWritten :
      (s : Bytes) (n : ℕ) (e : Option Error) (rest : Written)
      → (n ≢ 0 → IsWritten (drop n s) rest)
      → IsWritten s (write_round s n e rest)
  unfolding write_round
  write_round-IsWritten s n (some e) rest h = record {
    ends = λ p. cc;
    left = drop n s;
    front = sym (take-append-drop n s);
    all_taken = λ p. cc;
  }
  write_round-IsWritten s n none rest h = elim (Bool-cases (n == 0)) [
    | inl stop ↦ rw stop (record { ends = λ p. cc; left = s; front = refl; all_taken = λ p. cc })
    | inr more ↦
        let r = h (ground arith) in
        rw more (record {
          ends = r.ends;
          left = r.left;
          front =
              sym (take-append-drop n s)
              ∙ ap (λ t. take n s ++ t) r.front
              ∙ sym (append_assoc (take n s) rest.taken r.left);
          all_taken = r.all_taken;
        })
  ]

  write_loop-IsWritten :
      (fuel round : ℕ) (s : Bytes) → length s < fuel → IsWritten s (write_loop w fuel round s)
  unfolding write_loop
  write_loop-IsWritten zero round s h = absurd (omega arith)
  write_loop-IsWritten (suc fuel) round [] h = record {
    ends = λ p. cc;
    left = [];
    front = refl;
    all_taken = λ p. refl;
  }
  write_loop-IsWritten (suc fuel) round (c ∷ cs) h =
      let answer = w round (length (c ∷ cs)) in
      write_round-IsWritten (c ∷ cs) answer.0 answer.1 _ λ moved.
        write_loop-IsWritten fuel (suc round) (drop answer.0 (c ∷ cs))
          (omega (arith, length-drop answer.0 (c ∷ cs)))

  -- `writeFull` ends over any writer, it completes only when every byte has been written, and what has
  -- been written is in any case the front of the frame.
  pub write_full-IsWritten : (s : Bytes) → IsWritten s (write_full w s)
  unfolding write_full
  write_full-IsWritten s = write_loop-IsWritten (suc (length s)) 0 s (omega arith)
