-- ===== src/Tools/Walk.antt =====
-- The depth-first walk, parent before children, that internal/tools/resolve.go and
-- internal/tools/get_outline.go each write as a recursive closure over captured state. `visit` is the
-- body of the loop over one symbol: it says whether to stop, and gives the captured state.
use portolan.Prelude.{
  ℕ, suc, Bool, true, false, List, [], ◌∷◌, ◌++◌, ◌≡◌, refl, if◌then◌else◌, Bool-cases, inl, inr,
}
use portolan.Context.{ok, background, poll, M, ◌>>=◌, return, check}
use portolan.Context.Polling.{
  Transparent, if-Transparent, return-Transparent, check-Transparent, bind-Transparent,
}
use portolan.Core.Types.{Symbol, node, Nodes, nil, cons}

-- The symbols in the order of the walk, with their depths.
unfoldable pub preorder : ℕ → Nodes → List (ℕ × Symbol)
preorder d nil = []
preorder d (cons (node s kids) rest) = (d, s) ∷ (preorder (suc d) kids ++ preorder d rest)

module _ {ℓ} {S : Type ℓ} (visit : ℕ → Symbol → S → Bool × S) where
  unfoldable pub walk : Nodes → ℕ → S → M (Bool × S)
  walk nil d s = return (false, s)
  walk (cons (node a kids) rest) d s = check >>= λ _.
      let (stop, s1) = visit d a s in
      if stop
      then return (true, s1)
      else walk kids (suc d) s1 >>= λ r. if r.0 then return r else walk rest d r.1

  -- The same loop over a list.
  unfoldable pub scan : List (ℕ × Symbol) → S → Bool × S
  scan [] s = (false, s)
  scan ((d, a) ∷ l) s =
      let r = visit d a s in let rest = scan l r.1 in if r.0 then (true, r.1) else rest

  scan-append :
      (xs ys : List (ℕ × Symbol)) (s : S)
      → scan (xs ++ ys) s ≡ (if (scan xs s).0 then scan xs s else scan ys (scan xs s).1)
  unfolding scan
  scan-append [] ys s = refl
  scan-append ((d, a) ∷ xs) ys s = elim (Bool-cases (visit d a s).0) [
    | inl stop ↦ rw stop
    | inr more ↦ rw more (scan-append xs ys (visit d a s).1)
  ]

  -- Under a context that is not canceled the walk is the loop over the symbols in order.
  pub walk-scan :
      (ns : Nodes) (d : ℕ) (s : S)
      → walk ns d s background ≡ ok (scan (preorder d ns) s, background)
  unfolding walk scan preorder check poll
  walk-scan nil d s = refl
  walk-scan (cons (node a kids) rest) d s = elim (Bool-cases (visit d a s).0) [
    | inl stop ↦ rw stop
    | inr more ↦
        let s1 = (visit d a s).1 in
        rw (more, ◌>>=◌)
          (rw
            (
              walk-scan kids (suc d) s1,
              scan-append (preorder (suc d) kids) (preorder d rest) s1,
              ◌>>=◌,
            )
            (elim (Bool-cases (scan (preorder (suc d) kids) s1).0) [
              | inl stop ↦ rw stop
              | inr more' ↦ rw more' (walk-scan rest d (scan (preorder (suc d) kids) s1).1)
            ]))
  ]

  pub walk-Transparent : (ns : Nodes) (d : ℕ) (s : S) → Transparent (walk ns d s)
  unfolding walk
  walk-Transparent nil d s = return-Transparent _
  walk-Transparent (cons (node a kids) rest) d s = bind-Transparent check _ check-Transparent λ _.
      if-Transparent (visit d a s).0 _ _ (return-Transparent _) (
        bind-Transparent (walk kids (suc d) _) _ (walk-Transparent kids (suc d) _)
          λ r. if-Transparent r.0 _ _ (return-Transparent r) (walk-Transparent rest d r.1))
