-- ===== src/Mcp/Publication/Removal.antt =====
-- Taking the socket's path back.
use portolan.Prelude.{ℕ, Option, none, some, [], ◌∷◌, refl, arith}
use portolan.Mcp.Publication.{
  public, quarantine, moved, linked, unlinked, World, Call, remove, restore_path_no_replace,
}
use portolan.Mcp.Publication.Calls.{
  was_linked, is_safe, holds, is_kept, Stands, Good, Stands-Good, remove-ends, link-ends,
}

module _ (socket : Option ℕ) where
  -- A replacement is restored, or stays where it was moved to.
  pub restore-Good :
      (own : ℕ) (w : World) (n : ℕ)
      → Stands socket w (moved n ∷ []) (some n)
      → Good own (restore_path_no_replace w).1
  unfolding restore_path_no_replace is_safe is_kept holds was_linked
  restore-Good own w n s =
      link-ends socket
        (λ c.
          Good own
            (elim (c.0) as (λ e. Call) [ some x ↦ (some x, c.1) | none ↦ remove quarantine c.1 ]).1)
        w n (moved n ∷ []) s
        (λ x v t. Stands-Good socket own v (moved n ∷ []) (some n) t refl (ground arith))
        (λ v t.
          remove-ends socket (λ c. Good own c.1) v n (linked n public ∷ moved n ∷ []) t
            (λ x u r.
              Stands-Good socket own u (linked n public ∷ moved n ∷ []) (some n) r refl
                (ground arith))
            (λ u r.
              Stands-Good socket own u (unlinked quarantine n ∷ linked n public ∷ moved n ∷ []) none
                r (ground arith) (ground arith)))
