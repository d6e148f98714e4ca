-- ===== src/Prelude/Text.antt =====
-- Text as a list of bytes: a Go string.
use Prim.Native.Nat.{ℕ}
use Prim.Native.Char.{code}
use Prim.Native.String.{String}
use mathlib.Core.Path.{◌≡◌, refl}
use mathlib.Core.Logic.{◌↔◌}
use mathlib.Core.Bool.{Bool, true, false}
use mathlib.Core.List.{List, [], ◌∷◌}
use native.Mathlib.Omega.{arith}
use portolan.Prelude.Tests.{◌==◌}

abbrev pub Bytes : Type 0
Bytes = List ℕ

-- The bytes of a literal, which is ASCII wherever this stands.
abbrev pub codes : String → Bytes
codes String.[] = []
codes (String.◌∷◌ c s) = code c ∷ codes s

-- `a == b` on Go strings.
unfoldable pub equal : Bytes → Bytes → Bool
equal [] t = elim t [ [] ↦ true | _ ∷ _ ↦ false ]
equal (c ∷ cs) [] = false
equal (c ∷ cs) (d ∷ ds) = elim (c == d) [ true ↦ equal cs ds | false ↦ false ]

pub equal_iff : (s t : Bytes) → (equal s t ≡ true) ↔ (s ≡ t)
unfolding equal
equal_iff [] [] = ground arith
equal_iff [] (d ∷ ds) = ground arith
equal_iff (c ∷ cs) [] = ground arith
equal_iff (c ∷ cs) (d ∷ ds) = ground (arith, equal_iff cs ds)

pub equal_refl : (a : Bytes) → equal a a ≡ true
equal_refl a = (equal_iff a a).1 refl
