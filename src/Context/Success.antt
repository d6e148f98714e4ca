-- ===== src/Context/Success.antt =====
-- What a sequence of steps that succeeds went through.
use portolan.Prelude.{Bool, true, false, if◌then◌else◌, ◌⊎◌, inl, inr, ◌≡◌, refl, arith}
use portolan.Context.{Result, ok, err, Context, M, ◌>>=◌, lift}

pub record Passed {ℓ κ} {A : Type ℓ} {B : Type κ} (m : M A) (f : A → M B) (c : Context)
    (r : B × Context) : Type (ℓ ⊔ κ) where
  pub value : A
  pub between : Context
  pub before : m c ≡ ok (value, between)
  pub behind : f value between ≡ ok r

pub passed {ℓ κ} :
    {A : Type ℓ} {B : Type κ} (m : M A) (f : A → M B) (c : Context) {r : B × Context}
    → (m >>= f) c ≡ ok r
    → Passed m f c r
passed m f c {r} h = go (m c) refl h
  where
    go :
        (x : Result (_ × Context))
        → m c ≡ x
        → elim x [ ok (a, d) ↦ f a d | err e ↦ err e ] ≡ ok r
        → Passed m f c r
    go (ok (a, d)) e h = record { value = a; between = d; before = e; behind = h }
    go (err e') e h = absurd cc

pub given {ℓ} : {A : Type ℓ} {r s : A × Context} → ok r ≡ ok s → r.0 ≡ s.0
given h = ground arith

pub bind_ok {ℓ κ} :
    {A : Type ℓ} {B : Type κ} (m : M A) (f : A → M B) (c : Context) {a : A} {d : Context}
    → m c ≡ ok (a, d)
    → (m >>= f) c ≡ f a d
bind_ok m f c h = rw (h, ◌>>=◌) refl

pub lifted {ℓ} :
    {A : Type ℓ} (r : Result A) (c : Context) {a : A} {d : Context}
    → lift r c ≡ ok (a, d)
    → r ≡ ok a
lifted (ok b) c h = ground arith
lifted (err e) c h = absurd cc

-- A test that succeeds took one of its two branches.
pub passed_if {ℓ} :
    {A : Type ℓ} (b : Bool) (m k : M A) (c : Context) {r : A × Context}
    → (if b then m else k) c ≡ ok r
    → ((b ≡ true) × (m c ≡ ok r)) ⊎ ((b ≡ false) × (k c ≡ ok r))
passed_if true m k c h = inl (refl, h)
passed_if false m k c h = inr (refl, h)
