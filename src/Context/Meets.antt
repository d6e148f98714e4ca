-- ===== src/Context/Meets.antt =====
-- Postconditions: `Meets P m` says that whatever value `m` returns, under any context, satisfies `P`.
use portolan.Prelude.{Bool, true, false, if◌then◌else◌, ◌≡◌, refl, subst}
use portolan.Context.{ok, Context, M, ◌>>=◌, ◌>>◌, return, throw, Error}
use portolan.Context.Success.{passed, given}

abbrev pub Meets {ℓ κ} : {A : Type ℓ} → (A → Type κ) → M A → Type (ℓ ⊔ κ)
Meets {A = A} P m = (c : Context) (a : A) (d : Context) → m c ≡ ok (a, d) → P a

module _ {ℓ κ} {A : Type ℓ} (P : A → Type κ) where
  pub return-Meets : (a : A) → P a → Meets P (return a)
  return-Meets a p c b d h = subst P (given h) p

  pub throw-Meets : (e : Error) → Meets P (throw e)
  throw-Meets e c b d h = absurd (cc)

  pub if-Meets :
      (b : Bool) {m k : M A}
      → (b ≡ true → Meets P m)
      → (b ≡ false → Meets P k)
      → Meets P (if b then m else k)
  if-Meets true hm hk = hm refl
  if-Meets false hm hk = hk refl

  pub then-Meets : (m : M (Unit {0})) {k : M A} → Meets P k → Meets P (m >> k)
  then-Meets m {k} hk c b d h = let p = passed m (λ _. k) c h in hk p.between b d p.behind

  pub bind-Meets {μ ν} :
      {B : Type μ} {Q : B → Type ν} (m : M B) {f : B → M A}
      → Meets Q m
      → ((b : B) → Q b → Meets P (f b))
      → Meets P (m >>= f)
  bind-Meets m {f} hm hf c b d h =
      let p = passed m f c h in hf p.value (hm c p.value p.between p.before) p.between b d p.behind
