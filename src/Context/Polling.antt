-- ===== src/Context/Polling.antt =====
-- Cancellation never changes an answer: a computation under a context that is canceled at some poll
-- either stops with the context's error or does what it does under a context that never is.
use portolan.Prelude.{ℕ, zero, suc, Bool, true, false, if◌then◌else◌, ◌≡◌, refl, ◌⊎◌, inl, inr}
use portolan.Context.{
  Error, Result, ok, err, Context, background, until, poll, M, ◌>>=◌, return, throw, check, lift,
}

-- `r` is the outcome under `until n e`, and `b` that under `background`.
pub data Same {ℓ} {A : Type ℓ} (e : Error) (r b : Result (A × Context)) : Type ℓ where
  stopped : r ≡ err e → Same e r b
  kept : (a : A) (k : ℕ) → r ≡ ok (a, until k e) → b ≡ ok (a, background) → Same e r b
  failed : (f : Error) → r ≡ err f → b ≡ err f → Same e r b

abbrev pub Transparent {ℓ} : {A : Type ℓ} → M A → Type ℓ
Transparent m = (n : ℕ) (e : Error) → Same e (m (until n e)) (m background)

pub return-Transparent {ℓ} : {A : Type ℓ} (a : A) → Transparent (return a)
return-Transparent a n e = kept a n refl refl

pub throw-Transparent {ℓ} : {A : Type ℓ} (f : Error) → Transparent (throw {A = A} f)
throw-Transparent f n e = failed f refl refl

pub lift-Transparent {ℓ} : {A : Type ℓ} (r : Result A) → Transparent (lift r)
lift-Transparent (ok a) n e = kept a n refl refl
lift-Transparent (err f) n e = failed f refl refl

pub if-Transparent {ℓ} :
    {A : Type ℓ} (b : Bool) (m k : M A)
    → Transparent m
    → Transparent k
    → Transparent (if b then m else k)
if-Transparent true m k hm hk = hm
if-Transparent false m k hm hk = hk

pub check-Transparent : Transparent check
unfolding check poll
check-Transparent zero e = stopped refl
check-Transparent (suc n) e = kept tt n refl refl

pub bind-Transparent {ℓ κ} :
    {A : Type ℓ} {B : Type κ} (m : M A) (f : A → M B)
    → Transparent m
    → ((a : A) → Transparent (f a))
    → Transparent (m >>= f)
bind-Transparent {A} {B} m f hm hf n e = elim (hm n e) [
  | stopped p ↦ stopped (rw (p, ◌>>=◌))
  | kept a k p q ↦ rw (p, q, ◌>>=◌) (hf a k e)
  | failed g p q ↦ failed g (rw (p, ◌>>=◌)) (rw (q, ◌>>=◌))
]

-- So where the computation succeeds under no cancellation it has that value or stops, in any context.
pub Transparent-value {ℓ} :
    {A : Type ℓ} (m : M A) {a : A} (c : Context)
    → Transparent m
    → m background ≡ ok (a, background)
    → ((e : Error) × (m c ≡ err e)) ⊎ ((d : Context) × (m c ≡ ok (a, d)))
Transparent-value m background t h = inr (background, h)
Transparent-value m (until n e) t h = elim (t n e) [
  | stopped p ↦ inl (e, p)
  | kept b k p q ↦ inr (until k e, cc)
  | failed f p q ↦ inl (f, p)
]
