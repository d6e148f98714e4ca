-- ===== src/Mcp/Control/Connections.antt =====
-- The connections of the control channel and their handlers, in every order of their steps.
use portolan.Prelude.{
  ℕ, suc, ◌+◌, Bool, true, false, not, ◌||◌, List, [], ◌∷◌, ◌++◌, length, all_of, ◌==◌, ==_iff,
  if◌then◌else◌, ◌≡◌, refl, sym, subst, arith, Bool-cases, inl, inr, ◌<◌, ◌≤◌,
}
use portolan.Mcp.Control.{
  Control, is_in, delete, accept, refuse, begin_shutdown, close_connection, unregister,
  handler_done, new_control, Step, accepts, refuses, begins_shutdown, closes, unregisters, ends,
  Reach, start, next,
}

-- How often a connection is registered.
times : ℕ → List ℕ → ℕ
times n [] = 0
times n (m ∷ ms) = let rest = times n ms in if n == m then suc rest else rest

length-delete : (n : ℕ) (ms : List ℕ) → length (delete n ms) + times n ms ≡ length ms
unfolding delete times
length-delete n [] = refl
length-delete n (m ∷ ms) = ground (arith, length-delete n ms)

is_in-times : (n : ℕ) (ms : List ℕ) → is_in n ms ≡ true → 1 ≤ times n ms
unfolding is_in times
is_in-times n [] h = absurd (ground arith)
is_in-times n (m ∷ ms) h = ground (arith, is_in-times n ms)

times-none : (n : ℕ) (ms : List ℕ) → is_in n ms ≡ false → times n ms ≡ 0
unfolding is_in times
times-none n [] h = refl
times-none n (m ∷ ms) h = ground (arith, times-none n ms)

times-delete : (k n : ℕ) (ms : List ℕ) → times k (delete n ms) ≤ times k ms
unfolding delete times
times-delete k n [] = omega arith
times-delete k n (m ∷ ms) = ground (arith, times-delete k n ms)

is_in-delete : (k n : ℕ) (ms : List ℕ) → is_in k (delete n ms) ≡ true → is_in k ms ≡ true
unfolding is_in delete
is_in-delete k n [] h = h
is_in-delete k n (m ∷ ms) h = ground (arith, is_in-delete k n ms)

is_in-append : (k : ℕ) (ms ns : List ℕ) → is_in k ms ≡ true → is_in k (ms ++ ns) ≡ true
unfolding is_in
is_in-append k [] ns h = absurd (ground arith)
is_in-append k (m ∷ ms) ns h = ground (arith, is_in-append k ms ns)

is_in-cons : (k m : ℕ) (ms : List ℕ) → is_in k ms ≡ true → is_in k (m ∷ ms) ≡ true
unfolding is_in
is_in-cons k m ms h = ground arith

record Inv (c : Control) : Type 0 where
  below : (n : ℕ) → is_in n c.connections ≡ true → n < c.accepted
  single : (n : ℕ) → times n c.connections ≤ 1
  counted : c.handlers ≡ length c.connections + c.leaving
  shut : c.shutting_down ≡ true → (n : ℕ) → is_in n c.connections ≡ true → is_in n c.closed ≡ true

new_control-Inv : Inv new_control
unfolding new_control is_in times
new_control-Inv = record {
  below = λ n h. absurd (ground arith);
  single = λ n. omega arith;
  counted = refl;
  shut = λ e n h. absurd (ground arith);
}

-- One more connection that was accepted is closed at once, or registered with its handler.
refuse-Inv : (c : Control) → Inv c → Inv (refuse c)
unfolding refuse
refuse-Inv c v = record {
  below = λ n h. let b = v.below n h in omega arith;
  single = v.single;
  counted = v.counted;
  shut = λ e n h. is_in-cons n c.accepted c.closed (v.shut e n h);
}

register-Inv :
    (c : Control)
    → Inv c
    → c.shutting_down ≡ false
    → Inv (record c {
      connections = c.accepted ∷ c.connections;
      handlers = suc c.handlers;
      accepted = suc c.accepted;
    })
unfolding is_in times
register-Inv c v running = record {
  below = λ n h. elim (Bool-cases (n == c.accepted)) [
    | inl same ↦ ground arith
    | inr other ↦ let b = v.below n (ground arith) in omega arith
  ];
  single = λ n. elim (Bool-cases (n == c.accepted)) [
    | inl same ↦ elim (Bool-cases (is_in n c.connections)) [
      | inl within ↦ absurd (let b = v.below n within in ground arith)
      | inr outside ↦ let t = times-none n c.connections outside in ground arith
    ]
    | inr other ↦ let t = v.single n in ground arith
  ];
  counted = let d = v.counted in omega arith;
  shut = λ e n h. absurd (ground arith);
}

accept-Inv : (c : Control) → Inv c → Inv (accept c)
unfolding accept
accept-Inv c v = elim (Bool-cases (c.shutting_down)) [
  | inl down ↦ subst (λ b. Inv (either b)) (sym down) (unfold refuse in refuse-Inv c v)
  | inr running ↦ subst (λ b. Inv (either b)) (sym running) (register-Inv c v running)
]
  where
    either : Bool → Control
    either b =
        if b
        then record c { closed = c.accepted ∷ c.closed; accepted = suc c.accepted }
        else record c {
          connections = c.accepted ∷ c.connections;
          handlers = suc c.handlers;
          accepted = suc c.accepted;
        }

unregister-Inv :
    (c : Control) (conn : ℕ) → Inv c → is_in conn c.connections ≡ true → Inv (unregister conn c)
unfolding unregister
unregister-Inv c conn v h = record {
  below = λ n k. v.below n (is_in-delete n conn c.connections k);
  single = λ n. let t = v.single n in let d = times-delete n conn c.connections in omega arith;
  counted =
      let d = v.counted in
      let l = length-delete conn c.connections in
      let once = v.single conn in let some = is_in-times conn c.connections h in omega arith;
  shut = λ e n k. v.shut e n (is_in-delete n conn c.connections k);
}

Step-Inv : {c d : Control} → Step c d → Inv c → Inv d
unfolding begin_shutdown close_connection handler_done
Step-Inv (accepts c) v = accept-Inv c v
Step-Inv (refuses c) v = refuse-Inv c v
Step-Inv (begins_shutdown c e) v = record {
  below = v.below;
  single = v.single;
  counted = v.counted;
  shut = λ e n h. is_in-append n c.connections c.closed h;
}
Step-Inv (closes c conn h) v = record {
  below = v.below;
  single = v.single;
  counted = v.counted;
  shut = λ e n k. is_in-cons n conn c.closed (v.shut e n k);
}
Step-Inv (unregisters c conn h k) v = unregister-Inv c conn v h
Step-Inv (ends c n h) v = record {
  below = v.below;
  single = v.single;
  counted = let d = v.counted in omega arith;
  shut = v.shut;
}

Reach-Inv : {c : Control} → Reach c → Inv c
Reach-Inv start = new_control-Inv
Reach-Inv (next r s) = Step-Inv s (Reach-Inv r)

all_of-is_in :
    (f : ℕ → Bool) (ms : List ℕ) → ((n : ℕ) → is_in n ms ≡ true → f n ≡ true) → all_of f ms ≡ true
unfolding is_in
all_of-is_in f [] h = refl
all_of-is_in f (m ∷ ms) h =
    let first : f m ≡ true = h m (let e = (==_iff m m).1 refl in ground arith) in
    rw first (all_of-is_in f ms (λ n k. h n (is_in-cons n m ms k)))

closed_if_down :
    (c : Control) (n : ℕ)
    → Inv c
    → is_in n c.connections ≡ true
    → (not c.shutting_down || is_in n c.closed) ≡ true
closed_if_down c n v h = elim (Bool-cases (c.shutting_down)) [
  | inl down ↦ rw (down, v.shut down n h) refl
  | inr running ↦ rw running refl
]

-- In every state that the steps reach, there is one handler for each registered connection and for each that
-- is leaving, and unless no shutdown is under way, every registered connection is closed.
pub Reach-counted :
    {c : Control}
    → Reach c
    → (c.handlers ≡ length c.connections + c.leaving)
      × (all_of (λ n. not c.shutting_down || is_in n c.closed) c.connections ≡ true)
Reach-counted {c} r =
    let v = Reach-Inv r in
    (
      v.counted,
      all_of-is_in (λ n. not c.shutting_down || is_in n c.closed) c.connections
          (λ n h. closed_if_down c n v h),
    )
