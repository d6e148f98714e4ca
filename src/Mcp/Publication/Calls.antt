-- ===== src/Mcp/Publication/Calls.antt =====
-- What the system calls do to the names and to the history, whatever the other processes do between them.
use portolan.Prelude.{
  ℕ, Bool, true, false, ◌&&◌, ◌||◌, Option, none, some, List, [], ◌∷◌, ◌==◌, ◌≡◌, refl, sym, ◌∙◌,
  ap, subst,
}
use portolan.Mcp.Publication.{
  public, staged, quarantine, Errno, not_exist, already_exists, Action, moved, linked, unlinked,
  Turn, World, set_at, note, interfere, Call, attempt, rename, link, remove, is_same_file,
}

unfoldable pub was_linked : ℕ → List Action → Bool
was_linked n [] = false
was_linked n (linked m b ∷ older) = let rest = was_linked n older in n == m || rest
was_linked n (moved m ∷ older) = was_linked n older
was_linked n (unlinked b m ∷ older) = was_linked n older

-- Every inode that was removed from a private name is the process's own, or was linked to a name before.
unfoldable pub is_safe : ℕ → List Action → Bool
unfolding was_linked
is_safe own [] = true
is_safe own (moved m ∷ older) = is_safe own older
is_safe own (linked m b ∷ older) = is_safe own older
is_safe own (unlinked public m ∷ older) = is_safe own older
is_safe own (unlinked staged m ∷ older) =
    let rest = is_safe own older in (m == own || was_linked m older) && rest
is_safe own (unlinked quarantine m ∷ older) =
    let rest = is_safe own older in (m == own || was_linked m older) && rest

-- No call of the process's own moved a name: the others may have changed the public path.
pub record Calm (w v : World) : Type 0 where
  pub log : v.log ≡ w.log
  pub at_staged : v.at_staged ≡ w.at_staged
  pub at_quarantine : v.at_quarantine ≡ w.at_quarantine

pub interfere-Calm : (w : World) → Calm w (interfere w).1
unfolding interfere
interfere-Calm w =
    elim (w.turns)
      as (λ l.
        Calm w
          (elim l as (λ x. Call) [
            | [] ↦ (none, w)
            | t ∷ ts ↦ (
              t.failure,
              record w {
                at_public = elim (t.replaced) [ none ↦ w.at_public | some o ↦ o ];
                turns = ts;
              },
            )
          ]).1) [
            | [] ↦ record { log = refl; at_staged = refl; at_quarantine = refl }
            | t ∷ ts ↦ record { log = refl; at_staged = refl; at_quarantine = refl }
          ]

-- A call fails with nothing changed, or runs behind the others.
pub attempt-ends :
    (P : Call → Type 0) (f : World → Call) (w : World)
    → ((x : Errno) (v : World) → Calm w v → P (some x, v))
    → ((v : World) → Calm w v → P (f v))
    → P (attempt f w)
attempt-ends P f w fails runs =
    let c = interfere w in
    elim (c.0) as (λ e. P (elim e [ some x ↦ (some x, c.1) | none ↦ f (c.1) ])) [
      | some x ↦ fails x c.1 (interfere-Calm w)
      | none ↦ runs c.1 (interfere-Calm w)
    ]

unfoldable pub holds : Option ℕ → ℕ → Bool
holds none n = false
holds (some m) n = m == n

-- Every inode that was taken from the public path is the process's own, was linked to a name again, or is
-- still in the quarantine.
unfoldable pub is_kept : ℕ → List Action → Option ℕ → List Action → Bool
unfolding was_linked holds
is_kept own whole q [] = true
is_kept own whole q (moved m ∷ older) =
    let rest = is_kept own whole q older in ((m == own || was_linked m whole) || holds q m) && rest
is_kept own whole q (linked m b ∷ older) = is_kept own whole q older
is_kept own whole q (unlinked b m ∷ older) = is_kept own whole q older

unfoldable pub Good : ℕ → World → Type 0
Good own w = (is_safe own w.log ≡ true) × (is_kept own w.log w.at_quarantine w.log ≡ true)

-- `socket` is the inode at the staged name.
module _ (socket : Option ℕ) where
  -- The process's history, and what it holds in the quarantine.
  pub record Stands (w : World) (log : List Action) (q : Option ℕ) : Type 0 where
    pub history : w.log ≡ log
    pub held : w.at_quarantine ≡ q
    pub ready : w.at_staged ≡ socket

  pub Calm-Stands :
      (w v : World) (log : List Action) (q : Option ℕ) → Calm w v → Stands w log q → Stands v log q
  Calm-Stands w v log q c s = record {
    history = c.log ∙ s.history;
    held = c.at_quarantine ∙ s.held;
    ready = c.at_staged ∙ s.ready;
  }

  pub Stands-Good :
      (own : ℕ) (w : World) (log : List Action) (q : Option ℕ)
      → Stands w log q
      → is_safe own log ≡ true
      → is_kept own log q log ≡ true
      → Good own w
  unfolding Good
  Stands-Good own w log q s a b = (rw s.history a, rw (s.history, s.held) b)

  -- What the calls on the quarantine do, from where it stands.
  pub remove-ends :
      (P : Call → Type 0) (w : World) (n : ℕ) (log : List Action)
      → Stands w log (some n)
      → ((x : Errno) (v : World) → Stands v log (some n) → P (some x, v))
      → ((v : World) → Stands v (unlinked quarantine n ∷ log) none → P (none, v))
      → P (remove quarantine w)
  unfolding remove
  remove-ends P w n log s fails runs =
      attempt-ends P _ w (λ x v c. fails x v (Calm-Stands w v log (some n) c s))
        (λ v c.
          let t = Calm-Stands w v log (some n) c s in
          subst
            (λ o. P (elim o [
              | none ↦ (some not_exist, v)
              | some m ↦ (none, note (unlinked quarantine m) (set_at quarantine none v))
            ]))
            (sym t.held)
            (runs _ (record {
              history = ap (λ l. unlinked quarantine n ∷ l) t.history;
              held = refl;
              ready = t.ready;
            })))

  pub link-ends :
      (P : Call → Type 0) (w : World) (n : ℕ) (log : List Action)
      → Stands w log (some n)
      → ((x : Errno) (v : World) → Stands v log (some n) → P (some x, v))
      → ((v : World) → Stands v (linked n public ∷ log) (some n) → P (none, v))
      → P (link quarantine public w)
  unfolding link
  link-ends P w n log s fails runs =
      attempt-ends P _ w (λ x v c. fails x v (Calm-Stands w v log (some n) c s))
        (λ v c.
          let t = Calm-Stands w v log (some n) c s in
          subst
            (λ o. P (elim o [
              | none ↦ (some not_exist, v)
              | some k ↦ elim (v.at_public) [
                | some m ↦ (some already_exists, v)
                | none ↦ (none, note (linked k public) (set_at public (some k) v))
              ]
            ]))
            (sym t.held)
            (elim (v.at_public)
              as (λ o. P (elim o [
                | some m ↦ (some already_exists, v)
                | none ↦ (none, note (linked n public) (set_at public (some n) v))
              ])) [
                | some m ↦ fails already_exists v t
                | none ↦ runs _ (record {
                  history = ap (λ l. linked n public ∷ l) t.history;
                  held = t.held;
                  ready = t.ready;
                })
              ]))

  pub rename-ends :
      (P : Call → Type 0) (w : World) (log : List Action) (q : Option ℕ)
      → Stands w log q
      → ((x : Errno) (v : World) → Stands v log q → P (some x, v))
      → ((n : ℕ) (v : World) → Stands v (moved n ∷ log) (some n) → P (none, v))
      → P (rename w)
  unfolding rename
  rename-ends P w log q s fails runs =
      attempt-ends P _ w (λ x v c. fails x v (Calm-Stands w v log q c s))
        (λ v c.
          let t = Calm-Stands w v log q c s in
          elim (v.at_public)
            as (λ o. P (elim o [
              | none ↦ (some not_exist, v)
              | some n ↦
                  (none, note (moved n) (record v { at_public = none; at_quarantine = some n }))
            ])) [
              | none ↦ fails not_exist v t
              | some n ↦ runs n _ (record {
                history = ap (λ l. moved n ∷ l) t.history;
                held = refl;
                ready = t.ready;
              })
            ])

  pub is_same_file-ends :
      (P : Bool × Call → Type 0) (inode : ℕ) (w : World) (n : ℕ) (log : List Action)
      → Stands w log (some n)
      → ((x : Errno) (v : World) → Stands v log (some n) → P (false, (some x, v)))
      → ((b : Bool) (v : World) → (n == inode) ≡ b → Stands v log (some n) → P (b, (none, v)))
      → P (is_same_file inode w)
  unfolding is_same_file
  is_same_file-ends P inode w n log s fails runs =
      let c = interfere w in
      let t = Calm-Stands w c.1 log (some n) (interfere-Calm w) s in
      elim (c.0)
        as (λ e. P (elim e [
          | some x ↦ (false, (some x, c.1))
          | none ↦ elim (c.1.at_quarantine) [
            | none ↦ (false, (some not_exist, c.1))
            | some m ↦ (m == inode, (none, c.1))
          ]
        ])) [
          | some x ↦ fails x c.1 t
          | none ↦
              subst
                (λ o. P (elim o [
                  | none ↦ (false, (some not_exist, c.1))
                  | some m ↦ (m == inode, (none, c.1))
                ]))
                (sym t.held) (runs (n == inode) c.1 refl t)
        ]

abbrev pub start : Option ℕ → Option ℕ → List Turn → World
start at_public at_staged turns = record {
  at_public = at_public;
  at_staged = at_staged;
  at_quarantine = none;
  log = [];
  turns = turns;
}
