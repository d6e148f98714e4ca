-- ===== src/Mcp/Publication/Installation.antt =====
-- Publishing the staged socket.
use portolan.Prelude.{
  Bool, ◌⊎◌, inl, inr, ℕ, true, false, Option, none, some, List, [], ◌∷◌, ◌==◌, if◌then◌else◌, ◌≡◌,
  refl, sym, ap, subst, arith,
}
use portolan.Mcp.Publication.{
  public, staged, quarantine, Errno, not_exist, already_exists, other_error, Action, moved, linked,
  unlinked, Turn, World, set_at, note, Call, make_dir, rename, link, remove,
  restore_path_no_replace, publish, drop_stale, replace_stale, install_staged_socket,
}
use portolan.Mcp.Publication.Calls.{
  was_linked, is_safe, attempt-ends, holds, is_kept, Stands, Calm-Stands, Good, Stands-Good,
  remove-ends, rename-ends, is_same_file-ends, start,
}
use portolan.Mcp.Publication.Removal.{restore-Good}

-- The staged socket was linked to the public path, and its staged name is gone.
unfoldable pub Published : ℕ → World → Type 0
Published socket w = (was_linked socket w.log ≡ true) × (w.at_staged ≡ none)

abbrev is_error : Option Errno → Bool
is_error (some x) = true
is_error none = false

-- The names are as they should be, and an error is returned or the socket is published.
unfoldable pub Ended : ℕ → ℕ → Call → Type 0
Ended stale socket c = Good stale c.1 × ((is_error c.0 ≡ true) ⊎ Published socket c.1)

-- Nothing but the stale inode was taken.
is_kept_own :
    (own : ℕ) (whole log : List Action) (q : Option ℕ)
    → is_kept own [] none log ≡ true
    → is_kept own whole q log ≡ true
unfolding is_kept was_linked holds
is_kept_own own whole [] q h = refl
is_kept_own own whole (moved m ∷ older) q h = ground (arith, is_kept_own own whole older q)
is_kept_own own whole (linked m b ∷ older) q h = is_kept_own own whole older q h
is_kept_own own whole (unlinked b m ∷ older) q h = is_kept_own own whole older q h

-- The calls on the staged and on the public name.
module _ (k : ℕ) (P : Call → Type 0) (w : World) (log : List Action) (q : Option ℕ)
    (s : Stands (some k) w log q) where
  remove_public-ends :
      ((x : Errno) (v : World) → Stands (some k) v log q → P (some x, v))
      → ((n : ℕ) (v : World) → Stands (some k) v (unlinked public n ∷ log) q → P (none, v))
      → P (remove public w)
  unfolding remove
  remove_public-ends fails runs =
      attempt-ends P _ w (λ x v c. fails x v (Calm-Stands (some k) w v log q c s))
        (λ v c.
          let t = Calm-Stands (some k) w v log q c s in
          elim (v.at_public)
            as (λ o. P (elim o [
              | none ↦ (some not_exist, v)
              | some n ↦ (none, note (unlinked public n) (set_at public none v))
            ])) [
              | none ↦ fails not_exist v t
              | some n ↦ runs n _ (record {
                history = ap (λ l. unlinked public n ∷ l) t.history;
                held = t.held;
                ready = t.ready;
              })
            ])

  remove_staged-ends :
      ((x : Errno) (v : World) → Stands (some k) v log q → P (some x, v))
      → ((v : World) → Stands none v (unlinked staged k ∷ log) q → P (none, v))
      → P (remove staged w)
  unfolding remove
  remove_staged-ends fails runs =
      attempt-ends P _ w (λ x v c. fails x v (Calm-Stands (some k) w v log q c s))
        (λ v c.
          let t = Calm-Stands (some k) w v log q c s in
          subst
            (λ o. P (elim o [
              | none ↦ (some not_exist, v)
              | some n ↦ (none, note (unlinked staged n) (set_at staged none v))
            ]))
            (sym t.ready)
            (runs _ (record {
              history = ap (λ l. unlinked staged k ∷ l) t.history;
              held = t.held;
              ready = refl;
            })))

  link_staged-ends :
      ((x : Errno) (v : World) → Stands (some k) v log q → P (some x, v))
      → ((v : World) → Stands (some k) v (linked k public ∷ log) q → P (none, v))
      → P (link staged public w)
  unfolding link
  link_staged-ends fails runs =
      attempt-ends P _ w (λ x v c. fails x v (Calm-Stands (some k) w v log q c s))
        (λ v c.
          let t = Calm-Stands (some k) w v log q c s in
          subst
            (λ o. P (elim o [
              | none ↦ (some not_exist, v)
              | some n ↦ elim (v.at_public) [
                | some m ↦ (some already_exists, v)
                | none ↦ (none, note (linked n public) (set_at public (some n) v))
              ]
            ]))
            (sym t.ready)
            (elim (v.at_public)
              as (λ o. P (elim o [
                | some m ↦ (some already_exists, v)
                | none ↦ (none, note (linked k public) (set_at public (some k) v))
              ])) [
                | some m ↦ fails already_exists v t
                | none ↦ runs _ (record {
                  history = ap (λ l. linked k public ∷ l) t.history;
                  held = t.held;
                  ready = t.ready;
                })
              ]))

module _ (stale socket : ℕ) (log : List Action) (q : Option ℕ) (safe : is_safe stale log ≡ true)
    (own : is_kept stale [] none log ≡ true) where
  -- An error, behind one of the histories that are safe.
  failed-Ended :
      (x : Errno) (w : World) (acts : List Action) (st : Option ℕ)
      → Stands st w acts q
      → is_safe stale acts ≡ true
      → is_kept stale [] none acts ≡ true
      → Ended stale socket (some x, w)
  unfolding Ended
  failed-Ended x w acts st s a b =
      (Stands-Good st stale w acts q s a (is_kept_own stale acts acts q b), inl refl)

  -- The public path is unlinked again, whatever stands there by then.
  rolled_back :
      (x : Errno) (w : World)
      → Stands (some socket) w (linked socket public ∷ log) q
      → Ended stale socket (some x, (remove public w).1)
  unfolding is_safe is_kept
  rolled_back x w s =
      remove_public-ends socket (λ c. Ended stale socket (some x, c.1)) w
        (linked socket public ∷ log) q s
        (λ y v t. failed-Ended x v (linked socket public ∷ log) (some socket) t safe own)
        (λ n v t.
          failed-Ended x v (unlinked public n ∷ linked socket public ∷ log) (some socket) t safe
            own)

  pub publish-Ended : (w : World) → Stands (some socket) w log q → Ended stale socket (publish w)
  unfolding publish Ended Published is_safe is_kept was_linked
  publish-Ended w s =
      link_staged-ends socket
        (λ c. Ended stale socket (elim (c.0) as (λ e. Call) [
          | some x ↦ (some x, c.1)
          | none ↦ elim ((remove staged c.1).0) as (λ e. Call) [
            | some x ↦ (some x, (remove public (remove staged c.1).1).1)
            | none ↦ (none, (remove staged c.1).1)
          ]
        ]))
        w log q s (λ x v t. failed-Ended x v log (some socket) t safe own)
        (λ v t.
          remove_staged-ends socket
            (λ c. Ended stale socket (elim (c.0) as (λ e. Call) [
              | some x ↦ (some x, (remove public c.1).1)
              | none ↦ (none, c.1)
            ]))
            v (linked socket public ∷ log) q t (λ x u r. rolled_back x u r)
            (λ u r.
              let acts = unlinked staged socket ∷ linked socket public ∷ log in
              (
                Stands-Good none stale u acts q r (ground arith)
                    (is_kept_own stale acts acts q own),
                inr (rw r.history (ground arith), r.ready),
              )))

restored-Ended :
    (stale socket : ℕ) (n : ℕ) (v : World)
    → Stands (some socket) v (moved n ∷ []) (some n)
    → Ended stale socket (some other_error, (restore_path_no_replace v).1)
unfolding Ended
restored-Ended stale socket n v t = (restore-Good (some socket) stale v n t, inl refl)

-- A stale inode in the quarantine is removed before the socket is published, and another one is restored.
drop_stale-Ended :
    (stale socket : ℕ) (w : World) (n : ℕ)
    → Stands (some socket) w (moved n ∷ []) (some n)
    → Ended stale socket (drop_stale stale w)
unfolding drop_stale is_safe is_kept was_linked
drop_stale-Ended stale socket w n s =
    is_same_file-ends (some socket)
      (λ c. Ended stale socket (
        if c.0
        then (elim ((remove quarantine c.1.1).0) as (λ e. Call) [
          | some x ↦ (some x, (remove quarantine c.1.1).1)
          | none ↦ publish (remove quarantine c.1.1).1
        ])
        else (some other_error, (restore_path_no_replace c.1.1).1)))
      stale w n (moved n ∷ []) s (λ x v t. restored-Ended stale socket n v t)
      (λ b v same t.
        elim b
            as (λ b.
              (n == stale) ≡ b
              → Ended stale socket (
                  if b
                  then (elim ((remove quarantine v).0) as (λ e. Call) [
                    | some x ↦ (some x, (remove quarantine v).1)
                    | none ↦ publish (remove quarantine v).1
                  ])
                  else (some other_error, (restore_path_no_replace v).1))) [
                    | true ↦ λ e.
                        remove-ends (some socket)
                          (λ c. Ended stale socket (elim (c.0) as (λ e. Call) [
                            | some x ↦ (some x, c.1)
                            | none ↦ publish c.1
                          ]))
                          v n (moved n ∷ []) t
                          (λ x u r.
                            failed-Ended stale socket [] (some n) refl refl x u (moved n ∷ [])
                              (some socket) r refl (ground arith))
                          (λ u r.
                            publish-Ended stale socket (unlinked quarantine n ∷ moved n ∷ []) none
                              (ground arith) (ground arith) u r)
                    | false ↦ λ e. restored-Ended stale socket n v t
                  ]
          same)

pub install_staged_socket-Ended :
    (stale socket : ℕ) (at_public : Option ℕ) (turns : List Turn)
    → Ended stale socket (install_staged_socket (some stale) (start at_public (some socket) turns))
unfolding install_staged_socket make_dir is_safe is_kept
install_staged_socket-Ended stale socket at_public turns =
    let w = start at_public (some socket) turns in
    let s : Stands (some socket) w [] none = record { history = refl; held = refl; ready = refl } in
    let failed = failed-Ended stale socket [] none refl refl in
    attempt-ends
      (λ c. Ended stale socket (elim (c.0) as (λ e. Call) [
        | some x ↦ (some x, c.1)
        | none ↦ replace_stale stale (rename c.1)
      ]))
      (λ v. (none, v)) w
      (λ x v c. failed x v [] (some socket) (Calm-Stands (some socket) w v [] none c s) refl refl)
      (λ v c.
        rename-ends (some socket) (λ d. Ended stale socket (replace_stale stale d)) v [] none
          (Calm-Stands (some socket) w v [] none c s)
          (λ x u t. elim x as (λ y. Ended stale socket (replace_stale stale (some y, u))) [
            | not_exist ↦ publish-Ended stale socket [] none refl refl u t
            | already_exists ↦ failed already_exists u [] (some socket) t refl refl
            | other_error ↦ failed other_error u [] (some socket) t refl refl
          ])
          (λ n u t. drop_stale-Ended stale socket u n t))
