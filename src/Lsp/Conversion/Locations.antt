-- ===== src/Lsp/Conversion/Locations.antt =====
-- What `decodeLocations` makes of the locations of the server.
use portolan.Prelude.{
  true, Option, none, some, List, [], ◌∷◌, Bytes, is_empty, ◌≡◌, ◌⊎◌, inl, inr, refl, subst,
  Bool-cases, arith,
}
use portolan.Context.{Result, ok, err, Context, check, lift}
use portolan.Context.Success.{passed, given, lifted}
use portolan.Core.Types.{Range, validate_range, Location}
use portolan.Lsp.Conversion.{
  LspRange, RawLocation, chosen_range, chosen_uri, to_core_range, with_path, with_range, located,
  to_location, kept, convert_locations, decode_locations,
}
use portolan.Lsp.Conversion.Symbols.{as_range, to_core_range-eq_ok}

-- The locations that a list of server locations stands for: one without a URI or a range stands for
-- none, and the others, in their order, for the path of the URI and the range, which is valid.
pub data Selected (path_from_uri : Bytes → Result Bytes)
    : List RawLocation → List Location → Type 0 where
  done : Selected path_from_uri [] []
  skips :
      (rl : RawLocation) {rls : List RawLocation} {ls : List Location}
      → (is_empty (chosen_uri rl) ≡ true) ⊎ (chosen_range rl ≡ none)
      → Selected path_from_uri rls ls
      → Selected path_from_uri (rl ∷ rls) ls
  takes :
      (rl : RawLocation) (r : LspRange) (path : Bytes) {rls : List RawLocation} {ls : List Location}
      → chosen_range rl ≡ some r
      → path_from_uri (chosen_uri rl) ≡ ok path
      → validate_range (as_range r) ≡ none
      → Selected path_from_uri rls ls
      → Selected path_from_uri (rl ∷ rls) (record { file = path; range = as_range r } ∷ ls)

module _ (path_from_uri : Bytes → Result Bytes) where
  with_range-Selected :
      (rl : RawLocation) (r : LspRange) {rls : List RawLocation} {ls : List Location} (path : Bytes)
      (x : Result Range) (l : Option Location)
      → path_from_uri (chosen_uri rl) ≡ ok path
      → chosen_range rl ≡ some r
      → to_core_range r ≡ x
      → with_range path x ≡ ok l
      → Selected path_from_uri rls ls
      → Selected path_from_uri (rl ∷ rls) (kept path_from_uri l ls)
  unfolding with_range kept
  with_range-Selected rl r path (err e) l a b c h s = absurd cc
  with_range-Selected rl r {rls = rls} {ls = ls} path (ok range) l a b c h s =
      let v = to_core_range-eq_ok r range c in
      let e : some (record { file = path; range = as_range r }) ≡ l = ground arith in
      subst (λ o. Selected path_from_uri (rl ∷ rls) (kept path_from_uri o ls)) e
        (takes rl r path b a v.1 s)

  with_path-Selected :
      (rl : RawLocation) (r : LspRange) {rls : List RawLocation} {ls : List Location}
      (p : Result Bytes) (l : Option Location)
      → path_from_uri (chosen_uri rl) ≡ p
      → chosen_range rl ≡ some r
      → with_path path_from_uri p r ≡ ok l
      → Selected path_from_uri rls ls
      → Selected path_from_uri (rl ∷ rls) (kept path_from_uri l ls)
  unfolding with_path
  with_path-Selected rl r (err e) l a b h s = absurd cc
  with_path-Selected rl r (ok path) l a b h s =
      with_range-Selected rl r path (to_core_range r) l a b refl h s

  skipped :
      (rl : RawLocation) {rls : List RawLocation} {ls : List Location} (l : Option Location)
      → none ≡ l
      → (is_empty (chosen_uri rl) ≡ true) ⊎ (chosen_range rl ≡ none)
      → Selected path_from_uri rls ls
      → Selected path_from_uri (rl ∷ rls) (kept path_from_uri l ls)
  unfolding kept
  skipped rl {rls = rls} {ls = ls} l e v s =
      subst (λ o. Selected path_from_uri (rl ∷ rls) (kept path_from_uri o ls)) e (skips rl v s)

  located-Selected :
      (rl : RawLocation) {rls : List RawLocation} {ls : List Location} (o : Option LspRange)
      (l : Option Location)
      → chosen_range rl ≡ o
      → located path_from_uri (chosen_uri rl) o ≡ ok l
      → Selected path_from_uri rls ls
      → Selected path_from_uri (rl ∷ rls) (kept path_from_uri l ls)
  unfolding located
  located-Selected rl none l a h s = skipped rl l (ground arith) (inr a) s
  located-Selected rl (some r) l a h s = elim (Bool-cases (is_empty (chosen_uri rl))) [
    | inl e ↦ skipped rl l (ground arith) (inl e) s
    | inr e ↦ with_path-Selected rl r (path_from_uri (chosen_uri rl)) l refl a (ground arith) s
  ]

  convert_locations-Selected :
      (rls : List RawLocation) (c : Context) {out : List Location} {d : Context}
      → convert_locations path_from_uri rls c ≡ ok (out, d)
      → Selected path_from_uri rls out
  unfolding convert_locations to_location
  convert_locations-Selected [] c h = subst (Selected path_from_uri []) (given h) done
  convert_locations-Selected (rl ∷ rls) c h =
      let p = passed check _ c h in
      let q = passed (lift (to_location path_from_uri rl)) _ p.between p.behind in
      let r = passed (convert_locations path_from_uri rls) _ q.between q.behind in
      let below = convert_locations-Selected rls q.between r.before in
      subst (Selected path_from_uri (rl ∷ rls)) (given r.behind) (
        located-Selected rl (chosen_range rl) q.value refl
          (lifted (to_location path_from_uri rl) p.between q.before) below)

  -- If the locations of the server are converted, under whatever context, the result has the selected
  -- location of each, in the same order: the path of its URI with a valid range, and nothing for one that
  -- has no URI or no range.
  pub decode_locations-Selected :
      (rls : List RawLocation) (c : Context) {out : List Location} {d : Context}
      → decode_locations path_from_uri rls c ≡ ok (out, d)
      → Selected path_from_uri rls out
  unfolding decode_locations
  decode_locations-Selected [] c h = subst (Selected path_from_uri []) (given h) done
  decode_locations-Selected (rl ∷ rls) c h =
      let p = passed (convert_locations path_from_uri (rl ∷ rls)) _ c h in
      let q = passed check _ p.between p.behind in
      subst (Selected path_from_uri (rl ∷ rls)) (given q.behind)
        (convert_locations-Selected (rl ∷ rls) c p.before)
