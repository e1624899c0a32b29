-- ===== src/Runtime/Converges.antt =====
-- The runtime follows the Spicepods: crates/runtime/src/lib.rs.
use spiceai.Prelude.{
  Bool, true, false, not, ◌&&◌, none, some, List, [], ◌∷◌, ◌++◌, ◌≡◌, inl, inr, refl, ap, subst,
  ◌∙◌, arith,
}
use spiceai.Prelude.Lists.{any, find, All}
use spiceai.Prelude.Tests.{if◌then◌else◌, Option-cases, Bool-cases, is_some}
use spiceai.Runtime.{Kind, valid, by_name, changes, removal_of, removals, apply_diff}
use spiceai.Runtime.Loaded.{
  Loaded, IsLawful, content_at, SpelledAlike, act, act_all, act_all-append, Distinct, Valid,
  changes-act,
}

module _ {Raw Component Name : Type 0} (kind : Kind Raw Component Name) where
  -- The component of the Spicepods has that name.
  unfoldable pub is_named : Name → Raw → Bool
  is_named n raw = elim (kind.convert raw) [
    | none ↦ false
    | some c ↦ kind.same_name (kind.name c) n
  ]

  -- A component of that name is removed.
  unfoldable pub is_removed : Name → List Raw → Raw → Bool
  is_removed n new raw = not (any (λ r. kind.same_raw_name r raw) new) && is_named n raw

  -- The valid components of a name.
  by_name-valid :
      (raws : List Raw) (n : Name)
      → is_some (by_name kind n (valid kind raws)) ≡ any (is_named n) raws
  unfolding by_name find valid is_named any is_some
  by_name-valid [] n = refl
  by_name-valid (raw ∷ raws) n = elim (Option-cases (kind.convert raw)) [
    | inl c ↦ rw (c, valid, is_named) (by_name-valid raws n)
    | inr (c, k) ↦
        rw (k, valid, is_named)
          (ground (arith, by_name-valid raws n, Bool-cases (kind.same_name (kind.name c) n)))
  ]

module _ {Raw Component Name Content : Type 0} (kind : Kind Raw Component Name)
    (content : Component → Content) where
  removal_of-act :
      (new : List Raw) (raw : Raw) (σ : Loaded Content Name) (n : Name)
      → act_all kind content (removal_of kind new raw) σ n
        ≡ (if is_removed kind n new raw then none else σ n)
  unfolding removal_of is_removed is_named act_all act
  removal_of-act new raw σ n = elim (Bool-cases (any (λ r. kind.same_raw_name r raw) new)) [
    | inl e ↦ ground (arith, e)
    | inr e ↦ elim (Option-cases (kind.convert raw)) [
      | inl c ↦ rw (e, c, is_named) refl
      | inr (c, k) ↦ rw (e, k, is_named) refl
    ]
  ]

  removals-act :
      (new current : List Raw) (σ : Loaded Content Name) (n : Name)
      → act_all kind content (removals kind new current) σ n
        ≡ (if any (is_removed kind n new) current then none else σ n)
  unfolding removals act_all any
  removals-act new [] σ n = refl
  removals-act new (raw ∷ raws) σ n =
      ap (λ f. f n)
        (act_all-append kind content (removal_of kind new raw) (removals kind new raws) σ)
      ∙ removals-act new raws (act_all kind content (removal_of kind new raw) σ) n
      ∙ ground (
        arith,
        removal_of-act new raw σ n,
        Bool-cases (is_removed kind n new raw),
        Bool-cases (any (is_removed kind n new) raws),
      )

module _ {Raw Component Name Content : Type 0} (kind : Kind Raw Component Name)
    (content : Component → Content) (lawful : IsLawful kind content) where
  same_raw_name-is_named :
      (new : List Raw) (raw : Raw) (c : Component)
      → Valid kind new
      → SpelledAlike kind new raw
      → kind.convert raw ≡ some c
      → any (λ r. kind.same_raw_name r raw) new ≡ any (is_named kind (kind.name c)) new
  unfolding any is_named
  same_raw_name-is_named [] raw c v a k = refl
  same_raw_name-is_named (r ∷ new) raw c v a k = elim (Option-cases (kind.convert r)) [
    | inl e ↦ absurd (v.0 e)
    | inr (d, e) ↦ ground (arith, e, a.0 c d k e, same_raw_name-is_named new raw c v.1 a.1 k)
  ]

  is_removed-is_named :
      (n : Name) (new : List Raw) (raw : Raw)
      → Valid kind new
      → SpelledAlike kind new raw
      → is_removed kind n new raw ≡ (not (any (is_named kind n) new) && is_named kind n raw)
  unfolding is_removed is_named
  is_removed-is_named n new raw v a = elim (Option-cases (kind.convert raw)) [
    | inl e ↦ ground (arith, e)
    | inr (c, k) ↦ elim (Bool-cases (kind.same_name (kind.name c) n)) [
      | inr m ↦ ground (arith, k, m)
      | inl m ↦
          let is_name : kind.name c ≡ n = (lawful.names (kind.name c) n).0 m in
          let named : any (λ r. kind.same_raw_name r raw) new ≡ any (is_named kind n) new =
            subst (λ u. any (λ r. kind.same_raw_name r raw) new ≡ any (is_named kind u) new) is_name
              (same_raw_name-is_named new raw c v a k) in
          ground (arith, k, m, named)
    ]
  ]

  removed-is_named :
      (n : Name) (new current : List Raw)
      → Valid kind new
      → All (SpelledAlike kind new) current
      → any (is_removed kind n new) current
        ≡ (not (any (is_named kind n) new) && any (is_named kind n) current)
  unfolding any
  removed-is_named n new [] v a = ground (arith, Bool-cases (any (is_named kind n) new))
  removed-is_named n new (raw ∷ raws) v a =
      ground (arith, is_removed-is_named n new raw v a.0, removed-is_named n new raws v a.1)

  agree_lem :
      (existing : List Component) (σ : Loaded Content Name)
      → ((n : Name) → σ n ≡ content_at kind content n existing)
      → (cs : List Component)
      → All (λ c. σ (kind.name c) ≡ content_at kind content (kind.name c) existing) cs
  agree_lem existing σ h [] = tt
  agree_lem existing σ h (c ∷ cs) = (h (kind.name c), agree_lem existing σ h cs)

  -- For a kind whose components are removed, whose test of names is equality, and whose test of
  -- components tells them apart by all that counts as loaded, such as datasets: when all components of the new version
  -- can be converted and no two of them have the same name, names are spelled alike in both versions
  -- exactly when they parse to the same, and what is loaded are the components of the old version,
  -- each under its name, then the actions that the comparison gives, when they succeed, make it those
  -- of the new version, up to what the comparison does not look at, such as the app of a dataset.
  pub apply_diff-converges :
      (current new : List Raw) (σ : Loaded Content Name)
      → kind.removes ≡ true
      → Valid kind new
      → Distinct kind (valid kind new)
      → All (SpelledAlike kind new) current
      → ((n : Name) → σ n ≡ content_at kind content n (valid kind current))
      → (n : Name)
      → act_all kind content (apply_diff kind current new) σ n
        ≡ content_at kind content n (valid kind new)
  unfolding apply_diff is_some
  apply_diff-converges current new σ removed v distinct alike loaded n =
      let old = valid kind current in
      let actions = changes kind old (valid kind new) in
      ap (λ b. act_all kind content (actions ++ (if b then removals kind new current else [])) σ n)
        removed
      ∙ ap (λ f. f n) (act_all-append kind content actions (removals kind new current) σ)
      ∙ removals-act kind content new current (act_all kind content actions σ) n
      ∙ ground (
        arith,
        changes-act kind content lawful old (valid kind new) σ distinct
            (agree_lem old σ loaded (valid kind new)) n,
        removed-is_named n new current v alike,
        by_name-valid kind new n,
        by_name-valid kind current n,
        loaded n,
        Option-cases (by_name kind n (valid kind new)),
        Option-cases (by_name kind n old),
      )
