-- ===== src/Runtime/Loaded.antt =====
-- What the actions of a comparison of Spicepods do to what is loaded: crates/runtime/src/lib.rs.
use spiceai.Prelude.{
  true, Option, none, some, List, [], ◌∷◌, ◌++◌, ◌≡◌, ◌≢◌, ◌↔◌, inl, inr, refl, sym, ap, subst, ◌∙◌,
  arith,
}
use mathlib.Core.Option
use spiceai.Prelude.Lists.{find, All}
use spiceai.Prelude.Tests.{if◌then◌else◌, Option-cases, Bool-cases}
use spiceai.Runtime.{Kind, Action, load, update, remove, by_name, change_of, changes}

-- What is loaded, by name: of each component its content, which is what a comparison of components
-- looks at.
abbrev pub Loaded : Type 0 → Type 0 → Type 0
Loaded Content Name = Name → Option Content

module _ {Raw Component Name Content : Type 0} (kind : Kind Raw Component Name)
    (content : Component → Content) where
  -- The laws of a kind: equal names are the same, and components that are compared as equal have the
  -- same content.
  pub record IsLawful : Type 0 where
    pub names : (m n : Name) → (kind.same_name m n ≡ true) ↔ (m ≡ n)
    pub same : (c d : Component) → kind.same c d ≡ true → content c ≡ content d

  -- The content of the component of a name.
  abbrev pub content_at : Name → List Component → Option Content
  content_at n cs = Option.map content (by_name kind n cs)

  -- An action that succeeds.
  unfoldable pub act : Action Component → Loaded Content Name → Loaded Content Name
  act (load c) σ n = if kind.same_name (kind.name c) n then some (content c) else σ n
  act (update c) σ n = if kind.same_name (kind.name c) n then some (content c) else σ n
  act (remove c) σ n = if kind.same_name (kind.name c) n then none else σ n

  unfoldable pub act_all : List (Action Component) → Loaded Content Name → Loaded Content Name
  act_all [] σ = σ
  act_all (a ∷ xs) σ = act_all xs (act a σ)

  pub act_all-append :
      (xs bs : List (Action Component)) (σ : Loaded Content Name)
      → act_all (xs ++ bs) σ ≡ act_all bs (act_all xs σ)
  unfolding act_all
  act_all-append [] bs σ = refl
  act_all-append (a ∷ xs) bs σ = act_all-append xs bs (act a σ)

module _ {Raw Component Name : Type 0} (kind : Kind Raw Component Name) where
  -- No two components of the list have the same name.
  abbrev pub Distinct : List Component → Type 0
  Distinct [] = Unit
  Distinct (c ∷ cs) = (by_name kind (kind.name c) cs ≡ none) × Distinct cs

  -- Every component of the Spicepods can be converted.
  abbrev pub Valid : List Raw → Type 0
  Valid = All (λ r. kind.convert r ≢ none)

  -- A component of the old version and one of the new have names that are spelled alike exactly when
  -- the names they are converted to are the same.
  abbrev pub SpelledAlike : List Raw → Raw → Type 0
  SpelledAlike new raw =
      All
        (λ r.
          (c d : Component)
          → kind.convert raw ≡ some c
          → kind.convert r ≡ some d
          → kind.same_raw_name r raw ≡ kind.same_name (kind.name d) (kind.name c))
        new

module _ {Raw Component Name Content : Type 0} (kind : Kind Raw Component Name)
    (content : Component → Content) (lawful : IsLawful kind content)
    (existing : List Component) where
  -- The loaded components agree with the existing ones at the names of these.
  abbrev Agree : Loaded Content Name → List Component → Type 0
  Agree σ = All (λ c. σ (kind.name c) ≡ content_at kind content (kind.name c) existing)

  change_of-act :
      (c : Component) (σ : Loaded Content Name)
      → σ (kind.name c) ≡ content_at kind content (kind.name c) existing
      → (n : Name)
      → act_all kind content (change_of kind existing c) σ n
        ≡ (if kind.same_name (kind.name c) n then some (content c) else σ n)
  unfolding act_all act change_of
  change_of-act c σ agree n = elim (Option-cases (by_name kind (kind.name c) existing)) [
    | inl e ↦
        let done : change_of kind existing c ≡ load c ∷ [] = rw (e, change_of) refl in
        ap (λ u. act_all kind content u σ n) done
    | inr (d, e) ↦ elim (Bool-cases (kind.same c d)) [
      | inr s ↦
          let done : change_of kind existing c ≡ update c ∷ [] = rw (e, s, change_of) refl in
          ap (λ u. act_all kind content u σ n) done
      | inl s ↦
          let done : change_of kind existing c ≡ [] = rw (e, s, change_of) refl in
          ap (λ u. act_all kind content u σ n) done
          ∙ elim (Bool-cases (kind.same_name (kind.name c) n)) [
            | inr m ↦ rw (m) refl
            | inl m ↦ rw (m) (
                ap σ (sym ((lawful.names (kind.name c) n).0 m))
                ∙ agree
                ∙ ap (Option.map content) e
                ∙ ap some (sym (lawful.same c d s)))
          ]
    ]
  ]

  by_name-cons :
      (c : Component) (cs : List Component) (n : Name)
      → by_name kind n (c ∷ cs)
        ≡ (if kind.same_name (kind.name c) n then some c else by_name kind n cs)
  unfolding by_name find
  by_name-cons c cs n = refl

  -- The names of the later components are others.
  Agree-next :
      (c : Component) (cs : List Component) (σ τ : Loaded Content Name)
      → by_name kind (kind.name c) cs ≡ none
      → ((n : Name) → τ n ≡ (if kind.same_name (kind.name c) n then some (content c) else σ n))
      → Agree σ cs
      → Agree τ cs
  unfolding by_name find
  Agree-next c [] σ τ other after agree = tt
  Agree-next c (d ∷ cs) σ τ other after agree = (
    ground (
      arith,
      after (kind.name d),
      agree.0,
      other,
      lawful.names (kind.name c) (kind.name d),
      lawful.names (kind.name d) (kind.name c),
    ),
    Agree-next c cs σ τ (ground (arith, other)) after agree.1,
  )

  pub changes-act :
      (cs : List Component) (σ : Loaded Content Name)
      → Distinct kind cs
      → Agree σ cs
      → (n : Name)
      → act_all kind content (changes kind existing cs) σ n
        ≡ elim (by_name kind n cs) [ none ↦ σ n | some c ↦ some (content c) ]
  unfolding changes act_all by_name find
  changes-act [] σ distinct agree n = refl
  changes-act (c ∷ cs) σ distinct agree n =
      let τ = act_all kind content (change_of kind existing c) σ in
      let after = change_of-act c σ agree.0 in
      let rest = changes-act cs τ distinct.1 (Agree-next c cs σ τ distinct.0 after agree.1) n in
      ap (λ f. f n)
        (act_all-append kind content (change_of kind existing c) (changes kind existing cs) σ)
      ∙ rest
      ∙ elim (Bool-cases (kind.same_name (kind.name c) n)) [
        | inr m ↦ ground (arith, m, after n, Option-cases (by_name kind n cs))
        | inl m ↦
            let is_name : kind.name c ≡ n = (lawful.names (kind.name c) n).0 m in
            let no_other : by_name kind n cs ≡ none =
              subst (λ k. by_name kind k cs ≡ none) is_name distinct.0 in
            ground (arith, m, after n, no_other)
      ]
