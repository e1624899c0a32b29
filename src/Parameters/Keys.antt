-- ===== src/Parameters/Keys.antt =====
-- Which keys of the user name which parameters.
use spiceai.Prelude.{
  ℕ, false, none, some, List, [], ◌∷◌, ◌++◌, ◌≡◌, refl, sym, ap, ◌∙◌, inl, inr, append_assoc, arith,
}
use spiceai.Prelude.Tests.{Option-cases, Bool-cases}
use spiceai.Prelude.Text.{
  Text, codes, ==_iff, strip_prefix, strip_prefix-append, append-strip_prefix,
}
use spiceai.Parameters.Kind.{is_prefixed}
use spiceai.Parameters.Spec.{ParameterSpec}
use spiceai.Parameters.{full_prefix, spec_of, split_prefix, accept, convert_key, user_name}

name-spec_of :
    (all_params : List ParameterSpec) (name : Text) (spec : ParameterSpec)
    → spec_of all_params name ≡ some spec
    → spec.name ≡ name
unfolding spec_of
name-spec_of [] name spec h = ground arith
name-spec_of (s ∷ ss) name spec h = ground (arith, name-spec_of ss name spec, ==_iff s.name name)

module _ (c : ℕ) (rest : Text) (all_params : List ParameterSpec) where
  -- For a prefix that is not empty: the name that `user_param` shows for a parameter is a key that
  -- `try_new` takes for that parameter. A parameter that has no prefix must not have a name that
  -- starts with it.
  pub convert_key-user_name :
      (spec : ParameterSpec)
      → spec_of all_params spec.name ≡ some spec
      → (is_prefixed spec.type ≡ false → strip_prefix (full_prefix (c ∷ rest)) spec.name ≡ none)
      → convert_key (c ∷ rest) all_params (user_name (c ∷ rest) spec) ≡ some spec.name
  unfolding convert_key accept split_prefix user_name
  convert_key-user_name spec h bare = elim (Bool-cases (is_prefixed spec.type)) [
    | inl e ↦
        let key : user_name (c ∷ rest) spec ≡ full_prefix (c ∷ rest) ++ spec.name =
          rw e (sym (append_assoc (c ∷ rest) (codes "_") spec.name)) in
        let split = strip_prefix-append (full_prefix (c ∷ rest)) spec.name in
        ap (convert_key (c ∷ rest) all_params) key
        ∙ (rw (split, split_prefix, h, e, convert_key) refl)
    | inr e ↦
        let key : user_name (c ∷ rest) spec ≡ spec.name = rw e refl in
        let split = bare e in
        ap (convert_key (c ∷ rest) all_params) key
        ∙ (rw (split, split_prefix, h, e, convert_key) refl)
  ]

  -- For a prefix that is not empty: a key that `try_new` takes for a parameter is the name that
  -- `user_param` shows for it.
  pub user_name-convert_key :
      (key name : Text)
      → convert_key (c ∷ rest) all_params key ≡ some name
      → (spec : ParameterSpec) × (spec_of all_params name ≡ some spec)
        × (key ≡ user_name (c ∷ rest) spec)
  unfolding convert_key accept split_prefix user_name
  user_name-convert_key key name h =
      elim (Option-cases (strip_prefix (full_prefix (c ∷ rest)) key)) [
        | inl e ↦ elim (Option-cases (spec_of all_params key)) [
          | inl f ↦ absurd (ground arith)
          | inr (spec, f) ↦ (spec, ground arith, ground (arith, name-spec_of all_params key spec f))
        ]
        | inr (r, e) ↦ elim (Option-cases (spec_of all_params r)) [
          | inl f ↦ absurd (ground arith)
          | inr (spec, f) ↦ (
            spec,
            ground arith,
            ground (
              arith,
              name-spec_of all_params r spec f,
              append-strip_prefix (full_prefix (c ∷ rest)) key r e,
              append_assoc (c ∷ rest) (codes "_") r,
            ),
          )
        ]
      ]
