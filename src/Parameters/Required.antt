-- ===== src/Parameters/Required.antt =====
-- The loop of `try_new` over the required parameters and the defaults.
use spiceai.Prelude.{
  true, false, not, Option, none, some, List, [], ◌∷◌, ◌++◌, ◌≡◌, refl, subst, ◌∙◌, ◌⊎◌, inl, inr,
  arith,
}
use spiceai.Prelude.Lists.{All, Any, here, there, Member, All-Member}
use spiceai.Prelude.Tests.{if◌then◌else◌, is_some, Option-cases}
use spiceai.Prelude.Text.{Text, codes, ◌==◌, ==_iff, ==_refl, ==_sym}
use spiceai.Prelude.Result.{ok, err}
use spiceai.Parameters.Spec.{ParameterSpec}
use spiceai.Parameters.{
  Params, Error, has, value_of, push, check, missing_param, invalid_configuration_no_source,
  require,
}
use spiceai.Parameters.Autoload.{or_else, Distinct, has-value_of, value_of-append}

-- The parameters behind the check of one spec that does not fail.
defaulted : ParameterSpec → Params → Params
defaulted s params = elim (check (not (has s.name params)) s.default s.required) [
  | push default_value ↦ params ++ (s.name, default_value) ∷ []
  | _ ↦ params
]

push_default :
    (name : Text) (s : ParameterSpec) (params : Params) (o : Option Text)
    → s.default ≡ o
    → value_of name (defaulted s params)
      ≡ or_else (value_of name params) (if s.name == name then o else none)
unfolding defaulted check or_else is_some
push_default name s params none e = ground (arith, has-value_of s.name params, ==_iff s.name name)
push_default name s params (some d) e =
    ground
      (arith, has-value_of s.name params, value_of-append name s.name d params, ==_iff s.name name)

value_of-defaulted :
    (name : Text) (s : ParameterSpec) (params : Params)
    → value_of name (defaulted s params)
      ≡ or_else (value_of name params) (if s.name == name then s.default else none)
value_of-defaulted name s params = push_default name s params s.default refl

module _ (component_name prefix : Text) where
  require_cons :
      (s : ParameterSpec) (specs : List ParameterSpec) (params done : Params)
      → require component_name prefix (s ∷ specs) params ≡ ok done
      → require component_name prefix specs (defaulted s params) ≡ ok done
  unfolding require defaulted
  require_cons s specs params done h = ground arith

  pub require_absent :
      (name : Text) (specs : List ParameterSpec) (params done : Params)
      → All (λ s. (s.name == name) ≡ false) specs
      → require component_name prefix specs params ≡ ok done
      → value_of name done ≡ value_of name params
  unfolding or_else
  require_absent name [] params done a h = unfold require in ground arith
  require_absent name (s ∷ specs) params done a h = ground (
    arith,
    require_cons s specs params done h,
    require_absent name specs (defaulted s params) done a.1,
    value_of-defaulted name s params,
  )

  pub require_spec :
      (spec : ParameterSpec) (specs : List ParameterSpec) (params done : Params)
      → Distinct specs
      → Member spec specs
      → require component_name prefix specs params ≡ ok done
      → value_of spec.name done ≡ or_else (value_of spec.name params) spec.default
  unfolding or_else
  require_spec spec [] params done d m h = elim m [ ]
  require_spec spec (s ∷ specs) params done d (here e) h =
      subst
        (λ (t : ParameterSpec). value_of t.name done ≡ or_else (value_of t.name params) t.default) e
        (require_absent s.name specs (defaulted s params) done d.0
            (require_cons s specs params done h)
          ∙ value_of-defaulted s.name s params
          ∙ rw (==_refl s.name))
  require_spec spec (s ∷ specs) params done d (there m) h =
      let ne = All-Member (λ t. (t.name == s.name) ≡ false) spec specs d.0 m in
      let ne' : (s.name == spec.name) ≡ false = ==_sym s.name spec.name ∙ ne in
      ground (
        arith,
        require_spec spec specs (defaulted s params) done d.1 m
            (require_cons s specs params done h),
        value_of-defaulted spec.name s params,
      )

  -- No value is ever replaced.
  require_keeps :
      (name : Text) (specs : List ParameterSpec) (params done : Params)
      → has name params ≡ true
      → require component_name prefix specs params ≡ ok done
      → has name done ≡ true
  unfolding or_else is_some
  require_keeps name [] params done k h = unfold require in ground arith
  require_keeps name (s ∷ specs) params done k h =
      require_keeps name specs (defaulted s params) done
        (ground (
          arith,
          value_of-defaulted name s params,
          has-value_of name params,
          has-value_of name (defaulted s params),
        ))
        (require_cons s specs params done h)

  required_now :
      (s : ParameterSpec) (specs : List ParameterSpec) (params done : Params)
      → s.required ≡ true
      → require component_name prefix (s ∷ specs) params ≡ ok done
      → has s.name (defaulted s params) ≡ true
  unfolding require defaulted check or_else is_some
  required_now s specs params done r h = elim (Option-cases s.default) [
    | inl e ↦ ground arith
    | inr (d, e) ↦ ground (
      arith,
      value_of-append s.name s.name d params,
      has-value_of s.name (params ++ (s.name, d) ∷ []),
      has-value_of s.name params,
      ==_refl s.name,
    )
  ]

  pub require_required :
      (spec : ParameterSpec) (specs : List ParameterSpec) (params done : Params)
      → Member spec specs
      → spec.required ≡ true
      → require component_name prefix specs params ≡ ok done
      → has spec.name done ≡ true
  require_required spec [] params done m r h = elim m [ ]
  require_required spec (s ∷ specs) params done (here e) r h =
      let r' : s.required ≡ true = rw e r in
      let now = required_now s specs params done r' h in
      subst (λ (t : ParameterSpec). has t.name done ≡ true) e
        (require_keeps s.name specs (defaulted s params) done now
          (require_cons s specs params done h))
  require_required spec (s ∷ specs) params done (there m) r h =
      require_required spec specs (defaulted s params) done m r (require_cons s specs params done h)

  -- What an error says: a required parameter with no default that has no value.
  abbrev pub IsMissing : Params → Error → ParameterSpec → Type 0
  IsMissing params e s =
      (s.required ≡ true)
      × (s.default ≡ none)
      × (value_of s.name params ≡ none)
      × (e
          ≡ invalid_configuration_no_source component_name
              (codes "Missing required parameter: " ++ missing_param prefix s))

  IsMissing-defaulted :
      (s t : ParameterSpec) (params : Params) (e : Error)
      → IsMissing (defaulted s params) e t
      → IsMissing params e t
  unfolding or_else
  IsMissing-defaulted s t params e m =
      (m.0, m.1, ground (arith, m.2, value_of-defaulted t.name s params), m.3)

  Any-defaulted :
      (s : ParameterSpec) (params : Params) (e : Error) (specs : List ParameterSpec)
      → Any (IsMissing (defaulted s params) e) specs
      → Any (IsMissing params e) specs
  Any-defaulted s params e [] m = elim m [ ]
  Any-defaulted s params e (t ∷ specs) (here h) = here (IsMissing-defaulted s t params e h)
  Any-defaulted s params e (t ∷ specs) (there m) = there (Any-defaulted s params e specs m)

  fails_or_goes_on :
      (s : ParameterSpec) (specs : List ParameterSpec) (params : Params) (e : Error)
      → require component_name prefix (s ∷ specs) params ≡ err e
      → IsMissing params e s ⊎ (require component_name prefix specs (defaulted s params) ≡ err e)
  unfolding require defaulted check is_some
  fails_or_goes_on s specs params e h = ground (arith, has-value_of s.name params)

  pub require_err :
      (specs : List ParameterSpec) (params : Params) (e : Error)
      → require component_name prefix specs params ≡ err e
      → Any (IsMissing params e) specs
  require_err [] params e h = unfold require in cc
  require_err (s ∷ specs) params e h = elim (fails_or_goes_on s specs params e h) [
    | inl m ↦ here m
    | inr g ↦ there (Any-defaulted s params e specs (require_err specs (defaulted s params) e g))
  ]
