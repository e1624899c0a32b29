-- ===== src/Parameters/Resolve.antt =====
-- Where the value of a parameter comes from.
use spiceai.Prelude.{true, Option, some, List, ◌≡◌, refl, inl, inr, arith}
use spiceai.Prelude.Lists.{Any, Member}
use spiceai.Prelude.Tests.{is_some, Option-cases}
use spiceai.Prelude.Text.{Text}
use spiceai.Prelude.Result.{Result, ok, err}
use spiceai.Parameters.Spec.{ParameterSpec}
use spiceai.Parameters.{
  Params, Parameters, present, Error, value_of, convert, autoload, require, try_new, get,
}
use spiceai.Parameters.Autoload.{or_else, Distinct, autoloaded, has-value_of, autoload_spec}
use spiceai.Parameters.Required.{require_spec, require_required, IsMissing, require_err}

module _ (component_name : Text) (params : Params) (prefix : Text)
    (secrets : Text → Result Text (Option Text)) (all_params : List ParameterSpec) where
  abbrev pub before_required : Params
  before_required = autoload secrets prefix all_params (convert prefix all_params params)

  try_new-ok :
      (p : Parameters)
      → try_new component_name params prefix secrets all_params ≡ ok p
      → require component_name prefix all_params before_required ≡ ok p.params
  unfolding try_new
  try_new-ok p h = ground arith

  -- Where no two specs have the same name and `try_new` succeeds, the value of each parameter that
  -- has a spec is the first one that the user gave for it, else the one that the secrets have under
  -- its prefixed name, if it is a secret, else its default; and it has none if none of them has.
  pub try_new-value_of :
      (spec : ParameterSpec) (p : Parameters)
      → Distinct all_params
      → Member spec all_params
      → try_new component_name params prefix secrets all_params ≡ ok p
      → value_of spec.name p.params
        ≡ or_else
            (value_of spec.name (convert prefix all_params params))
            (or_else (autoloaded secrets prefix spec) spec.default)
  unfolding or_else
  try_new-value_of spec p d m h = ground (
    arith,
    require_spec component_name prefix spec all_params before_required p.params d m
        (try_new-ok p h),
    autoload_spec secrets prefix spec all_params (convert prefix all_params params) d m,
  )

  -- If `try_new` succeeds, `get` finds a value for every required parameter.
  pub try_new-required :
      (spec : ParameterSpec) (p : Parameters)
      → Member spec all_params
      → spec.required ≡ true
      → try_new component_name params prefix secrets all_params ≡ ok p
      → (v : Text) × (get p spec.name ≡ some (present v))
  unfolding get is_some
  try_new-required spec p m r h =
      let there_is =
        require_required component_name prefix spec all_params before_required p.params m r
          (try_new-ok p h) in
      elim (Option-cases (value_of spec.name p.params)) [
        | inl e ↦ absurd (ground (arith, has-value_of spec.name p.params))
        | inr (v, e) ↦ (v, rw (e, get) refl)
      ]

  -- If `try_new` fails, the error names a required parameter which has no default, and for which
  -- neither the user nor the secrets gave a value.
  pub try_new-err :
      (e : Error)
      → try_new component_name params prefix secrets all_params ≡ err e
      → Any (IsMissing component_name prefix before_required e) all_params
  unfolding try_new
  try_new-err e h = require_err component_name prefix all_params before_required e (ground arith)
