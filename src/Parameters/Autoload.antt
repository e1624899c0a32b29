-- ===== src/Parameters/Autoload.antt =====
-- The loop of `try_new` that loads missing secrets.
use spiceai.Prelude.{false, Option, none, some, List, [], ◌∷◌, ◌++◌, ◌≡◌, refl, subst, ◌∙◌, arith}
use spiceai.Prelude.Lists.{All, here, there, Member, All-Member}
use spiceai.Prelude.Tests.{if◌then◌else◌, is_some}
use spiceai.Prelude.Text.{Text, ◌==◌, ==_iff, ==_refl, ==_sym}
use spiceai.Prelude.Result.{Result, ok, err}
use spiceai.Parameters.Spec.{ParameterSpec}
use spiceai.Parameters.{Params, has, value_of, full_prefix, push_found, autoload_one, autoload}

unfoldable pub or_else {ℓ} : {A : Type ℓ} → Option A → Option A → Option A
or_else (some a) o = some a
or_else none o = o

-- The names of the specs are all different.
abbrev pub Distinct : List ParameterSpec → Type 0
Distinct [] = Unit
Distinct (s ∷ ss) = All (λ t. (t.name == s.name) ≡ false) ss × Distinct ss

pub has-value_of :
    (name : Text) (params : Params) → has name params ≡ is_some (value_of name params)
unfolding has value_of is_some
has-value_of name [] = refl
has-value_of name ((k, v) ∷ params) = ground (arith, has-value_of name params)

pub value_of-append :
    (name k v : Text) (params : Params)
    → value_of name (params ++ (k, v) ∷ [])
      ≡ or_else (value_of name params) (if k == name then some v else none)
unfolding value_of or_else
value_of-append name k v [] = ground arith
value_of-append name k v ((j, w) ∷ params) = ground (arith, value_of-append name k v params)

-- What autoloading adds for one parameter.
abbrev pub autoloaded : (Text → Result Text (Option Text)) → Text → ParameterSpec → Option Text
autoloaded secrets prefix spec =
    if spec.secret
    then elim (secrets (full_prefix prefix ++ spec.name)) [ ok found ↦ found | err _ ↦ none ]
    else none

module _ (secrets : Text → Result Text (Option Text)) (prefix name : Text) where
  push_found_lem :
      (n : Text) (r : Result Text (Option Text)) (params : Params)
      → value_of name (push_found n r params)
        ≡ or_else
            (value_of name params)
            (if n == name then elim r [ ok found ↦ found | err _ ↦ none ] else none)
  unfolding push_found or_else
  push_found_lem n (ok (some v)) params = value_of-append name n v params
  push_found_lem n (ok none) params = ground arith
  push_found_lem n (err e) params = ground arith

  autoload_step :
      (spec : ParameterSpec) (params : Params)
      → value_of name (autoload_one secrets prefix spec params)
        ≡ or_else
            (value_of name params)
            (if spec.name == name then autoloaded secrets prefix spec else none)
  unfolding autoload_one or_else is_some
  autoload_step spec params =
      let pushed = push_found_lem spec.name (secrets (full_prefix prefix ++ spec.name)) params in
      ground (arith, pushed, has-value_of spec.name params, ==_iff spec.name name)

  -- A name that none of the specs has keeps its value.
  autoload_absent :
      (specs : List ParameterSpec) (params : Params)
      → All (λ s. (s.name == name) ≡ false) specs
      → value_of name (autoload secrets prefix specs params) ≡ value_of name params
  unfolding autoload or_else
  autoload_absent [] params a = refl
  autoload_absent (s ∷ specs) params a = ground (
    arith,
    autoload_absent specs (autoload_one secrets prefix s params) a.1,
    autoload_step s params,
  )

module _ (secrets : Text → Result Text (Option Text)) (prefix : Text) where
  pub autoload_spec :
      (spec : ParameterSpec) (specs : List ParameterSpec) (params : Params)
      → Distinct specs
      → Member spec specs
      → value_of spec.name (autoload secrets prefix specs params)
        ≡ or_else (value_of spec.name params) (autoloaded secrets prefix spec)
  unfolding autoload or_else
  autoload_spec spec [] params d m = elim m [ ]
  autoload_spec spec (s ∷ specs) params d (here e) =
      subst
        (λ (t : ParameterSpec).
          value_of t.name (autoload secrets prefix (s ∷ specs) params)
          ≡ or_else (value_of t.name params) (autoloaded secrets prefix t))
        e
        (autoload_absent secrets prefix s.name specs (autoload_one secrets prefix s params) d.0
          ∙ autoload_step secrets prefix s.name s params
          ∙ rw (==_refl s.name))
  autoload_spec spec (s ∷ specs) params d (there m) =
      let ne = All-Member (λ t. (t.name == s.name) ≡ false) spec specs d.0 m in
      let ne' : (s.name == spec.name) ≡ false = ==_sym s.name spec.name ∙ ne in
      ground (
        arith,
        autoload_spec spec specs (autoload_one secrets prefix s params) d.1 m,
        autoload_step secrets prefix spec.name s params,
      )
