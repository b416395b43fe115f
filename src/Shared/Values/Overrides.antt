-- ===== src/Shared/Values/Overrides.antt =====
-- The variables and the values of a release with bindings: what overrides what, and which secret
-- they come from.
use petri_operator.Prelude.{
  String, true, ◌≡◌, ◌≢◌, refl, sym, ◌∙◌, ap, Option, none, some, List, [], ◌∷◌, ◌==◌, eq_iff,
  arith, inl, inr, All, Map, empty, Bool-cases, Option-cases, lookup, insert, copy_into, or_else,
  lookup-insert, lookup-copy_into,
}
use petri_operator.Prelude.Effects.{ok, Result-cases, ok-injective}
use petri_operator.Types.{Environment, ComponentSpec, HelmSpec, EnvValue, EnvSecretRef}
use petri_operator.Renderer.{Engine, Vars, env_vars_for, render, render_map}
use petri_operator.Deploys.Process.{Bindings}
use petri_operator.Shared.Provision.{binding_name}
use petri_operator.Shared.Values.{
  secret_value, effective_env, all_bound, name_secret, render_release, render_consumer_values,
}

-- The component that a variable takes a key from is bound.
abbrev pub IsBound : Bindings → String × EnvValue → Type 0
IsBound components (k, ev) = elim ev.secret_key_ref [
  | none ↦ Unit
  | some ref ↦ (m : Map String) × (components ref.component ≡ some m)
]

-- The values name the binding secret of the component that a variable takes a key from.
abbrev pub IsNamed : Environment → List (String × String) → String × EnvValue → Type 0
IsNamed env values (k, ev) = elim ev.secret_key_ref [
  | none ↦ Unit
  | some ref ↦ lookup secret_value values ≡ some (binding_name env ref.component)
]

all_bound_ok :
    (vars : List (String × EnvValue)) (components : Bindings)
    → all_bound vars components ≡ true
    → All (IsBound components) vars
unfolding all_bound
all_bound_ok [] components h = tt
all_bound_ok ((k, ev) ∷ vars) components h = elim (Option-cases ev.secret_key_ref) [
  | inl e ↦ (rw e tt, all_bound_ok vars components (rw (e, all_bound) at h))
  | inr (ref, e) ↦ elim (Option-cases (components ref.component)) [
    | inl f ↦ absurd (ground (arith, rw (e, f, all_bound) at h))
    | inr (m, f) ↦ (rw e (m, f), all_bound_ok vars components (rw (e, f, all_bound) at h))
  ]
]

module _ (env : Environment) (c : ComponentSpec) where
  -- From `values` to `out`: only the secret's name is set, to one that all variables agree on.
  abbrev Names : List (String × EnvValue) → List (String × String) → List (String × String) → Type 0
  Names vars values out =
      ((k : String) → k ≢ secret_value → lookup k out ≡ lookup k values)
      × ((b : String) → lookup secret_value values ≡ some b → lookup secret_value out ≡ some b)
      × All (IsNamed env out) vars

  other_key :
      (k wanted : String) (values : List (String × String))
      → k ≢ secret_value
      → lookup k (insert secret_value wanted values) ≡ lookup k values
  other_key k wanted values ne =
      ground (arith, ne, lookup-insert secret_value k wanted values, eq_iff secret_value k)

  own_key :
      (wanted : String) (values : List (String × String))
      → lookup secret_value (insert secret_value wanted values) ≡ some wanted
  own_key wanted values = ground (arith, lookup-insert secret_value secret_value wanted values)

  named :
      (k : String) (ev : EnvValue) (ref : EnvSecretRef) (vars : List (String × EnvValue))
      (values out : List (String × String))
      → ev.secret_key_ref ≡ some ref
      → ((b : String) → lookup secret_value values ≡ some b → b ≡ binding_name env ref.component)
      → Names vars (insert secret_value (binding_name env ref.component) values) out
      → Names ((k, ev) ∷ vars) values out
  named k ev ref vars values out e agree (others, kept, all) =
      let wanted = binding_name env ref.component in
      let set = kept wanted (own_key wanted values) in
      (
        λ j ne. others j ne ∙ other_key j wanted values ne,
        λ b f. set ∙ ap some (sym (agree b f)),
        (rw e set, all),
      )

  name_secret_ok :
      (vars : List (String × EnvValue)) (values out : List (String × String))
      → name_secret env c vars values ≡ ok out
      → Names vars values out
  unfolding name_secret
  name_secret_ok [] values out h = (
    λ k ne. ap (lookup k) (sym (ok-injective h)),
    λ b e. ap (lookup secret_value) (sym (ok-injective h)) ∙ e,
    tt,
  )
  name_secret_ok ((k, ev) ∷ vars) values out h = elim (Option-cases ev.secret_key_ref) [
    | inl e ↦
        let (others, kept, all) = name_secret_ok vars values out (rw (e, name_secret) at h) in
        (others, kept, (rw e tt, all))
    | inr (ref, e) ↦
        let wanted = binding_name env ref.component in
        let next = name_secret_ok vars (insert secret_value wanted values) out in
        elim (Option-cases (lookup secret_value values)) [
          | inl f ↦
              named k ev ref vars values out e (λ b g. absurd (ground (arith, f, g)))
                (next (rw (e, f, name_secret) at h))
          | inr (existing, f) ↦ elim (Bool-cases (existing == wanted)) [
            | inr g ↦ absurd (ground (arith, rw (e, f, g, name_secret) at h))
            | inl g ↦
                named k ev ref vars values out e
                  (λ b p. ground (arith, f, p, g, eq_iff existing wanted))
                  (next (rw (e, f, g, name_secret) at h))
          ]
        ]
  ]

module _ (engine : Engine) (vars : Vars) where
  -- A value: what the environment sets, or else the rendered template of the component.
  abbrev pub IsValueOf : Option String → Option String → Option String → Type 0
  IsValueOf (some v) template value = value ≡ some v
  IsValueOf none none value = value ≡ none
  IsValueOf none (some t) value = (r : String) × (render engine t vars ≡ ok r) × (value ≡ some r)

  render_map-lookup :
      (m out : List (String × String))
      → render_map engine m vars ≡ ok out
      → (k : String) → IsValueOf none (lookup k m) (lookup k out)
  unfolding render_map
  render_map-lookup [] out h k = ap (lookup k) (sym (ok-injective h))
  render_map-lookup ((j, t) ∷ m) out h k = elim (Result-cases (render engine t vars)) [
    | inr (x, e) ↦ absurd (ground (arith, rw (e, render_map) at h))
    | inl (r, e) ↦ elim (Result-cases (render_map engine m vars)) [
      | inr (x, f) ↦ absurd (ground (arith, rw (e, f, render_map) at h))
      | inl (out', f) ↦
          let same : (j, r) ∷ out' ≡ out = ok-injective (rw (e, f, render_map) at h) in
          elim (Bool-cases (j == k)) [
            | inl g ↦ rw (g, ← same, g) (r, e, refl)
            | inr g ↦ rw (g, ← same, g) (render_map-lookup m out' f k)
          ]
    ]
  ]

module _ (engine : Engine) (env : Environment) (c : ComponentSpec) (components : Bindings) where
  abbrev pub vars_of : Vars
  vars_of = record {
    env = env_vars_for env.name "";
    components = components;
    instance_keys = empty;
  }

  overridden :
      (helm : HelmSpec) (rendered values : List (String × String))
      → render_map engine helm.values vars_of ≡ ok rendered
      → ((k : String)
          → k ≢ secret_value
          → lookup k values ≡ lookup k (copy_into rendered env.spec.values))
      → (k : String) → k ≢ secret_value
      → IsValueOf engine vars_of (lookup k env.spec.values) (lookup k helm.values) (lookup k values)
  overridden helm rendered values e others k ne =
      let merged = others k ne ∙ lookup-copy_into k rendered env.spec.values in
      elim (Option-cases (lookup k env.spec.values)) [
        | inr (v, f) ↦ rw (f, merged, f) refl
        | inl f ↦ rw (f, merged, f) (render_map-lookup engine vars_of helm.values rendered e k)
      ]

  -- What `renderConsumerValues` makes of the variables and the values of a release.
  abbrev pub IsRendered : HelmSpec → ComponentSpec → Type 0
  IsRendered helm out =
      (values : List (String × String)) × (out
        ≡ record c { helm = some (record helm { values = values }); env = out.env })
      × ((k : String) → lookup k out.env ≡ or_else (lookup k env.spec.env) (lookup k c.env))
      × All (IsBound components) out.env
      × All (IsNamed env values) out.env
      × ((k : String)
          → k ≢ secret_value
          → IsValueOf engine vars_of (lookup k env.spec.values) (lookup k helm.values)
              (lookup k values))

  effective_lookup :
      (k : String)
      → lookup k (effective_env env c) ≡ or_else (lookup k env.spec.env) (lookup k c.env)
  effective_lookup k =
      ground
        (arith, lookup-copy_into k (copy_into [] c.env) env.spec.env, lookup-copy_into k [] c.env)

  render_release_ok :
      (helm : HelmSpec) (out : ComponentSpec)
      → all_bound (effective_env env c) components ≡ true
      → render_release engine env c helm components ≡ ok out
      → IsRendered helm out
  unfolding render_release
  render_release_ok helm out bound h = elim (Result-cases (render_map engine helm.values vars_of)) [
    | inr (x, e) ↦ absurd (ground (arith, rw (e, render_release) at h))
    | inl (rendered, e) ↦
        let all = effective_env env c in
        elim (Result-cases (name_secret env c all (copy_into rendered env.spec.values))) [
          | inr (x, f) ↦ absurd (ground (arith, rw (e, f, render_release) at h))
          | inl (values, f) ↦
              let same = ok-injective (rw (e, f, render_release) at h) in
              let (others, kept, named) =
                name_secret_ok env c all (copy_into rendered env.spec.values) values f in
              rw (← same) (
                values,
                refl,
                effective_lookup,
                all_bound_ok all components bound,
                named,
                overridden helm rendered values e others,
              )
        ]
  ]

  -- If `renderConsumerValues` succeeds for a component with a chart, then only its variables and
  -- values are changed. The variables of the environment override the component's; each component
  -- that a variable takes a key from is bound, and the value extraEnvVarsSecret names its binding
  -- secret; and any other value is the environment's or else the rendered template of the
  -- component's.
  pub render_consumer_values-IsRendered :
      (helm : HelmSpec) (out : ComponentSpec)
      → c.helm ≡ some helm
      → render_consumer_values engine env c components ≡ ok out
      → IsRendered helm out
  unfolding render_consumer_values
  render_consumer_values-IsRendered helm out e h =
      elim (Bool-cases (all_bound (effective_env env c) components)) [
        | inr f ↦ absurd (ground (arith, rw (e, f, render_consumer_values) at h))
        | inl f ↦ render_release_ok helm out f (rw (e, f, render_consumer_values) at h)
      ]
