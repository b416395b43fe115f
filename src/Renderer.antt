-- ===== src/Renderer.antt =====
-- internal/renderer/render.go: the templates of secrets, scripts and values. text/template is a
-- parameter.
use petri_operator.Prelude.{String, List, [], ◌∷◌, leb, ◌&&◌, if◌then◌else◌, Map}
use Prim.Native.Char.{code}
use Prim.Native.String.{◌++◌}
use petri_operator.Prelude.Effects.{Result, ok, err, wrap}
use petri_operator.Namespaces.{quoted}

pub record EnvVars : Type 0 where
  pub name : String
  pub slug : String
  pub generated_secret : String

pub record Vars : Type 0 where
  pub env : EnvVars
  pub components : Map (Map String)
  pub instance_keys : Map String

-- A template with missingkey=error: whether a text parses, and what it becomes.
pub record Engine : Type 0 where
  pub parse : String → Result (Unit {0})
  pub execute : String → Vars → Result String

-- strings.ReplaceAll(name, "-", "_")
unfoldable pub slug_of : String → String
slug_of String.[] = ""
slug_of (String.◌∷◌ c s) =
    String.◌∷◌ (if leb b'-' (code c) && leb (code c) b'-' then "_" else c) (slug_of s)

pub env_vars_for : String → String → EnvVars
unfolding slug_of
env_vars_for name generated_secret = record {
  name = name;
  slug = slug_of name;
  generated_secret = generated_secret;
}

module _ (engine : Engine) where
  unfoldable pub render : String → Vars → Result String
  render s v = elim (engine.parse s) [
    | err e ↦ wrap ("parse template " ++ (quoted s ++ ": ")) e
    | ok _ ↦ elim (engine.execute s v) [
      | err e ↦ wrap ("execute template " ++ (quoted s ++ ": ")) e
      | ok text ↦ ok text
    ]
  ]

  -- The entries in the order in which the range over the map visits them.
  unfoldable pub render_map : List (String × String) → Vars → Result (List (String × String))
  unfolding render
  render_map [] v = ok []
  render_map ((k, val) ∷ m) v =
      let rest = render_map m v in
      elim (render val v) [
        | err e ↦ wrap ("key " ++ (quoted k ++ ": ")) e
        | ok r ↦ elim rest [ err e ↦ err e | ok out ↦ ok ((k, r) ∷ out) ]
      ]
