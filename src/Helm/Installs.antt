-- ===== src/Helm/Installs.antt =====
-- What `Install` does to the releases of a namespace.
use petri_operator.Prelude.{
  ℕ, suc, String, true, false, ◌≡◌, refl, subst, Option, none, some, List, [], arith, ◌∷◌, inl, inr,
  Bool-cases,
}
use Prim.Native.String.{◌++◌}
use petri_operator.Prelude.Effects.{Err, Result, ok, err, Result-cases, ok-injective}
use petri_operator.Types.{HelmSpec}
use petri_operator.Jobs.{DeployOptions}
use petri_operator.Helm.{
  ActionConfig, init, new_client, locate, load, get_history, install_release, upgrade_release,
  uninstall_release, HelmLog, Sdk, named, init_action_config, parse_values, release_of, apply,
  install_chart, install_spec, install,
}

module _ {Chart Values : Type 0} where
  -- The calls of a log that change a release.
  abbrev pub changes : HelmLog Chart Values → ℕ
  changes [] = 0
  changes (install_release _ _ _ _ _ ∷ log) = suc (changes log)
  changes (upgrade_release _ _ _ _ ∷ log) = suc (changes log)
  changes (uninstall_release _ _ ∷ log) = suc (changes log)
  changes (_ ∷ log) = changes log

module _ {Chart Values : Type 0} (sdk : Sdk Chart Values) (opts : DeployOptions) where
  abbrev config : HelmSpec → ActionConfig
  config spec = record { namespace = opts.namespace; plain_http = some spec.plain_http }

  -- The calls until the chart is loaded from a path.
  abbrev pub fetched : HelmSpec → String → HelmLog Chart Values → HelmLog Chart Values
  fetched spec path log =
      load path
      ∷ locate (config spec) spec.repo spec.version spec.chart opts.namespace
      ∷ new_client spec.plain_http
      ∷ init opts.namespace
      ∷ log

  abbrev pub asked : HelmSpec → String → HelmLog Chart Values → HelmLog Chart Values
  asked spec path log = get_history (config spec) 1 opts.release_name ∷ fetched spec path log

  -- The SDK's parser takes the entries one after another, from some values to others.
  pub data Parsed : List (String × String) → Values → Values → Type 0 where
    parsed_all : (values : Values) → Parsed [] values values
    parsed_one :
        (key value : String) (others : List (String × String)) (start next last : Values)
        → sdk.parse_into (key ++ ("=" ++ value)) start ≡ ok next
        → Parsed others next last
        → Parsed ((key, value) ∷ others) start last

  parse_values-Parsed :
      (entries : List (String × String)) (start last : Values)
      → parse_values sdk entries start ≡ ok last
      → Parsed entries start last
  unfolding parse_values
  parse_values-Parsed [] start last h =
      subst (λ v. Parsed [] start v) (ok-injective h) (parsed_all start)
  parse_values-Parsed ((key, value) ∷ others) start last h =
      elim (Result-cases (sdk.parse_into (key ++ ("=" ++ value)) start)) [
        | inr (x, e) ↦ absurd (ground (arith, rw (e, parse_values) at h))
        | inl (next, e) ↦
            parsed_one key value others start next last e
              (parse_values-Parsed others next last (rw (e, parse_values) at h))
      ]

  -- A chart and values that `Install` may apply: the chart that the component's repository,
  -- version and name locate, and the component's values.
  pub record IsFetched (spec : HelmSpec) (path : String) (chart : Chart) (values : Values)
      (log : HelmLog Chart Values) : Type 0 where
    component : opts.component.helm ≡ some spec
    path_found :
        sdk.located
          (config spec)
          spec.repo
          spec.version
          spec.chart
          opts.namespace
          (new_client spec.plain_http ∷ init opts.namespace ∷ log)
        ≡ ok path
    chart_loaded :
        sdk.loaded path (
          locate (config spec) spec.repo spec.version spec.chart opts.namespace
          ∷ new_client spec.plain_http
          ∷ init opts.namespace
          ∷ log)
        ≡ ok chart
    values_parsed : Parsed spec.values sdk.no_values values

  -- The ways in which `Install` ends: before any change, with an error; with an installation, if
  -- the history says that there is no such release; with an upgrade, if there is a history.
  pub data Attempted (log : HelmLog Chart Values)
      : Result (Unit {0}) × HelmLog Chart Values → Type 0 where
    untouched :
        (e : Err) {log' : HelmLog Chart Values}
        → changes log' ≡ changes log
        → Attempted log (err e, log')
    installed :
        (spec : HelmSpec) (path : String) (chart : Chart) (values : Values) (e : Err)
        → IsFetched spec path chart values log
        → sdk.history_of (config spec) 1 opts.release_name (fetched spec path log) ≡ err e
        → sdk.is_release_not_found e ≡ true
        → Attempted log (
          named ("helm install " ++ (opts.release_name ++ ": ")) (
              sdk.installed
                (config spec)
                (release_of sdk opts spec)
                false
                chart
                values
                (asked spec path log)),
          install_release (config spec) (release_of sdk opts spec) false chart values
              ∷ asked spec path log,
        )
    upgraded :
        (spec : HelmSpec) (path : String) (chart : Chart) (values : Values)
        → IsFetched spec path chart values log
        → sdk.history_of (config spec) 1 opts.release_name (fetched spec path log) ≡ ok tt
        → Attempted log (
          named ("helm upgrade " ++ (opts.release_name ++ ": ")) (
              sdk.upgraded
                (config spec)
                (release_of sdk opts spec)
                chart
                values
                (asked spec path log)),
          upgrade_release (config spec) (release_of sdk opts spec) chart values
              ∷ asked spec path log,
        )

  apply-Attempted :
      (spec : HelmSpec) (path : String) (chart : Chart) (values : Values)
      (log : HelmLog Chart Values)
      → IsFetched spec path chart values log
      → Attempted log (apply sdk opts spec (config spec) chart values (fetched spec path log))
  unfolding apply
  apply-Attempted spec path chart values log fetch =
      elim (Result-cases
        (sdk.history_of (config spec) 1 opts.release_name (fetched spec path log))) [
          | inl (tt, e) ↦ rw e (upgraded spec path chart values fetch e)
          | inr (x, e) ↦ elim (Bool-cases (sdk.is_release_not_found x)) [
            | inl new ↦ rw (e, new) (installed spec path chart values x fetch e new)
            | inr broken ↦ rw (e, broken) (untouched _ refl)
          ]
        ]

  install_chart-Attempted :
      (spec : HelmSpec) (log : HelmLog Chart Values)
      → opts.component.helm ≡ some spec
      → Attempted log (install_chart sdk opts spec log)
  unfolding install_chart init_action_config
  install_chart-Attempted spec log c =
      let first = init opts.namespace ∷ log in
      let second = new_client spec.plain_http ∷ first in
      let third = locate (config spec) spec.repo spec.version spec.chart opts.namespace ∷ second in
      elim (Result-cases (sdk.initialised opts.namespace log)) [
        | inr (x, a) ↦ rw a (untouched _ refl)
        | inl (tt, a) ↦ elim (Result-cases (sdk.client_made spec.plain_http first)) [
          | inr (x, b) ↦ rw (a, b) (untouched _ refl)
          | inl (tt, b) ↦
              elim (Result-cases (
                sdk.located (config spec) spec.repo spec.version spec.chart opts.namespace
                  second)) [
                    | inr (x, l) ↦ rw (a, b, l) (untouched _ refl)
                    | inl (path, l) ↦ elim (Result-cases (sdk.loaded path third)) [
                      | inr (x, d) ↦ rw (a, b, l, d) (untouched _ refl)
                      | inl (chart, d) ↦
                          elim (Result-cases (parse_values sdk spec.values sdk.no_values)) [
                            | inr (x, v) ↦ rw (a, b, l, d, v) (untouched _ refl)
                            | inl (values, v) ↦
                                let fetch : IsFetched spec path chart values log = record {
                                  component = c;
                                  path_found = l;
                                  chart_loaded = d;
                                  values_parsed =
                                      parse_values-Parsed spec.values sdk.no_values values v;
                                } in
                                rw (a, b, l, d, v)
                                  (apply-Attempted spec path chart values log fetch)
                          ]
                    ]
                  ]
        ]
      ]

  install_spec-Attempted :
      (found : Option HelmSpec) (log : HelmLog Chart Values)
      → opts.component.helm ≡ found
      → Attempted log (install_spec sdk opts found log)
  unfolding install_spec
  install_spec-Attempted none log c = untouched _ refl
  install_spec-Attempted (some spec) log c = install_chart-Attempted spec log c

  -- `Install` ends with an error and no change of any release; or, if the history of the release
  -- is not found, its last call installs it, and only that call changes a release; or, if there is
  -- a history, its last call upgrades it. The chart is the one that the component's repository,
  -- version and name locate, the values are those that the SDK's parser makes of the component's
  -- entries, one after another, the release and its namespace those
  -- of the options, and the result is that of the last call.
  pub install-Attempted : (log : HelmLog Chart Values) → Attempted log (install sdk opts log)
  unfolding install
  install-Attempted log = install_spec-Attempted opts.component.helm log refl
