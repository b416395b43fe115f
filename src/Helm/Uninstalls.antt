-- ===== src/Helm/Uninstalls.antt =====
-- When `Uninstall` succeeds.
use petri_operator.Prelude.{true, false, ◌≡◌, refl, none, ◌∷◌, ◌⊎◌, inl, inr, Bool-cases}
use petri_operator.Prelude.Effects.{Err, Result, ok, err, Result-cases}
use petri_operator.Jobs.{DeployOptions}
use petri_operator.Helm.{
  ActionConfig, init, uninstall_release, HelmLog, Sdk, init_action_config, uninstall,
}

module _ {Chart Values : Type 0} (sdk : Sdk Chart Values) (opts : DeployOptions) where
  abbrev pub config : ActionConfig
  config = record { namespace = opts.namespace; plain_http = none }

  -- How `Uninstall` ends: the call of the SDK is not made, or it is the only change.
  pub data Removed (log : HelmLog Chart Values)
      : Result (Unit {0}) × HelmLog Chart Values → Type 0 where
    unprepared :
        (e f : Err)
        → sdk.initialised opts.namespace log ≡ err e
        → Removed log (err f, init opts.namespace ∷ log)
    gone :
        (sdk.uninstalled config opts.release_name (init opts.namespace ∷ log) ≡ ok tt)
          ⊎ ((e : Err) × (sdk.uninstalled config opts.release_name (init opts.namespace ∷ log)
                ≡ err e)
              × (sdk.is_release_not_found e ≡ true))
        → Removed log
            (ok tt, uninstall_release config opts.release_name ∷ init opts.namespace ∷ log)
    failed :
        (e f : Err)
        → sdk.uninstalled config opts.release_name (init opts.namespace ∷ log) ≡ err e
        → sdk.is_release_not_found e ≡ false
        → f.kind ≡ e.kind
        → Removed log
            (err f, uninstall_release config opts.release_name ∷ init opts.namespace ∷ log)

  -- `Uninstall` returns an error without a call for the release if the configuration cannot be
  -- made. Otherwise it asks once for the removal of the release of the options in their namespace,
  -- and succeeds exactly if that succeeds or the release is not found. Any other error is returned
  -- with its kind.
  pub uninstall-Removed : (log : HelmLog Chart Values) → Removed log (uninstall sdk opts log)
  unfolding uninstall init_action_config
  uninstall-Removed log = elim (Result-cases (sdk.initialised opts.namespace log)) [
    | inr (x, a) ↦ rw a (unprepared x _ a)
    | inl (tt, a) ↦
        elim (Result-cases (sdk.uninstalled config opts.release_name (init opts.namespace ∷ log))) [
          | inl (tt, u) ↦ rw (a, u) (gone (inl u))
          | inr (x, u) ↦ elim (Bool-cases (sdk.is_release_not_found x)) [
            | inl lost ↦ rw (a, u, lost) (gone (inr (x, u, lost)))
            | inr broken ↦ rw (a, u, broken) (failed x _ u broken refl)
          ]
        ]
  ]
