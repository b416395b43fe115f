-- ===== src/Checker/Samples.antt =====
-- A release with one Deployment, whose service answers an HTTP probe.
use petri_operator.Prelude.{◌≡◌, ◌≢◌, ◌⊎◌, refl, true, Option, some, List, [], ◌∷◌}
use petri_operator.Prelude.Effects.{ok}
use petri_operator.Types.{ReadinessSpec}
use petri_operator.Cluster.{Api, Workload, list_deployments, list_stateful_sets}
use petri_operator.Checker.{
  lacking, find_service_by_port, check, probe_service, probe, probe_if, judge, judge_some, is_ready,
}
use petri_operator.Checker.Verdict.{IsSupplied, IsProbed, is_ready-IsSupplied}
use petri_operator.Fixtures.{empty_api}

abbrev supplied_api : Api
supplied_api = record empty_api {
  deployments_of =
      λ namespace release log. ok (record { name = "web"; replicas = some 2; ready = 2 } ∷ []);
  services_of = λ namespace release log. ok (record { name = "web"; ports = 443 ∷ 80 ∷ [] } ∷ []);
}

abbrev probed : Option ReadinessSpec
probed = some (record { http_get = some (record { path = "/health"; port = 80 }) })

ready : (is_ready supplied_api "petri-env" "web" probed []).0 ≡ ok (true, "")
unfolding is_ready judge_some judge lacking probe_if probe probe_service check find_service_by_port
ready = refl

is_ready-IsSupplied_example :
    (ds : List Workload) × ((ss : List Workload) × (supplied_api.deployments_of "petri-env" "web" []
        ≡ ok ds)
      × (supplied_api.stateful_sets_of "petri-env" "web" (list_deployments "petri-env" "web" ∷ [])
          ≡ ok ss)
      × ((ds ≢ []) ⊎ (ss ≢ []))
      × IsSupplied ds
      × IsSupplied ss
      × IsProbed supplied_api "petri-env" "web" probed
          (list_stateful_sets "petri-env" "web" ∷ list_deployments "petri-env" "web" ∷ []))
is_ready-IsSupplied_example = is_ready-IsSupplied supplied_api "petri-env" "web" probed [] "" ready
