-- ===== src/Checker.antt =====
-- internal/readiness/checker.go: whether the workloads of a release are ready.
pub mod Verdict
mod Samples
use petri_operator.Prelude.{
  ℕ, zero, suc, ◌/◌, ◌%◌, String, Bool, true, false, ◌||◌, Option, none, some, List, [], ◌∷◌, ltb,
  leb, if◌then◌else◌, ◌==◌,
}
use Prim.Native.String.{◌++◌}
use petri_operator.Prelude.Text.{decimal}
use petri_operator.Prelude.Effects.{
  Err, other, Result, ok, err, M, pure, fail, attempt, give, ◌>>=◌,
}
use petri_operator.Types.{ReadinessSpec, HttpGetAction}
use petri_operator.Cluster.{
  Log, Api, Workload, Service, read_deployments, read_stateful_sets, read_services, get_url,
}

-- One replica is wanted unless the workload says otherwise.
abbrev pub desired : Workload → ℕ
desired w = elim w.replicas [ none ↦ 1 | some n ↦ n ]

-- The complaint about the first workload that lacks replicas.
unfoldable pub lacking : String → List Workload → Option String
lacking kind [] = none
lacking kind (w ∷ ws) =
    let rest = lacking kind ws in
    if ltb w.ready (desired w)
    then some (
        kind
        ++ (" "
            ++ (w.name
                ++ (": "
                    ++ (decimal w.ready
                        ++ ("/" ++ (decimal (desired w) ++ " replicas available")))))))
    else rest

abbrev has_port : ℕ → List ℕ → Bool
has_port port [] = false
has_port port (p ∷ ports) =
    if leb p port then (if leb port p then true else has_port port ports) else has_port port ports

-- The name of the first service with the port, or "".
unfoldable pub find_service_by_port : List Service → ℕ → String
find_service_by_port [] port = ""
find_service_by_port (svc ∷ services) port =
    let rest = find_service_by_port services port in
    if has_port port svc.ports then svc.name else rest

unfoldable pub build_service_url : String → String → ℕ → String → String
build_service_url service namespace port path =
    "http://"
    ++ (service ++ ("." ++ (namespace ++ (".svc.cluster.local:" ++ (decimal port ++ path)))))

-- Ready or not, and why.
abbrev pub Answer : Type 0
Answer = Bool × String

abbrev not_ready : String → M Log Answer
not_ready reason = pure (false, reason)

module _ (api : Api) where
  -- The answer's status must be at least 200 and less than 400.
  check : String → M Log (Unit {0})
  check url = do
    status ← get_url api url
    if ltb status 200 || leb 400 status
        then fail (record { kind = other; text = "unexpected status: " ++ decimal status })
        else pure tt

  probe_service : String → String → HttpGetAction → List Service → M Log Answer
  unfolding check find_service_by_port build_service_url
  probe_service namespace release get services =
      let service = find_service_by_port services get.port in
      let url = build_service_url service namespace get.port get.path in
      if service == ""
      then not_ready
          ("no service with port " ++ (decimal get.port ++ (" found for release " ++ release)))
      else do
        answer ← attempt (check url)
        elim answer [
          | ok _ ↦ pure (true, "")
          | err e ↦ not_ready ("http GET " ++ (url ++ (": " ++ e.text)))
        ]

  probe : String → String → HttpGetAction → M Log Answer
  unfolding probe_service
  probe namespace release get = do
    services ← read_services api namespace release
    elim services [
      | [] ↦ not_ready ("no service found for release " ++ release)
      | svc ∷ others ↦ probe_service namespace release get (svc ∷ others)
    ]

  -- The HTTP probe, where one is asked for.
  unfoldable pub probe_if : String → String → Option ReadinessSpec → M Log Answer
  unfolding probe
  probe_if namespace release none = pure (true, "")
  probe_if namespace release (some spec) = elim spec.http_get [
    | none ↦ pure (true, "")
    | some get ↦ probe namespace release get
  ]

  judge : String → String → Option ReadinessSpec → List Workload → List Workload → M Log Answer
  unfolding probe_if lacking
  judge namespace release readiness deployments stateful_sets =
      elim (lacking "deployment" deployments) [
        | some reason ↦ not_ready reason
        | none ↦ elim (lacking "statefulSet" stateful_sets) [
          | some reason ↦ not_ready reason
          | none ↦ probe_if namespace release readiness
        ]
      ]

  -- The verdict on the two lists, of which one must have an element.
  unfoldable pub judge_some :
      String → String → Option ReadinessSpec → List Workload → List Workload → M Log Answer
  unfolding judge
  judge_some namespace release readiness (d ∷ deployments) stateful_sets =
      judge namespace release readiness (d ∷ deployments) stateful_sets
  judge_some namespace release readiness [] (s ∷ stateful_sets) =
      judge namespace release readiness [] (s ∷ stateful_sets)
  judge_some namespace release readiness [] [] =
      not_ready ("no workloads found for release " ++ release)

  unfoldable pub is_ready : String → String → Option ReadinessSpec → M Log Answer
  unfolding judge_some
  is_ready namespace release readiness = do
    deployments ← read_deployments api namespace release
    stateful_sets ← read_stateful_sets api namespace release
    judge_some namespace release readiness deployments stateful_sets
