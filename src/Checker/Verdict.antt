-- ===== src/Checker/Verdict.antt =====
-- What it takes for a release to be ready.
use petri_operator.Prelude.{
  ℕ, ◌≤◌, ◌<◌, String, true, ◌||◌, ◌≡◌, refl, ◌≢◌, Option, none, some, List, [], ◌∷◌, ltb, leb,
  ◌==◌, arith, eq_iff, All, inl, inr, ◌⊎◌, Bool-cases, Option-cases,
}
use Prim.Native.String.{◌++◌}
use petri_operator.Prelude.Text.{decimal}
use petri_operator.Prelude.Effects.{ok, Result-cases}
use petri_operator.Types.{ReadinessSpec, HttpGetAction}
use petri_operator.Cluster.{
  Log, Api, Workload, Service, list_deployments, list_stateful_sets, list_services,
}
use petri_operator.Checker.{
  desired, lacking, has_port, find_service_by_port, build_service_url, check, probe_service, probe,
  probe_if, judge, judge_some, is_ready,
}

-- Every workload has the replicas that it wants.
abbrev pub IsSupplied : List Workload → Type 0
IsSupplied ws = All (λ w. desired w ≤ w.ready) ws

lacking-none : (kind : String) (ws : List Workload) → lacking kind ws ≡ none → IsSupplied ws
unfolding lacking
lacking-none kind [] h = tt
lacking-none kind (w ∷ ws) h = elim (Bool-cases (ltb w.ready (desired w))) [
  | inl few ↦ absurd (ground (arith, few, h))
  | inr enough ↦ (ground (arith, enough), lacking-none kind ws (rw (enough, lacking) at h))
]

-- One of the numbers is the port.
abbrev pub HasPort : ℕ → List ℕ → Type 0
HasPort port [] = ⊥
HasPort port (p ∷ ports) = (p ≡ port) ⊎ HasPort port ports

-- A service of the list has the port and the name.
abbrev pub Offers : List Service → ℕ → String → Type 0
Offers [] port name = ⊥
Offers (svc ∷ services) port name =
    (HasPort port svc.ports × (svc.name ≡ name)) ⊎ Offers services port name

has_port-HasPort : (port : ℕ) (ports : List ℕ) → has_port port ports ≡ true → HasPort port ports
has_port-HasPort port [] h = absurd (ground arith)
has_port-HasPort port (p ∷ ports) h = elim (Bool-cases (leb p port)) [
  | inr over ↦ inr (has_port-HasPort port ports (rw over at h))
  | inl within ↦ elim (Bool-cases (leb port p)) [
    | inr under ↦ inr (has_port-HasPort port ports (rw (within, under) at h))
    | inl same ↦ inl (ground (arith, within, same))
  ]
]

find_service_by_port-Offers :
    (services : List Service) (port : ℕ)
    → find_service_by_port services port ≢ ""
    → Offers services port (find_service_by_port services port)
unfolding find_service_by_port
find_service_by_port-Offers [] port h = absurd (h refl)
find_service_by_port-Offers (svc ∷ services) port h = elim (Bool-cases (has_port port svc.ports)) [
  | inl e ↦ rw e (inl (has_port-HasPort port svc.ports e, refl))
  | inr e ↦
      rw e (inr (find_service_by_port-Offers services port (rw (e, find_service_by_port) at h)))
]

module _ (api : Api) (namespace release : String) where
  -- One of the services has the port and the name, and the request for the path on the port of that
  -- service is answered with the code, a success or a redirection.
  abbrev pub IsAnswered : HttpGetAction → List Service → String → ℕ → Log → Type 0
  IsAnswered get services service code log =
      Offers services get.port service
      × (service ≢ "")
      × (api.http_status
            ("http://"
              ++ (service
                  ++ ("."
                      ++ (namespace ++ (".svc.cluster.local:" ++ (decimal get.port ++ get.path))))))
            log
          ≡ ok code)
      × (200 ≤ code)
      × (code < 400)

  -- A service of the release has the port, and an HTTP request to that service, after the calls of
  -- the log, is answered with a success or a redirection.
  abbrev pub IsProbed : Option ReadinessSpec → Log → Type 0
  IsProbed none log = Unit
  IsProbed (some spec) log = elim spec.http_get [
    | none ↦ Unit
    | some get ↦
        (services : List Service) × ((service : String) × ((code : ℕ) × (api.services_of namespace
                release log
              ≡ ok services)
            × IsAnswered get services service code (list_services namespace release ∷ log)))
  ]

  probe_service_ok :
      (get : HttpGetAction) (services : List Service) (log : Log) (reason : String)
      → (probe_service api namespace release get services log).0 ≡ ok (true, reason)
      → (service : String) × ((code : ℕ) × IsAnswered get services service code log)
  unfolding probe_service check build_service_url
  probe_service_ok get services log reason h =
      let service = find_service_by_port services get.port in
      let url = build_service_url service namespace get.port get.path in
      elim (Bool-cases (service == "")) [
        | inl e ↦ absurd (ground (arith, e, h))
        | inr e ↦ elim (Result-cases (api.http_status url log)) [
          | inr (x, f) ↦ absurd (ground (arith, e, f, h))
          | inl (code, f) ↦ elim (Bool-cases (ltb code 200 || leb 400 code)) [
            | inl bad ↦ absurd (ground (arith, e, f, bad, h))
            | inr good ↦
                let found : service ≢ "" = ground (arith, e, eq_iff service "") in
                (
                  service,
                  (
                    code,
                    (
                      find_service_by_port-Offers services get.port found,
                      found,
                      f,
                      ground (arith, good),
                      ground (arith, good),
                    ),
                  ),
                )
          ]
        ]
      ]

  probe_ok :
      (get : HttpGetAction) (log : Log) (reason : String)
      → (probe api namespace release get log).0 ≡ ok (true, reason)
      → IsProbed (some (record { http_get = some get })) log
  unfolding probe
  probe_ok get log reason h = elim (Result-cases (api.services_of namespace release log)) [
    | inr (x, e) ↦ absurd (ground (arith, e, h))
    | inl ([], e) ↦ absurd (ground (arith, rw e at h))
    | inl (svc ∷ others, e) ↦
        let (service, (code, answered)) =
          probe_service_ok get (svc ∷ others) (list_services namespace release ∷ log) reason
            (rw e at h) in
        (svc ∷ others, (service, (code, e, answered)))
  ]

  probe_if_ok :
      (spec : Option ReadinessSpec) (log : Log) (reason : String)
      → (probe_if api namespace release spec log).0 ≡ ok (true, reason)
      → IsProbed spec log
  unfolding probe_if
  probe_if_ok none log reason k = tt
  probe_if_ok (some s) log reason k = elim (Option-cases s.http_get) [
    | inl g ↦ rw g tt
    | inr (get, g) ↦ rw g (probe_ok get log reason (rw g at k))
  ]

  judge_ok :
      (readiness : Option ReadinessSpec) (ds ss : List Workload) (log : Log) (reason : String)
      → (judge api namespace release readiness ds ss log).0 ≡ ok (true, reason)
      → IsSupplied ds × IsSupplied ss × IsProbed readiness log
  unfolding judge
  judge_ok readiness ds ss log reason h = elim (Option-cases (lacking "deployment" ds)) [
    | inr (x, e) ↦ absurd (ground (arith, rw (e, judge) at h))
    | inl e ↦ elim (Option-cases (lacking "statefulSet" ss)) [
      | inr (x, f) ↦ absurd (ground (arith, rw (e, f, judge) at h))
      | inl f ↦ (
        lacking-none "deployment" ds e,
        lacking-none "statefulSet" ss f,
        probe_if_ok readiness log reason (rw (e, f, judge) at h),
      )
    ]
  ]

  judge_some_ok :
      (readiness : Option ReadinessSpec) (ds ss : List Workload) (log : Log) (reason : String)
      → (judge_some api namespace release readiness ds ss log).0 ≡ ok (true, reason)
      → ((ds ≢ []) ⊎ (ss ≢ []))
        × ((judge api namespace release readiness ds ss log).0 ≡ ok (true, reason))
  unfolding judge_some
  judge_some_ok readiness (d ∷ ds) ss log reason k = (inl (λ e. cc), k)
  judge_some_ok readiness [] (s ∷ ss) log reason k = (inr (λ e. cc), k)
  judge_some_ok readiness [] [] log reason k = absurd (ground (arith, k))

  -- If `IsReady` says ready, then the two lists that it read are not both empty, every Deployment
  -- and StatefulSet of the release has the replicas that it wants, and, if an HTTP probe is asked
  -- for, a service of the release has the port and the request to it was answered with a success or
  -- a redirection.
  pub is_ready-IsSupplied :
      (readiness : Option ReadinessSpec) (log : Log) (reason : String)
      → (is_ready api namespace release readiness log).0 ≡ ok (true, reason)
      → (ds : List Workload) × ((ss : List Workload) × (api.deployments_of namespace release log
            ≡ ok ds)
          × (api.stateful_sets_of namespace release (list_deployments namespace release ∷ log)
              ≡ ok ss)
          × ((ds ≢ []) ⊎ (ss ≢ []))
          × IsSupplied ds
          × IsSupplied ss
          × IsProbed readiness
              (list_stateful_sets namespace release ∷ list_deployments namespace release ∷ log))
  unfolding is_ready
  is_ready-IsSupplied readiness log reason h =
      let second = list_deployments namespace release ∷ log in
      let third = list_stateful_sets namespace release ∷ second in
      elim (Result-cases (api.deployments_of namespace release log)) [
        | inr (x, e) ↦ absurd (ground (arith, rw e at h))
        | inl (ds, e) ↦ elim (Result-cases (api.stateful_sets_of namespace release second)) [
          | inr (x, f) ↦ absurd (ground (arith, rw (e, f) at h))
          | inl (ss, f) ↦
              let (some_workload, judged) =
                judge_some_ok readiness ds ss third reason (rw (e, f) at h) in
              let (supplied, supplied', probed) = judge_ok readiness ds ss third reason judged in
              (ds, (ss, e, f, some_workload, supplied, supplied', probed))
        ]
      ]
