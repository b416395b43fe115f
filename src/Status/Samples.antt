-- ===== src/Status/Samples.antt =====
-- Statuses of two components.
use petri_operator.Prelude.{◌+◌, ◌<◌, Bool, ◌≡◌, refl, arith, [], ◌∷◌, List, leb}
use petri_operator.Types.{ComponentStatus, ready, deploying}
use petri_operator.Status.{
  find_component, record_runtime_failure, new_status, max_deploy_retries, backoff_of,
}
use petri_operator.Status.Lookup.{retries, fail_times, fail_times_exhausted}
use petri_operator.Status.Backoff.{backoff_of_exact, capped_delay}

abbrev statuses : List ComponentStatus
statuses = record (new_status "db" ready) { deploy_retries = 3 } ∷ new_status "api" deploying ∷ []

few : retries "db" statuses + 1 < 2147483647
unfolding retries find_component
few = omega arith

fail_times_exhausted_example :
    (retries "db" (fail_times 1 "db" "timeout" statuses).0 ≡ retries "db" statuses + 2)
    × ((fail_times 1 "db" "timeout" statuses).1
        ≡ leb max_deploy_retries (retries "db" statuses + 2))
fail_times_exhausted_example = fail_times_exhausted 1 "db" "timeout" statuses few

fifth_failure : (fail_times 1 "db" "timeout" statuses).1 ≡ Bool.true
unfolding record_runtime_failure find_component
fifth_failure = refl

backoff_of_exact_example : backoff_of 3 ≡ capped_delay 3
backoff_of_exact_example = backoff_of_exact 3

third_backoff : backoff_of 3 ≡ 80000000000
unfolding backoff_of
third_backoff = refl
