-- ===== src/Config/Samples.antt =====
-- A configuration file with a job deadline and a burst, read with whole numbers for rates.
use petri_operator.Prelude.{String, ◌≡◌, ◌↔◌, refl, ℤ, pos, is_zero, is_neg}
use petri_operator.Prelude.Effects.{Result, ok}
use petri_operator.Config.{
  Config, Floats, judge_duration, check_duration, check_limits, validate, read_config, load,
  apply_defaults, default_rate_limit_options, zero_config,
}
use petri_operator.Config.Load.{IsAdmissible, IsDefaulted, load_iff}

abbrev whole : Floats ℤ
whole = record {
  is_negative = is_neg;
  is_nothing = is_zero;
  show = λ x. "rate";
  nothing = pos 0;
  ten = pos 10;
}

abbrev written : Config ℤ
written = record (zero_config whole) {
  controllers = record {
    max_concurrent_reconciles = pos 0;
    qps = pos 0;
    burst = pos 7;
    default_deploy_timeout = "";
    job_deadline = "2s";
  };
}

abbrev expected : Config ℤ
expected = record (zero_config whole) {
  controllers = record {
    max_concurrent_reconciles = pos 4;
    qps = pos 10;
    burst = pos 7;
    default_deploy_timeout = "";
    job_deadline = "2s";
  };
}

abbrev file : String → Result String
file path = ok "controllers: {burst: 7, jobDeadline: 2s}"

abbrev decode : String → Result (Config ℤ)
decode text = ok written

abbrev two_seconds : String → Result ℤ
two_seconds value = ok (pos 2000000000)

loaded : load whole file decode two_seconds "config.yaml" ≡ ok expected
unfolding load read_config validate check_duration judge_duration check_limits apply_defaults
    default_rate_limit_options
loaded = refl

load_iff_example : load whole file decode two_seconds "config.yaml" ≡ ok expected ↔ (
    (raw : Config ℤ) × (read_config whole file decode "config.yaml" ≡ ok raw)
    × IsAdmissible whole two_seconds raw
    × IsDefaulted whole two_seconds raw expected)
load_iff_example = load_iff whole two_seconds file decode "config.yaml" expected
