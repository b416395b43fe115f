-- ===== src/Config.antt =====
-- internal/config/config.go: the configuration of the operator.
pub mod Load
mod Samples
use petri_operator.Prelude.{
  ℕ, suc, String, Bool, true, false, List, [], ◌∷◌, ltb, leb, if◌then◌else◌, ◌==◌, ◌&&◌, ℤ, pos,
  negsuc, is_zero, is_neg,
}
use petri_operator.Prelude.Text.{show_int}
use petri_operator.Prelude.Effects.{Kind, other, Err, Result, ok, err, wrap}
use Prim.Native.String.{◌++◌}

pub record LeaderElection : Type 0 where
  pub enabled : Bool
  pub id : String

-- F is float64.
pub record Controllers (F : Type 0) : Type 0 where
  pub max_concurrent_reconciles : ℤ
  pub qps : F
  pub burst : ℤ
  pub default_deploy_timeout : String
  pub job_deadline : String

pub record Deployer : Type 0 where
  pub image : String
  pub service_account : String

pub record Config (F : Type 0) : Type 0 where
  pub leader_election : LeaderElection
  pub controllers : Controllers F
  pub deployer : Deployer

-- The operations of float64 that the code uses: x < 0, x == 0, the verb %v, and two numbers.
pub record Floats (F : Type 0) : Type 0 where
  pub is_negative : F → Bool
  pub is_nothing : F → Bool
  pub show : F → String
  pub nothing : F
  pub ten : F

pub record RateLimitOptions (F : Type 0) : Type 0 where
  pub max_concurrent_reconciles : ℤ
  pub qps : F
  pub burst : ℤ

-- A second in nanoseconds.
abbrev pub second : ℕ
second = 1000000000

abbrev refusal : {A : Type 0} → String → Result A
refusal text = err (record { kind = other; text = text })

-- fmt.Errorf with the verb %w at the end.
abbrev and_then : {A B : Type 0} → Result A → (A → Result B) → Result B
and_then (ok a) f = f a
and_then (err e) f = err e

-- One round of the loop over the durations; d is what the text parses to.
unfoldable pub judge_duration : String → ℤ → Result (Unit {0})
judge_duration name (negsuc n) = refusal ("controllers." ++ (name ++ " must be non-negative"))
judge_duration name (pos n) =
    if (name == "jobDeadline") && (ltb 0 n && ltb n second)
    then refusal "controllers.jobDeadline must be zero or at least 1s"
    else ok tt

-- `parse` is time.ParseDuration.
unfoldable pub check_duration :
    (parse : String → Result ℤ) → (name value : String) → Result (Unit {0})
unfolding judge_duration
check_duration parse name value = if value == "" then ok tt else elim (parse value) [
  | ok d ↦ judge_duration name d
  | err e ↦ wrap ("controllers." ++ (name ++ ": ")) e
]

module _ {F : Type 0} (floats : Floats F) where
  unfoldable pub default_rate_limit_options : RateLimitOptions F
  default_rate_limit_options = record {
    max_concurrent_reconciles = pos 4;
    qps = floats.ten;
    burst = pos 100;
  }

  unfoldable pub apply_defaults : Config F → Config F
  unfolding default_rate_limit_options
  apply_defaults c =
      let rl = default_rate_limit_options in
      let old = c.controllers in
      record c {
        controllers = record old {
          max_concurrent_reconciles =
              if is_zero old.max_concurrent_reconciles
              then rl.max_concurrent_reconciles
              else old.max_concurrent_reconciles;
          qps = if floats.is_nothing old.qps then rl.qps else old.qps;
          burst = if is_zero old.burst then rl.burst else old.burst;
        };
      }

  -- The zero value of the struct.
  abbrev pub zero_config : Config F
  zero_config = record {
    leader_election = record { enabled = false; id = "" };
    controllers = record {
      max_concurrent_reconciles = pos 0;
      qps = floats.nothing;
      burst = pos 0;
      default_deploy_timeout = "";
      job_deadline = "";
    };
    deployer = record { image = ""; service_account = "" };
  }

  -- `read_file` is os.ReadFile, `unmarshal` is yaml.UnmarshalStrict into the zero value.
  unfoldable pub read_config :
      (read_file : String → Result String) (unmarshal : String → Result (Config F))
      → String
      → Result (Config F)
  read_config read_file unmarshal path =
      if path == "" then ok zero_config else elim (read_file path) [
        | err e ↦ wrap ("read config \"" ++ (path ++ "\": ")) e
        | ok text ↦ elim (unmarshal text) [
          | err e ↦ wrap ("parse config \"" ++ (path ++ "\": ")) e
          | ok c ↦ ok c
        ]
      ]

  -- The three tests of numbers, and the defaults.
  unfoldable pub check_limits : Config F → Result (Config F)
  unfolding apply_defaults
  check_limits c =
      if is_neg c.controllers.max_concurrent_reconciles
      then refusal (
          "controllers.maxConcurrentReconciles must be non-negative, got "
          ++ show_int c.controllers.max_concurrent_reconciles)
      else if floats.is_negative c.controllers.qps
      then refusal ("controllers.qps must be non-negative, got " ++ floats.show c.controllers.qps)
      else if is_neg c.controllers.burst
      then refusal ("controllers.burst must be non-negative, got " ++ show_int c.controllers.burst)
      else ok (apply_defaults c)

  -- Load, from the configuration that was read.
  unfoldable pub validate : (parse : String → Result ℤ) → Config F → Result (Config F)
  unfolding check_duration check_limits
  validate parse c =
      and_then (check_duration parse "defaultDeployTimeout" c.controllers.default_deploy_timeout)
        (λ _.
          and_then (check_duration parse "jobDeadline" c.controllers.job_deadline)
            (λ _. check_limits c))

  unfoldable pub load :
      (read_file : String → Result String) (unmarshal : String → Result (Config F))
      (parse : String → Result ℤ)
      → String
      → Result (Config F)
  unfolding read_config validate
  load read_file unmarshal parse path =
      and_then (read_config read_file unmarshal path) (validate parse)
