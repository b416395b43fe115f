-- ===== src/Platform.antt =====
-- What the controllers take from libraries outside the repository: sha256, time.ParseDuration and
-- the conditions of apimachinery, the finalizers of controller-runtime. Parameters of the model.
use petri_operator.Prelude.{String, Bool, List, ℤ}
use petri_operator.Prelude.Effects.{Result}
use petri_operator.Types.{Condition, Environment}
use petri_operator.Types.Shared.{SharedComponent}

pub record Platform : Type 0 where
  -- fmt.Sprintf("%x", sha256.Sum256(...))
  pub hex_digest : String → String
  -- time.ParseDuration, in nanoseconds.
  pub parse_duration : String → Result ℤ
  -- meta.SetStatusCondition and meta.IsStatusConditionTrue
  pub set_condition : List Condition → Condition → List Condition
  pub is_condition_true : List Condition → String → Bool
  -- controllerutil.ContainsFinalizer, AddFinalizer and RemoveFinalizer
  pub contains_finalizer : List String → String → Bool
  pub add_finalizer : List String → String → List String
  pub remove_finalizer : List String → String → List String
  -- apiequality.Semantic.DeepEqual
  pub deep_equal : Environment → Environment → Bool
  pub shared_equal : SharedComponent → SharedComponent → Bool
  -- strconv.ParseInt in base 10 for an int32, without the error.
  pub parse_int32 : String → ℤ
