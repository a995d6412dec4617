-- ===== src/Crds/Condition.antt =====
-- packages/shulker-crds/src/condition.rs: the conditions in the status of a resource. The trait's
-- object is its vector of conditions; the clock is an argument.
pub mod Laws
pub mod Examples
use shulker.Prelude.{
  ℕ, String, Bool, true, false, not, List, [], ◌∷◌, Option, none, some, find, ◌==◌, if◌then◌else◌,
}

-- `Condition` of `k8s-openapi`.
pub record Condition : Type 0 where
  pub type_ : String
  pub status : String
  pub reason : String
  pub message : String
  pub last_transition_time : ℕ
  pub observed_generation : Option ℕ

pub data ConditionStatus : Type 0 where
  true_ false_ unknown : ConditionStatus

-- `Display`.
abbrev pub to_string : ConditionStatus → String
to_string true_ = "True"
to_string false_ = "False"
to_string unknown = "Unknown"

abbrev pub condition_of : ℕ → String → ConditionStatus → String → String → Condition
condition_of now type_ status reason message = record {
  type_ = type_;
  status = to_string status;
  reason = reason;
  message = message;
  last_transition_time = now;
  observed_generation = none;
}

pub find_condition : String → List Condition → Option Condition
find_condition condition_type conditions =
    find (λ (c : Condition). c.type_ == condition_type) conditions

-- What is written to the condition that is there.
abbrev pub merge : Condition → Condition → Condition
merge existing new =
    let moved =
      if not (existing.status == new.status)
      then record existing { status = new.status; last_transition_time = new.last_transition_time }
      else existing in
    record moved {
      reason = new.reason;
      message = new.message;
      observed_generation = new.observed_generation;
    }

-- The first condition of the type, which `find_condition_mut` gives, is written; if there is none,
-- the new one is pushed.
unfoldable pub write_condition : Condition → List Condition → List Condition
write_condition new [] = new ∷ []
write_condition new (c ∷ conditions) =
    if c.type_ == new.type_ then merge c new ∷ conditions else c ∷ write_condition new conditions

unfoldable pub set_condition :
    ℕ → String → ConditionStatus → String → String → List Condition → List Condition
unfolding write_condition
set_condition now type_ status reason message conditions =
    write_condition (condition_of now type_ status reason message) conditions

pub has_condition_status : String → ConditionStatus → List Condition → Bool
unfolding find_condition
has_condition_status condition_type status conditions =
    elim (find_condition condition_type conditions) [
      | none ↦ false
      | some c ↦ c.status == to_string status
    ]

pub is_condition_true : String → List Condition → Bool
unfolding has_condition_status
is_condition_true condition_type conditions = has_condition_status condition_type true_ conditions

pub is_condition_false : String → List Condition → Bool
unfolding has_condition_status
is_condition_false condition_type conditions = has_condition_status condition_type false_ conditions
