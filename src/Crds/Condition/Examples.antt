-- ===== src/Crds/Condition/Examples.antt =====
-- Tests of the conditions, and witnesses of their theorems.
use shulker.Prelude.{◌≡◌, refl, ◌≢◌, arith, eq_iff, String, List, [], ◌∷◌, some}
use shulker.Crds.Condition.{Condition, true_, false_, condition_of, find_condition, set_condition}
use shulker.Crds.Condition.Laws.{
  transition_time, set_condition_found, IsUnique, set_condition-IsUnique,
}

abbrev ready : Condition
ready = condition_of 5 "Ready" true_ "Up" "ready"

abbrev phase : Condition
phase = condition_of 6 "Phase" false_ "Down" "off"

abbrev two : List Condition
two = ready ∷ phase ∷ []

keeps_time_of_same_status :
    set_condition 9 "Ready" true_ "Still" "still ready" two
    ≡ condition_of 5 "Ready" true_ "Still" "still ready" ∷ phase ∷ []
unfolding set_condition
keeps_time_of_same_status = refl

ready_differs : ◌≢◌ {A = String} "Ready" "Phase"
ready_differs = ground (arith, eq_iff "Ready" "Phase")

phase_differs : ◌≢◌ {A = String} "Phase" "Ready"
phase_differs = ground (arith, eq_iff "Phase" "Ready")

set_condition_found_example :
    (c : Condition) × (find_condition "Phase" (set_condition 9 "Phase" true_ "On" "on" two)
      ≡ some c)
    × (c.status ≡ "True")
    × (c.reason ≡ "On")
    × (c.message ≡ "on")
    × (c.last_transition_time ≡ transition_time (find_condition "Phase" two) "True" 9)
set_condition_found_example = set_condition_found 9 "Phase" true_ "On" "on" two

set_condition-IsUnique_example : IsUnique (set_condition 9 "Phase" true_ "On" "on" two)
set_condition-IsUnique_example =
    set_condition-IsUnique 9 "Phase" true_ "On" "on" two ((phase_differs, tt), (tt, tt))
