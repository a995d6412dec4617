-- ===== src/Crds/Condition/Laws.antt =====
-- What setting a condition does to all of them.
use shulker.Prelude.{
  ℕ, ◌≡◌, refl, ◌≢◌, String, Bool, true, false, List, [], ◌∷◌, Option, none, some, ◌==◌, eq_iff,
  eq_refl, arith, if◌then◌else◌, Bool-cases, inl, inr, All, sym, ap, ◌∙◌,
}
use shulker.Crds.Condition.{
  Condition, ConditionStatus, true_, false_, unknown, to_string, condition_of, find_condition,
  merge, write_condition, set_condition, has_condition_status, is_condition_true,
  is_condition_false,
}

-- The condition that is found afterwards.
abbrev merged : Option Condition → Condition → Condition
merged none new = new
merged (some old) new = merge old new

merge_type : (old new : Condition) → (merge old new).type_ ≡ old.type_
merge_type old new = elim (Bool-cases (old.status == new.status)) [ inl e ↦ rw e | inr e ↦ rw e ]

differ_of : (s t : String) → s ≢ t → (s == t) ≡ false
differ_of s t h = ground (arith, eq_iff s t)

find_condition-write_condition :
    (new : Condition) (conditions : List Condition)
    → find_condition new.type_ (write_condition new conditions)
      ≡ some (merged (find_condition new.type_ conditions) new)
unfolding write_condition find_condition
find_condition-write_condition new [] = rw (eq_refl new.type_)
find_condition-write_condition new (c ∷ conditions) = elim (Bool-cases (c.type_ == new.type_)) [
  | inl same ↦ rw (same, merge_type c new, same)
  | inr differ ↦ rw (differ, differ, find_condition-write_condition new conditions)
]

find_condition-write_condition_other :
    (type_ : String) (new : Condition) (conditions : List Condition)
    → new.type_ ≢ type_
    → find_condition type_ (write_condition new conditions) ≡ find_condition type_ conditions
unfolding write_condition find_condition
find_condition-write_condition_other type_ new [] h = rw (differ_of new.type_ type_ h)
find_condition-write_condition_other type_ new (c ∷ conditions) h =
    let rest = find_condition-write_condition_other type_ new conditions h in
    elim (Bool-cases (c.type_ == new.type_)) [
      | inl same ↦
          let e : c.type_ ≡ new.type_ = (eq_iff c.type_ new.type_).0 same in
          let away : (c.type_ == type_) ≡ false = differ_of c.type_ type_ (λ k. h (cc (e, k))) in
          rw (same, merge_type c new, away)
      | inr differ ↦ rw (differ, rest)
    ]

-- The condition that is found after one was set: its status is the one set, and its transition time
-- is now unless there was one of this type with the same status, whose time it then keeps.
abbrev pub transition_time : Option Condition → String → ℕ → ℕ
transition_time none status now = now
transition_time (some old) status now =
    if old.status == status then old.last_transition_time else now

merged_eq :
    (old : Option Condition) (now : ℕ) (type_ : String) (status : ConditionStatus)
    (reason message : String)
    → let c = merged old (condition_of now type_ status reason message) in
      (c.status ≡ to_string status)
      × (c.reason ≡ reason)
      × (c.message ≡ message)
      × (c.last_transition_time ≡ transition_time old (to_string status) now)
merged_eq none now type_ status reason message = (refl, refl, refl, refl)
merged_eq (some old) now type_ status reason message =
    elim (Bool-cases (old.status == to_string status)) [
      | inl same ↦ rw same ((eq_iff _ _).0 same, refl, refl, refl)
      | inr differ ↦ rw differ (refl, refl, refl, refl)
    ]

-- After a condition is set, the one found under its type has the status, the reason and the message
-- that were set; its transition time is the time of the call, unless the condition found before had
-- this status already, whose time is then kept.
pub set_condition_found :
    (now : ℕ) (type_ : String) (status : ConditionStatus) (reason message : String)
    (conditions : List Condition)
    → (c : Condition) × (find_condition type_
          (set_condition now type_ status reason message conditions)
        ≡ some c)
      × (c.status ≡ to_string status)
      × (c.reason ≡ reason)
      × (c.message ≡ message)
      × (c.last_transition_time
          ≡ transition_time (find_condition type_ conditions) (to_string status) now)
unfolding set_condition
set_condition_found now type_ status reason message conditions =
    let (s, r, m, t) =
      merged_eq (find_condition type_ conditions) now type_ status reason message in
    (
      _,
      find_condition-write_condition (condition_of now type_ status reason message) conditions,
      s,
      r,
      m,
      t,
    )

-- Setting a condition does not change the one found under any other type.
pub set_condition_others :
    (now : ℕ) (type_ other : String) (status : ConditionStatus) (reason message : String)
    (conditions : List Condition)
    → type_ ≢ other
    → find_condition other (set_condition now type_ status reason message conditions)
      ≡ find_condition other conditions
unfolding set_condition
set_condition_others now type_ other status reason message conditions h =
    find_condition-write_condition_other other (condition_of now type_ status reason message)
      conditions h

abbrev is_true : ConditionStatus → Bool
is_true true_ = true
is_true false_ = false
is_true unknown = false

abbrev is_false : ConditionStatus → Bool
is_false true_ = false
is_false false_ = true
is_false unknown = false

has_condition_status-found :
    (type_ : String) (status : ConditionStatus) (conditions : List Condition) (c : Condition)
    → find_condition type_ conditions ≡ some c
    → has_condition_status type_ status conditions ≡ (c.status == to_string status)
unfolding has_condition_status
has_condition_status-found type_ status conditions c found = rw (has_condition_status, found)

-- After a condition is set, it counts as true exactly when it was set to true, and as false exactly
-- when it was set to false.
pub set_condition_tests :
    (now : ℕ) (type_ : String) (status : ConditionStatus) (reason message : String)
    (conditions : List Condition)
    → (is_condition_true type_ (set_condition now type_ status reason message conditions)
        ≡ is_true status)
      × (is_condition_false type_ (set_condition now type_ status reason message conditions)
          ≡ is_false status)
unfolding is_condition_true is_condition_false
set_condition_tests now type_ status reason message conditions =
    let (c, found, s, r, m, t) = set_condition_found now type_ status reason message conditions in
    let after = set_condition now type_ status reason message conditions in
    (
      has_condition_status-found type_ true_ after c found
          ∙ ap (λ st. st == "True") s
          ∙ (go status).0,
      has_condition_status-found type_ false_ after c found
          ∙ ap (λ st. st == "False") s
          ∙ (go status).1,
    )
  where
    go :
        (st : ConditionStatus)
        → ((to_string st == "True") ≡ is_true st) × ((to_string st == "False") ≡ is_false st)
    go true_ = (refl, refl)
    go false_ = (refl, refl)
    go unknown = (refl, refl)

-- At most one condition for each type.
abbrev pub IsUnique : List Condition → Type 0
IsUnique [] = Unit
IsUnique (c ∷ conditions) = All (λ d. d.type_ ≢ c.type_) conditions × IsUnique conditions

write_condition-All :
    (type_ : String) (new : Condition) (conditions : List Condition)
    → new.type_ ≢ type_
    → All (λ d. d.type_ ≢ type_) conditions
    → All (λ d. d.type_ ≢ type_) (write_condition new conditions)
unfolding write_condition
write_condition-All type_ new [] h all = (h, tt)
write_condition-All type_ new (c ∷ conditions) h all = elim (Bool-cases (c.type_ == new.type_)) [
  | inl same ↦ rw (same, merge_type c new) all
  | inr differ ↦ rw differ (all.0, write_condition-All type_ new conditions h all.1)
]

write_condition-IsUnique :
    (new : Condition) (conditions : List Condition)
    → IsUnique conditions
    → IsUnique (write_condition new conditions)
unfolding write_condition
write_condition-IsUnique new [] h = (tt, tt)
write_condition-IsUnique new (c ∷ conditions) h = elim (Bool-cases (c.type_ == new.type_)) [
  | inl same ↦ rw (same, merge_type c new) h
  | inr differ ↦ rw differ (
    write_condition-All c.type_ new conditions
        (λ e.
          let same : (c.type_ == new.type_) ≡ true = (eq_iff _ _).1 (sym e) in cc (same, differ))
        h.0,
    write_condition-IsUnique new conditions h.1,
  )
]

-- Setting a condition keeps the invariant that there is at most one condition for each type.
pub set_condition-IsUnique :
    (now : ℕ) (type_ : String) (status : ConditionStatus) (reason message : String)
    (conditions : List Condition)
    → IsUnique conditions
    → IsUnique (set_condition now type_ status reason message conditions)
unfolding set_condition
set_condition-IsUnique now type_ status reason message conditions =
    write_condition-IsUnique (condition_of now type_ status reason message) conditions
