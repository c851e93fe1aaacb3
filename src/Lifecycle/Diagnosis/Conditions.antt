-- ===== src/Lifecycle/Diagnosis/Conditions.antt =====
-- The checks drawn from conditions (internal/lifecycle/lifecycle.go).
use acm_caas_poc.Prelude.{
  String, ◌≡◌, refl, inl, inr, Bool, true, false, ◌&&◌, List, [], ◌∷◌, map, arith, ◌==◌, eq_iff,
  if◌then◌else◌, Bool-cases, filter,
}
use acm_caas_poc.Kube.Values.{Fields}
use acm_caas_poc.Kube.Objects.{Accessors}
use acm_caas_poc.Lifecycle.Diagnosis.{
  is_problem, text_at, condition_check, condition_checks, mc_conditions,
}

-- A condition that reports one of the known problems as present.
abbrev pub reports_problem : Accessors → Fields → Bool
reports_problem o cond = is_problem (text_at o cond "type") && text_at o cond "status" == "True"

-- The checks of the Hive conditions are one for each condition that reports a known problem, in
-- their order; conditions of other types or of another status than `True` give none.
pub condition_checks_lem :
    (o : Accessors) (power : String) (conds : List Fields)
    → condition_checks o power conds
      ≡ map (condition_check o power) (filter (reports_problem o) conds)
unfolding condition_checks
condition_checks_lem o power [] = refl
condition_checks_lem o power (cond ∷ rest) = ground (arith, condition_checks_lem o power rest)

-- The status of the last condition of a type, or a default.
unfoldable pub last_status : Accessors → String → String → List Fields → String
last_status o type d [] = d
last_status o type d (cond ∷ rest) =
    last_status o type (if text_at o cond "type" == type then text_at o cond "status" else d) rest

not_joined_type :
    (t : String)
    → (t == "ManagedClusterConditionAvailable") ≡ true
    → (t == "ManagedClusterJoined") ≡ false
not_joined_type t e = rw ((eq_iff t "ManagedClusterConditionAvailable").0 e) refl

-- The values read from a ManagedCluster are the statuses of the last condition of either type.
pub mc_conditions_lem :
    (o : Accessors) (conds : List Fields) (available joined : String)
    → mc_conditions o conds available joined ≡ (
      last_status o "ManagedClusterConditionAvailable" available conds,
      last_status o "ManagedClusterJoined" joined conds,
    )
unfolding mc_conditions last_status
mc_conditions_lem o [] available joined = refl
mc_conditions_lem o (cond ∷ rest) available joined =
    let t = text_at o cond "type" in
    elim (Bool-cases (t == "ManagedClusterConditionAvailable")) [
      | inl e ↦
          rw (e, not_joined_type t e) (mc_conditions_lem o rest (text_at o cond "status") joined)
      | inr e ↦ rw e (
          mc_conditions_lem o rest available
            (if t == "ManagedClusterJoined" then text_at o cond "status" else joined))
    ]
