-- ===== src/Examples/Lifecycle.antt =====
-- internal/lifecycle/lifecycle.go at small deployments and conditions.
use acm_caas_poc.Prelude.{
  String, ◌≡◌, refl, ◌↔◌, true, false, none, some, List, [], ◌∷◌, arith, if◌then◌else◌, All, lookup,
  insert,
}
use acm_caas_poc.Prelude.Int.{ℤ, pos}
use acm_caas_poc.Prelude.Decimal.{format_int}
use acm_caas_poc.Kube.Values.{int, str, Fields, index, has_key, walk, fields_of, map_of}
use acm_caas_poc.Lifecycle.Capi.{
  running, hibernating, unknown, pre_hibernate_annotation, is_zero, spec_replicas,
  noted_annotations, hibernate_patch, resume_patch, is_ready, status_of,
}
use acm_caas_poc.Lifecycle.Capi.Replicas.{Merged, hibernate_then_resume}
use acm_caas_poc.Lifecycle.Capi.States.{status_of_first, IsDown, status_hibernating_iff}
use acm_caas_poc.Lifecycle.Diagnosis.{check_acm_health}
use acm_caas_poc.Lifecycle.Diagnosis.Health.{Consistent, all_fine, check_acm_health_iff}
use acm_caas_poc.Examples.Worlds.{walking}

-- A deployment with wanted, existing, ready and available replicas.
abbrev deployment : ℤ → ℤ → ℤ → Fields
deployment wanted existing ready = fields_of (
    ("spec", map_of (("replicas", int wanted) ∷ []))
    ∷ (
      "status",
      map_of (
          ("replicas", int existing)
          ∷ ("readyReplicas", int ready)
          ∷ ("availableReplicas", int ready)
          ∷ []),
    )
    ∷ [])

abbrev five : Fields
five = deployment (pos 5) (pos 5) (pos 5)

abbrev five_noted : Fields
five_noted = fields_of (
    ("metadata", map_of (("annotations", map_of ((pre_hibernate_annotation, str "5") ∷ [])) ∷ []))
    ∷ ("spec", map_of (("replicas", int (pos 0)) ∷ []))
    ∷ [])

abbrev five_patch : Fields
five_patch = fields_of (
    ("metadata", map_of (("annotations", map_of ((pre_hibernate_annotation, str "5") ∷ [])) ∷ []))
    ∷ ("spec", map_of (("replicas", int (pos 0)) ∷ []))
    ∷ [])

five_patched : hibernate_patch walking five ≡ some five_patch
unfolding hibernate_patch walking noted_annotations insert format_int walk has_key index
five_patched = refl

merged : Merged walking five_patch five_noted
unfolding walking lookup walk has_key index
merged = record { annotated = λ k v e. ground (arith, e); scaled = λ z e. ground (arith, e) }

five_wanted : spec_replicas walking five ≡ pos 5
unfolding walking
five_wanted = refl

hibernate_then_resume_example :
    (data' : Fields) × (hibernate_patch walking five ≡ some data')
    × (hibernate_patch walking five_noted ≡ none)
    × (resume_patch walking five_noted
        ≡ fields_of (("spec", map_of (("replicas", int (pos 5)) ∷ [])) ∷ []))
hibernate_then_resume_example =
    hibernate_then_resume walking five (λ data'. five_noted) 5 five_wanted (omega arith)
      (omega arith) merges
  where
    merges :
        (data' : Fields)
        → hibernate_patch walking five ≡ some data'
        → Merged walking data' five_noted
    merges data' e =
        let same : five_patch ≡ data' = ground (arith, e, five_patched) in rw (← same) merged

abbrev idle : Fields
idle = deployment (pos 0) (pos 0) (pos 0)

abbrev broken : Fields
broken = deployment (pos 3) (pos 3) (pos 0)

idle_wants_none : is_zero (spec_replicas walking idle) ≡ true
unfolding walking
idle_wants_none = refl

five_wants_some : is_zero (spec_replicas walking five) ≡ false
unfolding walking
five_wants_some = refl

-- The third deployment is not ready, and the second decides.
status_of_first_example :
    status_of walking (idle ∷ five ∷ broken ∷ [])
    ≡ (if is_ready walking five then running else unknown)
status_of_first_example =
    status_of_first walking (idle ∷ []) five (broken ∷ []) (idle_wants_none, tt) five_wants_some

status_hibernating_iff_example :
    (status_of walking (idle ∷ five ∷ []) ≡ hibernating) ↔ All (IsDown walking) (idle ∷ five ∷ [])
status_hibernating_iff_example = status_hibernating_iff walking (idle ∷ five ∷ [])

abbrev condition : String → String → Fields
condition type state = fields_of (("type", str type) ∷ ("status", str state) ∷ [])

abbrev conditions : List Fields
conditions =
    condition "Ready" "True"
    ∷ condition "Unreachable" "True"
    ∷ condition "ProvisionFailed" "False"
    ∷ []

abbrev joining : List Fields
joining =
    condition "ManagedClusterJoined" "True"
    ∷ condition "ManagedClusterConditionAvailable" "False"
    ∷ []

check_acm_health_iff_example :
    (all_fine (check_acm_health running "True" "True") ≡ true) ↔ Consistent running "True" "True"
check_acm_health_iff_example = check_acm_health_iff running "True" "True"
