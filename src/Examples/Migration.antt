-- ===== src/Examples/Migration.antt =====
-- internal/migration at a server that holds a plan and another ConfigMap.
use acm_caas_poc.Prelude.{String, ◌≡◌, refl, none, some, List, [], ◌∷◌, ◌==◌, if◌then◌else◌}
use acm_caas_poc.Prelude.Int.{pos}
use acm_caas_poc.Kube.Errors.{ok}
use acm_caas_poc.Kube.Values.{str, Fields, index, fields_of, map_of, assign}
use acm_caas_poc.Client.Resources.{config_map}
use acm_caas_poc.Migration.Plans.{MigrationPlan, Texts}
use acm_caas_poc.Migration.{with_phase, get_plan, update_plan_phase}
use acm_caas_poc.Migration.RoundTrip.{get_plan-update_plan_phase}
use acm_caas_poc.Examples.Worlds.{
  walking, find, replace, update_answer, store_hub, walking_names, stores_updates,
}

-- Lists of at most one text.
abbrev one_text : Texts
one_text = record {
  join = λ l. elim l [ [] ↦ "" | s ∷ rest ↦ s ];
  split = λ s. s ∷ [];
  scan_int = λ s. if s == "3" then some (pos 3) else none;
}

abbrev plan_in : String → Fields
plan_in phase' = fields_of (
    ("metadata", map_of (("name", str "migration-plan-a-to-b") ∷ []))
    ∷ (
      "data",
      map_of (("planID", str "a-to-b") ∷ ("workloads", str "3") ∷ ("phase", str phase') ∷ []),
    )
    ∷ [])

-- The server holds another ConfigMap too.
abbrev others : Fields
others = fields_of (("metadata", map_of (("name", str "other") ∷ [])) ∷ [])

abbrev world : String → List Fields
world phase' = others ∷ plan_in phase' ∷ []

updated :
    update_plan_phase one_text walking store_hub "a-to-b" "Verifying" (world "Deploying")
    ≡ (ok tt, world "Verifying")
unfolding update_plan_phase with_phase assign index store_hub find replace update_answer walking
updated = refl

get_plan-update_plan_phase_example :
    (plan : MigrationPlan) × ((get_plan one_text walking store_hub "a-to-b" (world "Deploying")).0
      ≡ ok plan)
    × ((get_plan one_text walking store_hub "a-to-b" (world "Verifying")).0
        ≡ ok (record plan { phase = "Verifying" }))
get_plan-update_plan_phase_example =
    get_plan-update_plan_phase one_text walking store_hub walking_names (stores_updates config_map)
      "a-to-b" "Verifying" (world "Deploying") (world "Verifying") updated
