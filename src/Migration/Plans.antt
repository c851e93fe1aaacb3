-- ===== src/Migration/Plans.antt =====
-- internal/migration/migration_builder.go: the objects of a migration.
use acm_caas_poc.Prelude.{
  String, Option, none, some, List, [], ◌∷◌, ◌==◌, if◌then◌else◌, concat, Map,
}
use acm_caas_poc.Prelude.Int.{ℤ, pos}
use acm_caas_poc.Prelude.Decimal.{format_int}
use acm_caas_poc.Kube.Values.{
  Value, str, object, Fields, index, map_or_nil, texts, fields_of, map_of, list_of, str_at_key,
}

abbrev pub default_namespace : String
default_namespace = "open-cluster-management-policies"

pub record MigrationPlan : Type 0 where
  pub plan_id : String
  pub source_cluster : String
  pub target_cluster : String
  pub workloads : ℤ
  pub namespaces : List String
  pub phase : String
  pub created_at : String

pub record MigrationSummary : Type 0 where
  pub plan_id : String
  pub source_cluster : String
  pub target_cluster : String
  pub phase : String
  pub created_at : String

-- `strings.Join` and `strings.Split` at a comma, and `fmt.Sscanf` of a number, which is none where
-- it stores nothing.
pub record Texts : Type 0 where
  pub join : List String → String
  pub split : String → List String
  pub scan_int : String → Option ℤ

unfoldable pub migration_plan_id : String → String → String
migration_plan_id source target = concat (source ∷ "-to-" ∷ target ∷ [])

abbrev pub plan_name : String → String
plan_name id = concat ("migration-plan-" ∷ id ∷ [])

abbrev pub workloads_name : String → String
workloads_name id = concat ("migration-workloads-" ∷ id ∷ [])

abbrev pub cordon_name : String → String
cordon_name id = concat ("migration-cordon-" ∷ id ∷ [])

-- A ManifestWork with one ConfigMap in the namespace openshift-config.
abbrev config_work : String → String → Map String → String → Map String → Fields
config_work name namespace labels config_map data' = fields_of (
    ("apiVersion", str "work.open-cluster-management.io/v1")
    ∷ ("kind", str "ManifestWork")
    ∷ (
      "metadata",
      map_of (
          ("name", str name)
          ∷ ("namespace", str namespace)
          ∷ ("labels", object (texts labels))
          ∷ []),
    )
    ∷ (
      "spec",
      map_of (
          (
            "workload",
            map_of (
                (
                  "manifests",
                  list_of (
                      map_of (
                        ("apiVersion", str "v1")
                        ∷ ("kind", str "ConfigMap")
                        ∷ (
                          "metadata",
                          map_of (
                              ("name", str config_map)
                              ∷ ("namespace", str "openshift-config")
                              ∷ []),
                        )
                        ∷ ("data", object (texts data'))
                        ∷ [])
                      ∷ []),
                )
                ∷ []),
          )
          ∷ []),
    )
    ∷ [])

unfoldable pub build_cordon_labels : String → String → Fields
build_cordon_labels cluster plan_id =
    config_work (cordon_name plan_id) cluster
      (("acmlab.redhat.com/managed", "true")
        ∷ ("acmlab.redhat.com/migration", "draining")
        ∷ ("acmlab.redhat.com/plan-id", plan_id)
        ∷ [])
      "migration-status"
      (("migration", "draining") ∷ ("plan-id", plan_id) ∷ ("cordon-time", "auto") ∷ [])

module _ (x : Texts) where
  unfoldable pub build_migration_plan : MigrationPlan → Fields
  build_migration_plan plan = fields_of (
      ("apiVersion", str "v1")
      ∷ ("kind", str "ConfigMap")
      ∷ (
        "metadata",
        map_of (
            ("name", str (plan_name plan.plan_id))
            ∷ ("namespace", str default_namespace)
            ∷ (
              "labels",
              map_of (
                  ("acmlab.redhat.com/managed", str "true")
                  ∷ ("acmlab.redhat.com/migration-plan", str "true")
                  ∷ ("acmlab.redhat.com/source", str plan.source_cluster)
                  ∷ ("acmlab.redhat.com/target", str plan.target_cluster)
                  ∷ []),
            )
            ∷ []),
      )
      ∷ (
        "data",
        map_of (
            ("planID", str plan.plan_id)
            ∷ ("sourceCluster", str plan.source_cluster)
            ∷ ("targetCluster", str plan.target_cluster)
            ∷ ("workloads", str (format_int plan.workloads))
            ∷ ("namespaces", str (x.join plan.namespaces))
            ∷ ("phase", str plan.phase)
            ∷ ("createdAt", str plan.created_at)
            ∷ []),
      )
      ∷ [])

  unfoldable pub build_target_manifest_work : MigrationPlan → Fields
  build_target_manifest_work plan =
      config_work (workloads_name plan.plan_id) plan.target_cluster
        (("acmlab.redhat.com/managed", "true")
          ∷ ("acmlab.redhat.com/migration", "deploying")
          ∷ ("acmlab.redhat.com/plan-id", plan.plan_id)
          ∷ ("acmlab.redhat.com/source", plan.source_cluster)
          ∷ [])
        "migration-manifest"
        (("source", plan.source_cluster)
          ∷ ("target", plan.target_cluster)
          ∷ ("namespaces", x.join plan.namespaces)
          ∷ [])

  -- The number and the list of `parseMigrationPlanFromConfigMap`.
  unfoldable pub workloads_of : Value → ℤ
  workloads_of (str w) = elim (x.scan_int w) [ some n ↦ n | none ↦ pos 0 ]
  workloads_of _ = pos 0

  unfoldable pub namespaces_of : Value → List String
  namespaces_of (str ns) = if ns == "" then [] else x.split ns
  namespaces_of _ = []

  unfoldable pub parse_migration_plan_from_config_map : Fields → MigrationPlan
  parse_migration_plan_from_config_map obj =
      let data' = map_or_nil (index obj "data") in
      record {
        plan_id = str_at_key data' "planID";
        source_cluster = str_at_key data' "sourceCluster";
        target_cluster = str_at_key data' "targetCluster";
        workloads = workloads_of (index data' "workloads");
        namespaces = namespaces_of (index data' "namespaces");
        phase = str_at_key data' "phase";
        created_at = str_at_key data' "createdAt";
      }

unfoldable pub parse_migration_summary : Fields → MigrationSummary
parse_migration_summary obj =
    let data' = map_or_nil (index obj "data") in
    record {
      plan_id = str_at_key data' "planID";
      source_cluster = str_at_key data' "sourceCluster";
      target_cluster = str_at_key data' "targetCluster";
      phase = str_at_key data' "phase";
      created_at = str_at_key data' "createdAt";
    }
