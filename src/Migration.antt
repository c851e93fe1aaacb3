-- ===== src/Migration.antt =====
-- internal/migration/migration.go and internal/migration/migration_builder.go: the plans that move
-- the workloads of a cluster, kept in ConfigMaps.
pub mod Plans
pub mod RoundTrip
use acm_caas_poc.Prelude.{
  String, Bool, not, List, [], ◌∷◌, map, ◌==◌, if◌then◌else◌, length, is_empty,
}
use acm_caas_poc.Prelude.Int.{ℤ, pos}
use acm_caas_poc.Kube.Errors.{status, wrapped, is_not_found, Result, ok, err}
use acm_caas_poc.Kube.Values.{
  str, object, Fields, index, map_or_nil, items_or_nil, maps_of, assign, any_condition,
}
use acm_caas_poc.Kube.Objects.{Accessors}
use acm_caas_poc.Kube.Hub.{Run, Hub, pure, raise, attempt, context, ◌>>=◌, ◌>>◌}
use acm_caas_poc.Client.{create_if_not_exists, delete_if_exists}
use acm_caas_poc.Client.Resources.{manifest_work, config_map}
use acm_caas_poc.Migration.Plans.{
  default_namespace, MigrationPlan, MigrationSummary, Texts, migration_plan_id, plan_name,
  workloads_name, cordon_name, build_cordon_labels, build_migration_plan,
  build_target_manifest_work, parse_migration_plan_from_config_map, parse_migration_summary,
}

pub record MigrationOpts : Type 0 where
  pub from_cluster : String
  pub to_cluster : String
  pub only_namespaces : List String

pub record MigrationStatus : Type 0 where
  pub of_plan : String
  pub from_cluster : String
  pub to_cluster : String
  pub in_phase : String
  pub planned : ℤ
  pub migrated : ℤ
  pub message : String

unfoldable pub is_manifest_work_applied : Fields → Bool
is_manifest_work_applied obj =
    let status = map_or_nil (index obj "status") in
    any_condition "Applied" (maps_of (items_or_nil (index status "conditions")))

-- The object that `updatePlanPhase` sends.
unfoldable pub with_phase : String → Fields → Fields
with_phase phase' obj =
    assign "data" (object (assign "phase" (str phase') (map_or_nil (index obj "data")))) obj

-- What `MigrationStatus` tells of a plan before it looks at the target.
abbrev pub told : String → MigrationPlan → MigrationStatus
told id plan = record {
  of_plan = id;
  from_cluster = plan.source_cluster;
  to_cluster = plan.target_cluster;
  in_phase = plan.phase;
  planned = plan.workloads;
  migrated = pos 0;
  message = "";
}

-- The answer by the ManifestWork of the target.
unfoldable pub status_by_target : String → MigrationPlan → Result Fields → Result MigrationStatus
status_by_target id plan (err e) =
    if not (is_not_found e)
    then err (wrapped "getting target ManifestWork" e)
    else ok (record (told id plan) { message = "Target workloads not yet deployed" })
status_by_target id plan (ok work) = ok (
    if not (is_manifest_work_applied work) then told id plan else record (told id plan) {
      migrated = plan.workloads;
      in_phase = if plan.phase == "Verifying" then "Completed" else plan.phase;
    })

module _ {W : Type 0} (x : Texts) (o : Accessors) (h : Hub W) where
  unfoldable pub count_workloads : String → Run W ℤ
  count_workloads cluster = do items ← h.list manifest_work cluster ""; pure (pos (length items))

  unfoldable pub get_plan : String → Run W MigrationPlan
  get_plan id = do
    obj ← h.get config_map default_namespace (plan_name id)
    pure (parse_migration_plan_from_config_map x obj)

  unfoldable pub update_plan_phase : String → String → Run W (Unit {0})
  update_plan_phase id phase' = do
    obj ← h.get config_map default_namespace (plan_name id)
    h.update config_map default_namespace (with_phase phase' obj)
    pure tt

  -- `now` is the text of the clock.
  unfoldable pub new_plan : String → MigrationOpts → ℤ → MigrationPlan
  new_plan now opts count = record {
    plan_id = migration_plan_id opts.from_cluster opts.to_cluster;
    source_cluster = opts.from_cluster;
    target_cluster = opts.to_cluster;
    workloads = count;
    namespaces = if is_empty opts.only_namespaces then "*" ∷ [] else opts.only_namespaces;
    phase = "Planned";
    created_at = now;
  }

  unfoldable pub plan_migration : String → MigrationOpts → Run W MigrationPlan
  plan_migration now opts = do
    count ← context "counting source workloads" (count_workloads opts.from_cluster)
    context "creating migration plan" (
        create_if_not_exists o h config_map default_namespace
          (build_migration_plan x (new_plan now opts count)))
    pure (new_plan now opts count)

  unfoldable pub execute_migration : String → Run W (Unit {0})
  execute_migration id = do
    plan ← context "getting migration plan" (get_plan id)
    context "updating plan phase" (update_plan_phase id "Deploying")
    context "cordoning source cluster" (
        create_if_not_exists o h manifest_work plan.source_cluster
          (build_cordon_labels plan.source_cluster id))
    context "deploying to target cluster" (
        create_if_not_exists o h manifest_work plan.target_cluster
          (build_target_manifest_work x plan))
    context "updating plan phase" (update_plan_phase id "Verifying")

  -- The plan of a status: `none` where it is not found.
  unfoldable pub status_of_plan : String → Result MigrationPlan → Run W MigrationStatus
  status_of_plan id (err e) =
      if is_not_found e
      then pure (record {
        of_plan = id;
        from_cluster = "";
        to_cluster = "";
        in_phase = "NotFound";
        planned = pos 0;
        migrated = pos 0;
        message = "";
      })
      else raise (wrapped "getting migration plan" e)
  status_of_plan id (ok plan) = λ w.
      let (r, w1) = h.get manifest_work plan.target_cluster (workloads_name id) w in
      (status_by_target id plan r, w1)

  unfoldable pub migration_status : String → Run W MigrationStatus
  migration_status id w = let (r, w1) = get_plan id w in status_of_plan id r w1

  -- The errors of both deletions are dropped.
  unfoldable pub rollback_migration : String → Run W (Unit {0})
  rollback_migration id = do
    plan ← context "getting migration plan" (get_plan id)
    attempt (delete_if_exists h manifest_work plan.target_cluster (workloads_name id))
    attempt (delete_if_exists h manifest_work plan.source_cluster (cordon_name id))
    context "updating plan phase" (update_plan_phase id "RolledBack")

  unfoldable pub list_migrations : Run W (List MigrationSummary)
  list_migrations = do
    items ←
        context "listing migration plans"
          (h.list config_map default_namespace "acmlab.redhat.com/migration-plan")
    pure (map parse_migration_summary items)
