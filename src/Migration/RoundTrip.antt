-- ===== src/Migration/RoundTrip.antt =====
-- What a change of its phase leaves of a stored migration plan.
use acm_caas_poc.Prelude.{String, ◌≡◌, refl, ap, ◌∙◌, false, arith, ◌==◌}
use acm_caas_poc.Kube.Assigning.{index-assign, index-assign_other}
use acm_caas_poc.Kube.Errors.{Result, ok, err}
use acm_caas_poc.Kube.Values.{str, object, Fields, index, map_or_nil, assign}
use acm_caas_poc.Kube.Objects.{Accessors}
use acm_caas_poc.Kube.Hub.{Hub}
use acm_caas_poc.Client.Resources.{config_map}
use acm_caas_poc.Client.Laws.{NamesInMetadata, StoresUpdates}
use acm_caas_poc.Migration.Plans.{
  default_namespace, MigrationPlan, Texts, plan_name, parse_migration_plan_from_config_map,
}
use acm_caas_poc.Migration.{with_phase, get_plan, update_plan_phase}

module _ (x : Texts) (phase' : String) (obj : Fields) where
  parse-with_phase :
      parse_migration_plan_from_config_map x (with_phase phase' obj)
      ≡ record (parse_migration_plan_from_config_map x obj) { phase = phase' }
  unfolding parse_migration_plan_from_config_map with_phase
  parse-with_phase =
      let old = map_or_nil (index obj "data") in
      let other : (k : String)
          → ("phase" == k) ≡ false
          → index (assign "phase" (str phase') old) k ≡ index old k =
        λ k e. index-assign_other "phase" k (str phase') old e in
      rw
        (
          index-assign "data" (object (assign "phase" (str phase') old)) obj,
          other "planID" refl,
          other "sourceCluster" refl,
          other "targetCluster" refl,
          other "workloads" refl,
          other "namespaces" refl,
          other "createdAt" refl,
          index-assign "phase" (str phase') old,
        )
        refl

-- A plan is read from the data alone.
parse-data :
    (x : Texts) (a b : Fields)
    → index a "data" ≡ index b "data"
    → parse_migration_plan_from_config_map x a ≡ parse_migration_plan_from_config_map x b
unfolding parse_migration_plan_from_config_map
parse-data x a b e = rw e refl

with_phase-name :
    (o : Accessors) (phase' : String) (obj : Fields)
    → NamesInMetadata o
    → o.get_name (with_phase phase' obj) ≡ o.get_name obj
unfolding with_phase
with_phase-name o phase' obj names =
    names.same_name _ _ (index-assign_other "data" "metadata" _ obj refl)

module _ {W : Type 0} (x : Texts) (o : Accessors) (h : Hub W) (names : NamesInMetadata o)
    (stores : StoresUpdates o h config_map) where
  -- When no other client writes meanwhile, a plan whose phase was successfully updated is read
  -- back with the new phase and with all else as it was read before.
  pub get_plan-update_plan_phase :
      (id phase' : String) (w t : W)
      → update_plan_phase x o h id phase' w ≡ (ok tt, t)
      → (plan : MigrationPlan) × ((get_plan x o h id w).0 ≡ ok plan)
        × ((get_plan x o h id t).0 ≡ ok (record plan { phase = phase' }))
  unfolding update_plan_phase get_plan
  get_plan-update_plan_phase id phase' w t e =
      read (h.get config_map default_namespace (plan_name id) w) refl
    where
      Kept : Type 0
      Kept =
          (plan : MigrationPlan) × ((get_plan x o h id w).0 ≡ ok plan)
          × ((get_plan x o h id t).0 ≡ ok (record plan { phase = phase' }))

      stored :
          (obj : Fields) (v : W)
          → h.get config_map default_namespace (plan_name id) w ≡ (ok obj, v)
          → (r : Result Fields × W)
          → h.update config_map default_namespace (with_phase phase' obj) v ≡ r
          → Kept
      stored obj v er (ok res, t1) eu =
          let same : t1 ≡ t = ground arith in
          let sent = with_phase phase' obj in
          let named : o.get_name sent ≡ plan_name id =
            with_phase-name o phase' obj names
            ∙ stores.reads_named default_namespace (plan_name id) obj w v er in
          let (seen, got, fields) =
            stores.get-update default_namespace sent res v t (rw same at eu) in
          (
            parse_migration_plan_from_config_map x obj,
            rw (get_plan, er) refl,
            rw (get_plan, rw named at got)
                (ap ok (
                  parse-data x seen sent (fields "data" refl refl)
                  ∙ parse-with_phase x phase' obj)),
          )
      stored obj v er (err y, t1) eu = ground arith

      read :
          (r : Result Fields × W) → h.get config_map default_namespace (plan_name id) w ≡ r → Kept
      read (ok obj, v) er =
          stored obj v er (h.update config_map default_namespace (with_phase phase' obj) v) refl
      read (err y, v) er = ground arith
