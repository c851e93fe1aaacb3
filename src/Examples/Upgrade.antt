-- ===== src/Examples/Upgrade.antt =====
-- internal/upgrade/upgrade.go at a server that holds one object, and at one with an OpenShift
-- cluster that Hive did not provision.
use acm_caas_poc.Prelude.{String, ◌≡◌, refl, some, List, [], ◌∷◌, ◌==◌, if◌then◌else◌}
use acm_caas_poc.Kube.Errors.{Error, ok, err}
use acm_caas_poc.Kube.Values.{str, Fields, end, fields_of, map_of, list_of}
use acm_caas_poc.Kube.Hub.{Gvr, Hub}
use acm_caas_poc.Client.{get_cluster_type}
use acm_caas_poc.Client.Resources.{manifest_work, cluster_curator}
use acm_caas_poc.Upgrade.{
  method_manifest, UpgradeableCluster, detect_upgrade_method, type_and_method, list_upgradeable,
}
use acm_caas_poc.Upgrade.Works.{build_upgrade_manifest_work, set_channel, start_upgrade}
use acm_caas_poc.Upgrade.Writes.{
  KeptByUpgradesOf, upgrades_keep, NeedsVersion, second_upgrade_fails,
}
use acm_caas_poc.Upgrade.Listing.{Verdicts, list_upgradeable-Verdicts}
use acm_caas_poc.Examples.Worlds.{walking, missing_error, conflict_error, Cell, cell_hub}

abbrev keep_version : Fields → String → Fields
keep_version obj v = obj

abbrev Full : Cell → Type 0
Full w = (obj : Fields) × (w ≡ some obj)

holds_get : (g : Gvr) (ns name : String) (w : Cell) → Full w → Full (cell_hub.get g ns name w).1
unfolding cell_hub
holds_get g ns name w p = rw p.1 (p.0, refl)

holds_write :
    (g : Gvr) (cluster : String) (obj : Fields) (w : Cell)
    → Full w
    → Full (cell_hub.create g cluster obj w).1 × Full (cell_hub.update g cluster obj w).1
unfolding cell_hub
holds_write g cluster obj w p = rw p.1 ((p.0, refl), (obj, refl))

holds_upgrades : KeptByUpgradesOf cell_hub "c" Full
holds_upgrades = record {
  keep_get = holds_get;
  keep_work = holds_write manifest_work "c";
  keep_curator = holds_write cluster_curator "c";
}

upgrades_keep_example :
    Full (start_upgrade walking keep_version cell_hub "c" "4.17.1" (some end)).1
    × Full (set_channel walking keep_version cell_hub "c" "4.17.1" (some end)).1
upgrades_keep_example =
    upgrades_keep walking keep_version cell_hub "c" Full holds_upgrades "4.17.1" (some end)
      (end, refl)

abbrev ocp_info : Fields
ocp_info = fields_of (
    (
      "status",
      map_of (
          (
            "distributionInfo",
            map_of (
                ("type", str "OCP")
                ∷ ("ocp", map_of (("availableUpdates", list_of (str "4.17.1" ∷ [])) ∷ []))
                ∷ []),
          )
          ∷ []),
    )
    ∷ [])

abbrev managed : Fields
managed = fields_of (("metadata", map_of (("name", str "c") ∷ [])) ∷ [])

abbrev ocp_hub : Hub (Unit {0})
ocp_hub = record {
  create = λ g ns obj w. (err conflict_error, w);
  get = λ g ns name w.
      (if g.resource == "clusterdeployments" then err missing_error else ok ocp_info, w);
  list = λ g ns sel w. (ok (managed ∷ []), w);
  update = λ g ns obj w. (err conflict_error, w);
  delete = λ g ns name w. (ok tt, w);
  patch = λ g ns name d w. (err conflict_error, w);
}

needs_version : NeedsVersion walking ocp_hub
needs_version = record { refused = λ ns obj w e. (conflict_error, refl) }

by_work : (type_and_method walking ocp_hub "c" tt).0.1 ≡ method_manifest
unfolding type_and_method detect_upgrade_method get_cluster_type walking
by_work = refl

no_version :
    walking.get_resource_version (build_upgrade_manifest_work "c" "c-upgrade" "4.17.1") ≡ ""
unfolding walking build_upgrade_manifest_work
no_version = refl

second_upgrade_fails_example :
    (e : Error) × (start_upgrade walking keep_version ocp_hub "c" "4.17.1" tt ≡ (err e, tt))
second_upgrade_fails_example =
    second_upgrade_fails walking keep_version ocp_hub needs_version "c" "4.17.1" tt tt ocp_info
      no_version by_work refl

list_upgradeable-Verdicts_example :
    (result : List UpgradeableCluster) × ((list_upgradeable walking ocp_hub tt).0 ≡ ok result)
    × Verdicts walking ocp_hub (managed ∷ []) result
list_upgradeable-Verdicts_example = list_upgradeable-Verdicts walking ocp_hub (managed ∷ []) tt refl
