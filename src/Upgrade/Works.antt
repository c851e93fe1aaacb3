-- ===== src/Upgrade/Works.antt =====
-- internal/upgrade/upgrade.go and internal/upgrade/builder.go: the objects that ask for an upgrade
-- or another channel, and how they are applied.
use acm_caas_poc.Prelude.{String, not, List, [], ◌∷◌, ◌==◌, if◌then◌else◌, concat}
use acm_caas_poc.Kube.Errors.{text, wrapped, is_not_found, Result, ok, err}
use acm_caas_poc.Kube.Values.{Value, str, Fields, fields_of, map_of, list_of}
use acm_caas_poc.Kube.Objects.{Accessors}
use acm_caas_poc.Kube.Hub.{Run, Hub, pure, raise, context, ◌>>=◌}
use acm_caas_poc.Client.Resources.{manifest_work, cluster_curator}
use acm_caas_poc.Upgrade.{method_hive, method_report_only, type_and_method}

-- The ManifestWork of both builders, around the spec of the ClusterVersion.
abbrev version_work : String → String → List (String × Value) → Fields
version_work cluster mw_name cv_spec = fields_of (
    ("apiVersion", str "work.open-cluster-management.io/v1")
    ∷ ("kind", str "ManifestWork")
    ∷ (
      "metadata",
      map_of (
          ("name", str mw_name)
          ∷ ("namespace", str cluster)
          ∷ (
            "labels",
            map_of (("caas-poc/operation", str "upgrade") ∷ ("caas-poc/cluster", str cluster) ∷ []),
          )
          ∷ []),
    )
    ∷ (
      "spec",
      map_of (
          (
            "workload",
            map_of (
                (
                  "manifests",
                  list_of (
                      map_of (
                        ("apiVersion", str "config.openshift.io/v1")
                        ∷ ("kind", str "ClusterVersion")
                        ∷ ("metadata", map_of (("name", str "version") ∷ []))
                        ∷ ("spec", map_of cv_spec)
                        ∷ [])
                      ∷ []),
                )
                ∷ []),
          )
          ∷ (
            "manifestConfigs",
            list_of (
                map_of (
                  (
                    "resourceIdentifier",
                    map_of (
                        ("group", str "config.openshift.io")
                        ∷ ("resource", str "clusterversions")
                        ∷ ("name", str "version")
                        ∷ ("namespace", str "")
                        ∷ []),
                  )
                  ∷ ("updateStrategy", map_of (("type", str "ServerSideApply") ∷ []))
                  ∷ [])
                ∷ []),
          )
          ∷ []),
    )
    ∷ [])

unfoldable pub build_channel_manifest_work : String → String → String → Fields
build_channel_manifest_work cluster mw_name channel =
    version_work cluster mw_name (("channel", str channel) ∷ [])

unfoldable pub build_upgrade_manifest_work : String → String → String → Fields
build_upgrade_manifest_work cluster mw_name version =
    version_work cluster mw_name (("desiredUpdate", map_of (("version", str version) ∷ [])) ∷ [])

-- The ClusterCurator of both builders, around its upgrade.
abbrev upgrade_curator : String → List (String × Value) → Fields
upgrade_curator cluster upgrade = fields_of (
    ("apiVersion", str "cluster.open-cluster-management.io/v1beta1")
    ∷ ("kind", str "ClusterCurator")
    ∷ (
      "metadata",
      map_of (
          ("name", str cluster)
          ∷ ("namespace", str cluster)
          ∷ ("labels", map_of (("caas-poc/operation", str "upgrade") ∷ []))
          ∷ []),
    )
    ∷ ("spec", map_of (("desiredCuration", str "upgrade") ∷ ("upgrade", map_of upgrade) ∷ []))
    ∷ [])

unfoldable pub build_upgrade_cluster_curator : String → String → String → Fields
build_upgrade_cluster_curator cluster version channel =
    upgrade_curator cluster (
      ("desiredUpdate", str version)
      ∷ (if channel == "" then [] else ("channel", str channel) ∷ []))

unfoldable pub build_channel_cluster_curator : String → String → Fields
build_channel_cluster_curator cluster channel =
    upgrade_curator cluster (("channel", str channel) ∷ [])

module _ {W : Type 0} where
  -- A write whose answer is dropped.
  unfoldable pub send : String → Run W Fields → Run W (Unit {0})
  send prefix m = context prefix m >>= λ _. pure tt

  -- What both of the following do with the answer of their reading.
  unfoldable pub update_or_create :
      Result Fields → String → (Fields → Run W (Unit {0})) → Run W (Unit {0}) → Run W (Unit {0})
  update_or_create (ok existing) checking update_it create_it = update_it existing
  update_or_create (err e) checking update_it create_it =
      if not (is_not_found e) then raise (wrapped checking e) else create_it

-- `SetResourceVersion` of the `unstructured` package is an argument.
module _ {W : Type 0} (o : Accessors) (set_resource_version : Fields → String → Fields)
    (h : Hub W) where
  unfoldable pub apply_manifest_work :
      String → String → (String → String → Fields) → Run W (Unit {0})
  apply_manifest_work cluster mw_name build w =
      let mw = build cluster mw_name in
      let (r, w1) = h.get manifest_work cluster mw_name w in
      update_or_create r (concat ("checking ManifestWork for " ∷ cluster ∷ []))
        (λ _.
          send (concat ("updating ManifestWork for " ∷ mw_name ∷ " on " ∷ cluster ∷ []))
            (h.update manifest_work cluster mw))
        (send (concat ("creating ManifestWork for " ∷ mw_name ∷ " on " ∷ cluster ∷ []))
          (h.create manifest_work cluster mw))
        w1

  unfoldable pub apply_cluster_curator : String → Fields → Run W (Unit {0})
  apply_cluster_curator cluster obj w =
      let (r, w1) = h.get cluster_curator cluster cluster w in
      update_or_create r (concat ("checking ClusterCurator for " ∷ cluster ∷ []))
        (λ existing. send (concat ("updating ClusterCurator for " ∷ cluster ∷ [])) (
          h.update cluster_curator cluster
            (set_resource_version obj (o.get_resource_version existing))))
        (send (concat ("creating ClusterCurator for " ∷ cluster ∷ []))
          (h.create cluster_curator cluster obj))
        w1

  unfoldable pub set_channel : String → String → Run W (Unit {0})
  set_channel cluster channel w =
      let ((type, method), w1) = type_and_method o h cluster w in
      if method == method_report_only
      then (
        err (
            text (
              concat (
                "cluster " ∷ cluster ∷ " does not support channel changes (type: " ∷ type ∷ ")"
                ∷ []))),
        w1,
      )
      else if method == method_hive
      then apply_cluster_curator cluster (build_channel_cluster_curator cluster channel) w1
      else apply_manifest_work cluster (concat (cluster ∷ "-channel" ∷ []))
          (λ c mw_name. build_channel_manifest_work c mw_name channel) w1

  unfoldable pub start_upgrade : String → String → Run W (Unit {0})
  start_upgrade cluster version w =
      let ((type, method), w1) = type_and_method o h cluster w in
      if method == method_report_only
      then (
        err (
            text (
              concat
                ("cluster " ∷ cluster ∷ " does not support upgrades (type: " ∷ type ∷ ")" ∷ []))),
        w1,
      )
      else if method == method_hive
      then apply_cluster_curator cluster (build_upgrade_cluster_curator cluster version "") w1
      else apply_manifest_work cluster (concat (cluster ∷ "-upgrade" ∷ []))
          (λ c mw_name. build_upgrade_manifest_work c mw_name version) w1
