-- ===== src/Scaling/Pools.antt =====
-- internal/scaling/scaling.go: the machine pools of Hive clusters.
use acm_caas_poc.Prelude.{
  ℕ, min, max, String, Bool, true, false, List, [], ◌∷◌, map, ◌==◌, if◌then◌else◌, concat,
}
use acm_caas_poc.Prelude.Int.{ℤ}
use acm_caas_poc.Kube.Errors.{Error, text, wrapped, is_not_found, ok, err}
use acm_caas_poc.Kube.Values.{nil, int, str, Fields, no_items, maps_of, fields_of, map_of}
use acm_caas_poc.Kube.Objects.{found_or, Accessors}
use acm_caas_poc.Kube.Hub.{Run, Hub, pure, context, ◌>>=◌}
use acm_caas_poc.Client.{get_cluster_type}
use acm_caas_poc.Client.Resources.{cluster_deployment, managed_cluster_info, machine_pool}
use acm_caas_poc.Scaling.{
  NoMachinePool, done, no_pool, failed, Scaling, call, and_then, MachinePoolInfo, to_int32,
  machine_pool_info, detect_platform, count_workers,
}

abbrev default_worker_type : String
default_worker_type = "bx2-4x16"

module _ {W : Type 0} (o : Accessors) (h : Hub W) where
  unfoldable pub cluster_supports_scaling : String → Run W Bool
  cluster_supports_scaling cluster w =
      let (r, w1) = h.get cluster_deployment cluster cluster w in
      (
        elim r [
          | ok _ ↦ ok true
          | err e ↦
              if is_not_found e
              then ok false
              else err (wrapped (concat ("checking ClusterDeployment for " ∷ cluster ∷ [])) e)
        ],
        w1,
      )

  -- `GetCurrentWorkerInfo`, which never returns an error.
  unfoldable pub get_current_worker_info : String → W → (ℕ × String) × W
  get_current_worker_info cluster w =
      let (r, w1) = h.get managed_cluster_info cluster cluster w in
      (
        elim r [
          | err _ ↦ (0, default_worker_type)
          | ok info ↦
              let nodes = found_or no_items (o.nested_slice info ("status" ∷ "nodeList" ∷ [])) in
              let (count, type) = count_workers o (maps_of nodes) 0 "" in
              (count, if type == "" then default_worker_type else type)
        ],
        w1,
      )

  unfoldable pub no_machine_pool_err : String → W → NoMachinePool × W
  no_machine_pool_err cluster w =
      let (supported, w1) = cluster_supports_scaling cluster w in
      elim supported [
        | ok true ↦
            let ((count, type), w2) = get_current_worker_info cluster w1 in
            (
              record {
                cluster_name = cluster;
                is_hive = true;
                vendor_type = "";
                worker_count = count;
                worker_type = type;
              },
              w2,
            )
        | _ ↦
            let ((vendor, _), w2) = get_cluster_type o h cluster w1 in
            (
              record {
                cluster_name = cluster;
                is_hive = false;
                vendor_type = vendor;
                worker_count = 0;
                worker_type = "";
              },
              w2,
            )
      ]

  unfoldable pub get_machine_pool : String → Scaling W MachinePoolInfo
  get_machine_pool cluster =
      and_then
        (call (
          context (concat ("listing MachinePools in namespace " ∷ cluster ∷ []))
            (h.list machine_pool cluster "")))
        (λ items w. elim items [
          | [] ↦ let (e, w1) = no_machine_pool_err cluster w in (no_pool e, w1)
          | mp ∷ _ ↦ (done (machine_pool_info o mp), w)
        ])

  -- The merge patch that three operations send to the first pool; `what` ends the error's prefix.
  abbrev patch_pool : String → Fields → MachinePoolInfo → Scaling W (Unit {0})
  patch_pool what data' mp = call (
      context (concat ("patching MachinePool " ∷ mp.namespace ∷ "/" ∷ mp.name ∷ " " ∷ what ∷ []))
        (h.patch machine_pool mp.namespace mp.name data')
      >>= λ _. pure tt)

  unfoldable pub set_replicas : String → ℤ → Scaling W (Unit {0})
  set_replicas cluster replicas = and_then (get_machine_pool cluster) (
      patch_pool "replicas" (
        fields_of (("spec", map_of (("replicas", int replicas) ∷ ("autoscaling", nil) ∷ [])) ∷ [])))

  unfoldable pub enable_autoscaling : String → ℤ → ℤ → Scaling W (Unit {0})
  enable_autoscaling cluster min max = and_then (get_machine_pool cluster) (
      patch_pool "autoscaling" (
        fields_of (
          (
            "spec",
            map_of (
                ("replicas", nil)
                ∷ (
                  "autoscaling",
                  map_of (
                      ("minReplicas", int (to_int32 min))
                      ∷ ("maxReplicas", int (to_int32 max))
                      ∷ []),
                )
                ∷ []),
          )
          ∷ [])))

  unfoldable pub disable_autoscaling : String → ℤ → Scaling W (Unit {0})
  disable_autoscaling cluster replicas = set_replicas cluster replicas

  abbrev no_platform : String → Error
  no_platform cluster = text (
      concat (
        "cannot detect platform from ClusterDeployment " ∷ cluster ∷ " — spec.platform is empty"
        ∷ []))

  unfoldable pub set_flavor : String → String → Scaling W (Unit {0})
  set_flavor cluster worker_type = and_then (get_machine_pool cluster) λ mp.
      and_then
        (call (
          context (concat ("getting ClusterDeployment for " ∷ cluster ∷ []))
            (h.get cluster_deployment cluster cluster)))
        λ cd.
          let platform = detect_platform o cd in
          if platform == ""
          then (λ w. (failed (no_platform cluster), w))
          else patch_pool "flavor"
              (fields_of (
                (
                  "spec",
                  map_of (
                      (
                        "platform",
                        map_of ((platform, map_of (("type", str worker_type) ∷ [])) ∷ []),
                      )
                      ∷ []),
                )
                ∷ []))
              mp

  abbrev machine_pool_object : String → String → String → ℤ → Fields
  machine_pool_object cluster platform worker_type replicas = fields_of (
      ("apiVersion", str "hive.openshift.io/v1")
      ∷ ("kind", str "MachinePool")
      ∷ (
        "metadata",
        map_of
            (("name", str (concat (cluster ∷ "-worker" ∷ []))) ∷ ("namespace", str cluster) ∷ []),
      )
      ∷ (
        "spec",
        map_of (
            ("clusterDeploymentRef", map_of (("name", str cluster) ∷ []))
            ∷ ("name", str "worker")
            ∷ ("replicas", int replicas)
            ∷ ("platform", map_of ((platform, map_of (("type", str worker_type) ∷ [])) ∷ []))
            ∷ []),
      )
      ∷ [])

  unfoldable pub init_machine_pool : String → String → ℤ → Scaling W MachinePoolInfo
  init_machine_pool cluster worker_type replicas w =
      let (r, w1) = h.get cluster_deployment cluster cluster w in
      elim r [
        | err _ ↦ (
          no_pool (record {
            cluster_name = cluster;
            is_hive = false;
            vendor_type = "";
            worker_count = 0;
            worker_type = "";
          }),
          w1,
        )
        | ok cd ↦
            let platform = detect_platform o cd in
            if platform == ""
            then (failed (no_platform cluster), w1)
            else and_then
                (call (
                  context (concat ("creating MachinePool for " ∷ cluster ∷ [])) (
                    h.create machine_pool cluster
                      (machine_pool_object cluster platform worker_type replicas))))
                (λ _. get_machine_pool cluster) w1
      ]

  unfoldable pub list_machine_pools : Run W (List MachinePoolInfo)
  list_machine_pools w =
      let (r, w1) = h.list machine_pool "" "" w in
      (
        elim r [
          | err e ↦ if is_not_found e then ok [] else err (wrapped "listing MachinePools" e)
          | ok items ↦ ok (map (machine_pool_info o) items)
        ],
        w1,
      )
