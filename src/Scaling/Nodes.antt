-- ===== src/Scaling/Nodes.antt =====
-- internal/scaling/scaling.go: node pools and MachineDeployments, and the choice between the kinds.
use acm_caas_poc.Prelude.{
  String, Bool, ◌||◌, Option, none, some, List, [], ◌∷◌, ◌==◌, if◌then◌else◌, concat,
}
use acm_caas_poc.Prelude.Int.{ℤ}
use acm_caas_poc.Kube.Errors.{text, ok, err}
use acm_caas_poc.Kube.Values.{int, Fields, fields_of, map_of}
use acm_caas_poc.Kube.Objects.{found_or, Accessors}
use acm_caas_poc.Kube.Hub.{Gvr, Run, Hub, pure, context, ◌>>=◌, ◌>>◌}
use acm_caas_poc.Client.Resources.{node_pool, capi_machine_deployment}
use acm_caas_poc.Scaling.{Outcome, done, no_pool, failed, Scaling, found_option}
use acm_caas_poc.Scaling.Pools.{set_replicas}

pub record NodePoolInfo : Type 0 where
  pub name : String
  pub namespace : String
  pub replicas : Option ℤ
  pub platform : String

pub record MachineDeploymentInfo : Type 0 where
  pub name : String
  pub namespace : String
  pub replicas : Option ℤ

module _ (o : Accessors) where
  unfoldable pub node_pool_info : Fields → NodePoolInfo
  node_pool_info np = record {
    name = o.get_name np;
    namespace = o.get_namespace np;
    replicas = found_option (o.nested_int64 np ("spec" ∷ "replicas" ∷ []));
    platform = found_or "" (o.nested_string np ("spec" ∷ "platform" ∷ "type" ∷ []));
  }

  unfoldable pub machine_deployment_info : Fields → MachineDeploymentInfo
  machine_deployment_info md = record {
    name = o.get_name md;
    namespace = o.get_namespace md;
    replicas = found_option (o.nested_int64 md ("spec" ∷ "replicas" ∷ []));
  }

  -- Whether a pool belongs to a cluster, by the text at a path or by its namespace.
  unfoldable pub belongs : List String → String → Fields → Bool
  belongs path cluster obj =
      found_or "" (o.nested_string obj path) == cluster || o.get_namespace obj == cluster

unfoldable pub first_match : (Fields → Bool) → List Fields → Option Fields
first_match p [] = none
first_match p (x ∷ xs) = let later = first_match p xs in if p x then some x else later

module _ {W : Type 0} (o : Accessors) (h : Hub W) where
  -- The loop over the namespaces of `GetNodePool` and `GetMachineDeployment`: a namespace that
  -- cannot be listed is passed over.
  unfoldable pub find_in : Gvr → (Fields → Bool) → List String → W → Option Fields × W
  find_in gvr p [] w = (none, w)
  find_in gvr p (ns ∷ rest) w =
      let (r, w1) = h.list gvr ns "" w in
      elim r [
        | err _ ↦ find_in gvr p rest w1
        | ok items ↦ elim (first_match p items) [
          | some obj ↦ (some obj, w1)
          | none ↦ find_in gvr p rest w1
        ]
      ]

  unfoldable pub get_node_pool : String → Run W NodePoolInfo
  get_node_pool cluster w =
      let (r, w1) =
        find_in node_pool (belongs o ("spec" ∷ "clusterName" ∷ []) cluster)
          ("clusters" ∷ cluster ∷ []) w in
      (
        elim r [
          | some np ↦ ok (node_pool_info o np)
          | none ↦ err (text (concat ("no NodePool found for cluster " ∷ cluster ∷ [])))
        ],
        w1,
      )

  unfoldable pub get_machine_deployment : String → Run W MachineDeploymentInfo
  get_machine_deployment cluster w =
      let (r, w1) =
        find_in capi_machine_deployment
          (belongs o ("metadata" ∷ "labels" ∷ "cluster.x-k8s.io/cluster-name" ∷ []) cluster)
          (cluster ∷ "default" ∷ []) w in
      (
        elim r [
          | some md ↦ ok (machine_deployment_info o md)
          | none ↦
              err (text (concat ("no CAPI MachineDeployment found for cluster " ∷ cluster ∷ [])))
        ],
        w1,
      )

  abbrev replicas_patch : ℤ → Fields
  replicas_patch replicas = fields_of (("spec", map_of (("replicas", int replicas) ∷ [])) ∷ [])

  unfoldable pub set_node_pool_replicas : String → ℤ → Run W (Unit {0})
  set_node_pool_replicas cluster replicas = do
    np ← get_node_pool cluster
    context (concat ("patching NodePool " ∷ np.namespace ∷ "/" ∷ np.name ∷ " replicas" ∷ []))
        (h.patch node_pool np.namespace np.name (replicas_patch replicas))
    pure tt

  unfoldable pub set_machine_deployment_replicas : String → ℤ → Run W (Unit {0})
  set_machine_deployment_replicas cluster replicas = do
    md ← get_machine_deployment cluster
    context
        (concat ("patching MachineDeployment " ∷ md.namespace ∷ "/" ∷ md.name ∷ " replicas" ∷ []))
        (h.patch capi_machine_deployment md.namespace md.name (replicas_patch replicas))
    pure tt

  -- What `SetReplicasAuto` does after its attempt on the machine pool.
  unfoldable pub or_other_pools : String → ℤ → Outcome (Unit {0}) × W → Outcome (Unit {0}) × W
  or_other_pools cluster replicas (done _, w1) = (done tt, w1)
  or_other_pools cluster replicas (failed e, w1) = (failed e, w1)
  or_other_pools cluster replicas (no_pool e, w1) =
      let (by_node_pool, w2) = set_node_pool_replicas cluster replicas w1 in
      elim by_node_pool [
        | ok _ ↦ (done tt, w2)
        | err _ ↦
            let (by_deployment, w3) = set_machine_deployment_replicas cluster replicas w2 in
            (elim by_deployment [ ok _ ↦ done tt | err _ ↦ no_pool e ], w3)
      ]

  unfoldable pub set_replicas_auto : String → ℤ → Scaling W (Unit {0})
  set_replicas_auto cluster replicas w =
      or_other_pools cluster replicas (set_replicas o h cluster replicas w)
