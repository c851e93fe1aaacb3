-- ===== src/ClusterSets.antt =====
-- internal/clusterset/clusterset.go and internal/clusterset/global.go: sets of clusters, their
-- members, and the set of all clusters.
use acm_caas_poc.Prelude.{
  ℕ, String, Bool, true, false, none, some, List, [], ◌∷◌, map, ◌==◌, if◌then◌else◌, length, concat,
  lookup,
}
use acm_caas_poc.Kube.Errors.{text, wrapped, is_not_found, ok, err}
use acm_caas_poc.Kube.Values.{Value, str, object, Fields, end, fields_of, map_of}
use acm_caas_poc.Kube.Objects.{Accessors}
use acm_caas_poc.Kube.Hub.{Run, Hub, pure, raise, attempt, context, ◌>>=◌, ◌>>◌}
use acm_caas_poc.Client.{create_if_not_exists, delete_if_exists}
use acm_caas_poc.Client.Resources.{
  managed_cluster, managed_cluster_set, managed_cluster_set_binding,
}

abbrev pub cluster_set_label : String
cluster_set_label = "cluster.open-cluster-management.io/clusterset"

abbrev global_set_name : String
global_set_name = "global"

pub record ClusterSetInfo : Type 0 where
  pub name : String
  pub members : List String
  pub count : ℕ

-- The namespaces of the bindings.
pub record GlobalStatus : Type 0 where
  pub enabled : Bool
  pub bindings : List String

-- A ManagedClusterSet and a ManagedClusterSetBinding, by their metadata.
abbrev set_object : List (String × Value) → List (String × Value) → Fields
set_object meta selector = fields_of (
    ("apiVersion", str "cluster.open-cluster-management.io/v1beta2")
    ∷ ("kind", str "ManagedClusterSet")
    ∷ ("metadata", map_of meta)
    ∷ ("spec", map_of (("clusterSelector", map_of selector) ∷ []))
    ∷ [])

abbrev binding_object : String → List (String × Value) → Fields
binding_object set meta = fields_of (
    ("apiVersion", str "cluster.open-cluster-management.io/v1beta2")
    ∷ ("kind", str "ManagedClusterSetBinding")
    ∷ ("metadata", map_of meta)
    ∷ ("spec", map_of (("clusterSet", str set) ∷ []))
    ∷ [])

abbrev global_labels : String × Value
global_labels = ("labels", map_of (("acmlab.redhat.com/global", str "true") ∷ []))

module _ (o : Accessors) where
  -- `membership[set]` after the loop over the clusters.
  unfoldable pub members_of : List Fields → String → List String
  members_of [] set = []
  members_of (mc ∷ rest) set =
      let later = members_of rest set in
      elim (lookup cluster_set_label (o.get_labels mc)) [
        | some s ↦ if s == set then o.get_name mc ∷ later else later
        | none ↦ later
      ]

  unfoldable pub set_info : List Fields → Fields → ClusterSetInfo
  set_info clusters set =
      let members = members_of clusters (o.get_name set) in
      record { name = o.get_name set; members = members; count = length members }

module _ {W : Type 0} (o : Accessors) (h : Hub W) where
  unfoldable pub create_set : String → String → Run W (Unit {0})
  create_set name ns = do
    context (concat ("creating ManagedClusterSet " ∷ name ∷ [])) (
        create_if_not_exists o h managed_cluster_set "" (
          set_object (("name", str name) ∷ [])
            (("selectorType", str "ExclusiveClusterSetLabel") ∷ [])))
    context (concat ("creating ManagedClusterSetBinding " ∷ name ∷ " in " ∷ ns ∷ [])) (
        create_if_not_exists o h managed_cluster_set_binding ns
          (binding_object name (("name", str name) ∷ ("namespace", str ns) ∷ [])))

  unfoldable pub remove_set : String → String → Run W (Unit {0})
  remove_set name ns = do
    r ← attempt (h.get managed_cluster_set "" name)
    elim r [
      | err e ↦ raise (
          if is_not_found e
          then text (concat ("ManagedClusterSet " ∷ name ∷ " not found" ∷ []))
          else wrapped (concat ("checking ManagedClusterSet " ∷ name ∷ [])) e)
      | ok _ ↦
          context (concat ("deleting ManagedClusterSetBinding " ∷ name ∷ []))
            (delete_if_exists h managed_cluster_set_binding ns name)
          >> context (concat ("deleting ManagedClusterSet " ∷ name ∷ []))
              (delete_if_exists h managed_cluster_set "" name)
    ]

  unfoldable pub list_sets : Run W (List ClusterSetInfo)
  list_sets = do
    sets ← context "listing ManagedClusterSets" (h.list managed_cluster_set "" "")
    clusters ← context "listing ManagedClusters" (h.list managed_cluster "" "")
    pure (map (set_info o clusters) sets)

  unfoldable pub assign_to_set : String → String → Run W (Unit {0})
  assign_to_set cluster set =
      context (concat ("assigning cluster " ∷ cluster ∷ " to set " ∷ set ∷ [])) (
        h.patch managed_cluster "" cluster (
          fields_of (
            ("metadata", map_of (("labels", map_of ((cluster_set_label, str set) ∷ [])) ∷ []))
            ∷ [])))
      >>= λ _. pure tt

  unfoldable pub enable_global : Run W (Unit {0})
  enable_global = context "creating global ManagedClusterSet" (
      create_if_not_exists o h managed_cluster_set "" (
        set_object (("name", str global_set_name) ∷ global_labels ∷ []) (
          ("selectorType", str "LabelSelector")
          ∷ ("labelSelector", map_of (("matchLabels", object end) ∷ []))
          ∷ [])))

  unfoldable pub bind_global : String → Run W (Unit {0})
  bind_global ns = do
    r ← attempt (h.get managed_cluster_set "" global_set_name)
    elim r [
      | err e ↦ raise (
          if is_not_found e
          then text "global ManagedClusterSet not found - run enable-global first"
          else wrapped "checking global set" e)
      | ok _ ↦ context (concat ("creating global binding in " ∷ ns ∷ [])) (
          create_if_not_exists o h managed_cluster_set_binding ns (
            binding_object global_set_name
              (("name", str global_set_name) ∷ ("namespace", str ns) ∷ global_labels ∷ [])))
    ]

  unfoldable pub unbind_global : String → Run W (Unit {0})
  unbind_global ns =
      context (concat ("removing global binding from " ∷ ns ∷ []))
        (delete_if_exists h managed_cluster_set_binding ns global_set_name)

  unfoldable pub global_status : Run W GlobalStatus
  global_status = do
    r ← attempt (h.get managed_cluster_set "" global_set_name)
    elim r [
      | err e ↦
          if is_not_found e
          then pure (record { enabled = false; bindings = [] })
          else raise (wrapped "checking global set" e)
      | ok _ ↦
          context "listing global bindings"
            (h.list managed_cluster_set_binding "" "acmlab.redhat.com/global=true")
          >>= λ items. pure (record { enabled = true; bindings = map o.get_namespace items })
    ]
