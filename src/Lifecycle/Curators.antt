-- ===== src/Lifecycle/Curators.antt =====
-- internal/lifecycle/curator.go and internal/lifecycle/curator_builder.go: ClusterCurators with hooks.
pub mod RoundTrip
use acm_caas_poc.Prelude.{
  String, Bool, true, false, not, Option, none, some, List, [], ◌∷◌, map, ◌==◌, if◌then◌else◌,
  is_empty, concat, or_else, Map,
}
use acm_caas_poc.Prelude.Int.{ℤ, is_nonpositive}
use acm_caas_poc.Kube.Errors.{status, wrapped, is_not_found, ok, err}
use acm_caas_poc.Kube.Values.{
  Value, int, str, object, slice, Fields, end, field, item, index, map_or_nil, items_or_nil, texts,
  maps_of, fields_of, map_of, list_of, map_at_key, str_at_key,
}
use acm_caas_poc.Kube.Objects.{Accessors}
use acm_caas_poc.Kube.Hub.{Run, Hub, pure, raise, attempt, context, ◌>>=◌, ◌>>◌}
use acm_caas_poc.Client.{create_if_not_exists, delete_if_exists}
use acm_caas_poc.Client.Resources.{namespace, cluster_curator}

pub record CuratorHook : Type 0 where
  pub name : String
  pub type : String
  pub image : String
  pub commands : List String
  pub job_ttl : ℤ
  pub extra_vars : Map String

-- A pointer to a hook is none where it is nil.
pub record CuratorOpts : Type 0 where
  pub cluster : String
  pub namespace : String
  pub operation : String
  pub pre_hook : Option CuratorHook
  pub post_hook : Option CuratorHook

pub record HookInfo : Type 0 where
  pub name : String
  pub type : String
  pub status : String

pub record CuratorInfo : Type 0 where
  pub name : String
  pub namespace : String
  pub pre_hook : Option HookInfo
  pub post_hook : Option HookInfo
  pub status : String

-- A key that is set on a condition.
abbrev pub key_if : Bool → String → Value → Fields → Fields
key_if b k v m = if b then field k v m else m

unfoldable pub build_hook_spec : CuratorHook → Fields
build_hook_spec hook = field "name" (str hook.name) (
    key_if (not (hook.type == "")) "type" (str hook.type) (
      key_if (not (hook.image == "")) "extra_vars" (object (texts hook.extra_vars)) (
        key_if (not (is_empty hook.commands)) "commands" (list_of (map str hook.commands))
          (key_if (not (is_nonpositive hook.job_ttl)) "job_ttl" (int hook.job_ttl) end))))

-- The hooks under a key of the spec of an operation.
unfoldable pub put_hook : String → Option CuratorHook → Fields → Fields
put_hook k none m = m
put_hook k (some hook) m = field k (list_of (object (build_hook_spec hook) ∷ [])) m

unfoldable pub build_cluster_curator : CuratorOpts → Fields
build_cluster_curator opts =
    let operation = or_else opts.operation "install" in
    fields_of (
      ("apiVersion", str "cluster.open-cluster-management.io/v1beta1")
      ∷ ("kind", str "ClusterCurator")
      ∷ (
        "metadata",
        map_of (
            ("name", str opts.cluster)
            ∷ ("namespace", str (or_else opts.namespace opts.cluster))
            ∷ ("labels", map_of (("acmlab.redhat.com/curator", str "true") ∷ []))
            ∷ []),
      )
      ∷ (
        "spec",
        map_of (
            (
              operation,
              object (put_hook "prehook" opts.pre_hook (put_hook "posthook" opts.post_hook end)),
            )
            ∷ ("desiredCuration", str operation)
            ∷ []),
      )
      ∷ [])

unfoldable pub parse_hook_info : Fields → HookInfo
parse_hook_info obj = record {
  name = str_at_key obj "name";
  type = str_at_key obj "type";
  status = "";
}

-- `pre, ok := hookSource[key].([]interface{}); ok && len(pre) > 0` and its first element.
unfoldable pub first_hook : Value → Option HookInfo
first_hook (slice (item (object hook) rest)) = some (parse_hook_info hook)
first_hook _ = none

-- Where the hooks stand: under the operation, or else in the spec itself.
unfoldable pub hook_source : Fields → Fields
hook_source spec =
    let curation = str_at_key spec "desiredCuration" in
    if curation == ""
    then spec
    else elim (map_at_key spec curation) [ some op_spec ↦ op_spec | none ↦ spec ]

-- The loop over the conditions.
unfoldable pub job_status : List Fields → String → String
job_status [] s = s
job_status (cond ∷ rest) s = job_status rest (
    if str_at_key cond "type" == "clustercurator-job"
    then (if str_at_key cond "status" == "True" then "Complete" else "InProgress")
    else s)

unfoldable pub parse_curator_info : Fields → CuratorInfo
parse_curator_info obj =
    let meta = map_or_nil (index obj "metadata") in
    let source = hook_source (map_or_nil (index obj "spec")) in
    let status = map_or_nil (index obj "status") in
    record {
      name = str_at_key meta "name";
      namespace = str_at_key meta "namespace";
      pre_hook = first_hook (index source "prehook");
      post_hook = first_hook (index source "posthook");
      status =
          or_else (job_status (maps_of (items_or_nil (index status "conditions"))) "") "Pending";
    }

module _ {W : Type 0} (o : Accessors) (h : Hub W) where
  unfoldable pub apply_curator : CuratorOpts → Run W (Unit {0})
  apply_curator opts = context "creating ClusterCurator" (
      create_if_not_exists o h cluster_curator (or_else opts.namespace opts.cluster)
        (build_cluster_curator opts))

  unfoldable pub get_curator : String → String → Run W CuratorInfo
  get_curator cluster ns = do
    obj ←
        context (concat ("getting ClusterCurator " ∷ cluster ∷ []))
          (h.get cluster_curator (or_else ns cluster) cluster)
    pure (parse_curator_info obj)

  unfoldable pub remove_curator : String → String → Run W Bool
  remove_curator cluster ns = do
    r ← attempt (h.get cluster_curator (or_else ns cluster) cluster)
    elim r [
      | err e ↦ if is_not_found e then pure false else raise (wrapped "checking ClusterCurator" e)
      | ok _ ↦
          context "removing ClusterCurator"
            (delete_if_exists h cluster_curator (or_else ns cluster) cluster)
          >>= λ _. pure true
    ]

  unfoldable pub list_curators : String → Run W (List CuratorInfo)
  list_curators ns = do
    items ← context "listing ClusterCurators" (h.list cluster_curator ns "")
    pure (map parse_curator_info items)
