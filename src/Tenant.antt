-- ===== src/Tenant.antt =====
-- internal/tenant/tenant.go and internal/tenant/builder.go: tenants of a cluster, each a
-- ManifestWork with a namespace, rights, a network policy and a quota.
use acm_caas_poc.Prelude.{
  zero, String, Bool, true, false, List, [], ◌∷◌, map, if◌then◌else◌, concat, or_else,
}
use acm_caas_poc.Prelude.Int.{ℤ, pos}
use acm_caas_poc.Prelude.Decimal.{format_int}
use acm_caas_poc.Kube.Errors.{is_not_found, ok, err}
use acm_caas_poc.Kube.Values.{
  Value, str, object, Fields, end, index, map_or_nil, items_or_nil, maps_of, fields_of, map_of,
  list_of, str_at_key, is_text, any_condition,
}
use acm_caas_poc.Kube.Objects.{Accessors}
use acm_caas_poc.Kube.Hub.{Run, Hub, pure, raise, attempt, context, ◌>>=◌}
use acm_caas_poc.Client.{create_if_not_exists, delete_if_exists}
use acm_caas_poc.Client.Resources.{manifest_work}

pub record TenantOpts : Type 0 where
  pub name : String
  pub cluster : String
  pub team : String
  pub cpu_limit : String
  pub memory_limit : String
  pub pod_limit : ℤ

pub record TenantInfo : Type 0 where
  pub name : String
  pub cluster : String
  pub status : String

pub record ResourceStatus : Type 0 where
  pub kind : String
  pub name : String
  pub namespace : String
  pub status : String

pub record ManifestStatus : Type 0 where
  pub name : String
  pub cluster : String
  pub applied : Bool
  pub conditions : List String
  pub resources : List ResourceStatus

unfoldable pub namespace_manifest : String → Value
namespace_manifest name = map_of (
    ("apiVersion", str "v1")
    ∷ ("kind", str "Namespace")
    ∷ (
      "metadata",
      map_of (
          ("name", str name)
          ∷ ("labels", map_of (("acmlab.redhat.com/tenant", str name) ∷ []))
          ∷ []),
    )
    ∷ [])

abbrev in_namespace : String → String → String × Value
in_namespace name ns = ("metadata", map_of (("name", str name) ∷ ("namespace", str ns) ∷ []))

unfoldable pub role_binding_manifest : String → String → Value
role_binding_manifest tenant team = map_of (
    ("apiVersion", str "rbac.authorization.k8s.io/v1")
    ∷ ("kind", str "RoleBinding")
    ∷ in_namespace (concat (tenant ∷ "-admin" ∷ [])) tenant
    ∷ (
      "roleRef",
      map_of (
          ("apiGroup", str "rbac.authorization.k8s.io")
          ∷ ("kind", str "ClusterRole")
          ∷ ("name", str "edit")
          ∷ []),
    )
    ∷ (
      "subjects",
      list_of (
          map_of (
            ("apiGroup", str "rbac.authorization.k8s.io")
            ∷ ("kind", str "Group")
            ∷ ("name", str team)
            ∷ [])
          ∷ []),
    )
    ∷ [])

unfoldable pub network_policy_manifest : String → Value
network_policy_manifest tenant = map_of (
    ("apiVersion", str "networking.k8s.io/v1")
    ∷ ("kind", str "NetworkPolicy")
    ∷ in_namespace "deny-cross-namespace" tenant
    ∷ (
      "spec",
      map_of (
          ("podSelector", object end)
          ∷ (
            "ingress",
            list_of (
                map_of (("from", list_of (map_of (("podSelector", object end) ∷ []) ∷ [])) ∷ [])
                ∷ []),
          )
          ∷ ("policyTypes", list_of (str "Ingress" ∷ []))
          ∷ []),
    )
    ∷ [])

unfoldable pub resource_quota_manifest : String → String → String → ℤ → Value
resource_quota_manifest tenant cpu_limit memory_limit pod_limit = map_of (
    ("apiVersion", str "v1")
    ∷ ("kind", str "ResourceQuota")
    ∷ in_namespace (concat (tenant ∷ "-quota" ∷ [])) tenant
    ∷ (
      "spec",
      map_of (
          (
            "hard",
            map_of (
                ("requests.cpu", str cpu_limit)
                ∷ ("requests.memory", str memory_limit)
                ∷ ("pods", str (format_int pod_limit))
                ∷ []),
          )
          ∷ []),
    )
    ∷ [])

-- `if podLimit == 0 { podLimit = 20 }`
abbrev pods_or_default : ℤ → ℤ
pods_or_default (pos zero) = pos 20
pods_or_default n = n

unfoldable pub build_tenant_manifests : TenantOpts → List Value
build_tenant_manifests opts =
    namespace_manifest opts.name
    ∷ role_binding_manifest opts.name (or_else opts.team opts.name)
    ∷ network_policy_manifest opts.name
    ∷ resource_quota_manifest opts.name (or_else opts.cpu_limit "4")
        (or_else opts.memory_limit "8Gi") (pods_or_default opts.pod_limit)
    ∷ []

unfoldable pub manifest_work_name : String → String
manifest_work_name tenant = concat ("tenant-" ∷ tenant ∷ [])

-- The object that `Deploy` creates.
unfoldable pub tenant_work : TenantOpts → Fields
tenant_work opts = fields_of (
    ("apiVersion", str "work.open-cluster-management.io/v1")
    ∷ ("kind", str "ManifestWork")
    ∷ (
      "metadata",
      map_of (
          ("name", str (manifest_work_name opts.name))
          ∷ ("namespace", str opts.cluster)
          ∷ ("labels", map_of (("acmlab.redhat.com/tenant", str opts.name) ∷ []))
          ∷ []),
    )
    ∷ (
      "spec",
      map_of
          (("workload", map_of (("manifests", list_of (build_tenant_manifests opts)) ∷ [])) ∷ []),
    )
    ∷ [])

unfoldable pub parse_tenant_info : Fields → TenantInfo
parse_tenant_info obj =
    let meta = map_or_nil (index obj "metadata") in
    let status = map_or_nil (index obj "status") in
    record {
      name = str_at_key (map_or_nil (index meta "labels")) "acmlab.redhat.com/tenant";
      cluster = str_at_key meta "namespace";
      status =
          if any_condition "Applied" (maps_of (items_or_nil (index status "conditions")))
          then "Applied"
          else "Pending";
    }

-- The loop over the conditions of one manifest.
unfoldable pub applied_text : List Fields → String → String
applied_text [] s = s
applied_text (cond ∷ rest) s =
    applied_text rest
      (if is_text (index cond "type") "Applied" then str_at_key cond "status" else s)

unfoldable pub resource_status : Fields → ResourceStatus
resource_status m =
    let ref = map_or_nil (index m "resourceMeta") in
    record {
      kind = str_at_key ref "kind";
      name = str_at_key ref "name";
      namespace = str_at_key ref "namespace";
      status = applied_text (maps_of (items_or_nil (index m "conditions"))) "";
    }

unfoldable pub condition_text : Fields → String
condition_text cond = concat (str_at_key cond "type" ∷ "=" ∷ str_at_key cond "status" ∷ [])

unfoldable pub parse_manifest_status : Fields → ManifestStatus
parse_manifest_status obj =
    let meta = map_or_nil (index obj "metadata") in
    let status = map_or_nil (index obj "status") in
    let conditions = maps_of (items_or_nil (index status "conditions")) in
    let resource_part = map_or_nil (index status "resourceStatus") in
    record {
      name = str_at_key meta "name";
      cluster = str_at_key meta "namespace";
      applied = any_condition "Applied" conditions;
      conditions = map condition_text conditions;
      resources = map resource_status (maps_of (items_or_nil (index resource_part "manifests")));
    }

-- `GetDeletionTimestamp` of the `unstructured` package, as a test that it is not nil, is an argument.
module _ {W : Type 0} (o : Accessors) (is_deleting : Fields → Bool) (h : Hub W) where
  unfoldable pub deploy : TenantOpts → Run W (Unit {0})
  deploy opts = create_if_not_exists o h manifest_work opts.cluster (tenant_work opts)

  unfoldable pub remove_tenant : String → String → Run W Bool
  remove_tenant tenant cluster = do
    r ← attempt (h.get manifest_work cluster (manifest_work_name tenant))
    elim r [
      | err e ↦ if is_not_found e then pure false else raise e
      | ok obj ↦
          if is_deleting obj
          then pure false
          else delete_if_exists h manifest_work cluster (manifest_work_name tenant) >>= λ _.
              pure true
    ]

  unfoldable pub list_tenants : String → Run W (List TenantInfo)
  list_tenants cluster = do
    items ←
        context "listing tenant manifestworks"
          (h.list manifest_work cluster "acmlab.redhat.com/tenant")
    pure (map parse_tenant_info items)

  unfoldable pub tenant_status : String → String → Run W ManifestStatus
  tenant_status tenant cluster = do
    obj ←
        context (concat ("getting tenant manifestwork " ∷ manifest_work_name tenant ∷ []))
          (h.get manifest_work cluster (manifest_work_name tenant))
    pure (parse_manifest_status obj)
