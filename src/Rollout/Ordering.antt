-- ===== src/Rollout/Ordering.antt =====
-- internal/rollout/ordering.go and internal/rollout/ordering_builder.go: ManifestWorks whose
-- manifests are in the order of their ordinals.
use Prim.Native.Char.{code}
use acm_caas_poc.Prelude.{
  ℕ, String, ◌&&◌, not, Option, none, some, List, [], ◌∷◌, map, ◌==◌, eqb, if◌then◌else◌, concat,
  Map,
}
use acm_caas_poc.Prelude.Int.{ℤ}
use acm_caas_poc.Kube.Errors.{text, wrapped, is_not_found, ok, err}
use acm_caas_poc.Kube.Values.{
  Value, str, object, Fields, index, map_or_nil, items_or_nil, maps_of, fields_of, map_of, list_of,
  str_at_key, len_items,
}
use acm_caas_poc.Kube.Objects.{Accessors, text_or_empty, label}
use acm_caas_poc.Kube.Hub.{Run, Hub, context}
use acm_caas_poc.Client.{create_if_not_exists, delete_if_exists}
use acm_caas_poc.Client.Resources.{manifest_work}

pub record OrderedManifest : Type 0 where
  pub ordinal : ℤ
  pub object_of : Fields

pub record OrderedWorkInfo : Type 0 where
  pub name : String
  pub cluster : String
  pub manifests : ℕ
  pub status : String

pub record GvkInfo : Type 0 where
  pub group : String
  pub resource : String
  pub name : String
  pub namespace : String

-- The text before the last slash of a text, where it has one.
unfoldable pub before_last_slash : String → Option String
before_last_slash String.[] = none
before_last_slash (String.◌∷◌ c s) =
    let rest = before_last_slash s in
    elim rest [
      | some t ↦ some (String.◌∷◌ c t)
      | none ↦ if eqb (code c) b'/' then some "" else none
    ]

-- `splitAPIVersion`
unfoldable pub split_api_version : String → String
split_api_version api_version = text_or_empty (before_last_slash api_version)

abbrev resource_map : Map String
resource_map =
    ("Namespace", "namespaces")
    ∷ ("ConfigMap", "configmaps")
    ∷ ("Secret", "secrets")
    ∷ ("Deployment", "deployments")
    ∷ ("Service", "services")
    ∷ ("ServiceAccount", "serviceaccounts")
    ∷ []

unfoldable pub extract_gvk : Fields → GvkInfo
extract_gvk obj =
    let meta = map_or_nil (index obj "metadata") in
    let kind = str_at_key obj "kind" in
    let known = label resource_map kind in
    let api_version = str_at_key obj "apiVersion" in
    record {
      group =
          if not (api_version == "") && not (api_version == "v1")
          then split_api_version api_version
          else "";
      resource = if known == "" then kind else known;
      name = str_at_key meta "name";
      namespace = str_at_key meta "namespace";
    }

unfoldable pub manifest_config : OrderedManifest → Value
manifest_config m =
    let gvk = extract_gvk m.object_of in
    map_of (
      (
        "resourceIdentifier",
        map_of (
            ("group", str gvk.group)
            ∷ ("resource", str gvk.resource)
            ∷ ("name", str gvk.name)
            ∷ ("namespace", str gvk.namespace)
            ∷ []),
      )
      ∷ ("updateStrategy", map_of (("type", str "ServerSideApply") ∷ []))
      ∷ [])

unfoldable pub build_ordered_manifest_work : String → String → List OrderedManifest → Fields
build_ordered_manifest_work cluster name manifests = fields_of (
    ("apiVersion", str "work.open-cluster-management.io/v1")
    ∷ ("kind", str "ManifestWork")
    ∷ (
      "metadata",
      map_of (
          ("name", str name)
          ∷ ("namespace", str cluster)
          ∷ (
            "labels",
            map_of (
                ("acmlab.redhat.com/managed", str "true")
                ∷ ("acmlab.redhat.com/ordered-work", str "true")
                ∷ []),
          )
          ∷ []),
    )
    ∷ (
      "spec",
      map_of (
          (
            "workload",
            map_of (("manifests", list_of (map (λ m. object m.object_of) manifests)) ∷ []),
          )
          ∷ ("manifestConfigs", list_of (map manifest_config manifests))
          ∷ []),
    )
    ∷ [])

-- The nested type assertions of `GetOrderedWork` and `ListOrderedWork`.
unfoldable pub manifest_count : Fields → ℕ
manifest_count obj =
    let spec = map_or_nil (index obj "spec") in
    let workload = map_or_nil (index spec "workload") in
    len_items (items_or_nil (index workload "manifests"))

-- The loop over the conditions; a condition that is no map is passed over.
unfoldable pub applied_status : List Fields → String → String
applied_status [] s = s
applied_status (cond ∷ rest) s = applied_status rest (
    if str_at_key cond "type" == "Applied"
    then (if str_at_key cond "status" == "True" then "Applied" else "Pending")
    else s)

-- `sort.Slice` by ascending ordinals is an argument.
module _ {W : Type 0} (o : Accessors)
    (sort_by_ordinal : List OrderedManifest → List OrderedManifest) (h : Hub W) where
  unfoldable pub create_ordered_work : String → String → List OrderedManifest → Run W (Unit {0})
  create_ordered_work cluster name manifests =
      context (concat ("creating ordered ManifestWork " ∷ name ∷ " on " ∷ cluster ∷ [])) (
        create_if_not_exists o h manifest_work cluster
          (build_ordered_manifest_work cluster name (sort_by_ordinal manifests)))

  unfoldable pub get_ordered_work : String → String → Run W OrderedWorkInfo
  get_ordered_work cluster name w =
      let (r, w1) = h.get manifest_work cluster name w in
      (
        elim r [
          | err e ↦
              if is_not_found e
              then err (text (concat ("ordered work " ∷ name ∷ " not found on " ∷ cluster ∷ [])))
              else err (wrapped (concat ("getting ordered work " ∷ name ∷ [])) e)
          | ok obj ↦ ok (record {
            name = name;
            cluster = cluster;
            manifests = manifest_count obj;
            status =
                applied_status
                  (maps_of (items_or_nil (index (map_or_nil (index obj "status")) "conditions")))
                  "Unknown";
          })
        ],
        w1,
      )

  unfoldable pub list_ordered_work : String → Run W (List OrderedWorkInfo)
  list_ordered_work cluster w =
      let (r, w1) = h.list manifest_work cluster "acmlab.redhat.com/ordered-work=true" w in
      (
        elim r [
          | err e ↦ err (wrapped (concat ("listing ordered work on " ∷ cluster ∷ [])) e)
          | ok items ↦ ok (
              map
                (λ obj. record {
                  name = o.get_name obj;
                  cluster = cluster;
                  manifests = manifest_count obj;
                  status = "";
                })
                items)
        ],
        w1,
      )

  unfoldable pub remove_ordered_work : String → String → Run W (Unit {0})
  remove_ordered_work cluster name =
      context (concat ("deleting ordered work " ∷ name ∷ " from " ∷ cluster ∷ []))
        (delete_if_exists h manifest_work cluster name)
