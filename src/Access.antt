-- ===== src/Access.antt =====
-- internal/access/access.go and internal/access/builder.go: access to a cluster through a managed
-- service account and the add-ons for it.
use acm_caas_poc.Prelude.{
  String, Bool, true, false, ◌&&◌, ◌||◌, not, Option, none, some, List, [], ◌∷◌, ◌==◌,
  if◌then◌else◌, concat, or_else,
}
use acm_caas_poc.Kube.Errors.{text, wrapped, is_not_found, ok, err}
use acm_caas_poc.Kube.Values.{
  Value, bool, str, Fields, index, map_or_nil, items_or_nil, maps_of, fields_of, map_of, str_at_key,
  is_text, any_condition,
}
use acm_caas_poc.Kube.Objects.{Accessors}
use acm_caas_poc.Kube.Hub.{Run, Hub, pure, raise, attempt, context, ◌>>=◌, ◌>>◌}
use acm_caas_poc.Client.{create_if_not_exists, delete_if_exists}
use acm_caas_poc.Client.Resources.{
  managed_cluster, namespace, managed_service_account, managed_cluster_add_on,
}

abbrev pub msa_name : String
msa_name = "acmlab-access"

-- `AccessOpts`, of which only the time to live is used.
pub record AccessOpts : Type 0 where
  pub ttl : String
  pub roles : List String

pub record AccessStatus : Type 0 where
  pub cluster : String
  pub enabled : Bool
  pub token_available : Bool
  pub token_rotation : String
  pub addon_healthy : Bool
  pub last_rotation : String

pub record AccessInfo : Type 0 where
  pub cluster : String
  pub enabled : Bool
  pub token_available : Bool
  pub addon_status : String

pub record ProxyStatus : Type 0 where
  pub cluster : String
  pub enabled : Bool
  pub healthy : Bool
  pub endpoint : String

abbrev managed_in : String → String → String × Value
managed_in name namespace = (
  "metadata",
  map_of (
      ("name", str name)
      ∷ ("namespace", str namespace)
      ∷ ("labels", map_of (("acmlab.redhat.com/managed", str "true") ∷ []))
      ∷ []),
)

unfoldable pub build_managed_service_account : String → AccessOpts → Fields
build_managed_service_account cluster opts = fields_of (
    ("apiVersion", str "authentication.open-cluster-management.io/v1beta1")
    ∷ ("kind", str "ManagedServiceAccount")
    ∷ managed_in msa_name cluster
    ∷ (
      "spec",
      map_of (
          (
            "rotation",
            map_of (("enabled", bool true) ∷ ("validity", str (or_else opts.ttl "720h")) ∷ []),
          )
          ∷ []),
    )
    ∷ [])

-- Both add-ons, by their name.
abbrev addon_object : String → String → Fields
addon_object name cluster = fields_of (
    ("apiVersion", str "addon.open-cluster-management.io/v1alpha1")
    ∷ ("kind", str "ManagedClusterAddOn")
    ∷ managed_in name cluster
    ∷ ("spec", map_of (("installNamespace", str "open-cluster-management-agent-addon") ∷ []))
    ∷ [])

unfoldable pub build_cluster_proxy_add_on : String → Fields
build_cluster_proxy_add_on cluster = addon_object "cluster-proxy" cluster

unfoldable pub build_managed_service_account_add_on : String → Fields
build_managed_service_account_add_on cluster = addon_object "managed-serviceaccount" cluster

-- The name in the reference to the token is not empty.
abbrev has_token : Fields → Bool
has_token st = not (str_at_key (map_or_nil (index st "tokenSecretRef")) "name" == "")

unfoldable pub addon_is_healthy : Fields → Bool
addon_is_healthy obj =
    any_condition "Available"
      (maps_of (items_or_nil (index (map_or_nil (index obj "status")) "conditions")))

unfoldable pub parse_access_status : String → Fields → Option Fields → AccessStatus
parse_access_status cluster msa proxy =
    let spec = map_or_nil (index msa "spec") in
    let status = map_or_nil (index msa "status") in
    record {
      cluster = cluster;
      enabled = true;
      token_available = has_token status;
      token_rotation = str_at_key (map_or_nil (index spec "rotation")) "validity";
      addon_healthy = elim proxy [ some obj ↦ addon_is_healthy obj | none ↦ false ];
      last_rotation = str_at_key status "expirationTimestamp";
    }

-- The loop over the conditions of an account.
unfoldable pub reported_status : List Fields → String → String
reported_status [] s = s
reported_status (cond ∷ rest) s = reported_status rest (
    if is_text (index cond "type") "TokenReported"
    then (if is_text (index cond "status") "True" then "TokenReported" else "Pending")
    else s)

unfoldable pub parse_access_info : String → Fields → AccessInfo
parse_access_info cluster msa =
    let status = map_or_nil (index msa "status") in
    record {
      cluster = cluster;
      enabled = true;
      token_available = has_token status;
      addon_status =
          or_else (reported_status (maps_of (items_or_nil (index status "conditions"))) "")
            "Pending";
    }

-- The loop over the references of the add-on.
unfoldable pub endpoint_of : List Fields → String → String
endpoint_of [] s = s
endpoint_of (ref ∷ rest) s =
    endpoint_of rest
      (if is_text (index ref "name") "proxy-server-host" then str_at_key ref "desiredConfig" else s)

unfoldable pub parse_proxy_status : String → Fields → ProxyStatus
parse_proxy_status cluster obj =
    let status = map_or_nil (index obj "status") in
    let healthy = addon_is_healthy obj in
    let told = endpoint_of (maps_of (items_or_nil (index status "configReferences"))) "" in
    record {
      cluster = cluster;
      enabled = true;
      healthy = healthy;
      endpoint =
          if told == "" && healthy
          then concat
              ("https://cluster-proxy-addon-user.open-cluster-management.svc:8092/" ∷ cluster ∷ [])
          else told;
    }

-- Whether a text is in a list: the keys of `seen`.
unfoldable pub among : String → List String → Bool
among s [] = false
among s (t ∷ rest) = s == t || among s rest

-- The loop of `List`.
unfoldable pub infos_of : Accessors → List Fields → List String → List AccessInfo
infos_of o [] seen = []
infos_of o (obj ∷ rest) seen =
    let cluster = o.get_namespace obj in
    elim (among cluster seen || not (o.get_name obj == msa_name)) [
      | true ↦ infos_of o rest seen
      | false ↦ parse_access_info cluster obj ∷ infos_of o rest (cluster ∷ seen)
    ]

module _ {W : Type 0} (o : Accessors) (h : Hub W) where
  -- `fmt.Errorf("<what> on %s: %w", …)`
  abbrev on_cluster : {A : Type 0} → String → String → Run W A → Run W A
  on_cluster what cluster m = context (concat (what ∷ cluster ∷ [])) m

  unfoldable pub enable_proxy : String → Run W (Unit {0})
  enable_proxy cluster =
      on_cluster "enabling cluster-proxy addon on " cluster (
        create_if_not_exists o h managed_cluster_add_on cluster
          (build_cluster_proxy_add_on cluster))

  unfoldable pub enable : String → AccessOpts → Run W (Unit {0})
  enable cluster opts = do
    on_cluster "enabling managed-serviceaccount addon on " cluster (
        create_if_not_exists o h managed_cluster_add_on cluster
          (build_managed_service_account_add_on cluster))
    on_cluster "enabling cluster-proxy addon on " cluster (
        create_if_not_exists o h managed_cluster_add_on cluster
          (build_cluster_proxy_add_on cluster))
    on_cluster "creating ManagedServiceAccount on " cluster (
        create_if_not_exists o h managed_service_account cluster
          (build_managed_service_account cluster opts))

  -- The deletions of `Disable`, in their order.
  unfoldable pub delete_access : String → Run W Bool
  delete_access cluster = do
    on_cluster "removing ManagedServiceAccount on " cluster
        (delete_if_exists h managed_service_account cluster msa_name)
    on_cluster "removing cluster-proxy addon on " cluster
        (delete_if_exists h managed_cluster_add_on cluster "cluster-proxy")
    on_cluster "removing managed-serviceaccount addon on " cluster
        (delete_if_exists h managed_cluster_add_on cluster "managed-serviceaccount")
    pure true

  unfoldable pub disable : String → Run W Bool
  disable cluster w =
      let (r, w1) = h.get managed_service_account cluster msa_name w in
      elim r [
        | err e ↦ (
          if is_not_found e
              then ok false
              else err (wrapped (concat ("checking ManagedServiceAccount on " ∷ cluster ∷ [])) e),
          w1,
        )
        | ok _ ↦ delete_access cluster w1
      ]

  unfoldable pub disable_proxy : String → Run W Bool
  disable_proxy cluster = do
    r ← attempt (h.get managed_cluster_add_on cluster "cluster-proxy")
    elim r [
      | err e ↦
          if is_not_found e
          then pure false
          else raise (wrapped (concat ("checking cluster-proxy addon on " ∷ cluster ∷ [])) e)
      | ok _ ↦
          on_cluster "removing cluster-proxy addon on " cluster
            (delete_if_exists h managed_cluster_add_on cluster "cluster-proxy")
          >>= λ _. pure true
    ]

  -- The check that both statuses make first.
  abbrev check_cluster : String → Run W (Unit {0})
  check_cluster cluster = do
    r ← attempt (h.get managed_cluster "" cluster)
    elim r [
      | ok _ ↦ pure tt
      | err e ↦ raise (
          if is_not_found e
          then text (concat ("cluster " ∷ cluster ∷ " not found" ∷ []))
          else wrapped (concat ("checking cluster " ∷ cluster ∷ [])) e)
    ]

  abbrev no_access : String → AccessStatus
  no_access cluster = record {
    cluster = cluster;
    enabled = false;
    token_available = false;
    token_rotation = "";
    addon_healthy = false;
    last_rotation = "";
  }

  unfoldable pub get_status : String → Run W AccessStatus
  get_status cluster = do
    check_cluster cluster
    r ← attempt (h.get managed_service_account cluster msa_name)
    elim r [
      | err e ↦
          if is_not_found e
          then pure (no_access cluster)
          else raise (wrapped (concat ("getting ManagedServiceAccount on " ∷ cluster ∷ [])) e)
      | ok msa ↦ attempt (h.get managed_cluster_add_on cluster "cluster-proxy") >>= λ p.
          pure (parse_access_status cluster msa (elim p [ ok obj ↦ some obj | err _ ↦ none ]))
    ]

  unfoldable pub get_proxy_status : String → Run W ProxyStatus
  get_proxy_status cluster = do
    check_cluster cluster
    r ← attempt (h.get managed_cluster_add_on cluster "cluster-proxy")
    elim r [
      | err e ↦
          if is_not_found e
          then pure (record { cluster = cluster; enabled = false; healthy = false; endpoint = "" })
          else raise (wrapped (concat ("getting cluster-proxy addon on " ∷ cluster ∷ [])) e)
      | ok obj ↦ pure (parse_proxy_status cluster obj)
    ]

  unfoldable pub list_access : Run W (List AccessInfo)
  list_access = do
    items ← context "listing ManagedServiceAccounts" (h.list managed_service_account "" "")
    pure (infos_of o items [])
