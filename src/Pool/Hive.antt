-- ===== src/Pool/Hive.antt =====
-- internal/pool/pool.go: pools and claims of clusters that Hive keeps.
use acm_caas_poc.Prelude.{
  String, Bool, ◌&&◌, not, none, some, List, [], ◌∷◌, map, ◌==◌, if◌then◌else◌, concat, or_else,
  Map,
}
use acm_caas_poc.Prelude.Int.{ℤ, pos, is_nonpositive}
use acm_caas_poc.Kube.Errors.{Error, text, wrapped, is_not_found, ok, err}
use acm_caas_poc.Kube.Values.{
  int, str, object, Fields, index, map_or_nil, items_or_nil, as_int, texts, maps_of, fields_of,
  map_of, str_at_key, is_text,
}
use acm_caas_poc.Kube.Objects.{Accessors}
use acm_caas_poc.Kube.Hub.{Gvr, Run, Hub, pure, raise, attempt, context, ◌>>=◌, ◌>>◌}
use acm_caas_poc.Client.{create_if_not_exists, delete_if_exists}
use acm_caas_poc.Client.Resources.{namespace, secret, cluster_pool, cluster_claim}
use acm_caas_poc.Pool.Manual.{ClaimInfo}

pub record PoolOpts : Type 0 where
  pub name : String
  pub namespace : String
  pub size : ℤ
  pub platform : String
  pub region : String
  pub image_set : String
  pub base_domain : String
  pub pull_secret : String
  pub aws_access_key_id : String
  pub aws_secret_access_key : String
  pub ibm_cloud_api_key : String

-- `PoolInfo` with the counters of a ClusterPool, which are int64 of the server.
pub record HivePoolInfo : Type 0 where
  pub name : String
  pub namespace : String
  pub size : ℤ
  pub ready : ℤ
  pub claimed : ℤ
  pub standby : ℤ

-- `n, ok := m[key].(int64)`, or else the zero of a new record.
abbrev int_or_zero : Fields → String → ℤ
int_or_zero m k = elim (as_int (index m k)) [ some n ↦ n | none ↦ pos 0 ]

-- `m, ok := obj[key].(map…)`: a map without keys where it is none.
abbrev part : Fields → String → Fields
part obj k = map_or_nil (index obj k)

unfoldable pub parse_pool_info : Fields → HivePoolInfo
parse_pool_info obj =
    let meta = part obj "metadata" in
    let status = part obj "status" in
    record {
      name = str_at_key meta "name";
      namespace = str_at_key meta "namespace";
      size = int_or_zero (part obj "spec") "size";
      ready = int_or_zero status "ready";
      claimed = int_or_zero status "claimedClusterCount";
      standby = int_or_zero status "standby";
    }

-- The loop over the conditions of a claim.
unfoldable pub claim_status : List Fields → String → String
claim_status [] s = s
claim_status (cond ∷ rest) s =
    let is_true = is_text (index cond "status") "True" in
    let s1 = if is_text (index cond "type") "ClusterRunning" && is_true then "Running" else s in
    claim_status rest (if is_text (index cond "type") "Pending" && is_true then "Pending" else s1)

unfoldable pub parse_claim_info : Fields → ClaimInfo
parse_claim_info obj =
    let meta = part obj "metadata" in
    let status = part obj "status" in
    record {
      name = str_at_key meta "name";
      namespace = str_at_key meta "namespace";
      pool = str_at_key (part obj "spec") "clusterPoolName";
      cluster = str_at_key (part status "clusterDeploymentRef") "name";
      status = claim_status (maps_of (items_or_nil (index status "conditions"))) "Pending";
    }

unfoldable pub build_namespace : String → Fields
build_namespace name = fields_of (
    ("apiVersion", str "v1")
    ∷ ("kind", str "Namespace")
    ∷ ("metadata", map_of (("name", str name) ∷ []))
    ∷ [])

-- The three secrets, by the end of the name, the type and the data.
abbrev secret_object : String → String → String → Map String → Fields
secret_object namespace suffix type data' = fields_of (
    ("apiVersion", str "v1")
    ∷ ("kind", str "Secret")
    ∷ (
      "metadata",
      map_of (("name", str (concat (namespace ∷ suffix ∷ []))) ∷ ("namespace", str namespace) ∷ []),
    )
    ∷ ("type", str type)
    ∷ ("stringData", object (texts data'))
    ∷ [])

unfoldable pub build_pull_secret : String → String → Fields
build_pull_secret namespace pull_secret =
    secret_object namespace "-pull-secret" "kubernetes.io/dockerconfigjson"
      ((".dockerconfigjson", pull_secret) ∷ [])

unfoldable pub build_aws_credentials_secret : String → String → String → Fields
build_aws_credentials_secret namespace access_key_id secret_access_key =
    secret_object namespace "-aws-creds" "Opaque"
      (("aws_access_key_id", access_key_id) ∷ ("aws_secret_access_key", secret_access_key) ∷ [])

unfoldable pub build_ibm_credentials_secret : String → String → Fields
build_ibm_credentials_secret namespace api_key =
    secret_object namespace "-ibmcloud-creds" "Opaque" (("ibmcloud_api_key", api_key) ∷ [])

unfoldable pub build_cluster_pool : PoolOpts → Fields
build_cluster_pool opts =
    let platform = or_else opts.platform "ibmcloud" in
    let creds = if platform == "ibmcloud" then "-ibmcloud-creds" else "-aws-creds" in
    fields_of (
      ("apiVersion", str "hive.openshift.io/v1")
      ∷ ("kind", str "ClusterPool")
      ∷ (
        "metadata",
        map_of (
            ("name", str opts.name)
            ∷ ("namespace", str opts.namespace)
            ∷ ("labels", map_of (("acmlab.redhat.com/managed", str "true") ∷ []))
            ∷ []),
      )
      ∷ (
        "spec",
        map_of (
            ("size", int opts.size)
            ∷ ("baseDomain", str (or_else opts.base_domain "example.com"))
            ∷ ("imageSetRef", map_of (("name", str opts.image_set) ∷ []))
            ∷ (
              "platform",
              map_of (
                  (
                    platform,
                    map_of (
                        ("region", str (or_else opts.region "us-south"))
                        ∷ (
                          "credentialsSecretRef",
                          map_of (("name", str (concat (opts.namespace ∷ creds ∷ []))) ∷ []),
                        )
                        ∷ []),
                  )
                  ∷ []),
            )
            ∷ ("installAttemptsLimit", int (pos 6))
            ∷ ("hibernationConfig", map_of (("resumeTimeout", str "20m") ∷ []))
            ∷ (
              "pullSecretRef",
              map_of (("name", str (concat (opts.namespace ∷ "-pull-secret" ∷ []))) ∷ []),
            )
            ∷ []),
      )
      ∷ [])

unfoldable pub build_cluster_claim : String → String → String → String → Fields
build_cluster_claim pool claim namespace ttl = fields_of (
    ("apiVersion", str "hive.openshift.io/v1")
    ∷ ("kind", str "ClusterClaim")
    ∷ (
      "metadata",
      map_of (
          ("name", str claim)
          ∷ ("namespace", str namespace)
          ∷ ("labels", map_of (("acmlab.redhat.com/managed", str "true") ∷ []))
          ∷ []),
    )
    ∷ (
      "spec",
      map_of
          (("clusterPoolName", str pool) ∷ (if ttl == "" then [] else ("lifetime", str ttl) ∷ [])),
    )
    ∷ [])

module _ {W : Type 0} (o : Accessors) (h : Hub W) where
  -- A call that is made on a condition.
  abbrev only_if : Bool → Run W (Unit {0}) → Run W (Unit {0})
  only_if b m = if b then m else pure tt

  unfoldable pub create_filled : PoolOpts → Run W (Unit {0})
  create_filled opts = do
    context (concat ("ensuring namespace " ∷ opts.namespace ∷ []))
        (create_if_not_exists o h namespace "" (build_namespace opts.namespace))
    only_if (not (opts.pull_secret == "")) (
        context "creating pull secret" (
          create_if_not_exists o h secret opts.namespace
            (build_pull_secret opts.namespace opts.pull_secret)))
    only_if (opts.platform == "aws" && not (opts.aws_access_key_id == "")) (
        context "creating AWS credentials" (
          create_if_not_exists o h secret opts.namespace (
            build_aws_credentials_secret opts.namespace opts.aws_access_key_id
              opts.aws_secret_access_key)))
    only_if (opts.platform == "ibmcloud" && not (opts.ibm_cloud_api_key == "")) (
        context "creating IBM credentials" (
          create_if_not_exists o h secret opts.namespace
            (build_ibm_credentials_secret opts.namespace opts.ibm_cloud_api_key)))
    create_if_not_exists o h cluster_pool opts.namespace (build_cluster_pool opts)

  unfoldable pub create_pool : PoolOpts → Run W (Unit {0})
  create_pool opts = create_filled (record opts {
    namespace = or_else opts.namespace opts.name;
    size = if is_nonpositive opts.size then pos 1 else opts.size;
  })

  unfoldable pub list_pools : Run W (List HivePoolInfo)
  list_pools = do
    items ← context "listing ClusterPools" (h.list cluster_pool "" "")
    pure (map parse_pool_info items)

  unfoldable pub get_pool : String → String → Run W HivePoolInfo
  get_pool name ns = do
    obj ←
        context (concat ("getting ClusterPool " ∷ name ∷ []))
          (h.get cluster_pool (or_else ns name) name)
    pure (parse_pool_info obj)

  -- A deletion that first tells a missing object from other errors.
  abbrev delete_present : Gvr → String → String → Error → String → Run W (Unit {0})
  delete_present gvr ns name gone checking = do
    r ← attempt (h.get gvr ns name)
    elim r [
      | ok _ ↦ delete_if_exists h gvr ns name
      | err e ↦ raise (if is_not_found e then gone else wrapped checking e)
    ]

  unfoldable pub delete_pool : String → String → Run W (Unit {0})
  delete_pool name ns =
      delete_present cluster_pool (or_else ns name) name
        (text (concat ("ClusterPool " ∷ name ∷ " not found" ∷ [])))
        (concat ("checking ClusterPool " ∷ name ∷ []))

  -- `Claim`, once the namespace and the name are filled in.
  unfoldable pub claim_as : String → String → String → String → Run W ClaimInfo
  claim_as pool ns claim ttl = do
    context (concat ("creating ClusterClaim " ∷ claim ∷ []))
        (create_if_not_exists o h cluster_claim ns (build_cluster_claim pool claim ns ttl))
    created ← context (concat ("reading ClusterClaim " ∷ claim ∷ [])) (h.get cluster_claim ns claim)
    pure (parse_claim_info created)

  unfoldable pub claim_pool : String → String → String → String → Run W ClaimInfo
  claim_pool pool ns claim ttl =
      claim_as pool (or_else ns pool) (or_else claim (concat (pool ∷ "-claim" ∷ []))) ttl

  unfoldable pub release_claim : String → String → Run W (Unit {0})
  release_claim claim ns =
      if ns == ""
      then raise (text "namespace is required to release a claim")
      else delete_present cluster_claim ns claim
          (text (concat ("ClusterClaim " ∷ claim ∷ " not found in namespace " ∷ ns ∷ [])))
          (concat ("checking ClusterClaim " ∷ claim ∷ []))

  unfoldable pub list_claims : String → Run W (List ClaimInfo)
  list_claims ns = do
    items ← context "listing ClusterClaims" (h.list cluster_claim ns "")
    pure (map parse_claim_info items)
