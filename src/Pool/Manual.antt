-- ===== src/Pool/Manual.antt =====
-- internal/pool/manual.go: claiming, releasing and counting the clusters of a manual pool. The
-- replenishment that a claim starts in the background is an argument, `replenish`.
pub mod Counting
pub mod Claiming
use acm_caas_poc.Prelude.{
  ℕ, ◌+◌, String, Bool, true, false, ◌&&◌, ◌||◌, not, Option, none, some, List, [], ◌∷◌, ◌==◌,
  if◌then◌else◌, length, concat,
}
use acm_caas_poc.Kube.Errors.{Error, status, text, Result, ok, err}
use acm_caas_poc.Kube.Values.{str, Fields, fields_of, map_of}
use acm_caas_poc.Kube.Objects.{found_or, Accessors, label}
use acm_caas_poc.Kube.Hub.{Run, Hub, pure, raise, context, ◌>>=◌}
use acm_caas_poc.Client.Resources.{cluster_deployment, namespace}
use acm_caas_poc.Lifecycle.Capi.{hibernating}
use acm_caas_poc.Lifecycle.Power.{hibernate, resume_cluster}

abbrev pub label_pool : String
label_pool = "acmlab.redhat.com/pool"

abbrev pub label_pool_claimed : String
label_pool_claimed = "acmlab.redhat.com/pool-claimed"

pub record PoolInfo : Type 0 where
  pub name : String
  pub namespace : String
  pub size : ℕ
  pub ready : ℕ
  pub claimed : ℕ
  pub standby : ℕ

pub record ClaimInfo : Type 0 where
  pub name : String
  pub pool : String
  pub namespace : String
  pub cluster : String
  pub status : String

module _ (o : Accessors) where
  -- `labels[labelPoolClaimed] == "true"`
  unfoldable pub is_claimed : Fields → Bool
  is_claimed cd =
      label (found_or [] (o.nested_string_map cd ("metadata" ∷ "labels" ∷ []))) label_pool_claimed
      == "true"

  unfoldable pub is_installed : Fields → Bool
  is_installed cd = found_or false (o.nested_bool cd ("spec" ∷ "installed" ∷ []))

  unfoldable pub is_hibernating : Fields → Bool
  is_hibernating cd = found_or "" (o.nested_string cd ("spec" ∷ "powerState" ∷ [])) == hibernating

  -- The `switch` of `ListManualPool` for one cluster.
  unfoldable pub count_cluster : Fields → PoolInfo → PoolInfo
  count_cluster cd info =
      if is_claimed cd
      then record info { claimed = info.claimed + 1 }
      else if is_installed cd && is_hibernating cd
      then record info { standby = info.standby + 1; ready = info.ready + 1 }
      else if is_installed cd
      then record info { ready = info.ready + 1 }
      else info

  unfoldable pub count_clusters : List Fields → PoolInfo → PoolInfo
  count_clusters [] info = info
  count_clusters (cd ∷ rest) info = count_clusters rest (count_cluster cd info)

  -- `listPoolClusters`: the names that are not empty.
  unfoldable pub names_of : List Fields → List String
  names_of [] = []
  names_of (obj ∷ rest) =
      let name = found_or "" (o.nested_string obj ("metadata" ∷ "name" ∷ [])) in
      let later = names_of rest in if not (name == "") then name ∷ later else later

-- The conditional patch of `tryAtomicClaim`.
abbrev pub claim_patch : String → Fields
claim_patch version = fields_of (
    (
      "metadata",
      map_of (
          ("resourceVersion", str version)
          ∷ ("labels", map_of ((label_pool_claimed, str "true") ∷ []))
          ∷ []),
    )
    ∷ [])

abbrev pub claim_label_patch : String → Fields
claim_label_patch value =
    fields_of
      (("metadata", map_of (("labels", map_of ((label_pool_claimed, str value) ∷ [])) ∷ [])) ∷ [])

abbrev no_lifecycle : Error
no_lifecycle = text "lifecycle manager required for manual pool (use NewWithManagers)"

-- A claim returns a `*ClaimInfo` and an error, which may come together.
abbrev pub Claim : Type 0
Claim = Option ClaimInfo × Option Error

-- The answer of `ClaimManualPool` after the attempt to resume the claimed cluster.
unfoldable pub resumed : String → String → String → Result (Unit {0}) → Claim
resumed pool claim cluster (ok _) = (
  some (record {
    name = claim;
    pool = pool;
    namespace = "";
    cluster = cluster;
    status = "Resuming";
  }),
  none,
)
resumed pool claim cluster (err e) = (
  some (record {
    name = claim;
    pool = pool;
    namespace = "";
    cluster = cluster;
    status = "ResumeFailed";
  }),
  some e,
)

abbrev pub succeeded : {A : Type 0} → Result A → Bool
succeeded (ok _) = true
succeeded (err _) = false

module _ {W : Type 0} (o : Accessors) (h : Hub W) where
  unfoldable pub list_pool_clusters : String → Run W (List String)
  list_pool_clusters pool = do
    items ←
        context "listing pool clusters"
          (h.list cluster_deployment "" (concat (label_pool ∷ "=" ∷ pool ∷ [])))
    pure (names_of o items)

  unfoldable pub list_manual_pool : String → Run W PoolInfo
  list_manual_pool pool = do
    items ←
        context "listing pool clusters"
          (h.list cluster_deployment "" (concat (label_pool ∷ "=" ∷ pool ∷ [])))
    pure (
        count_clusters o items (record {
          name = pool;
          namespace = "";
          size = length items;
          ready = 0;
          claimed = 0;
          standby = 0;
        }))

  unfoldable pub try_atomic_claim : String → String → W → Bool × W
  try_atomic_claim name version w =
      let (r, w1) = h.patch cluster_deployment name name (claim_patch version) w in
      (succeeded r, w1)

  -- After the claim of `name` was won: the cluster is resumed and the pool replenished.
  unfoldable pub won : (String → W → W) → String → String → String → W → Claim × W
  won replenish pool claim name w =
      let (r, w1) = resume_cluster o h name name w in (resumed pool claim name r, replenish pool w1)

  -- One cluster of the loop of `ClaimManualPool`, by the outcome of its claim, by its state and by
  -- how it was read; `later` is the rest of the loop.
  module _ (replenish : String → W → W) (pool claim name : String) (later : W → Claim × W) where
    unfoldable pub claim_patched : Bool → W → Claim × W
    claim_patched true w = won replenish pool claim name w
    claim_patched false w = later w

    unfoldable pub claim_read : Result Fields → W → Claim × W
    claim_read (err _) w = later w
    claim_read (ok cd) w =
        if is_claimed o cd || not (is_hibernating o cd)
        then later w
        else let (mine, w1) = try_atomic_claim name (o.get_resource_version cd) w in
          claim_patched mine w1

  -- The loop of `ClaimManualPool`.
  unfoldable pub claim_from : (String → W → W) → String → String → List String → W → Claim × W
  claim_from replenish pool claim [] w = (
    (
      none,
      some (text (concat ("no available (hibernated, unclaimed) cluster in pool " ∷ pool ∷ []))),
    ),
    w,
  )
  claim_from replenish pool claim (name ∷ rest) w =
      let (r, w1) = h.get cluster_deployment name name w in
      claim_read replenish pool claim name (claim_from replenish pool claim rest) r w1

  -- `ClaimManualPool`; the first argument says whether the manager has a lifecycle manager.
  unfoldable pub claim_manual_pool : Bool → (String → W → W) → String → String → W → Claim × W
  claim_manual_pool has_lifecycle replenish pool claim w =
      let (r, w1) = list_pool_clusters pool w in
      if not has_lifecycle then ((none, some no_lifecycle), w) else elim r [
        | err e ↦ ((none, some e), w1)
        | ok names ↦ claim_from replenish pool claim names w1
      ]

  unfoldable pub set_claim_label : String → String → Run W (Unit {0})
  set_claim_label name value =
      h.patch cluster_deployment name name (claim_label_patch value) >>= λ _. pure tt

  unfoldable pub release_manual_claim : Bool → String → Run W (Unit {0})
  release_manual_claim has_lifecycle name =
      if not has_lifecycle
      then raise no_lifecycle
      else context (concat ("hibernating cluster " ∷ name ∷ [])) (hibernate o h name name) >>= λ _.
          set_claim_label name "false"
