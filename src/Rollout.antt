-- ===== src/Rollout.antt =====
-- internal/rollout/rollout.go and internal/rollout/builder.go: ManifestWorkReplicaSets and their
-- strategies. The ordered ManifestWorks of internal/rollout/ordering.go are in Rollout.Ordering.
pub mod Ordering
pub mod Statuses
pub mod Strategies
use acm_caas_poc.Prelude.{
  String, Bool, true, false, ◌&&◌, ◌||◌, not, Option, none, some, List, [], ◌∷◌, map, ◌==◌, eqb,
  if◌then◌else◌, concat,
}
use acm_caas_poc.Prelude.Int.{ℤ, pos, leb_ℤ, is_nonpositive}
use acm_caas_poc.Kube.Errors.{status, text, wrapped, is_not_found, Result, ok, err, map_err}
use acm_caas_poc.Kube.Values.{
  Value, int, str, object, slice, Fields, end, field, Items, no_items, item, index, items_or_nil,
  as_int, maps_of, fields_of, map_of, list_of, assign, map_at_key, str_at_key, len_items,
}
use acm_caas_poc.Kube.Objects.{found_or, Accessors}
use acm_caas_poc.Kube.Hub.{Run, Hub, pure, lift, context, ◌>>=◌}
use acm_caas_poc.Client.{create_if_not_exists, delete_if_exists}
use acm_caas_poc.Client.Resources.{namespace, manifest_work_replica_set}

abbrev pub default_namespace : String
default_namespace = "open-cluster-management"

pub record RolloutOpts : Type 0 where
  pub name : String
  pub namespace : String
  pub placement_name : String
  pub strategy : String
  pub max_concurrency : ℤ
  pub max_failures : String
  pub progress_deadline : String
  pub manifests : List Fields

pub record StrategyOpts : Type 0 where
  pub type : String
  pub max_concurrency : ℤ
  pub max_failures : String
  pub progress_deadline : String

pub record RolloutInfo : Type 0 where
  pub name : String
  pub namespace : String
  pub strategy : String
  pub applied : ℤ
  pub total : ℤ
  pub failed : ℤ
  pub status : String

abbrev pub or_default : String → String
or_default ns = if ns == "" then default_namespace else ns

-- A field of a map that is set on a condition.
abbrev field_if : Bool → String → Value → Fields → Fields
field_if b k v m = if b then field k v m else m

unfoldable pub progressive_fields : ℤ → String → String → Fields
progressive_fields max_concurrency max_failures progress_deadline =
    field_if (not (is_nonpositive max_concurrency)) "maxConcurrency" (int max_concurrency) (
      field_if (not (max_failures == "")) "maxFailures" (str max_failures)
        (field_if (not (progress_deadline == "")) "progressDeadline" (str progress_deadline) end))

unfoldable pub build_rollout_strategy : String → ℤ → String → String → Fields
build_rollout_strategy asked max_concurrency max_failures progress_deadline =
    let type = if asked == "" then "All" else asked in
    field "type" (str type) (
      field_if (type == "Progressive" || type == "ProgressivePerGroup")
        (if type == "ProgressivePerGroup" then "progressivePerGroup" else "progressive")
        (object (progressive_fields max_concurrency max_failures progress_deadline)) end)

unfoldable pub build_manifest_work_replica_set : RolloutOpts → Fields
build_manifest_work_replica_set opts = fields_of (
    ("apiVersion", str "work.open-cluster-management.io/v1alpha1")
    ∷ ("kind", str "ManifestWorkReplicaSet")
    ∷ (
      "metadata",
      map_of (
          ("name", str opts.name)
          ∷ ("namespace", str opts.namespace)
          ∷ ("labels", map_of (("acmlab.redhat.com/managed", str "true") ∷ []))
          ∷ []),
    )
    ∷ (
      "spec",
      map_of (
          (
            "placementRefs",
            list_of (
                map_of (
                  ("name", str opts.placement_name)
                  ∷ (
                    "rolloutStrategy",
                    object (
                        build_rollout_strategy opts.strategy opts.max_concurrency opts.max_failures
                          opts.progress_deadline),
                  )
                  ∷ [])
                ∷ []),
          )
          ∷ (
            "manifestWorkTemplate",
            map_of (
                ("workload", map_of (("manifests", list_of (map object opts.manifests)) ∷ []))
                ∷ []),
          )
          ∷ []),
    )
    ∷ [])

-- The nested type assertions on the first placement reference.
unfoldable pub strategy_of_refs : Value → String
strategy_of_refs (slice (item (object ref) _)) = elim (map_at_key ref "rolloutStrategy") [
  | some rs ↦ str_at_key rs "type"
  | none ↦ ""
]
strategy_of_refs _ = ""

unfoldable pub strategy_of : Fields → String
strategy_of obj = elim (map_at_key obj "spec") [
  | some spec ↦ strategy_of_refs (index spec "placementRefs")
  | none ↦ ""
]

-- A counter of the summary; `int(n)` keeps an int64.
abbrev count_of : Fields → String → ℤ
count_of summary k = elim (as_int (index summary k)) [ some n ↦ n | none ↦ pos 0 ]

-- The counters that the status sets: applied, total, failed.
unfoldable pub counts_of : Fields → ℤ × ℤ × ℤ
counts_of st = elim (map_at_key st "summary") [
  | some summary ↦ (count_of summary "applied", count_of summary "total", count_of summary "failed")
  | none ↦ (pos 0, pos 0, pos 0)
]

-- The loop over the conditions.
unfoldable pub placement_status : List Fields → String → String
placement_status [] s = s
placement_status (cond ∷ rest) s =
    let type = str_at_key cond "type" in
    let value = str_at_key cond "status" in
    let s1 = if type == "PlacementVerified" && value == "True" then "Active" else s in
    placement_status rest
      (if type == "PlacementVerified" && value == "False" then "PlacementNotFound" else s1)

-- `a == b` on counters
abbrev pub eqb_ℤ : ℤ → ℤ → Bool
eqb_ℤ a b = leb_ℤ a b && leb_ℤ b a

unfoldable pub final_status : ℤ → ℤ → ℤ → String → String
final_status applied total failed s =
    let s1 = if not (is_nonpositive failed) then "Degraded" else s in
    if not (is_nonpositive applied) && eqb_ℤ applied total && eqb_ℤ failed (pos 0)
    then "Complete"
    else s1

unfoldable pub parse_rollout_info : String → Fields → RolloutInfo
parse_rollout_info name obj =
    let namespace : String = elim (map_at_key obj "metadata") [
      | some meta ↦ str_at_key meta "namespace"
      | none ↦ ""
    ] in
    elim (map_at_key obj "status") [
      | none ↦ record {
        name = name;
        namespace = namespace;
        strategy = strategy_of obj;
        applied = pos 0;
        total = pos 0;
        failed = pos 0;
        status = "Pending";
      }
      | some st ↦
          let (applied, total, failed) = counts_of st in
          record {
            name = name;
            namespace = namespace;
            strategy = strategy_of obj;
            applied = applied;
            total = total;
            failed = failed;
            status =
                final_status applied total failed
                  (placement_status (maps_of (items_or_nil (index st "conditions"))) "Unknown");
          }
    ]

-- `placementRefs[0]` with another strategy, in a copy of the list.
unfoldable pub with_strategy : StrategyOpts → Items → Option Items
with_strategy strategy (item (object ref) rest) = some (
    item
      (object (
        assign "rolloutStrategy"
          (object (
            build_rollout_strategy strategy.type strategy.max_concurrency strategy.max_failures
              strategy.progress_deadline))
          ref))
      rest)
with_strategy strategy _ = none

-- `SetNestedSlice` of the `unstructured` package is an argument; it answers the changed object.
module _ (o : Accessors) (set_nested_slice : Fields → Items → List String → Result Fields) where
  -- What `UpdateStrategy` sends for an object that it has read.
  unfoldable pub restrategized : String → StrategyOpts → Fields → Result Fields
  restrategized name strategy obj =
      let refs = found_or no_items (o.nested_slice obj ("spec" ∷ "placementRefs" ∷ [])) in
      if eqb (len_items refs) 0
      then err (text (concat ("ManifestWorkReplicaSet " ∷ name ∷ " has no placementRefs" ∷ [])))
      else elim (with_strategy strategy refs) [
        | none ↦ err (text (concat ("invalid placementRef in ManifestWorkReplicaSet " ∷ name ∷ [])))
        | some changed ↦
            map_err (wrapped "setting placementRefs")
              (set_nested_slice obj changed ("spec" ∷ "placementRefs" ∷ []))
      ]

module _ {W : Type 0} (o : Accessors)
    (set_nested_slice : Fields → Items → List String → Result Fields) (h : Hub W) where
  unfoldable pub create_rollout : RolloutOpts → Run W (Unit {0})
  create_rollout opts =
      let filled : RolloutOpts = record opts {
        namespace = or_default opts.namespace;
        strategy = if opts.strategy == "" then "All" else opts.strategy;
        max_concurrency =
            if is_nonpositive opts.max_concurrency then pos 1 else opts.max_concurrency;
      } in
      create_if_not_exists o h manifest_work_replica_set filled.namespace
        (build_manifest_work_replica_set filled)

  unfoldable pub get_rollout : String → String → Run W RolloutInfo
  get_rollout name ns w =
      let (r, w1) = h.get manifest_work_replica_set (or_default ns) name w in
      (
        elim r [
          | ok obj ↦ ok (parse_rollout_info name obj)
          | err e ↦ err (wrapped (concat ("getting ManifestWorkReplicaSet " ∷ name ∷ [])) e)
        ],
        w1,
      )

  unfoldable pub list_rollouts : String → Run W (List RolloutInfo)
  list_rollouts ns w =
      let (r, w1) = h.list manifest_work_replica_set (or_default ns) "" w in
      (
        elim r [
          | ok items ↦ ok (map (λ obj. parse_rollout_info (o.get_name obj) obj) items)
          | err e ↦ err (wrapped "listing ManifestWorkReplicaSets" e)
        ],
        w1,
      )

  unfoldable pub delete_rollout : String → String → Run W Bool
  delete_rollout name ns w =
      let (r, w1) = h.get manifest_work_replica_set (or_default ns) name w in
      elim r [
        | err e ↦ (
          if is_not_found e
              then ok false
              else err (wrapped (concat ("checking ManifestWorkReplicaSet " ∷ name ∷ [])) e),
          w1,
        )
        | ok _ ↦
            (context (concat ("deleting ManifestWorkReplicaSet " ∷ name ∷ []))
                  (delete_if_exists h manifest_work_replica_set (or_default ns) name)
                >>= λ _. pure true)
              w1
      ]

  unfoldable pub update_strategy : String → String → StrategyOpts → Run W (Unit {0})
  update_strategy name ns strategy =
      context (concat ("getting ManifestWorkReplicaSet " ∷ name ∷ []))
        (h.get manifest_work_replica_set (or_default ns) name)
      >>= λ obj. lift (restrategized o set_nested_slice name strategy obj) >>= λ obj'.
          h.update manifest_work_replica_set (or_default ns) obj' >>= λ _. pure tt
