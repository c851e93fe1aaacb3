-- ===== src/Fleet/Taints.antt =====
-- internal/fleet/taints.go and taints_builder.go: adding, removing and listing taints, and a
-- placement that tolerates some.
pub mod RoundTrip
use acm_caas_poc.Prelude.{
  String, Bool, false, ◌||◌, not, none, some, List, [], ◌∷◌, ◌++◌, map, ◌==◌, if◌then◌else◌, concat,
}
use acm_caas_poc.Kube.Errors.{text}
use acm_caas_poc.Kube.Values.{
  Value, str, Fields, index, as_map, str_or_empty, items_or_nil, maps_of, fields_of, map_of,
  list_of,
}
use acm_caas_poc.Kube.Objects.{Accessors}
use acm_caas_poc.Kube.Hub.{Run, Hub, pure, raise, context, ◌>>=◌}
use acm_caas_poc.Client.{create_if_not_exists}
use acm_caas_poc.Client.Resources.{managed_cluster, placement}

pub record Taint : Type 0 where
  pub key : String
  pub value : String
  pub effect : String

-- The body of the loop of `extractTaints`, with `strVal`.
unfoldable pub taint_of : Fields → Taint
taint_of m = record {
  key = str_or_empty (index m "key");
  value = str_or_empty (index m "value");
  effect = str_or_empty (index m "effect");
}

unfoldable pub extract_taints : Fields → List Taint
unfolding taint_of
extract_taints obj = elim (as_map (index obj "spec")) [
  | none ↦ []
  | some spec ↦ map taint_of (maps_of (items_or_nil (index spec "taints")))
]

unfoldable pub taint_entry : Taint → Value
taint_entry t = map_of (("key", str t.key) ∷ ("value", str t.value) ∷ ("effect", str t.effect) ∷ [])

-- The list and the merge patch of `patchTaints`.
unfoldable pub taint_list : List Taint → Value
unfolding taint_entry
taint_list ts = list_of (map taint_entry ts)

unfoldable pub taint_patch : List Taint → Fields
unfolding taint_list
taint_patch ts = fields_of (("spec", map_of (("taints", taint_list ts) ∷ [])) ∷ [])

-- The loop of `AddTaint`: whether some taint has the key.
unfoldable pub has_taint : String → List Taint → Bool
has_taint key [] = false
has_taint key (t ∷ rest) = t.key == key || has_taint key rest

-- The loop of `RemoveTaint`: the taints of other keys.
unfoldable pub without_key : String → List Taint → List Taint
without_key key [] = []
without_key key (t ∷ rest) =
    let later = without_key key rest in if t.key == key then later else t ∷ later

abbrev toleration : Taint → Value
toleration t =
    let base : List (String × Value) =
      ("key", str t.key) ∷ ("operator", str "Equal") ∷ ("value", str t.value) ∷ [] in
    if not (t.effect == "") then map_of (base ++ ("effect", str t.effect) ∷ []) else map_of base

-- `if len(clusterSets) > 0`
abbrev with_cluster_sets : List String → List (String × Value) → List (String × Value)
with_cluster_sets [] spec = spec
with_cluster_sets (s ∷ sets) spec = spec ++ ("clusterSets", list_of (map str (s ∷ sets))) ∷ []

unfoldable pub build_tolerant_placement : String → String → List Taint → List String → Fields
build_tolerant_placement name ns tolerations sets = fields_of (
    ("apiVersion", str "cluster.open-cluster-management.io/v1beta1")
    ∷ ("kind", str "Placement")
    ∷ (
      "metadata",
      map_of (
          ("name", str name)
          ∷ ("namespace", str ns)
          ∷ ("labels", map_of (("acmlab.redhat.com/tolerant-placement", str "true") ∷ []))
          ∷ []),
    )
    ∷ (
      "spec",
      map_of (with_cluster_sets sets (("tolerations", list_of (map toleration tolerations)) ∷ [])),
    )
    ∷ [])

module _ {W : Type 0} (h : Hub W) where
  unfoldable pub patch_taints : String → List Taint → Run W (Unit {0})
  patch_taints cluster ts =
      context (concat ("patching taints on " ∷ cluster ∷ []))
        (h.patch managed_cluster "" cluster (taint_patch ts))
      >>= λ _. pure tt

  -- The reading that the three operations start with.
  unfoldable pub list_taints : String → Run W (List Taint)
  list_taints cluster = do
    mc ←
        context (concat ("cluster " ∷ cluster ∷ " not found" ∷ []))
          (h.get managed_cluster "" cluster)
    pure (extract_taints mc)

  unfoldable pub add_taint : String → String → String → String → Run W (Unit {0})
  add_taint cluster key value effect = do
    taints ← list_taints cluster
    if has_taint key taints
        then raise (
            text
              (concat ("taint with key \"" ∷ key ∷ "\" already exists on cluster " ∷ cluster ∷ [])))
        else patch_taints cluster
            (taints ++ record { key = key; value = value; effect = effect } ∷ [])

  unfoldable pub remove_taint : String → String → Run W (Unit {0})
  remove_taint cluster key = do
    taints ← list_taints cluster
    if not (has_taint key taints)
        then raise
            (text (concat ("taint with key \"" ∷ key ∷ "\" not found on cluster " ∷ cluster ∷ [])))
        else patch_taints cluster (without_key key taints)

  unfoldable pub create_tolerant_placement :
      Accessors → String → String → List Taint → List String → Run W (Unit {0})
  create_tolerant_placement o name ns tolerations sets =
      let target = if ns == "" then "open-cluster-management" else ns in
      context (concat ("creating tolerant placement " ∷ name ∷ [])) (
        create_if_not_exists o h placement target
          (build_tolerant_placement name target tolerations sets))
