-- ===== src/Examples/Rollout.antt =====
-- internal/rollout at a server that holds two of them.
use acm_caas_poc.Kube.Assigning.{index-assign, index-assign_other}
use acm_caas_poc.Prelude.{String, ◌≡◌, refl, ◌↔◌, false, some, List, [], ◌∷◌, arith}
use acm_caas_poc.Prelude.Int.{pos, is_nonpositive}
use acm_caas_poc.Kube.Errors.{Result, ok}
use acm_caas_poc.Kube.Values.{
  Value, int, str, object, slice, Fields, Items, index, fields_of, map_of, list_of, assign,
  map_at_key, len_items,
}
use acm_caas_poc.Client.Resources.{manifest_work_replica_set}
use acm_caas_poc.Rollout.{
  StrategyOpts, RolloutInfo, progressive_fields, build_rollout_strategy, counts_of,
  parse_rollout_info, with_strategy, restrategized, get_rollout, update_strategy,
}
use acm_caas_poc.Rollout.Strategies.{SetsRefs, get-update_strategy}
use acm_caas_poc.Rollout.Statuses.{status_Complete_iff}
use acm_caas_poc.Examples.Worlds.{
  walking, find, replace, update_answer, store_hub, walking_names, stores_updates,
}

-- The list becomes all of the spec.
abbrev only_refs : Fields → Items → List String → Result Fields
only_refs obj refs path = ok (assign "spec" (map_of (("placementRefs", slice refs) ∷ [])) obj)

sets_refs : SetsRefs only_refs
unfolding index
sets_refs = record {
  refs_at_place = λ obj obj' refs e.
      let set : Value = map_of (("placementRefs", slice refs) ∷ []) in
      let same : assign "spec" set obj ≡ obj' = ground arith in
      rw (← same)
        (fields_of (("placementRefs", slice refs) ∷ []), index-assign "spec" set obj, refl);
  metadata_kept = λ obj obj' refs e.
      let set : Value = map_of (("placementRefs", slice refs) ∷ []) in
      let same : assign "spec" set obj ≡ obj' = ground arith in
      rw (← same) (index-assign_other "spec" "metadata" set obj refl);
}

abbrev progressive : StrategyOpts
progressive = record {
  type = "Progressive";
  max_concurrency = pos 3;
  max_failures = "";
  progress_deadline = "10m";
}

abbrev placed : Value → Fields
placed refs = fields_of (
    ("metadata", map_of (("name", str "r") ∷ []))
    ∷ ("spec", map_of (("placementRefs", refs) ∷ []))
    ∷ [])

-- The server holds another rollout too.
abbrev others : Fields
others = fields_of (("metadata", map_of (("name", str "other") ∷ [])) ∷ [])

abbrev rollout : Fields
rollout = placed (list_of (map_of (("name", str "p") ∷ []) ∷ []))

abbrev moved : Fields
moved = placed (
    list_of (
      map_of (
        ("name", str "p")
        ∷ (
          "rolloutStrategy",
          map_of (
              ("type", str "Progressive")
              ∷ (
                "progressive",
                map_of (("maxConcurrency", int (pos 3)) ∷ ("progressDeadline", str "10m") ∷ []),
              )
              ∷ []),
        )
        ∷ [])
      ∷ []))

updated :
    update_strategy walking only_refs store_hub "r" "ns" progressive (others ∷ rollout ∷ [])
    ≡ (ok tt, others ∷ moved ∷ [])
unfolding update_strategy restrategized with_strategy build_rollout_strategy progressive_fields
    assign len_items store_hub find replace update_answer walking
updated = refl

get-update_strategy_example :
    (info : RolloutInfo) × ((get_rollout walking only_refs store_hub "r" "ns"
        (others ∷ moved ∷ [])).0
      ≡ ok info)
    × (info.strategy ≡ "Progressive")
get-update_strategy_example =
    get-update_strategy walking only_refs store_hub sets_refs walking_names
      (stores_updates manifest_work_replica_set) "r" "ns" progressive (others ∷ rollout ∷ [])
      (others ∷ moved ∷ []) updated

abbrev applied_twice : Fields
applied_twice =
    fields_of (("summary", map_of (("applied", int (pos 2)) ∷ ("total", int (pos 2)) ∷ [])) ∷ [])

counted : counts_of applied_twice ≡ (pos 2, pos 2, pos 0)
unfolding counts_of index
counted = refl

has_status :
    map_at_key (fields_of (("status", object applied_twice) ∷ [])) "status" ≡ some applied_twice
unfolding index
has_status = refl

status_Complete_iff_example :
    ((parse_rollout_info "r" (fields_of (("status", object applied_twice) ∷ []))).status
      ≡ "Complete")
    ↔ ((is_nonpositive (pos 2) ≡ false) × (pos 2 ≡ pos 2) × (pos 0 ≡ pos 0))
status_Complete_iff_example =
    status_Complete_iff "r" (fields_of (("status", object applied_twice) ∷ [])) applied_twice
      (pos 2) (pos 2) (pos 0) has_status counted
