-- ===== src/Gpu/Routing.antt =====
-- internal/gpu/routing.go and internal/gpu/routing_builder.go: the placement of a GPU request.
-- Durations are milliseconds. Contexts and the clock are the record `Clock`.
pub mod Polling
pub mod Naming
use acm_caas_poc.Prelude.{
  ℕ, zero, suc, ◌*◌, String, Bool, true, false, not, Option, none, some, List, [], ◌∷◌, ◌++◌, ◌==◌,
  ltb, if◌then◌else◌, length, concat,
}
use acm_caas_poc.Kube.Errors.{Error, wrapped, Result, ok, err}
use acm_caas_poc.Kube.Values.{Value, str, Fields, no_items, maps_of, fields_of, map_of, list_of}
use acm_caas_poc.Kube.Objects.{found_or, Accessors}
use acm_caas_poc.Kube.Hub.{Run, Hub, pure, context, ◌>>=◌}
use acm_caas_poc.Client.{create_if_not_exists, delete_if_exists}
use acm_caas_poc.Client.Resources.{managed_cluster, placement, placement_decision, route}
use acm_caas_poc.Gpu.Request.{
  RouteError, gpu_pending, gpu_no_match, other, Route, routed, route_failed,
}

abbrev default_namespace : String
default_namespace = "open-cluster-management-policies"

pub record PlacementResult : Type 0 where
  pub cluster_name : String
  pub score : ℕ

-- The contexts of one call: `ctx.Err()` of the caller's, `opCtx.Err() != nil` of the derived one
-- with the timeout, and `select { <-opCtx.Done() | <-time.After(d) }`, true where `Done` won.
pub record Clock (W : Type 0) : Type 0 where
  pub ctx_err : W → Option Error
  pub op_expired : W → Bool
  pub select : ℕ → W → Bool × W

match_expression : String → List Value → Value
match_expression key values =
    map_of (("key", str key) ∷ ("operator", str "In") ∷ ("values", list_of values) ∷ [])

-- `buildGPUPlacement`
build_gpu_placement : String → String → String → Fields
unfolding match_expression
build_gpu_placement name gpu_type region =
    let base : List Value =
      match_expression "gpu-type" (str gpu_type ∷ [])
      ∷ match_expression "gpu-available" (str "true" ∷ [])
      ∷ [] in
    let expressions : List Value =
      if not (region == "")
      then base ++ match_expression "region" (str region ∷ []) ∷ []
      else base in
    fields_of (
      ("apiVersion", str "cluster.open-cluster-management.io/v1beta1")
      ∷ ("kind", str "Placement")
      ∷ ("metadata", map_of (("name", str name) ∷ ("namespace", str default_namespace) ∷ []))
      ∷ (
        "spec",
        map_of (
            (
              "predicates",
              list_of (
                  map_of (
                    (
                      "requiredClusterSelector",
                      map_of (
                          ("labelSelector", map_of (("matchExpressions", list_of expressions) ∷ []))
                          ∷ []),
                    )
                    ∷ [])
                  ∷ []),
            )
            ∷ []),
      )
      ∷ [])

module _ (o : Accessors) where
  -- The inner loop of `parsePlacementDecisions`: entries with a cluster name.
  unfoldable pub decisions_of : List Fields → List PlacementResult
  decisions_of [] = []
  decisions_of (dm ∷ rest) =
      let name = found_or "" (o.nested_string dm ("clusterName" ∷ [])) in
      let later = decisions_of rest in
      if name == "" then later else record { cluster_name = name; score = 0 } ∷ later

  unfoldable pub parse_placement_decisions : List Fields → List PlacementResult
  unfolding decisions_of
  parse_placement_decisions [] = []
  parse_placement_decisions (obj ∷ rest) =
      decisions_of (maps_of (found_or no_items (o.nested_slice obj ("status" ∷ "decisions" ∷ []))))
      ++ parse_placement_decisions rest

-- The label selector of the decisions of one placement.
abbrev decision_selector : String → String
decision_selector name = concat ("cluster.open-cluster-management.io/placement=" ∷ name ∷ [])

-- `if interval < 4*time.Second { interval *= 2 }`
abbrev next_interval : ℕ → ℕ
next_interval i = if ltb i 4000 then i * 2 else i

module _ {W : Type 0} (o : Accessors) (h : Hub W) (c : Clock W) where
  -- `CreateGPUPlacement`
  create_gpu_placement : String → String → String → Run W (Unit {0})
  create_gpu_placement name gpu_type region =
      create_if_not_exists o h placement default_namespace
        (build_gpu_placement name gpu_type region)

  -- `queryPlacementDecision`: the results, and whether any decision object exists.
  unfoldable pub query_placement_decision : String → Run W (List PlacementResult × Bool)
  query_placement_decision name = do
    items ← h.list placement_decision default_namespace (decision_selector name)
    pure (parse_placement_decisions o items, ltb 0 (length items))

  -- `GetPlacementDecision`
  unfoldable pub get_placement_decision : String → Run W (List PlacementResult)
  get_placement_decision name = do
    items ←
        context (concat ("listing placement decisions for " ∷ name ∷ []))
          (h.list placement_decision default_namespace (decision_selector name))
    pure (parse_placement_decisions o items)

  -- `MarkSaturated`
  unfoldable pub mark_saturated : String → Bool → Run W (Unit {0})
  mark_saturated cluster saturated =
      let value = if saturated then "false" else "true" in
      context (concat ("patching cluster " ∷ cluster ∷ " gpu-available label" ∷ [])) (
        h.patch managed_cluster "" cluster (
          fields_of (
            ("metadata", map_of (("labels", map_of (("gpu-available", str value) ∷ [])) ∷ []))
            ∷ [])))
      >>= λ _. pure tt

  -- What a failed read of the decision returns.
  on_query_error : Error → W → RouteError Error
  on_query_error e w = elim (c.ctx_err w) [
    | some x ↦ other x
    | none ↦ if c.op_expired w then gpu_pending else other (wrapped "reading placement decision" e)
  ]

  -- What the expiry of `opCtx` during a wait returns.
  on_expiry : W → RouteError Error
  on_expiry w = elim (c.ctx_err w) [ some x ↦ other x | none ↦ gpu_pending ]

  -- The loop of `BestClusterWithTimeout`, on fuel; `none` means that the fuel ran out.
  unfoldable pub poll : ℕ → ℕ → String → W → Option (Route Error) × W
  unfolding on_query_error on_expiry
  poll zero interval name w = (none, w)
  poll (suc fuel) interval name w =
      let (r, w1) = query_placement_decision name w in
      elim r [
        | err e ↦ (some (route_failed (on_query_error e w1)), w1)
        | ok (results, has_obj) ↦ elim results [
          | best ∷ _ ↦ (some (routed best.cluster_name), w1)
          | [] ↦ elim has_obj [
            | true ↦ (some (route_failed gpu_no_match), w1)
            | false ↦
                let (expired, w2) = c.select interval w1 in
                elim expired [
                  | true ↦ (some (route_failed (on_expiry w2)), w2)
                  | false ↦ poll fuel (next_interval interval) name w2
                ]
          ]
        ]
      ]

  -- `BestClusterWithTimeout`, given the outcome of `randomSuffix`. The deferred deletion of the
  -- temporary placement runs after the loop, whatever the loop returned.
  pub best_cluster_with_timeout : ℕ → Result String → String → W → Option (Route Error) × W
  unfolding create_gpu_placement poll
  best_cluster_with_timeout fuel (err e) gpu_type w =
      (some (route_failed (other (wrapped "generating unique placement name" e))), w)
  best_cluster_with_timeout fuel (ok suffix) gpu_type w =
      let name = concat ("gpu-best-" ∷ gpu_type ∷ "-" ∷ suffix ∷ []) in
      let (made, w1) = create_gpu_placement name gpu_type "" w in
      elim made [
        | err e ↦ (some (route_failed (other (wrapped "creating temporary placement" e))), w1)
        | ok _ ↦
            let (route, w2) = poll fuel 500 name w1 in
            (route, (delete_if_exists h placement default_namespace name w2).1)
      ]
