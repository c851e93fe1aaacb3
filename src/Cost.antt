-- ===== src/Cost.antt =====
-- internal/cost/budget.go and internal/cost/budget_builder.go: cost centers, their clusters and
-- their budgets. Amounts of money are float64 numbers, whose operations are a record.
pub mod Grouping
use acm_caas_poc.Prelude.{
  String, Bool, true, false, Option, none, some, List, [], ◌∷◌, ◌++◌, ◌==◌, if◌then◌else◌, concat,
  Map, lookup, insert,
}
use acm_caas_poc.Prelude.Int.{ℤ}
use acm_caas_poc.Kube.Errors.{text, wrapped, is_not_found, ok, err}
use acm_caas_poc.Kube.Values.{Value, bool, str, Fields, fields_of, map_of, list_of}
use acm_caas_poc.Kube.Objects.{Accessors}
use acm_caas_poc.Kube.Hub.{Run, Hub, pure, raise, attempt, context, ◌>>=◌, ◌>>◌}
use acm_caas_poc.Client.{create_if_not_exists, delete_if_exists}
use acm_caas_poc.Client.Resources.{managed_cluster, policy, placement_binding, placement}

-- What the code does with float64: 0, +, -, >, <=, and `fmt.Sprintf` of "%.0f" and "%.2f".
pub record Amounts (F : Type 0) : Type 0 where
  pub nothing : F
  pub plus : F → F → F
  pub minus : F → F → F
  pub exceeds : F → F → Bool
  pub at_most : F → F → Bool
  pub rounded : F → String
  pub in_cents : F → String

pub record CostCenterAttribution : Type 0 where
  pub cluster : String
  pub cost_center : String

pub record ClusterCost (F : Type 0) : Type 0 where
  pub name : String
  pub nodes : ℤ
  pub cpu_cores : ℤ
  pub memory_gib : F
  pub instance_type : String
  pub daily_estimate : F
  pub period_estimate : F
  pub days : ℤ

pub record CenterCost (F : Type 0) : Type 0 where
  pub cost_center : String
  pub clusters : List (ClusterCost F)
  pub total_estimate : F
  pub budget_limit : F
  pub over_budget : Bool
  pub days : ℤ

pub record BudgetAlert (F : Type 0) : Type 0 where
  pub cost_center : String
  pub total_estimate : F
  pub budget_limit : F
  pub overage : F

abbrev cost_center_label : String
cost_center_label = "caas/cost-center"

abbrev budget_namespace : String
budget_namespace = "open-cluster-management-global-set"

abbrev pub budget_name : String → String
budget_name center = concat ("budget-" ∷ center ∷ [])

unfoldable pub build_cost_center_patch : String → Fields
build_cost_center_patch center =
    fields_of
      (("metadata", map_of (("labels", map_of ((cost_center_label, str center) ∷ [])) ∷ [])) ∷ [])

unfoldable pub build_budget_placement : String → String → String → Fields
build_budget_placement name ns center = fields_of (
    ("apiVersion", str "cluster.open-cluster-management.io/v1beta1")
    ∷ ("kind", str "Placement")
    ∷ (
      "metadata",
      map_of (("name", str (concat (name ∷ "-placement" ∷ []))) ∷ ("namespace", str ns) ∷ []),
    )
    ∷ (
      "spec",
      map_of (
          (
            "predicates",
            list_of (
                map_of (
                  (
                    "requiredClusterSelector",
                    map_of (
                        (
                          "labelSelector",
                          map_of
                              (("matchLabels", map_of ((cost_center_label, str center) ∷ [])) ∷ []),
                        )
                        ∷ []),
                  )
                  ∷ [])
                ∷ []),
          )
          ∷ []),
    )
    ∷ [])

-- A reference to an object of a group, by its kind.
abbrev reference : String → String → String → Value
reference name group kind =
    map_of (("name", str name) ∷ ("apiGroup", str group) ∷ ("kind", str kind) ∷ [])

unfoldable pub build_budget_placement_binding : String → String → Fields
build_budget_placement_binding name ns = fields_of (
    ("apiVersion", str "policy.open-cluster-management.io/v1")
    ∷ ("kind", str "PlacementBinding")
    ∷ (
      "metadata",
      map_of
          (("name", str (concat (name ∷ "-placement-binding" ∷ []))) ∷ ("namespace", str ns) ∷ []),
    )
    ∷ (
      "placementRef",
      reference (concat (name ∷ "-placement" ∷ [])) "cluster.open-cluster-management.io"
          "Placement",
    )
    ∷ ("subjects", list_of (reference name "policy.open-cluster-management.io" "Policy" ∷ []))
    ∷ [])

module _ {F : Type 0} (a : Amounts F) where
  -- The ConfigMap that the policy asks for.
  unfoldable pub budget_tracker : String → F → Value
  budget_tracker center limit = map_of (
      ("apiVersion", str "v1")
      ∷ ("kind", str "ConfigMap")
      ∷ (
        "metadata",
        map_of (("name", str "budget-tracker") ∷ ("namespace", str "caas-system") ∷ []),
      )
      ∷ (
        "data",
        map_of (("cost-center", str center) ∷ ("budget-limit", str (a.in_cents limit)) ∷ []),
      )
      ∷ [])

  -- The ConfigurationPolicy inside the policy.
  unfoldable pub budget_template : String → String → F → Value
  budget_template name center limit = map_of (
      ("apiVersion", str "policy.open-cluster-management.io/v1")
      ∷ ("kind", str "ConfigurationPolicy")
      ∷ ("metadata", map_of (("name", str (concat (name ∷ "-config" ∷ []))) ∷ []))
      ∷ (
        "spec",
        map_of (
            ("remediationAction", str "inform")
            ∷ ("severity", str "high")
            ∷ ("namespaceSelector", map_of (("include", list_of (str "*" ∷ [])) ∷ []))
            ∷ (
              "object-templates",
              list_of (
                  map_of (
                    ("complianceType", str "musthave")
                    ∷ ("objectDefinition", budget_tracker center limit)
                    ∷ [])
                  ∷ []),
            )
            ∷ []),
      )
      ∷ [])

  unfoldable pub build_budget_policy : String → String → String → F → Fields
  build_budget_policy name ns center limit = fields_of (
      ("apiVersion", str "policy.open-cluster-management.io/v1")
      ∷ ("kind", str "Policy")
      ∷ (
        "metadata",
        map_of (
            ("name", str name)
            ∷ ("namespace", str ns)
            ∷ (
              "labels",
              map_of (
                  (cost_center_label, str center)
                  ∷ ("caas/budget-limit", str (a.rounded limit))
                  ∷ []),
            )
            ∷ (
              "annotations",
              map_of (
                  (
                    "policy.open-cluster-management.io/categories",
                    str "CM Configuration Management",
                  )
                  ∷ ("policy.open-cluster-management.io/standards", str "CaaS Budget Control")
                  ∷ []),
            )
            ∷ []),
      )
      ∷ (
        "spec",
        map_of (
            ("remediationAction", str "inform")
            ∷ ("disabled", bool false)
            ∷ (
              "policy-templates",
              list_of (map_of (("objectDefinition", budget_template name center limit) ∷ []) ∷ []),
            )
            ∷ []),
      )
      ∷ [])

  unfoldable pub new_center : String → ℤ → CenterCost F
  new_center center days = record {
    cost_center = center;
    clusters = [];
    total_estimate = a.nothing;
    budget_limit = a.nothing;
    over_budget = false;
    days = days;
  }

  unfoldable pub with_cost : Option (ClusterCost F) → CenterCost F → CenterCost F
  with_cost none g = g
  with_cost (some cost) g = record g {
    clusters = g.clusters ++ (cost ∷ []);
    total_estimate = a.plus g.total_estimate cost.period_estimate;
  }

  unfoldable pub group_or_new : Option (CenterCost F) → String → ℤ → CenterCost F
  group_or_new none center days = new_center center days
  group_or_new (some g) center days = g

  -- The loop over the attributions.
  unfoldable pub groups_of :
      List CostCenterAttribution → Map (ClusterCost F) → ℤ → Map (CenterCost F) → Map (CenterCost F)
  groups_of [] costs days groups = groups
  groups_of (attr ∷ rest) costs days groups =
      let cc = attr.cost_center in
      groups_of rest costs days (
        insert cc (with_cost (lookup attr.cluster costs) (group_or_new (lookup cc groups) cc days))
          groups)

  -- `values` is the order in which `range` goes over a map.
  unfoldable pub group_by_cost_center :
      (Map (CenterCost F) → List (CenterCost F))
      → List CostCenterAttribution
      → Map (ClusterCost F)
      → ℤ
      → List (CenterCost F)
  group_by_cost_center values attributions costs days =
      values (groups_of attributions costs days [])

  unfoldable pub alert_or_not : CenterCost F → Option F → List (BudgetAlert F)
  alert_or_not c none = []
  alert_or_not c (some limit) =
      if a.exceeds c.total_estimate limit
      then record {
        cost_center = c.cost_center;
        total_estimate = c.total_estimate;
        budget_limit = limit;
        overage = a.minus c.total_estimate limit;
      }
        ∷ []
      else []

  unfoldable pub find_over_budget : List (CenterCost F) → Map F → List (BudgetAlert F)
  find_over_budget [] budgets = []
  find_over_budget (c ∷ rest) budgets =
      alert_or_not c (lookup c.cost_center budgets) ++ find_over_budget rest budgets

module _ {W : Type 0} (h : Hub W) where
  unfoldable pub stamp_cost_center : String → String → Run W (Unit {0})
  stamp_cost_center cluster center =
      if center == ""
      then raise (text "cost center must not be empty")
      else context (concat ("patching ManagedCluster " ∷ cluster ∷ " cost center" ∷ []))
          (h.patch managed_cluster "" cluster (build_cost_center_patch center))
        >>= λ _. pure tt

  unfoldable pub remove_budget_policy : String → Run W Bool
  remove_budget_policy center = do
    r ← attempt (h.get policy budget_namespace (budget_name center))
    elim r [
      | err e ↦
          if is_not_found e
          then pure false
          else raise (wrapped (concat ("checking budget policy " ∷ budget_name center ∷ [])) e)
      | ok _ ↦
          context "removing budget placement binding" (
            delete_if_exists h placement_binding budget_namespace
              (concat (budget_name center ∷ "-placement-binding" ∷ [])))
          >> context "removing budget policy"
              (delete_if_exists h policy budget_namespace (budget_name center))
          >> context "removing budget placement" (
              delete_if_exists h placement budget_namespace
                (concat (budget_name center ∷ "-placement" ∷ [])))
          >> pure true
    ]

module _ {W F : Type 0} (a : Amounts F) (o : Accessors) (h : Hub W) where
  unfoldable pub create_budget_policy : String → F → Run W (Unit {0})
  create_budget_policy center limit =
      if center == ""
      then raise (text "cost center must not be empty")
      else if a.at_most limit a.nothing
      then raise (text (concat ("budget limit must be positive, got " ∷ a.in_cents limit ∷ [])))
      else context (concat ("creating budget policy " ∷ budget_name center ∷ [])) (
          create_if_not_exists o h policy budget_namespace
            (build_budget_policy a (budget_name center) budget_namespace center limit))
        >> context "creating budget placement" (
            create_if_not_exists o h placement budget_namespace
              (build_budget_placement (budget_name center) budget_namespace center))
        >> context "creating budget placement binding" (
            create_if_not_exists o h placement_binding budget_namespace
              (build_budget_placement_binding (budget_name center) budget_namespace))
