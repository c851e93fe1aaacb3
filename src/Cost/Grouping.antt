-- ===== src/Cost/Grouping.antt =====
-- What `groupByCostCenter` of internal/cost/budget_builder.go collects.
use acm_caas_poc.Prelude.{
  String, ◌≡◌, refl, sym, ap, ◌∙◌, inl, inr, Option, none, some, List, [], ◌∷◌, ◌++◌, ◌==◌, eq_iff,
  if◌then◌else◌, Bool-cases, Map, lookup, insert, lookup-insert,
}
use acm_caas_poc.Prelude.Int.{ℤ}
use acm_caas_poc.Cost.{
  Amounts, CostCenterAttribution, ClusterCost, CenterCost, new_center, with_cost, group_or_new,
  groups_of,
}
use mathlib.Core.List.{append-nil, append_assoc}

module _ {F : Type 0} where
  abbrev pub clusters_in : Option (CenterCost F) → List (ClusterCost F)
  clusters_in none = []
  clusters_in (some g) = g.clusters

  abbrev pub found_cost : Option (ClusterCost F) → List (ClusterCost F)
  found_cost none = []
  found_cost (some cost) = cost ∷ []

  -- The costs of the clusters attributed to a center, in their order.
  unfoldable pub costs_of :
      String → List CostCenterAttribution → Map (ClusterCost F) → List (ClusterCost F)
  costs_of center [] costs = []
  costs_of center (attr ∷ rest) costs =
      (if attr.cost_center == center then found_cost (lookup attr.cluster costs) else [])
      ++ costs_of center rest costs

  module _ (a : Amounts F) where
    with_cost-clusters :
        (found : Option (ClusterCost F)) (g : CenterCost F)
        → (with_cost a found g).clusters ≡ g.clusters ++ found_cost found
    unfolding with_cost
    with_cost-clusters none g = sym (append-nil g.clusters)
    with_cost-clusters (some cost) g = refl

    group_or_new-clusters :
        (g : Option (CenterCost F)) (center : String) (days : ℤ)
        → (group_or_new a g center days).clusters ≡ clusters_in g
    unfolding group_or_new new_center
    group_or_new-clusters none center days = refl
    group_or_new-clusters (some g) center days = refl

    -- One attribution adds the cost of its cluster to its own center and changes no other.
    added :
        (attr : CostCenterAttribution) (costs : Map (ClusterCost F)) (days : ℤ)
        (groups : Map (CenterCost F)) (center : String)
        → clusters_in (
            lookup center (
              insert attr.cost_center
                (with_cost a
                  (lookup attr.cluster costs)
                  (group_or_new a (lookup attr.cost_center groups) attr.cost_center days))
                groups))
          ≡ clusters_in (lookup center groups)
            ++ (if attr.cost_center == center then found_cost (lookup attr.cluster costs) else [])
    added attr costs days groups center =
        let now =
          with_cost a (lookup attr.cluster costs)
            (group_or_new a (lookup attr.cost_center groups) attr.cost_center days) in
        rw (lookup-insert attr.cost_center center now groups)
          (elim (Bool-cases (attr.cost_center == center)) [
            | inl e ↦ rw e (
                rw ((eq_iff attr.cost_center center).0 e) (
                  with_cost-clusters (lookup attr.cluster costs) _
                  ∙ ap (λ x. x ++ found_cost (lookup attr.cluster costs))
                      (group_or_new-clusters (lookup center groups) center days)))
            | inr e ↦ rw e (sym (append-nil _))
          ])

    -- The group of a cost center holds, after those it held before, the costs of exactly the
    -- clusters attributed to that center, in the order of the attributions; without a cost a
    -- cluster is left out.
    pub groups_of-costs :
        (attrs : List CostCenterAttribution) (costs : Map (ClusterCost F)) (days : ℤ)
        (groups : Map (CenterCost F)) (center : String)
        → clusters_in (lookup center (groups_of a attrs costs days groups))
          ≡ clusters_in (lookup center groups) ++ costs_of center attrs costs
    unfolding groups_of costs_of
    groups_of-costs [] costs days groups center = sym (append-nil _)
    groups_of-costs (attr ∷ rest) costs days groups center =
        rw (groups_of-costs rest costs days, added attr costs days groups center)
          (search append_assoc)
