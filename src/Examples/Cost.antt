-- ===== src/Examples/Cost.antt =====
-- internal/cost over whole numbers of cents: two centers and three clusters, one without a cost.
use acm_caas_poc.Prelude.{ℕ, ◌+◌, ◌-◌, String, ◌≡◌, List, [], ◌∷◌, ltb, leb, Map, lookup}
use acm_caas_poc.Prelude.Int.{pos}
use acm_caas_poc.Cost.{Amounts, CostCenterAttribution, ClusterCost, groups_of}
use acm_caas_poc.Cost.Grouping.{clusters_in, costs_of, groups_of-costs}

abbrev cost_of : String → ℕ → ClusterCost ℕ
cost_of cluster n = record {
  name = cluster;
  nodes = pos 1;
  cpu_cores = pos 4;
  memory_gib = 16;
  instance_type = "m5.xlarge";
  daily_estimate = n;
  period_estimate = n;
  days = pos 1;
}

abbrev cents : Amounts ℕ
cents = record {
  nothing = 0;
  plus = λ m n. m + n;
  minus = λ m n. m - n;
  exceeds = λ m n. ltb n m;
  at_most = λ m n. leb m n;
  rounded = λ n. "0";
  in_cents = λ n. "0.00";
}

abbrev attributed : List CostCenterAttribution
attributed =
    record { cluster = "a"; cost_center = "x" }
    ∷ record { cluster = "b"; cost_center = "y" }
    ∷ record { cluster = "c"; cost_center = "x" }
    ∷ record { cluster = "d"; cost_center = "x" }
    ∷ []

abbrev known_costs : Map (ClusterCost ℕ)
known_costs = ("d", cost_of "d" 7) ∷ ("b", cost_of "b" 2) ∷ ("a", cost_of "a" 5) ∷ []

groups_of-costs_example :
    clusters_in (lookup "x" (groups_of cents attributed known_costs (pos 1) []))
    ≡ cost_of "a" 5 ∷ cost_of "d" 7 ∷ []
unfolding costs_of lookup
groups_of-costs_example = groups_of-costs cents attributed known_costs (pos 1) [] "x"
