-- ===== src/Gpu/Routing/Naming.antt =====
-- Which cluster the routing of internal/gpu/routing.go chooses.
use acm_caas_poc.Prelude.{
  ℕ, zero, suc, String, ◌≡◌, refl, ◌≢◌, inl, inr, Bool, true, false, some, List, [], ◌∷◌, ◌++◌,
  arith, ◌==◌, eq_iff, Bool-cases, All,
}
use acm_caas_poc.Kube.Errors.{Result, ok, err}
use acm_caas_poc.Kube.Values.{Fields}
use acm_caas_poc.Kube.Objects.{found_or, Accessors}
use acm_caas_poc.Kube.Hub.{Hub}
use acm_caas_poc.Client.Resources.{placement_decision}
use acm_caas_poc.Gpu.Request.{routed}
use acm_caas_poc.Gpu.Routing.{
  default_namespace, PlacementResult, Clock, decisions_of, parse_placement_decisions,
  decision_selector, next_interval, query_placement_decision, poll,
}

abbrev Named : PlacementResult → Type 0
Named p = p.cluster_name ≢ ""

decisions_of-Named : (o : Accessors) (l : List Fields) → All Named (decisions_of o l)
unfolding decisions_of
decisions_of-Named o [] = tt
decisions_of-Named o (dm ∷ rest) = add (decisions_of-Named o rest)
  where
    name : String
    name = found_or "" (o.nested_string dm ("clusterName" ∷ []))

    add : All Named (decisions_of o rest) → All Named (decisions_of o (dm ∷ rest))
    add later = elim (Bool-cases (name == "")) [
      | inl e ↦ rw e later
      | inr e ↦ rw e ((λ same. cc (e, (eq_iff name "").1 same)), later)
    ]

All-append : (xs ys : List PlacementResult) → All Named xs → All Named ys → All Named (xs ++ ys)
All-append [] ys h k = k
All-append (x ∷ xs) ys h k = (h.0, All-append xs ys h.1 k)

-- Whatever the server lists, no placement result has an empty cluster name.
parse_placement_decisions-Named :
    (o : Accessors) (l : List Fields) → All Named (parse_placement_decisions o l)
unfolding parse_placement_decisions
parse_placement_decisions-Named o [] = tt
parse_placement_decisions-Named o (obj ∷ rest) =
    All-append (decisions_of o _) (parse_placement_decisions o rest) (decisions_of-Named o _)
      (parse_placement_decisions-Named o rest)

module _ {W : Type 0} (o : Accessors) (h : Hub W) (c : Clock W) where
  query-Named :
      (name : String) (w w1 : W) (results : List PlacementResult) (b : Bool)
      → query_placement_decision o h c name w ≡ (ok (results, b), w1)
      → All Named results
  unfolding query_placement_decision
  query-Named name w w1 results b e =
      go (h.list placement_decision default_namespace (decision_selector name) w) refl
    where
      go :
          (l : Result (List Fields) × W)
          → h.list placement_decision default_namespace (decision_selector name) w ≡ l
          → All Named results
      go (err x, v) el = ground arith
      go (ok items, v) el =
          let same : parse_placement_decisions o items ≡ results = ground arith in
          rw (← same) (parse_placement_decisions-Named o items)

  -- Whenever the poll loop routes a request, it routes it to a cluster with a name that is not
  -- empty.
  pub poll-named :
      (fuel i : ℕ) (name : String) (w : W) (best : String)
      → (poll o h c fuel i name w).0 ≡ some (routed best)
      → best ≢ ""
  unfolding poll
  poll-named zero i name w best e = cc
  poll-named (suc fuel) i name w best e =
      asked (poll-named fuel (next_interval i) name) (query_placement_decision o h c name w) refl
    where
      asked :
          ((w2 : W) (b : String)
            → (poll o h c fuel (next_interval i) name w2).0 ≡ some (routed b)
            → b ≢ "")
          → (q : Result (List PlacementResult × Bool) × W)
          → query_placement_decision o h c name w ≡ q
          → best ≢ ""
      asked later (err x, w1) eq = ground arith
      asked later (ok (p ∷ rest, b), w1) eq =
          let same : p.cluster_name ≡ best = ground arith in
          rw (← same) (query-Named name w w1 (p ∷ rest) b eq).0
      asked later (ok ([], true), w1) eq = ground arith
      asked later (ok ([], false), w1) eq = waited (c.select i w1) refl
        where
          waited : (x : Bool × W) → c.select i w1 ≡ x → best ≢ ""
          waited (true, w2) es = ground arith
          waited (false, w2) es = later w2 best (ground arith)
