-- ===== src/Gpu/Routing/Polling.antt =====
-- The poll loop of internal/gpu/routing.go ends.
use native.Mathlib.Decide.{dec_lt}
use acm_caas_poc.Prelude.{
  ℕ, zero, suc, ◌+◌, ◌*◌, ◌≤◌, ◌<◌, String, ◌≡◌, refl, ap, Bool, true, false, some, List, [], ◌∷◌,
  arith, concat,
}
use acm_caas_poc.Kube.Errors.{Error, wrapped, Result, ok, err}
use acm_caas_poc.Kube.Values.{Fields}
use acm_caas_poc.Kube.Objects.{Accessors}
use acm_caas_poc.Kube.Hub.{Gvr, Hub}
use acm_caas_poc.Client.{create_if_not_exists}
use acm_caas_poc.Client.Resources.{placement, placement_decision, route}
use acm_caas_poc.Gpu.Request.{gpu_no_match, other, Route, routed, route_failed}
use acm_caas_poc.Gpu.Routing.{
  default_namespace, PlacementResult, Clock, build_gpu_placement, decision_selector, next_interval,
  create_gpu_placement, query_placement_decision, on_query_error, on_expiry, poll,
  best_cluster_with_timeout,
}

-- What the loop relies on: time goes forward, `time.After(d)` does not fire before `d` has passed,
-- and a list request whose context has expired fails.
pub record Timely {W : Type 0} (h : Hub W) (c : Clock W) (now : W → ℕ) (deadline : ℕ) : Type 0 where
  pub get_forward : (g : Gvr) (ns name : String) (w : W) → now w ≤ now (h.get g ns name w).1
  pub create_forward :
      (g : Gvr) (ns : String) (obj : Fields) (w : W) → now w ≤ now (h.create g ns obj w).1
  pub list_forward : (g : Gvr) (ns sel : String) (w : W) → now w ≤ now (h.list g ns sel w).1
  pub list_expired :
      (g : Gvr) (ns sel : String) (w : W)
      → deadline ≤ now w
      → (e : Error) × ((h.list g ns sel w).0 ≡ err e)
  pub select_waits : (d : ℕ) (w : W) → (c.select d w).0 ≡ false → now w + d ≤ now (c.select d w).1

next_interval-ge : (i : ℕ) → 500 ≤ i → 500 ≤ next_interval i
next_interval-ge i h = ground arith

module _ {W : Type 0} (o : Accessors) (h : Hub W) (c : Clock W) (now : W → ℕ) (deadline : ℕ) where
  abbrev Ends : ℕ → ℕ → String → W → Type 0
  Ends fuel i name w = (route : Route Error) × ((poll o h c fuel i name w).0 ≡ some route)

  -- One round: it ends, or the wait was over before the deadline and the next round ends.
  poll_round :
      (fuel i : ℕ) (name : String) (w : W)
      → ((w1 : W)
          → query_placement_decision o h c name w ≡ (ok ([], false), w1)
          → (c.select i w1).0 ≡ false
          → Ends fuel (next_interval i) name (c.select i w1).1)
      → Ends (suc fuel) i name w
  unfolding poll
  poll_round fuel i name w more = asked (query_placement_decision o h c name w) refl
    where
      waited :
          (w1 : W)
          → query_placement_decision o h c name w ≡ (ok ([], false), w1)
          → (x : Bool × W) → c.select i w1 ≡ x
          → Ends (suc fuel) i name w
      waited w1 eq (true, w2) es = (route_failed (on_expiry o h c w2), ground arith)
      waited w1 eq (false, w2) es =
          let (route, ended) = more w1 eq (ap (λ x. x.0) es) in (route, ground arith)

      asked :
          (q : Result (List PlacementResult × Bool) × W)
          → query_placement_decision o h c name w ≡ q
          → Ends (suc fuel) i name w
      asked (err e, w1) eq = (route_failed (on_query_error o h c e w1), ground arith)
      asked (ok (best ∷ rest, b), w1) eq = (routed best.cluster_name, ground arith)
      asked (ok ([], true), w1) eq = (route_failed gpu_no_match, ground arith)
      asked (ok ([], false), w1) eq = waited w1 eq (c.select i w1) refl

  module _ (laws : Timely h c now deadline) where
    query_forward :
        (name : String) (w w1 : W) (r : Result (List PlacementResult × Bool))
        → query_placement_decision o h c name w ≡ (r, w1)
        → now w ≤ now w1
    unfolding query_placement_decision
    query_forward name w w1 r e =
        go (h.list placement_decision default_namespace (decision_selector name) w) refl
      where
        go :
            (l : Result (List Fields) × W)
            → h.list placement_decision default_namespace (decision_selector name) w ≡ l
            → now w ≤ now w1
        go (ok items, v) el = ground (
          arith,
          laws.list_forward placement_decision default_namespace (decision_selector name) w,
        )
        go (err x, v) el = ground (
          arith,
          laws.list_forward placement_decision default_namespace (decision_selector name) w,
        )

    query_expired :
        (name : String) (w w1 : W) (seen : List PlacementResult × Bool)
        → query_placement_decision o h c name w ≡ (ok seen, w1)
        → now w < deadline
    unfolding query_placement_decision
    query_expired name w w1 seen e = elim (dec_lt (now w) deadline) [
      | yes p ↦ p
      | no p ↦
          let (x, refused) =
            laws.list_expired placement_decision default_namespace (decision_selector name) w
              (omega arith) in
          absurd (ground arith)
    ]

    -- A poll loop with an interval of at least 500 ms returns a route: one round for each 500 ms that
    -- are left until the deadline, and one more, are enough.
    pub poll-Ends :
        (fuel i : ℕ) (name : String) (w : W)
        → 500 ≤ i
        → deadline ≤ now w + 500 * fuel
        → Ends (suc fuel) i name w
    poll-Ends zero i name w hi hd =
        poll_round zero i name w λ w1 e s. absurd (omega (arith, query_expired name w w1 _ e))
    poll-Ends (suc fuel) i name w hi hd = poll_round (suc fuel) i name w λ w1 e s.
        poll-Ends fuel (next_interval i) name (c.select i w1).1 (next_interval-ge i hi)
          (omega (arith, query_forward name w w1 _ e, laws.select_waits i w1 s))

    create_forward :
        (name gpu_type : String) (w : W)
        → now w ≤ now (create_gpu_placement o h c name gpu_type "" w).1
    unfolding create_gpu_placement create_if_not_exists
    create_forward name gpu_type w =
        let obj = build_gpu_placement name gpu_type "" in
        let read = h.get placement default_namespace (o.get_name obj) w in
        ground (
          arith,
          laws.get_forward placement default_namespace (o.get_name obj) w,
          laws.create_forward placement default_namespace obj read.1,
        )

    -- BestClusterWithTimeout returns: with one unit of fuel for each 500 ms of its timeout and one
    -- more, it yields a route whatever the random suffix, the server and the contexts do, if time
    -- goes forward and a list request fails once the timeout has passed.
    pub best_cluster_ends :
        (fuel : ℕ) (suffix : Result String) (gpu_type : String) (w : W)
        → deadline ≤ now w + 500 * fuel
        → (route : Route Error) × ((best_cluster_with_timeout o h c (suc fuel) suffix gpu_type w).0
            ≡ some route)
    unfolding best_cluster_with_timeout
    best_cluster_ends fuel (err e) gpu_type w hd =
        (route_failed (other (wrapped "generating unique placement name" e)), refl)
    best_cluster_ends fuel (ok suffix) gpu_type w hd =
        made (create_gpu_placement o h c name gpu_type "" w) refl
      where
        name : String
        name = concat ("gpu-best-" ∷ gpu_type ∷ "-" ∷ suffix ∷ [])

        made :
            (m : Result (Unit {0}) × W)
            → create_gpu_placement o h c name gpu_type "" w ≡ m
            → (route : Route Error) × ((best_cluster_with_timeout o h c
                  (suc fuel)
                  (ok suffix)
                  gpu_type
                  w).0
                ≡ some route)
        made (err e, w1) em =
            (route_failed (other (wrapped "creating temporary placement" e)), ground arith)
        made (ok u, w1) em =
            let (route, ended) =
              poll-Ends fuel 500 name w1 (omega arith)
                (omega (arith, create_forward name gpu_type w, ap (λ m. now m.1) em)) in
            (route, ground arith)
