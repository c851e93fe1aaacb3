-- ===== src/Gpu/Requests/Lifetimes.antt =====
-- What holds of one request over any interleaving of calls (internal/gpu/request.go).
use acm_caas_poc.Prelude.{
  String, ◌≡◌, refl, ap, ◌∙◌, true, false, Option, none, some, arith, lookup,
}
use acm_caas_poc.Gpu.Request.{RequestState, GpuRequest, is_pending}
use acm_caas_poc.Gpu.Requests.{Requests}
use acm_caas_poc.Gpu.Requests.Evolution.{
  Edge, stay, admit, start, complete_admitted, complete_running, cancel_pending, cancel_admitted,
  cancel_running, cancel_failed, is_terminal, SameIdentity, Evolves,
}
use acm_caas_poc.Gpu.Requests.System.{System, Step, Steps, done, then, Step-Evolves}

-- A stored request of state other than `Pending`, with the cluster that it had at `r`.
pub record Settled (reqs : Requests) (j : String) (r : GpuRequest) : Type 0 where
  pub now : GpuRequest
  pub stored : lookup j reqs ≡ some now
  pub left_pending : is_pending now.state ≡ false
  pub same_cluster : now.cluster ≡ r.cluster
  pub identity : SameIdentity r now

edge_left : {s t : RequestState} → Edge s t → is_pending s ≡ false → is_pending t ≡ false
edge_left stay h = h
edge_left admit h = cc
edge_left start h = refl
edge_left complete_admitted h = refl
edge_left complete_running h = refl
edge_left cancel_pending h = refl
edge_left cancel_admitted h = refl
edge_left cancel_running h = refl
edge_left cancel_failed h = refl

Settled-Step :
    {E : Type 0} {s t : System} (j : String) (r : GpuRequest)
    → Step E s t
    → Settled s.reqs j r
    → Settled t.reqs j r
Settled-Step {t = t} j r step h = go (lookup j t.reqs) refl (rw h.stored at (Step-Evolves step j))
  where
    go : (o : Option GpuRequest) → lookup j t.reqs ≡ o → Evolves (some h.now) o → Settled t.reqs j r
    go none e v = absurd v
    go (some r') e v = record {
      now = r';
      stored = e;
      left_pending = edge_left v.edge h.left_pending;
      same_cluster = v.settled h.left_pending ∙ h.same_cluster;
      identity = ground (arith, v.identity, h.identity);
    }

Settled-Steps :
    {E : Type 0} {s t : System} (j : String) (r : GpuRequest)
    → Steps E s t
    → Settled s.reqs j r
    → Settled t.reqs j r
Settled-Steps j r done h = h
Settled-Steps j r (then run step) h = Settled-Step j r step (Settled-Steps j r run h)

-- Once a request has left `Pending`, whatever calls run and however they interleave, it stays
-- stored, never becomes `Pending` again, and keeps its cluster and its submitted fields.
pub cluster_fixed :
    (E : Type 0) {s t : System} (j : String) (r : GpuRequest)
    → Steps E s t
    → lookup j s.reqs ≡ some r
    → is_pending r.state ≡ false
    → Settled t.reqs j r
cluster_fixed E j r run h p =
    Settled-Steps j r run (record {
      now = r;
      stored = h;
      left_pending = p;
      same_cluster = refl;
      identity = ground arith;
    })

frozen-Step :
    {E : Type 0} {s t : System} (j : String) (r : GpuRequest)
    → Step E s t
    → lookup j s.reqs ≡ some r
    → is_terminal r.state ≡ true
    → lookup j t.reqs ≡ some r
frozen-Step {t = t} j r step h f = go (lookup j t.reqs) (rw h at (Step-Evolves step j))
  where
    go : (o : Option GpuRequest) → Evolves (some r) o → o ≡ some r
    go none v = absurd v
    go (some r') v = ap some (v.frozen f)

-- A completed or cancelled request is never written again, by any calls in any interleaving of
-- their critical sections: routing that ends after a cancellation does not revive it.
pub terminal_frozen :
    (E : Type 0) {s t : System} (j : String) (r : GpuRequest)
    → Steps E s t
    → lookup j s.reqs ≡ some r
    → is_terminal r.state ≡ true
    → lookup j t.reqs ≡ some r
terminal_frozen E j r done h f = h
terminal_frozen E j r (then run step) h f = frozen-Step j r step (terminal_frozen E j r run h f) f
