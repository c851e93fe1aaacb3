-- ===== src/Gpu/Requests/Ledger/Calls.antt =====
-- The contract of internal/gpu/request.go: a ledger of requests that answers calls atomically,
-- without critical sections, times and reasons.
use acm_caas_poc.Prelude.{
  String, ◌≡◌, ◌⊎◌, Bool, true, false, Option, none, some, List, [], ◌∷◌, ◌==◌, if◌then◌else◌,
  lookup,
}
use acm_caas_poc.Gpu.Request.{
  RequestState, pending, admitted, running, completed, cancelled, failed, GpuRequest,
}
use acm_caas_poc.Gpu.Requests.{Requests}

-- What a tenant sees of a request; from the admission on it has a cluster.
pub data Life : Type 0 where
  queued : Life
  placed in_use released : String → Life
  withdrawn broken : Life

abbrev pub Ledger : Type 0
Ledger = String → Option Life

-- The ledger with another entry.
abbrev pub note : Ledger → String → Life → Ledger
note f id l j = if id == j then some l else f j

-- A request that may still be withdrawn.
abbrev pub is_open : Life → Bool
is_open (released _) = false
is_open withdrawn = false
is_open _ = true

abbrev pub is_queued : Life → Bool
is_queued queued = true
is_queued _ = false

-- What is asked of the ledger; the routing found a cluster or none.
pub data Call : Type 0 where
  entering looking withdrawing using_it releasing : String → Call
  routing_to : String → Option String → Call

-- What the ledger does when a call is accepted: one atomic move.
pub data Does (f : Ledger) : Call → Ledger → Type 0 where
  enter : (id : String) → f id ≡ none → Does f (entering id) (note f id queued)
  look : (id : String) → f id ≡ some queued → Does f (looking id) f
  place :
      (id cluster : String)
      → f id ≡ some queued
      → Does f (routing_to id (some cluster)) (note f id (placed cluster))
  stay_queued : (id : String) → f id ≡ some queued → Does f (routing_to id none) f
  too_late :
      (id : String) (l : Life) (found_at : Option String)
      → f id ≡ some l
      → is_queued l ≡ false
      → Does f (routing_to id found_at) f
  use_it :
      (id cluster : String)
      → f id ≡ some (placed cluster)
      → Does f (using_it id) (note f id (in_use cluster))
  release :
      (id cluster : String)
      → (f id ≡ some (placed cluster)) ⊎ (f id ≡ some (in_use cluster))
      → Does f (releasing id) (note f id (released cluster))
  withdraw :
      (id : String) (l : Life)
      → f id ≡ some l
      → is_open l ≡ true
      → Does f (withdrawing id) (note f id withdrawn)

-- The ledger answers the calls, the last of which is at the head.
pub data Runs (f : Ledger) : List Call → Ledger → Type 0 where
  at_start : Runs f [] f
  moved_on :
      {g k : Ledger} {calls : List Call} {c : Call}
      → Runs f calls g
      → Does g c k
      → Runs f (c ∷ calls) k

abbrev pub life_of : RequestState → String → Life
life_of pending c = queued
life_of admitted c = placed c
life_of running c = in_use c
life_of completed c = released c
life_of cancelled c = withdrawn
life_of failed c = broken

abbrev pub life_in : Option GpuRequest → Option Life
life_in none = none
life_in (some r) = some (life_of r.state r.cluster)

abbrev pub ledger : Requests → Ledger
ledger reqs j = life_in (lookup j reqs)
