-- ===== src/Gpu/Requests/Evolution.antt =====
-- How one critical section may change one entry of the request map.
use acm_caas_poc.Prelude.{
  ℕ, String, ◌≡◌, refl, inl, inr, Bool, true, false, ◌&&◌, ◌||◌, not, Option, none, some, arith,
  ◌==◌, eq_iff, Bool-cases, lookup, insert, lookup-insert,
}
use acm_caas_poc.Gpu.Request.{
  RequestState, pending, admitted, running, completed, cancelled, failed, GpuRequest,
  AdmissionResult, Route, RequestError, Result, ok, is_pending, is_admitted, is_running,
  is_cancelled, is_completed,
}
use acm_caas_poc.Gpu.Requests.{
  Requests, validate, submit_begin, submit_settle, retry_settle, submit_finish, retry_finish,
  cancel_request, start_request, complete_request,
}

-- The transitions that the operations of internal/gpu/request.go can make.
pub data Edge : RequestState → RequestState → Type 0 where
  stay : {s : RequestState} → Edge s s
  admit : Edge pending admitted
  start : Edge admitted running
  complete_admitted : Edge admitted completed
  complete_running : Edge running completed
  cancel_pending : Edge pending cancelled
  cancel_admitted : Edge admitted cancelled
  cancel_running : Edge running cancelled
  cancel_failed : Edge failed cancelled

ruleset edges = (
  stay, admit, start, complete_admitted, complete_running, cancel_pending, cancel_admitted,
  cancel_running, cancel_failed,
)

-- A request that `CancelRequest` and `CompleteRequest` both refuse.
abbrev pub is_terminal : RequestState → Bool
is_terminal s = is_completed s || is_cancelled s

-- What a request keeps for life.
pub record SameIdentity (r r' : GpuRequest) : Type 0 where
  pub same_id : r'.id ≡ r.id
  pub same_tenant : r'.tenant ≡ r.tenant
  pub same_gpu_type : r'.gpu_type ≡ r.gpu_type
  pub same_quantity : r'.quantity ≡ r.quantity
  pub same_created_at : r'.created_at ≡ r.created_at

-- `r'` may replace `r` in the map.
pub record Follows (r r' : GpuRequest) : Type 0 where
  pub identity : SameIdentity r r'
  pub edge : Edge r.state r'.state
  pub settled : is_pending r.state ≡ false → r'.cluster ≡ r.cluster
  pub frozen : is_terminal r.state ≡ true → r' ≡ r

pub Follows-refl : (r : GpuRequest) → Follows r r
Follows-refl r = record {
  identity = ground arith;
  edge = stay;
  settled = λ h. refl;
  frozen = λ h. refl;
}

-- The same for an entry that may be missing: an entry is born `Pending` and never removed.
abbrev pub Evolves : Option GpuRequest → Option GpuRequest → Type 0
Evolves none none = Unit
Evolves none (some r') = r'.state ≡ pending
Evolves (some r) none = ⊥
Evolves (some r) (some r') = Follows r r'

pub Evolves-refl : (o : Option GpuRequest) → Evolves o o
Evolves-refl none = tt
Evolves-refl (some r) = Follows-refl r

pub Evolves-insert :
    (id : String) (r' : GpuRequest) (reqs : Requests)
    → Evolves (lookup id reqs) (some r')
    → (j : String) → Evolves (lookup j reqs) (lookup j (insert id r' reqs))
Evolves-insert id r' reqs h j = rw lookup-insert (elim (Bool-cases (id == j)) [
  | inl e ↦ rw e (rw (← (eq_iff id j).0 e) h)
  | inr e ↦ rw e (Evolves-refl (lookup j reqs))
])

module _ {E : Type 0} where
  pub submit_settle-Follows :
      (now : ℕ) (route : Route E) (r : GpuRequest) → Follows r (submit_settle now route r).0
  unfolding submit_settle
  submit_settle-Follows now route r = grind (arith, edges)

  pub retry_settle-Follows :
      (now : ℕ) (route : Route E) (r : GpuRequest) → Follows r (retry_settle now route r).0
  unfolding retry_settle
  retry_settle-Follows now route r = grind (arith, edges)

-- One entry of the map was replaced, along an edge.
pub record Updates (id : String) (reqs t : Requests) : Type 0 where
  pub old : GpuRequest
  pub new : GpuRequest
  pub found : lookup id reqs ≡ some old
  pub follows : Follows old new
  pub stored : t ≡ insert id new reqs

pub Updates-Evolves :
    (id : String) (reqs t : Requests)
    → Updates id reqs t
    → (j : String) → Evolves (lookup j reqs) (lookup j t)
Updates-Evolves id reqs t u j = rw u.stored (Evolves-insert id u.new reqs (rw u.found u.follows) j)

cancel-Follows :
    (now : ℕ) (r : GpuRequest)
    → (is_completed r.state || is_cancelled r.state) ≡ false
    → Follows r (record r { state = cancelled; updated_at = now })
cancel-Follows now r h = grind (arith, edges)

start-Follows :
    (now : ℕ) (r : GpuRequest)
    → not (is_admitted r.state) ≡ false
    → Follows r (record r { state = running; updated_at = now })
start-Follows now r h = grind (arith, edges)

complete-Follows :
    (now : ℕ) (r : GpuRequest)
    → (not (is_running r.state) && not (is_admitted r.state)) ≡ false
    → Follows r (record r { state = completed; updated_at = now })
complete-Follows now r h = grind (arith, edges)

module _ {E : Type 0} (now : ℕ) (id : String) (reqs t : Requests) where
  pub cancel_request-Updates : cancel_request {E = E} now id reqs ≡ ok t → Updates id reqs t
  unfolding cancel_request
  cancel_request-Updates h = go (lookup id reqs) refl
    where
      go : (o : Option GpuRequest) → lookup id reqs ≡ o → Updates id reqs t
      go none e = ground arith
      go (some r) e = record {
        old = r;
        new = record r { state = cancelled; updated_at = now };
        found = e;
        follows = cancel-Follows now r (ground arith);
        stored = ground arith;
      }

  pub start_request-Updates : start_request {E = E} now id reqs ≡ ok t → Updates id reqs t
  unfolding start_request
  start_request-Updates h = go (lookup id reqs) refl
    where
      go : (o : Option GpuRequest) → lookup id reqs ≡ o → Updates id reqs t
      go none e = ground arith
      go (some r) e = record {
        old = r;
        new = record r { state = running; updated_at = now };
        found = e;
        follows = start-Follows now r (ground arith);
        stored = ground arith;
      }

  pub complete_request-Updates : complete_request {E = E} now id reqs ≡ ok t → Updates id reqs t
  unfolding complete_request
  complete_request-Updates h = go (lookup id reqs) refl
    where
      go : (o : Option GpuRequest) → lookup id reqs ≡ o → Updates id reqs t
      go none e = ground arith
      go (some r) e = record {
        old = r;
        new = record r { state = completed; updated_at = now };
        found = e;
        follows = complete-Follows now r (ground arith);
        stored = ground arith;
      }

  module _ (route : Route E) (res : Result E AdmissionResult) where
    pub submit_finish-Updates : submit_finish now route id reqs ≡ some (t, res) → Updates id reqs t
    unfolding submit_finish
    submit_finish-Updates h = go (lookup id reqs) refl
      where
        go : (o : Option GpuRequest) → lookup id reqs ≡ o → Updates id reqs t
        go none e = ground arith
        go (some r) e = record {
          old = r;
          new = (submit_settle now route r).0;
          found = e;
          follows = submit_settle-Follows now route r;
          stored = ground arith;
        }

    pub retry_finish-Updates : retry_finish now route id reqs ≡ some (t, res) → Updates id reqs t
    unfolding retry_finish
    retry_finish-Updates h = go (lookup id reqs) refl
      where
        go : (o : Option GpuRequest) → lookup id reqs ≡ o → Updates id reqs t
        go none e = ground arith
        go (some r) e = record {
          old = r;
          new = (retry_settle now route r).0;
          found = e;
          follows = retry_settle-Follows now route r;
          stored = ground arith;
        }

  pub submit_begin-Evolves :
      (req : GpuRequest)
      → submit_begin {E = E} now req reqs ≡ ok t
      → (j : String) → Evolves (lookup j reqs) (lookup j t)
  unfolding submit_begin
  submit_begin-Evolves req h j = go (validate req) refl (lookup req.id reqs) refl
    where
      go :
          (v : Option (RequestError E))
          → validate req ≡ v
          → (o : Option GpuRequest) → lookup req.id reqs ≡ o
          → Evolves (lookup j reqs) (lookup j t)
      go (some x) ev o e = ground arith
      go none ev (some r) e = ground arith
      go none ev none e =
          let born : GpuRequest = record req {
            state = pending;
            created_at = now;
            updated_at = now;
          } in
          let same : insert req.id born reqs ≡ t = ground arith in
          rw (← same) (Evolves-insert req.id born reqs (rw e refl) j)
