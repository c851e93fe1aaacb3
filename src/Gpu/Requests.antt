-- ===== src/Gpu/Requests.antt =====
-- internal/gpu/request.go: the operations of `Manager` on its map of requests. `SubmitRequest` and
-- `RetryRequest` release the mutex while they route, so each is two critical sections: a `begin`
-- and a `finish` that is handed the outcome of the routing. The others hold the mutex throughout.
-- Each `now` is one reading of the clock.
pub mod Evolution
pub mod Presence
pub mod Outcomes
pub mod System
pub mod Lifetimes
pub mod Ledger
use acm_caas_poc.Prelude.{
  ℕ, String, true, false, ◌&&◌, ◌||◌, not, Option, none, some, ◌==◌, if◌then◌else◌, Map, lookup,
  insert,
}
use acm_caas_poc.Prelude.Int.{is_nonpositive}
use acm_caas_poc.Gpu.Request.{
  RequestState, pending, admitted, running, completed, cancelled, GpuRequest, Reason, no_reason,
  placement_pending, no_matching_cluster, moved_to, AdmissionResult, gpu_pending, gpu_no_match,
  other, Route, routed, route_failed, RequestError, id_required, tenant_required, gpu_type_required,
  quantity_not_positive, request_not_found, duplicate_request, request_terminal, request_cancelled,
  request_not_pending, request_not_admitted, cannot_complete, routing, Result, ok, err, is_pending,
  is_admitted, is_running, is_cancelled, is_completed,
}

abbrev pub Requests : Type 0
Requests = Map GpuRequest

-- What both second sections return for a request that left `Pending` meanwhile.
abbrev moved : RequestState → AdmissionResult
moved s = record { admitted = false; cluster = ""; reason = moved_to s; state = s }

-- What both return for a request that stays `Pending`.
abbrev waiting : Reason → AdmissionResult
waiting r = record { admitted = false; cluster = ""; reason = r; state = pending }

abbrev pub admission : String → AdmissionResult
admission c = record { admitted = true; cluster = c; reason = no_reason; state = admitted }

-- `stored.Reason = reason; stored.UpdatedAt = time.Now()`
abbrev hold : ℕ → String → GpuRequest → GpuRequest
hold now text req = record req { reason = text; updated_at = now }

-- `stored := m.reqs[id]` and the writes through that pointer. `none` is the nil dereference.
abbrev at_stored :
    {A : Type 0} → (GpuRequest → GpuRequest × A) → String → Requests → Option (Requests × A)
at_stored f id reqs = elim (lookup id reqs) [
  | none ↦ none
  | some req ↦ let (req', a) = f req in some (insert id req' reqs, a)
]

module _ {E : Type 0} where
  -- The guards of `SubmitRequest` before it takes the mutex; `none` means that all passed.
  unfoldable pub validate : GpuRequest → Option (RequestError E)
  validate req =
      if req.id == ""
      then some id_required
      else if req.tenant == ""
      then some tenant_required
      else if req.gpu_type == ""
      then some gpu_type_required
      else if is_nonpositive req.quantity
      then some quantity_not_positive
      else none

  -- `SubmitRequest` up to the first `m.mu.Unlock()`: the new map, or the error.
  unfoldable pub submit_begin : ℕ → GpuRequest → Requests → Result E Requests
  submit_begin now req reqs = elim (validate req) [
    | some e ↦ err e
    | none ↦ elim (lookup req.id reqs) [
      | some _ ↦ err duplicate_request
      | none ↦
          ok (
            insert req.id (record req { state = pending; created_at = now; updated_at = now }) reqs)
    ]
  ]

  -- The second section of `SubmitRequest`, given the stored request.
  unfoldable pub submit_settle : ℕ → Route E → GpuRequest → GpuRequest × Result E AdmissionResult
  submit_settle now route req =
      if not (is_pending req.state) then (req, ok (moved req.state)) else elim route [
        | route_failed gpu_no_match ↦
            (hold now "no matching cluster" req, ok (waiting no_matching_cluster))
        | route_failed gpu_pending ↦
            (hold now "placement pending" req, ok (waiting placement_pending))
        | route_failed (other e) ↦ (req, err (routing e))
        | routed c ↦
            (record req { state = admitted; cluster = c; updated_at = now }, ok (admission c))
      ]

  -- The second section of `RetryRequest`: an admission also clears the reason.
  unfoldable pub retry_settle : ℕ → Route E → GpuRequest → GpuRequest × Result E AdmissionResult
  retry_settle now route req =
      if not (is_pending req.state) then (req, ok (moved req.state)) else elim route [
        | route_failed gpu_no_match ↦
            (hold now "no matching cluster" req, ok (waiting no_matching_cluster))
        | route_failed gpu_pending ↦
            (hold now "placement pending" req, ok (waiting placement_pending))
        | route_failed (other e) ↦ (req, err (routing e))
        | routed c ↦ (
          record req { state = admitted; cluster = c; reason = ""; updated_at = now },
          ok (admission c),
        )
      ]

  unfoldable pub submit_finish :
      ℕ → Route E → String → Requests → Option (Requests × Result E AdmissionResult)
  submit_finish now route id reqs = at_stored (submit_settle now route) id reqs

  unfoldable pub retry_finish :
      ℕ → Route E → String → Requests → Option (Requests × Result E AdmissionResult)
  retry_finish now route id reqs = at_stored (retry_settle now route) id reqs

  -- `RetryRequest` up to the second `m.mu.Unlock()`: the GPU type to route, or the error.
  unfoldable pub retry_begin : String → Requests → Result E String
  retry_begin id reqs = elim (lookup id reqs) [
    | none ↦ err request_not_found
    | some req ↦ if not (is_pending req.state) then err request_not_pending else ok req.gpu_type
  ]

  -- `GetRequestStatus` returns a copy.
  unfoldable pub get_request_status : String → Requests → Result E GpuRequest
  get_request_status id reqs = elim (lookup id reqs) [
    | none ↦ err request_not_found
    | some req ↦ ok req
  ]

  unfoldable pub cancel_request : ℕ → String → Requests → Result E Requests
  cancel_request now id reqs = elim (lookup id reqs) [
    | none ↦ err request_not_found
    | some req ↦
        if is_completed req.state || is_cancelled req.state
        then err request_terminal
        else ok (insert id (record req { state = cancelled; updated_at = now }) reqs)
  ]

  unfoldable pub start_request : ℕ → String → Requests → Result E Requests
  start_request now id reqs = elim (lookup id reqs) [
    | none ↦ err request_not_found
    | some req ↦
        if not (is_admitted req.state)
        then err request_not_admitted
        else ok (insert id (record req { state = running; updated_at = now }) reqs)
  ]

  unfoldable pub complete_request : ℕ → String → Requests → Result E Requests
  complete_request now id reqs = elim (lookup id reqs) [
    | none ↦ err request_not_found
    | some req ↦
        if is_cancelled req.state
        then err request_cancelled
        else if not (is_running req.state) && not (is_admitted req.state)
        then err (cannot_complete req.state)
        else ok (insert id (record req { state = completed; updated_at = now }) reqs)
  ]

  -- `SubmitRequest` and `RetryRequest` where no other call comes between their two sections. The
  -- outcome of the routing and the two readings of the clock are arguments.
  unfoldable pub submit_request :
      ℕ → ℕ → Route E → GpuRequest → Requests → Option (Requests × Result E AdmissionResult)
  submit_request now later route req reqs = elim (submit_begin now req reqs) [
    | err e ↦ some (reqs, err e)
    | ok started ↦ submit_finish later route req.id started
  ]

  unfoldable pub retry_request :
      ℕ → Route E → String → Requests → Option (Requests × Result E AdmissionResult)
  retry_request now route id reqs = elim (retry_begin id reqs) [
    | err e ↦ some (reqs, err e)
    | ok _ ↦ retry_finish now route id reqs
  ]
