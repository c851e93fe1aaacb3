-- ===== src/Gpu/Requests/Outcomes.antt =====
-- The outcome of whole calls of internal/gpu/request.go.
use acm_caas_poc.Prelude.{
  ℕ, ◌<◌, String, ◌≡◌, refl, ap, ◌∙◌, ◌≢◌, ◌↔◌, none, some, [], arith, eq_iff, lookup, insert,
  lookup-insert_self,
}
use acm_caas_poc.Prelude.Int.{pos_part}
use acm_caas_poc.Gpu.Request.{
  pending, admitted, GpuRequest, AdmissionResult, RouteError, Route, routed, route_failed,
  duplicate_request, Result, ok, err,
}
use acm_caas_poc.Gpu.Requests.{
  Requests, admission, validate, submit_begin, submit_settle, retry_settle, submit_finish,
  retry_finish, retry_begin, get_request_status, submit_request, retry_request,
}

-- What `SubmitRequest` asks of a new request.
pub record Acceptable (req : GpuRequest) (reqs : Requests) : Type 0 where
  pub has_id : req.id ≢ ""
  pub has_tenant : req.tenant ≢ ""
  pub has_gpu_type : req.gpu_type ≢ ""
  pub positive : 0 < pos_part req.quantity
  pub is_new : lookup req.id reqs ≡ none

abbrev pub stored_as : ℕ → GpuRequest → GpuRequest
stored_as now req = record req { state = pending; created_at = now; updated_at = now }

-- The first critical section of SubmitRequest accepts exactly the requests with an ID, a tenant, a
-- GPU type, a positive quantity and an ID that is not stored, and then stores the request as
-- `Pending` under its ID.
pub submit_begin_iff :
    (E : Type 0) (now : ℕ) (req : GpuRequest) (reqs : Requests)
    → (submit_begin {E = E} now req reqs ≡ ok (insert req.id (stored_as now req) reqs))
      ↔ Acceptable req reqs
unfolding submit_begin validate
submit_begin_iff E now req reqs = (
  λ h. record {
    has_id = ground (arith, eq_iff req.id "");
    has_tenant = ground (arith, eq_iff req.tenant "");
    has_gpu_type = ground (arith, eq_iff req.gpu_type "");
    positive = ground arith;
    is_new = ground arith;
  },
  λ a. ground (arith, eq_iff req.id "", eq_iff req.tenant "", eq_iff req.gpu_type ""),
)

module _ (E : Type 0) (now later : ℕ) (req : GpuRequest) (reqs : Requests) where
  begin_ok :
      Acceptable req reqs
      → submit_begin {E = E} now req reqs ≡ ok (insert req.id (stored_as now req) reqs)
  begin_ok a = (submit_begin_iff E now req reqs).1 a

  submit_request_lem :
      (route : Route E)
      → Acceptable req reqs
      → let out = submit_settle later route (stored_as now req) in
        submit_request now later route req reqs
        ≡ some (insert req.id out.0 (insert req.id (stored_as now req) reqs), out.1)
  unfolding submit_request submit_finish
  submit_request_lem route a =
      ground (arith, begin_ok a, lookup-insert_self req.id (stored_as now req) reqs)

-- `r` is stored under `id`, and can be retried.
record Waits (id : String) (t : Requests) (r : GpuRequest) : Type 0 where
  stored : lookup id t ≡ some r
  is_waiting : r.state ≡ pending

module _ (E : Type 0) (now : ℕ) where
  retry_of_Waits :
      (id c : String) (t : Requests) (r : GpuRequest)
      → Waits id t r
      → retry_request {E = E} now (routed c) id t
        ≡ some (
          insert id (record r { state = admitted; cluster = c; reason = ""; updated_at = now }) t,
          ok (admission c),
        )
  unfolding retry_request retry_begin retry_finish retry_settle
  retry_of_Waits id c t r w = ground arith

  duplicate_of_Waits :
      (req : GpuRequest) (t : Requests) (r : GpuRequest)
      → Acceptable req []
      → Waits req.id t r
      → submit_begin {E = E} now req t ≡ err duplicate_request
  unfolding submit_begin validate
  duplicate_of_Waits req t r a w =
      ground (arith, eq_iff req.id "", eq_iff req.tenant "", eq_iff req.gpu_type "")

  status_of_insert :
      (id : String) (r : GpuRequest) (t : Requests)
      → get_request_status {E = E} id (insert id r t) ≡ ok r
  unfolding get_request_status
  status_of_insert id r t = ground (arith, lookup-insert_self id r t)

module _ (E : Type 0) (now later : ℕ) (req : GpuRequest) where
  -- The entry that a failed routing leaves.
  abbrev left : RouteError E → GpuRequest
  left e = (submit_settle later (route_failed e) (stored_as now req)).0

  left-pending : (e : RouteError E) → (left e).state ≡ pending
  unfolding submit_settle
  left-pending e = ground arith

  left-admitted :
      (e : RouteError E) (again : ℕ) (c : String)
      → record (left e) { state = admitted; cluster = c; reason = ""; updated_at = again }
        ≡ record req {
          state = admitted;
          cluster = c;
          reason = "";
          created_at = now;
          updated_at = again;
        }
  unfolding submit_settle
  left-admitted e again c = ground arith

  left-Waits :
      (e : RouteError E) (reqs t : Requests) (res : Result E AdmissionResult)
      → Acceptable req reqs
      → submit_request now later (route_failed e) req reqs ≡ some (t, res)
      → Waits req.id t (left e)
  left-Waits e reqs t res a h = record {
    stored =
        let same = submit_request_lem E now later req reqs (route_failed e) a in
        let same_t : insert req.id (left e) (insert req.id (stored_as now req) reqs) ≡ t = cc in
        rw (← same_t) (lookup-insert_self req.id (left e) _);
    is_waiting = left-pending e;
  }

-- However the routing of an accepted submission fails, the request stays stored and `Pending`:
-- submitting it again is refused as a duplicate, and a retry that is routed to a cluster admits it
-- there, with the submitted fields unchanged, the reason cleared and the time of the first
-- submission kept.
pub submit_fails_then_retry :
    (E : Type 0) (now later again : ℕ) (c : String) (e : RouteError E) (req : GpuRequest)
    (reqs t : Requests) (res : Result E AdmissionResult)
    → Acceptable req reqs
    → submit_request now later (route_failed e) req reqs ≡ some (t, res)
    → (submit_begin {E = E} again req t ≡ err duplicate_request)
      × ((t' : Requests) × (retry_request {E = E} again (routed c) req.id t
            ≡ some (t', ok (admission c)))
          × (get_request_status {E = E} req.id t'
              ≡ ok (record req {
                state = admitted;
                cluster = c;
                reason = "";
                created_at = now;
                updated_at = again;
              })))
unfolding lookup
submit_fails_then_retry E now later again c e req reqs t res a h =
    let w = left-Waits E now later req e reqs t res a h in
    let r = left E now later req e in
    (
      duplicate_of_Waits E again req t r
          (record {
            has_id = a.has_id;
            has_tenant = a.has_tenant;
            has_gpu_type = a.has_gpu_type;
            positive = a.positive;
            is_new = refl;
          })
          w,
      (
        insert req.id (record r { state = admitted; cluster = c; reason = ""; updated_at = again })
            t,
        retry_of_Waits E again req.id c t r w,
        status_of_insert E again req.id _ t ∙ ap ok (left-admitted E now later req e again c),
      ),
    )
