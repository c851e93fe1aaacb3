-- ===== src/Examples/Gpu.antt =====
-- internal/gpu/request.go: runs of one or two calls.
use acm_caas_poc.Prelude.{◌≡◌, refl, ◌↔◌, false, none, some, [], ◌∷◌, arith, lookup, insert}
use acm_caas_poc.Prelude.Int.{pos}
use acm_caas_poc.Gpu.Request.{
  pending, admitted, running, cancelled, GpuRequest, moved_to, AdmissionResult, other, routed,
  route_failed, duplicate_request, routing, Result, ok, err,
}
use acm_caas_poc.Gpu.Requests.{
  Requests, admission, validate, submit_begin, submit_settle, submit_finish, get_request_status,
  cancel_request, start_request, submit_request, retry_request,
}
use acm_caas_poc.Gpu.Requests.System.{
  submitting, head, System, init, submit_starts, submit_ends, cancels, starts, Steps, done, then,
}
use acm_caas_poc.Gpu.Requests.Lifetimes.{Settled, cluster_fixed, terminal_frozen}
use acm_caas_poc.Gpu.Requests.Presence.{finish_never_nil}
use acm_caas_poc.Gpu.Requests.Outcomes.{
  Acceptable, stored_as, submit_begin_iff, submit_fails_then_retry,
}
use acm_caas_poc.Gpu.Requests.Ledger.Calls.{entering, Runs, ledger}
use acm_caas_poc.Gpu.Requests.Ledger.{Steps-Runs}

abbrev wanted : GpuRequest
wanted = record {
  id = "r1";
  tenant = "team";
  gpu_type = "a100";
  quantity = pos 2;
  state = pending;
  cluster = "";
  reason = "";
  created_at = 0;
  updated_at = 0;
}

abbrev submitted : GpuRequest
submitted = record wanted { created_at = 5; updated_at = 5 }

abbrev withdrawn : GpuRequest
withdrawn = record submitted { state = cancelled; updated_at = 7 }

abbrev admitted_there : GpuRequest
admitted_there = record submitted { state = admitted; cluster = "east"; updated_at = 7 }

abbrev only : GpuRequest → Requests
only r = ("r1", r) ∷ []

abbrev flying : System
flying = record { reqs = only submitted; flights = submitting "r1" ∷ [] }

-- A submission whose routing is under way.
submission : Steps Unit init flying
unfolding submit_begin validate lookup insert
submission = then done (submit_starts 5 wanted refl)

-- It is cancelled during the routing.
cancellation : Steps Unit flying (record { reqs = only withdrawn; flights = submitting "r1" ∷ [] })
unfolding cancel_request lookup insert
cancellation = then done (cancels 7 "r1" refl)

-- The routing of a cancelled submission ends with a cluster.
late_routing :
    Steps Unit
      (record { reqs = only withdrawn; flights = submitting "r1" ∷ [] })
      (record { reqs = only withdrawn; flights = [] })
unfolding submit_finish submit_settle lookup insert
late_routing = then done (
    submit_ends 9 (routed "east") "r1"
      (ok
        (record { admitted = false; cluster = ""; reason = moved_to cancelled; state = cancelled }))
      head refl)

withdrawn_stored : lookup "r1" (only withdrawn) ≡ some withdrawn
unfolding lookup
withdrawn_stored = refl

terminal_frozen_example : lookup "r1" (only withdrawn) ≡ some withdrawn
terminal_frozen_example = terminal_frozen Unit "r1" withdrawn late_routing withdrawn_stored refl

-- An admitted request is started.
start_of_admitted :
    Steps Unit
      (record { reqs = only admitted_there; flights = [] })
      (record {
        reqs = only (record admitted_there { state = running; updated_at = 9 });
        flights = [];
      })
unfolding start_request lookup insert
start_of_admitted = then done (starts 9 "r1" refl)

admitted_stored : lookup "r1" (only admitted_there) ≡ some admitted_there
unfolding lookup
admitted_stored = refl

cluster_fixed_example :
    Settled (only (record admitted_there { state = running; updated_at = 9 })) "r1" admitted_there
cluster_fixed_example =
    cluster_fixed Unit "r1" admitted_there start_of_admitted admitted_stored refl

finish_never_nil_example :
    (out : Requests × Result Unit AdmissionResult) × (submit_finish {E = Unit} 9
        (routed "east")
        "r1"
        (only submitted)
      ≡ some out)
finish_never_nil_example = finish_never_nil Unit 9 (routed "east") submission head

Steps-Runs_example : Runs (λ j. none) (entering "r1" ∷ []) (ledger (only submitted))
unfolding submission
Steps-Runs_example = Steps-Runs submission

acceptable : Acceptable wanted []
unfolding lookup
acceptable = record {
  has_id = λ e. cc;
  has_tenant = λ e. cc;
  has_gpu_type = λ e. cc;
  positive = omega arith;
  is_new = refl;
}

submit_begin_iff_example :
    (submit_begin {E = Unit} 5 wanted [] ≡ ok (insert "r1" (stored_as 5 wanted) []))
    ↔ Acceptable wanted []
submit_begin_iff_example = submit_begin_iff Unit 5 wanted []

pending_left :
    submit_request {E = Unit} 5 7 (route_failed (other tt)) wanted []
    ≡ some (only submitted, err (routing tt))
unfolding submit_request submit_begin validate submit_finish submit_settle lookup insert
pending_left = refl

submit_fails_then_retry_example :
    (submit_begin {E = Unit} 9 wanted (only submitted) ≡ err duplicate_request)
    × ((t : Requests) × (retry_request {E = Unit} 9 (routed "east") "r1" (only submitted)
          ≡ some (t, ok (admission "east")))
        × (get_request_status {E = Unit} "r1" t
            ≡ ok (record wanted {
              state = admitted;
              cluster = "east";
              reason = "";
              created_at = 5;
              updated_at = 9;
            })))
submit_fails_then_retry_example =
    submit_fails_then_retry Unit 5 7 9 "east" (other tt) wanted [] (only submitted)
      (err (routing tt)) acceptable pending_left
