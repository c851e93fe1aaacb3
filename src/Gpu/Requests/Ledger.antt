-- ===== src/Gpu/Requests/Ledger.antt =====
-- internal/gpu/request.go keeps the contract of Calls: a run of calls in any interleaving is a run
-- of the ledger.
pub mod Calls
pub mod Sections
use acm_caas_poc.Prelude.{none, List, [], ◌∷◌, lookup}
use acm_caas_poc.Gpu.Requests.System.{
  System, init, Step, submit_starts, submit_ends, retry_starts, retry_ends, cancels, starts,
  completes, Steps, done, then,
}
use acm_caas_poc.Gpu.Requests.Ledger.Calls.{
  Call, entering, looking, withdrawing, using_it, releasing, routing_to, Does, Runs, at_start,
  moved_on, ledger,
}
use acm_caas_poc.Gpu.Requests.Ledger.Sections.{
  found_by, submit_begin-Does, start_request-Does, complete_request-Does, cancel_request-Does,
  retry_begin-Does, submit_finish-Does, retry_finish-Does,
}

module _ {E : Type 0} where
  -- What a critical section asks of the ledger.
  abbrev pub call_of : {s t : System} → Step E s t → Call
  call_of (submit_starts now req _) = entering req.id
  call_of (submit_ends now route id res _ _) = routing_to id (found_by route)
  call_of (retry_starts id gpu_type _) = looking id
  call_of (retry_ends now route id res _ _) = routing_to id (found_by route)
  call_of (cancels now id _) = withdrawing id
  call_of (starts now id _) = using_it id
  call_of (completes now id _) = releasing id

  abbrev pub calls_of : {s t : System} → Steps E s t → List Call
  calls_of done = []
  calls_of ((then) run step) = call_of step ∷ calls_of run

  Step-Does :
      {s t : System} (step : Step E s t) → Does (ledger s.reqs) (call_of step) (ledger t.reqs)
  Step-Does {s = s} (submit_starts now req {t} h) = submit_begin-Does now s.reqs t req h
  Step-Does {s = s} (submit_ends now route id res {t} _ h) =
      submit_finish-Does now s.reqs t id route res h
  Step-Does {s = s} (retry_starts id g h) = retry_begin-Does 0 s.reqs s.reqs id g h
  Step-Does {s = s} (retry_ends now route id res {t} _ h) =
      retry_finish-Does now s.reqs t id route res h
  Step-Does {s = s} (cancels now id {t} h) = cancel_request-Does now s.reqs t id h
  Step-Does {s = s} (starts now id {t} h) = start_request-Does now s.reqs t id h
  Step-Does {s = s} (completes now id {t} h) = complete_request-Does now s.reqs t id h

  Steps-Runs_from :
      {s t : System} (run : Steps E s t) → Runs (ledger s.reqs) (calls_of run) (ledger t.reqs)
  Steps-Runs_from done = at_start
  Steps-Runs_from ((then) run step) = moved_on (Steps-Runs_from run) (Step-Does step)

  -- A new manager implements an atomic ledger of requests: whatever calls run and however their
  -- critical sections interleave, the ledger, asked the same in the same order, makes for each
  -- section the one move that was asked for. A submission enters a new request as queued; a retry
  -- begins only on a queued one and changes nothing; a routing that ends places a queued request
  -- at the cluster that was found, leaves it queued if none was found, and changes nothing of a
  -- request that is no longer queued; a start uses a placed request where it was placed; a
  -- completion releases a placed or used one there; and a cancellation withdraws one that was
  -- neither released nor withdrawn.
  pub Steps-Runs :
      {s : System} (run : Steps E init s) → Runs (λ j. none) (calls_of run) (ledger s.reqs)
  unfolding lookup
  Steps-Runs run = Steps-Runs_from run
