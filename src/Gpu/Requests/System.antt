-- ===== src/Gpu/Requests/System.antt =====
-- Concurrent callers of internal/gpu/request.go. A submission or a retry is in flight between its
-- two critical sections; between any two sections of one call those of other calls may run.
use acm_caas_poc.Prelude.{ℕ, String, ◌≡◌, some, List, [], ◌∷◌, lookup}
use acm_caas_poc.Gpu.Request.{GpuRequest, AdmissionResult, Route, Result, ok}
use acm_caas_poc.Gpu.Requests.{
  Requests, submit_begin, submit_finish, retry_finish, retry_begin, cancel_request, start_request,
  complete_request,
}
use acm_caas_poc.Gpu.Requests.Evolution.{
  Evolves, Evolves-refl, Updates-Evolves, cancel_request-Updates, start_request-Updates,
  complete_request-Updates, submit_finish-Updates, retry_finish-Updates, submit_begin-Evolves,
}

pub data Flight : Type 0 where
  submitting retrying : String → Flight

-- The request that the second section will look up.
abbrev pub target : Flight → String
target (submitting id) = id
target (retrying id) = id

-- `ys` is `xs` with one occurrence of `x` taken out.
pub data Removed (x : Flight) : List Flight → List Flight → Type 0 where
  head : {xs : List Flight} → Removed x (x ∷ xs) xs
  tail : {y : Flight} {xs ys : List Flight} → Removed x xs ys → Removed x (y ∷ xs) (y ∷ ys)

pub record System : Type 0 where
  pub reqs : Requests
  pub flights : List Flight

-- A new `Manager`.
abbrev pub init : System
init = record { reqs = []; flights = [] }

-- One critical section that does not return an error before its first write.
pub data Step (E : Type 0) (s : System) : System → Type 0 where
  submit_starts :
      (now : ℕ) (req : GpuRequest) {t : Requests}
      → submit_begin {E = E} now req s.reqs ≡ ok t
      → Step E s (record { reqs = t; flights = submitting req.id ∷ s.flights })
  submit_ends :
      (now : ℕ) (route : Route E) (id : String) (res : Result E AdmissionResult) {t : Requests}
      {fs : List Flight}
      → Removed (submitting id) s.flights fs
      → submit_finish now route id s.reqs ≡ some (t, res)
      → Step E s (record { reqs = t; flights = fs })
  retry_starts :
      (id gpu_type : String)
      → retry_begin {E = E} id s.reqs ≡ ok gpu_type
      → Step E s (record { reqs = s.reqs; flights = retrying id ∷ s.flights })
  retry_ends :
      (now : ℕ) (route : Route E) (id : String) (res : Result E AdmissionResult) {t : Requests}
      {fs : List Flight}
      → Removed (retrying id) s.flights fs
      → retry_finish now route id s.reqs ≡ some (t, res)
      → Step E s (record { reqs = t; flights = fs })
  cancels :
      (now : ℕ) (id : String) {t : Requests}
      → cancel_request {E = E} now id s.reqs ≡ ok t
      → Step E s (record { reqs = t; flights = s.flights })
  starts :
      (now : ℕ) (id : String) {t : Requests}
      → start_request {E = E} now id s.reqs ≡ ok t
      → Step E s (record { reqs = t; flights = s.flights })
  completes :
      (now : ℕ) (id : String) {t : Requests}
      → complete_request {E = E} now id s.reqs ≡ ok t
      → Step E s (record { reqs = t; flights = s.flights })

pub data Steps (E : Type 0) (s : System) : System → Type 0 where
  done : Steps E s s
  then : {t u : System} → Steps E s t → Step E t u → Steps E s u

-- Every critical section moves each request along the edges of `Follows`.
pub Step-Evolves :
    {E : Type 0} {s t : System}
    → Step E s t
    → (j : String) → Evolves (lookup j s.reqs) (lookup j t.reqs)
Step-Evolves {s = s} (submit_starts now req {t} h) = submit_begin-Evolves now req.id s.reqs t req h
Step-Evolves {s = s} (submit_ends now route id res {t} _ h) =
    Updates-Evolves id s.reqs t (submit_finish-Updates now id s.reqs t route res h)
Step-Evolves {s = s} (retry_starts id g h) = λ j. Evolves-refl (lookup j s.reqs)
Step-Evolves {s = s} (retry_ends now route id res {t} _ h) =
    Updates-Evolves id s.reqs t (retry_finish-Updates now id s.reqs t route res h)
Step-Evolves {E} {s = s} (cancels now id {t} h) =
    Updates-Evolves id s.reqs t (cancel_request-Updates {E = E} now id s.reqs t h)
Step-Evolves {E} {s = s} (starts now id {t} h) =
    Updates-Evolves id s.reqs t (start_request-Updates {E = E} now id s.reqs t h)
Step-Evolves {E} {s = s} (completes now id {t} h) =
    Updates-Evolves id s.reqs t (complete_request-Updates {E = E} now id s.reqs t h)
