-- ===== src/Gpu/Requests/Presence.antt =====
-- The pointer that a second critical section of internal/gpu/request.go takes from the map
-- (`stored := m.reqs[id]`) is not nil.
use acm_caas_poc.Prelude.{
  ℕ, String, ◌≡◌, refl, Option, none, some, List, [], ◌∷◌, arith, eq_refl, All, lookup, insert,
  lookup-insert,
}
use acm_caas_poc.Gpu.Request.{pending, GpuRequest, AdmissionResult, Route, RequestError, Result, ok}
use acm_caas_poc.Gpu.Requests.{
  Requests, validate, submit_begin, submit_settle, retry_settle, submit_finish, retry_finish,
  retry_begin,
}
use acm_caas_poc.Gpu.Requests.Evolution.{Evolves}
use acm_caas_poc.Gpu.Requests.System.{
  Flight, submitting, retrying, target, Removed, head, tail, System, init, Step, submit_starts,
  submit_ends, retry_starts, retry_ends, cancels, starts, completes, Steps, done, then,
  Step-Evolves,
}

abbrev Present : Requests → Flight → Type 0
Present reqs f = (r : GpuRequest) × (lookup (target f) reqs ≡ some r)

Present-Evolves :
    (reqs t : Requests) (f : Flight)
    → Evolves (lookup (target f) reqs) (lookup (target f) t)
    → Present reqs f
    → Present t f
Present-Evolves reqs t f v (r, h) = go (lookup (target f) t) refl (rw h at v)
  where
    go : (o : Option GpuRequest) → lookup (target f) t ≡ o → Evolves (some r) o → Present t f
    go none e w = absurd w
    go (some r') e w = (r', e)

All-Present :
    (reqs t : Requests) (fs : List Flight)
    → ((j : String) → Evolves (lookup j reqs) (lookup j t))
    → All (Present reqs) fs
    → All (Present t) fs
All-Present reqs t [] v h = tt
All-Present reqs t (f ∷ fs) v h =
    (Present-Evolves reqs t f (v (target f)) h.0, All-Present reqs t fs v h.1)

All-Removed :
    (P : Flight → Type 0) {f : Flight} {xs ys : List Flight} → Removed f xs ys → All P xs → All P ys
All-Removed P head h = h.1
All-Removed P (tail m) h = (h.0, All-Removed P m h.1)

Removed-All :
    (P : Flight → Type 0) {f : Flight} {xs ys : List Flight} → Removed f xs ys → All P xs → P f
Removed-All P head h = h.0
Removed-All P (tail m) h = Removed-All P m h.1

submit_begin-Present :
    (E : Type 0) (now : ℕ) (req : GpuRequest) (reqs t : Requests)
    → submit_begin {E = E} now req reqs ≡ ok t
    → Present t (submitting req.id)
unfolding submit_begin
submit_begin-Present E now req reqs t h = go (validate req) refl (lookup req.id reqs) refl
  where
    go :
        (v : Option (RequestError E))
        → validate req ≡ v
        → (o : Option GpuRequest) → lookup req.id reqs ≡ o
        → Present t (submitting req.id)
    go (some x) ev o e = ground arith
    go none ev (some r) e = ground arith
    go none ev none e =
        let born : GpuRequest = record req {
          state = pending;
          created_at = now;
          updated_at = now;
        } in
        let same : insert req.id born reqs ≡ t = ground arith in
        (born, rw (← same) (simp (lookup-insert, eq_refl)))

retry_begin-Present :
    (E : Type 0) (id g : String) (reqs : Requests)
    → retry_begin {E = E} id reqs ≡ ok g
    → Present reqs (retrying id)
unfolding retry_begin
retry_begin-Present E id g reqs h = go (lookup id reqs) refl
  where
    go : (o : Option GpuRequest) → lookup id reqs ≡ o → Present reqs (retrying id)
    go none e = ground arith
    go (some r) e = (r, e)

abbrev AllPresent : System → Type 0
AllPresent s = All (Present s.reqs) s.flights

Step-AllPresent : (E : Type 0) {s t : System} → Step E s t → AllPresent s → AllPresent t
Step-AllPresent E {s} (submit_starts now req {t} h) p = (
  submit_begin-Present E now req s.reqs t h,
  All-Present s.reqs t s.flights (Step-Evolves {s = s} (submit_starts now req h)) p,
)
Step-AllPresent E {s} (submit_ends now route id res {t} {fs} m h) p =
    All-Present s.reqs t fs (Step-Evolves (submit_ends now route id res m h))
      (All-Removed (Present s.reqs) m p)
Step-AllPresent E {s} (retry_starts id g h) p = (retry_begin-Present E id g s.reqs h, p)
Step-AllPresent E {s} (retry_ends now route id res {t} {fs} m h) p =
    All-Present s.reqs t fs (Step-Evolves (retry_ends now route id res m h))
      (All-Removed (Present s.reqs) m p)
Step-AllPresent E {s} (cancels now id {t} h) p =
    All-Present s.reqs t s.flights (Step-Evolves {E = E} {s = s} (cancels now id h)) p
Step-AllPresent E {s} (starts now id {t} h) p =
    All-Present s.reqs t s.flights (Step-Evolves {E = E} {s = s} (starts now id h)) p
Step-AllPresent E {s} (completes now id {t} h) p =
    All-Present s.reqs t s.flights (Step-Evolves {E = E} {s = s} (completes now id h)) p

Steps-AllPresent : (E : Type 0) {s t : System} → Steps E s t → AllPresent s → AllPresent t
Steps-AllPresent E done p = p
Steps-AllPresent E (then run step) p = Step-AllPresent E step (Steps-AllPresent E run p)

-- The second critical section of a call in flight, returning a map and a result.
abbrev Finishes : (E : Type 0) → ℕ → Route E → Requests → Flight → Type 0
Finishes E now route reqs (submitting id) =
    (out : Requests × Result E AdmissionResult) × (submit_finish now route id reqs ≡ some out)
Finishes E now route reqs (retrying id) =
    (out : Requests × Result E AdmissionResult) × (retry_finish now route id reqs ≡ some out)

Present-Finishes :
    (E : Type 0) (now : ℕ) (route : Route E) (reqs : Requests) (f : Flight)
    → Present reqs f
    → Finishes E now route reqs f
unfolding submit_finish retry_finish
Present-Finishes E now route reqs (submitting id) (r, h) =
    let out = submit_settle now route r in ((insert id out.0 reqs, out.1), ground arith)
Present-Finishes E now route reqs (retrying id) (r, h) =
    let out = retry_settle now route r in ((insert id out.0 reqs, out.1), ground arith)

-- From a new manager, after any interleaving of calls, the second critical section of every
-- submission and every retry in flight finds its request: it returns a map and a result, whatever
-- the routing answered, and never dereferences nil.
pub finish_never_nil :
    (E : Type 0) {s : System} {f : Flight} {fs : List Flight} (now : ℕ) (route : Route E)
    → Steps E init s
    → Removed f s.flights fs
    → Finishes E now route s.reqs f
finish_never_nil E {s} {f} {fs} now route run m =
    Present-Finishes E now route s.reqs f
      (Removed-All (Present s.reqs) m (Steps-AllPresent E run tt))
