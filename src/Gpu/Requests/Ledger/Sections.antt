-- ===== src/Gpu/Requests/Ledger/Sections.antt =====
-- Each critical section of internal/gpu/request.go as one move of the ledger.
use acm_caas_poc.Prelude.{
  ℕ, String, ◌≡◌, refl, sym, ap, ◌∙◌, inl, inr, true, false, ◌||◌, Option, none, some, arith, ◌==◌,
  eq_iff, Bool-cases, lookup, insert, lookup-insert,
}
use acm_caas_poc.Gpu.Request.{
  RequestState, pending, admitted, running, completed, cancelled, failed, GpuRequest,
  AdmissionResult, RouteError, Route, routed, route_failed, RequestError, Result, ok, is_pending,
  is_cancelled, is_completed,
}
use acm_caas_poc.Gpu.Requests.{
  Requests, moved, validate, submit_begin, submit_settle, retry_settle, submit_finish, retry_finish,
  retry_begin, cancel_request, start_request, complete_request,
}
use acm_caas_poc.Gpu.Requests.Ledger.Calls.{
  Life, Ledger, note, is_open, is_queued, Call, entering, looking, withdrawing, using_it, releasing,
  routing_to, Does, enter, look, place, stay_queued, too_late, use_it, release, withdraw, life_of,
  ledger,
}
use mathlib.Core.Path.{fun_ext}

ledger-insert :
    (id : String) (r : GpuRequest) (reqs : Requests)
    → note (ledger reqs) id (life_of r.state r.cluster) ≡ ledger (insert id r reqs)
ledger-insert id r reqs =
    fun_ext
      λ j. rw lookup-insert (elim (Bool-cases (id == j)) [ inl e ↦ rw e refl | inr e ↦ rw e refl ])

note-same : (f : Ledger) (id : String) (l : Life) → f id ≡ some l → note f id l ≡ f
note-same f id l e = fun_ext λ j. elim (Bool-cases (id == j)) [
  | inl same ↦ rw same (sym e ∙ ap f ((eq_iff id j).0 same))
  | inr differs ↦ rw differs refl
]

-- What the map tells of an entry, and what a write tells the ledger.
told :
    (id : String) (r : GpuRequest) (st : RequestState) (reqs : Requests)
    → lookup id reqs ≡ some r
    → r.state ≡ st
    → ledger reqs id ≡ some (life_of st r.cluster)
told id r st reqs e es = rw (e, es) refl

module _ (c : Call) (id : String) (r new : GpuRequest) (reqs t : Requests) where
  written :
      insert id new reqs ≡ t
      → Does (ledger reqs) c (note (ledger reqs) id (life_of new.state new.cluster))
      → Does (ledger reqs) c (ledger t)
  written same move = rw (← same, ← ledger-insert id new reqs) move

  rewritten :
      (st : RequestState)
      → insert id new reqs ≡ t
      → lookup id reqs ≡ some r
      → r.state ≡ st
      → life_of new.state new.cluster ≡ life_of st r.cluster
      → Does (ledger reqs) c (ledger reqs)
      → Does (ledger reqs) c (ledger t)
  rewritten st same e es kept move =
      written same
        (rw (kept, note-same (ledger reqs) id (life_of st r.cluster) (told id r st reqs e es)) move)

-- The cluster that the routing found.
abbrev pub found_by : {E : Type 0} → Route E → Option String
found_by (routed c) = some c
found_by (route_failed _) = none

module _ {E : Type 0} where
  module _ (now : ℕ) (reqs t : Requests) where
    pub submit_begin-Does :
        (req : GpuRequest)
        → submit_begin {E = E} now req reqs ≡ ok t
        → Does (ledger reqs) (entering req.id) (ledger t)
    unfolding submit_begin
    submit_begin-Does req h = go (validate req) refl (lookup req.id reqs) refl
      where
        go :
            (v : Option (RequestError E))
            → validate req ≡ v
            → (o : Option GpuRequest) → lookup req.id reqs ≡ o
            → Does (ledger reqs) (entering req.id) (ledger t)
        go (some x) ev o e = ground arith
        go none ev (some r) e = ground arith
        go none ev none e =
            let born : GpuRequest = record req {
              state = pending;
              created_at = now;
              updated_at = now;
            } in
            written (entering req.id) req.id born born reqs t (ground arith)
              (enter req.id (rw e refl))

    module _ (id : String) where
      pub start_request-Does :
          start_request {E = E} now id reqs ≡ ok t → Does (ledger reqs) (using_it id) (ledger t)
      unfolding start_request
      start_request-Does h = go (lookup id reqs) refl
        where
          at_state :
              (r : GpuRequest) (st : RequestState)
              → lookup id reqs ≡ some r
              → r.state ≡ st
              → Does (ledger reqs) (using_it id) (ledger t)
          at_state r admitted e es =
              written (using_it id) id r (record r { state = running; updated_at = now }) reqs t
                (ground arith) (use_it id r.cluster (told id r admitted reqs e es))
          at_state r _ e es = ground arith

          go :
              (o : Option GpuRequest)
              → lookup id reqs ≡ o
              → Does (ledger reqs) (using_it id) (ledger t)
          go none e = ground arith
          go (some r) e = at_state r r.state e refl

      pub complete_request-Does :
          complete_request {E = E} now id reqs ≡ ok t → Does (ledger reqs) (releasing id) (ledger t)
      unfolding complete_request
      complete_request-Does h = go (lookup id reqs) refl
        where
          at_state :
              (r : GpuRequest) (st : RequestState)
              → lookup id reqs ≡ some r
              → r.state ≡ st
              → Does (ledger reqs) (releasing id) (ledger t)
          at_state r admitted e es =
              written (releasing id) id r (record r { state = completed; updated_at = now }) reqs t
                (ground arith) (release id r.cluster (inl (told id r admitted reqs e es)))
          at_state r running e es =
              written (releasing id) id r (record r { state = completed; updated_at = now }) reqs t
                (ground arith) (release id r.cluster (inr (told id r running reqs e es)))
          at_state r _ e es = ground arith

          go :
              (o : Option GpuRequest)
              → lookup id reqs ≡ o
              → Does (ledger reqs) (releasing id) (ledger t)
          go none e = ground arith
          go (some r) e = at_state r r.state e refl

      pub cancel_request-Does :
          cancel_request {E = E} now id reqs ≡ ok t → Does (ledger reqs) (withdrawing id) (ledger t)
      unfolding cancel_request
      cancel_request-Does h = go (lookup id reqs) refl
        where
          at_state :
              (r : GpuRequest) (st : RequestState)
              → (is_completed st || is_cancelled st) ≡ false
              → is_open (life_of st r.cluster) ≡ true
              → lookup id reqs ≡ some r
              → r.state ≡ st
              → Does (ledger reqs) (withdrawing id) (ledger t)
          at_state r st live is_live e es =
              written (withdrawing id) id r (record r { state = cancelled; updated_at = now }) reqs
                t (ground arith)
                (withdraw id (life_of st r.cluster) (told id r st reqs e es) is_live)

          by_state :
              (r : GpuRequest) (st : RequestState)
              → lookup id reqs ≡ some r
              → r.state ≡ st
              → Does (ledger reqs) (withdrawing id) (ledger t)
          by_state r completed e es = ground arith
          by_state r cancelled e es = ground arith
          by_state r pending e es = at_state r pending refl refl e es
          by_state r admitted e es = at_state r admitted refl refl e es
          by_state r running e es = at_state r running refl refl e es
          by_state r failed e es = at_state r failed refl refl e es

          go :
              (o : Option GpuRequest)
              → lookup id reqs ≡ o
              → Does (ledger reqs) (withdrawing id) (ledger t)
          go none e = ground arith
          go (some r) e = by_state r r.state e refl

      pub retry_begin-Does :
          (gpu_type : String)
          → retry_begin {E = E} id reqs ≡ ok gpu_type
          → Does (ledger reqs) (looking id) (ledger reqs)
      unfolding retry_begin
      retry_begin-Does gpu_type h = go (lookup id reqs) refl
        where
          at_state :
              (r : GpuRequest) (st : RequestState)
              → lookup id reqs ≡ some r
              → r.state ≡ st
              → Does (ledger reqs) (looking id) (ledger reqs)
          at_state r pending e es = look id (told id r pending reqs e es)
          at_state r _ e es = ground arith

          go :
              (o : Option GpuRequest)
              → lookup id reqs ≡ o
              → Does (ledger reqs) (looking id) (ledger reqs)
          go none e = ground arith
          go (some r) e = at_state r r.state e refl

      -- What both second sections make of a stored request.
      record Settles (route : Route E) (r new : GpuRequest) : Type 0 where
        kept : is_pending r.state ≡ false → new ≡ r
        placed_at :
            (c : String)
            → r.state ≡ pending
            → route ≡ routed c
            → (new.state ≡ admitted) × (new.cluster ≡ c)
        left : (x : RouteError E) → r.state ≡ pending → route ≡ route_failed x → new.state ≡ pending

      settled-Does :
          (route : Route E) (r new : GpuRequest)
          → Settles route r new
          → lookup id reqs ≡ some r
          → insert id new reqs ≡ t
          → Does (ledger reqs) (routing_to id (found_by route)) (ledger t)
      settled-Does route r new h e same = by_state r.state refl
        where
          call : Call
          call = routing_to id (found_by route)

          late :
              (st : RequestState)
              → r.state ≡ st
              → is_pending st ≡ false
              → is_queued (life_of st r.cluster) ≡ false
              → Does (ledger reqs) call (ledger t)
          late st es moved gone =
              let unchanged : new ≡ r = h.kept (rw es moved) in
              rewritten call id r new reqs t st same e es (rw (unchanged, es) refl)
                (too_late id (life_of st r.cluster) (found_by route) (told id r st reqs e es) gone)

          by_route :
              (u : Route E)
              → route ≡ u
              → r.state ≡ pending
              → Does (ledger reqs) (routing_to id (found_by u)) (ledger t)
          by_route (routed c) er es =
              let (state, cluster) = h.placed_at c es er in
              written (routing_to id (some c)) id r new reqs t same
                (rw (state, cluster) (place id c (told id r pending reqs e es)))
          by_route (route_failed x) er es =
              rewritten (routing_to id none) id r new reqs t pending same e es
                (rw (h.left x es er) refl) (stay_queued id (told id r pending reqs e es))

          by_state : (st : RequestState) → r.state ≡ st → Does (ledger reqs) call (ledger t)
          by_state pending es = by_route route refl es
          by_state admitted es = late admitted es refl refl
          by_state running es = late running es refl refl
          by_state completed es = late completed es refl refl
          by_state cancelled es = late cancelled es refl refl
          by_state failed es = late failed es refl refl

      submit_settle-Settles :
          (route : Route E) (r : GpuRequest) → Settles route r (submit_settle now route r).0
      unfolding submit_settle
      submit_settle-Settles route r = record {
        kept = λ e. ground arith;
        placed_at = λ c e er. ground arith;
        left = λ x e er. ground arith;
      }

      pub submit_finish-Does :
          (route : Route E) (res : Result E AdmissionResult)
          → submit_finish now route id reqs ≡ some (t, res)
          → Does (ledger reqs) (routing_to id (found_by route)) (ledger t)
      unfolding submit_finish
      submit_finish-Does route res h = go (lookup id reqs) refl
        where
          go :
              (o : Option GpuRequest)
              → lookup id reqs ≡ o
              → Does (ledger reqs) (routing_to id (found_by route)) (ledger t)
          go none e = ground arith
          go (some r) e =
              settled-Does route r (submit_settle now route r).0 (submit_settle-Settles route r) e
                (ground arith)

      retry_settle-Settles :
          (route : Route E) (r : GpuRequest) → Settles route r (retry_settle now route r).0
      unfolding retry_settle
      retry_settle-Settles route r = record {
        kept = λ e. ground arith;
        placed_at = λ c e er. ground arith;
        left = λ x e er. ground arith;
      }

      pub retry_finish-Does :
          (route : Route E) (res : Result E AdmissionResult)
          → retry_finish now route id reqs ≡ some (t, res)
          → Does (ledger reqs) (routing_to id (found_by route)) (ledger t)
      unfolding retry_finish
      retry_finish-Does route res h = go (lookup id reqs) refl
        where
          go :
              (o : Option GpuRequest)
              → lookup id reqs ≡ o
              → Does (ledger reqs) (routing_to id (found_by route)) (ledger t)
          go none e = ground arith
          go (some r) e =
              settled-Does route r (retry_settle now route r).0 (retry_settle-Settles route r) e
                (ground arith)
