-- ===== src/Gpu/Request.antt =====
-- internal/gpu/request.go: the types of a GPU request, its states, results and errors.
-- `time.Time` is a number; the errors that `fmt.Errorf` makes are constructors, one for each text.
use acm_caas_poc.Prelude.{ℕ, String, Bool, true, false}
use acm_caas_poc.Prelude.Int.{ℤ}

pub data RequestState : Type 0 where
  pending admitted running completed cancelled failed : RequestState

pub record GpuRequest : Type 0 where
  pub id : String
  pub tenant : String
  pub gpu_type : String
  pub quantity : ℤ
  pub state : RequestState
  pub cluster : String
  pub reason : String
  pub created_at : ℕ
  pub updated_at : ℕ

-- `Reason` of an admission result: empty, one of two fixed texts, or the text that names the state.
pub data Reason : Type 0 where
  no_reason placement_pending no_matching_cluster : Reason
  moved_to : RequestState → Reason

pub record AdmissionResult : Type 0 where
  pub admitted : Bool
  pub cluster : String
  pub reason : Reason
  pub state : RequestState

-- What `BestClusterWithTimeout` may fail with. `other` stands for all that is neither sentinel.
pub data RouteError (E : Type 0) : Type 0 where
  gpu_pending gpu_no_match : RouteError E
  other : E → RouteError E

pub data Route (E : Type 0) : Type 0 where
  routed : String → Route E
  route_failed : RouteError E → Route E

pub data RequestError (E : Type 0) : Type 0 where
  id_required tenant_required gpu_type_required quantity_not_positive : RequestError E
  request_not_found duplicate_request request_terminal request_cancelled : RequestError E
  request_not_pending request_not_admitted : RequestError E
  cannot_complete : RequestState → RequestError E
  routing : E → RequestError E

pub data Result (E A : Type 0) : Type 0 where
  ok : A → Result E A
  err : RequestError E → Result E A

-- The test `req.State == RequestStatePending` and its like.
abbrev pub is_pending : RequestState → Bool
is_pending pending = true
is_pending _ = false

abbrev pub is_admitted : RequestState → Bool
is_admitted admitted = true
is_admitted _ = false

abbrev pub is_running : RequestState → Bool
is_running running = true
is_running _ = false

abbrev pub is_cancelled : RequestState → Bool
is_cancelled cancelled = true
is_cancelled _ = false

abbrev pub is_completed : RequestState → Bool
is_completed completed = true
is_completed _ = false
