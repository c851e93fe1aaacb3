-- ===== src/Kube/Errors.antt =====
-- Errors and fallible results.
use acm_caas_poc.Prelude.{String, Bool, true, false, [], ◌∷◌, concat}

-- The reason of an API status error, as `apierrors.IsNotFound` and `apierrors.IsConflict` tell it.
pub data Reason : Type 0 where
  not_found conflict other_reason : Reason

-- An error of the API, `fmt.Errorf` without and with `%w`. `other_error` is any other.
pub data Error : Type 0 where
  status : Reason → String → Error
  text : String → Error
  wrapped : String → Error → Error
  other_error : String → Error

-- `errors.As` looks through wrapped errors.
abbrev pub reason_of : Error → Reason
reason_of (status r _) = r
reason_of (text _) = other_reason
reason_of (wrapped _ e) = reason_of e
reason_of (other_error _) = other_reason

abbrev pub is_not_found : Error → Bool
is_not_found e = elim (reason_of e) [ not_found ↦ true | _ ↦ false ]

abbrev pub is_conflict : Error → Bool
is_conflict e = elim (reason_of e) [ conflict ↦ true | _ ↦ false ]

-- `(A, error)` where the value counts only without an error.
pub data Result (A : Type 0) : Type 0 where
  ok : A → Result A
  err : Error → Result A

abbrev pub map_err : {A : Type 0} → (Error → Error) → Result A → Result A
map_err f (ok a) = ok a
map_err f (err e) = err (f e)

-- `err.Error()`
abbrev pub error_text : Error → String
error_text (status _ s) = s
error_text (text s) = s
error_text (wrapped prefix e) = concat (prefix ∷ ": " ∷ error_text e ∷ [])
error_text (other_error s) = s
