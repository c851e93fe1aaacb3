-- ===== src/Kube/Hub.antt =====
-- The API server of the hub behind `dynamic.Interface`, with all else that moves: other clients,
-- controllers and the clock. Every call is a step of the world, and may fail.
use acm_caas_poc.Prelude.{String, List, [], ◌∷◌}
use acm_caas_poc.Kube.Errors.{Error, wrapped, Result, ok, err, map_err}
use acm_caas_poc.Kube.Values.{Fields}

-- `schema.GroupVersionResource`
pub record Gvr : Type 0 where
  pub group : String
  pub version : String
  pub resource : String

-- An action on the world that may return an error.
abbrev pub Run : Type 0 → Type 0 → Type 0
Run W A = W → Result A × W

-- A namespace "" addresses a resource of cluster scope, a selector "" selects everything. The data
-- of a merge patch is the map that the program marshals.
pub record Hub (W : Type 0) : Type 0 where
  pub create : Gvr → String → Fields → Run W Fields
  pub get : Gvr → String → String → Run W Fields
  pub list : Gvr → String → String → Run W (List Fields)
  pub update : Gvr → String → Fields → Run W Fields
  pub delete : Gvr → String → String → Run W (Unit {0})
  pub patch : Gvr → String → String → Fields → Run W Fields

module _ {W A : Type 0} where
  abbrev pub pure : A → Run W A
  pure a w = (ok a, w)

  abbrev pub raise : Error → Run W A
  raise e w = (err e, w)

  abbrev pub lift : Result A → Run W A
  lift r w = (r, w)

  -- The value or the error of a call, for code that inspects the error.
  abbrev pub attempt : Run W A → Run W (Result A)
  attempt m w = let (r, w') = m w in (ok r, w')

  -- `if err != nil { return fmt.Errorf(prefix + ": %w", err) }`
  abbrev pub context : String → Run W A → Run W A
  context prefix m w = let (r, w') = m w in (map_err (wrapped prefix) r, w')

module _ {W A B : Type 0} where
  abbrev pub resume : Result A → (A → Run W B) → Run W B
  resume (ok a) f w = f a w
  resume (err e) f w = (err e, w)

  infixl 10 ◌>>=◌ ◌>>◌
  abbrev pub ◌>>=◌ : Run W A → (A → Run W B) → Run W B
  ◌>>=◌ m f w = let (r, w') = m w in resume r f w'

  abbrev pub ◌>>◌ : Run W A → Run W B → Run W B
  m >> n = m >>= λ _. n

-- A loop over a slice that stops at the first error.
unfoldable pub for_each : {W A : Type 0} → (A → Run W (Unit {0})) → List A → Run W (Unit {0})
for_each body [] = pure tt
for_each body (x ∷ xs) = body x >> for_each body xs
