-- ===== src/Kube/Keeping.antt =====
-- Properties of the world that actions keep, call by call.
use acm_caas_poc.Prelude.{Bool, true, false, Option, none, some, List, [], ◌∷◌, if◌then◌else◌}
use acm_caas_poc.Kube.Errors.{Error, Result, ok, err}
use acm_caas_poc.Kube.Hub.{Run, resume, for_each}

module _ {W A B : Type 0} (P : W → Type 0) where
  pub keep-resume :
      (r : Result A) (f : A → Run W B) (w : W) → P w → ((a : A) → P (f a w).1) → P (resume r f w).1
  keep-resume (ok a) f w p k = k a
  keep-resume (err e) f w p k = p

  -- The same for a handler that goes on after an error too.
  pub keep-elim :
      (r : Result A) (on_ok : A → B × W) (on_err : Error → B × W)
      → ((a : A) → P (on_ok a).1)
      → ((e : Error) → P (on_err e).1)
      → P (elim r as (λ x. B × W) [ ok a ↦ on_ok a | err e ↦ on_err e ]).1
  keep-elim (ok a) on_ok on_err k l = k a
  keep-elim (err e) on_ok on_err k l = l e

module _ {W A : Type 0} (P : W → Type 0) where
  pub keep-if :
      (b : Bool) (m n : Run W A) (w : W) → P (m w).1 → P (n w).1 → P ((if b then m else n) w).1
  keep-if true m n w p q = p
  keep-if false m n w p q = q

  -- The same for two outcomes.
  pub keep-choice : (b : Bool) (x y : A × W) → P x.1 → P y.1 → P (if b then x else y).1
  keep-choice true x y p q = p
  keep-choice false x y p q = q

module _ {W A B : Type 0} (P : W → Type 0) where
  -- The same for a handler that is an action.
  pub keep-handler :
      (r : Result A) (on_ok : A → Run W B) (on_err : Error → Run W B) (w : W)
      → ((a : A) → P (on_ok a w).1)
      → ((e : Error) → P (on_err e w).1)
      → P ((elim r as (λ x. Run W B) [ ok a ↦ on_ok a | err e ↦ on_err e ]) w).1
  keep-handler (ok a) on_ok on_err w k l = k a
  keep-handler (err e) on_ok on_err w k l = l e

module _ {W A : Type 0} (P : W → Type 0) where
  -- A loop whose body keeps the property.
  pub keep-for_each :
      (body : A → Run W (Unit {0})) (xs : List A)
      → ((x : A) (w : W) → P w → P (body x w).1)
      → (w : W) → P w
      → P (for_each body xs w).1
  unfolding for_each
  keep-for_each body [] k w p = p
  keep-for_each body (x ∷ xs) k w p =
      keep-resume P (body x w).0 _ (body x w).1 (k x w p)
        (λ a. keep-for_each body xs k (body x w).1 (k x w p))

module _ {W A B : Type 0} (P : W → Type 0) where
  -- An action chosen by a list or by an option.
  pub keep-list :
      (xs : List A) (on_empty : Run W B) (on_cons : A → List A → Run W B) (w : W)
      → P (on_empty w).1
      → ((x : A) (rest : List A) → P (on_cons x rest w).1)
      → P ((elim xs as (λ x. Run W B) [ [] ↦ on_empty | x ∷ rest ↦ on_cons x rest ]) w).1
  keep-list [] on_empty on_cons w p k = p
  keep-list (x ∷ rest) on_empty on_cons w p k = k x rest

  pub keep-option :
      (x : Option A) (on_none : Run W B) (on_some : A → Run W B) (w : W)
      → P (on_none w).1
      → ((a : A) → P (on_some a w).1)
      → P ((elim x as (λ x. Run W B) [ none ↦ on_none | some a ↦ on_some a ]) w).1
  keep-option none on_none on_some w p k = p
  keep-option (some a) on_none on_some w p k = k a

module _ {W B : Type 0} (P : W → Type 0) where
  -- Outcomes chosen by an option or by a test.
  pub keep-either :
      {A : Type 0} (x : Option A) (on_none : B × W) (on_some : A → B × W)
      → P on_none.1
      → ((a : A) → P (on_some a).1)
      → P (elim x as (λ x. B × W) [ none ↦ on_none | some a ↦ on_some a ]).1
  keep-either none on_none on_some p k = p
  keep-either (some a) on_none on_some p k = k a

  pub keep-test :
      (b : Bool) (on_false on_true : B × W)
      → P on_false.1
      → P on_true.1
      → P (elim b as (λ x. B × W) [ false ↦ on_false | true ↦ on_true ]).1
  keep-test false on_false on_true p q = p
  keep-test true on_false on_true p q = q

-- What holds on both branches of a handler.
pub holds-elim :
    {A B : Type 0} (Q : B → Type 0) (r : Result A) (on_ok : A → B) (on_err : Error → B)
    → ((a : A) → Q (on_ok a))
    → ((e : Error) → Q (on_err e))
    → Q (elim r as (λ x. B) [ ok a ↦ on_ok a | err e ↦ on_err e ])
holds-elim Q (ok a) on_ok on_err k l = k a
holds-elim Q (err e) on_ok on_err k l = l e
