-- ===== src/Matrix/Provisioning.antt =====
-- The counters of the results of internal/matrix/matrix.go.
use acm_caas_poc.Prelude.{
  ℕ, ◌+◌, String, ◌≡◌, refl, sym, ap, ◌∙◌, subst, inl, inr, Bool, false, ◌||◌, List, [], ◌∷◌, ◌++◌,
  map, arith, ◌==◌, eq_refl, if◌then◌else◌, Bool-cases, length, count_if, length-append, is_empty,
}
use acm_caas_poc.Kube.Keeping.{holds-elim}
use acm_caas_poc.Kube.Errors.{Result, ok, err}
use acm_caas_poc.Kube.Objects.{Accessors}
use acm_caas_poc.Kube.Hub.{Hub}
use acm_caas_poc.Client.{create_if_not_exists}
use acm_caas_poc.Client.Resources.{cluster_deployment, namespace}
use acm_caas_poc.Matrix.{
  MatrixSpec, MatrixCell, MatrixResult, MatrixConfig, generate_combinations, build_namespace,
  build_matrix_cluster_deployment, with_status, count_failed, count_ready, provision_cells,
  provision_matrix,
}

-- A result that tells, of each cell, whether it failed, and counts the cells by that.
abbrev pub has_status : String → MatrixCell → Bool
has_status s cell = cell.status == s

pub record IsCounted (good bad : String) (r : MatrixResult) : Type 0 where
  pub all_ready : r.ready ≡ count_if (has_status good) r.cells
  pub all_failed : r.failed ≡ count_if (has_status bad) r.cells
  pub all_told : r.ready + r.failed ≡ length r.cells

count_if-snoc :
    (p : MatrixCell → Bool) (xs : List MatrixCell) (c : MatrixCell)
    → count_if p (xs ++ c ∷ []) ≡ count_if p xs + (if p c then 1 else 0)
count_if-snoc p [] c = ground arith
count_if-snoc p (x ∷ xs) c = ground (arith, count_if-snoc p xs c)

module _ (good bad : String) (differ : (good == bad) ≡ false) (r : MatrixResult)
    (cell : MatrixCell) where
  count_ready-IsCounted :
      IsCounted good bad r → IsCounted good bad (count_ready (with_status good cell) r)
  unfolding count_ready
  count_ready-IsCounted h = record {
    all_ready =
        rw (count_if-snoc (has_status good) r.cells (with_status good cell))
          (ground (arith, h.all_ready, eq_refl good));
    all_failed =
        rw (count_if-snoc (has_status bad) r.cells (with_status good cell))
          (ground (arith, h.all_failed, differ));
    all_told = rw (length-append r.cells (with_status good cell ∷ [])) (omega (arith, h.all_told));
  }

  count_failed-IsCounted :
      (bad == good) ≡ false
      → IsCounted good bad r
      → IsCounted good bad (count_failed (with_status bad cell) r)
  unfolding count_failed
  count_failed-IsCounted other h = record {
    all_ready =
        rw (count_if-snoc (has_status good) r.cells (with_status bad cell))
          (ground (arith, h.all_ready, other));
    all_failed =
        rw (count_if-snoc (has_status bad) r.cells (with_status bad cell))
          (ground (arith, h.all_failed, eq_refl bad));
    all_told = rw (length-append r.cells (with_status bad cell ∷ [])) (omega (arith, h.all_told));
  }

abbrev cleared : List MatrixCell → List MatrixCell
cleared cells = map (with_status "") cells

cleared-snoc :
    (s : String) (xs rest : List MatrixCell) (c : MatrixCell)
    → cleared (xs ++ with_status s c ∷ []) ++ cleared rest ≡ cleared xs ++ cleared (c ∷ rest)
cleared-snoc s [] rest c = refl
cleared-snoc s (x ∷ xs) rest c = ap (λ l. with_status "" x ∷ l) (cleared-snoc s xs rest c)

append_empty : (xs : List MatrixCell) → xs ++ [] ≡ xs
append_empty [] = refl
append_empty (x ∷ xs) = ap (λ l. x ∷ l) (append_empty xs)

-- A result of `ProvisionMatrix` over cells that are still to come.
pub record Covers (total : ℕ) (cells : List MatrixCell) (r : MatrixResult) : Type 0 where
  pub counted : IsCounted "Provisioning" "Failed" r
  pub in_total : r.total ≡ total
  pub of_cells : map (with_status "") r.cells ≡ cells

abbrev Covering : ℕ → List MatrixCell → List MatrixCell → MatrixResult → Type 0
Covering total all rest r =
    IsCounted "Provisioning" "Failed" r
    × (r.total ≡ total)
    × (cleared r.cells ++ cleared rest ≡ all)

abbrev CoversIf : ℕ → List MatrixCell → Result MatrixResult → Type 0
CoversIf total all (ok r) = Covers total all r
CoversIf total all (err e) = Unit {0}

module _ {W : Type 0} (o : Accessors) (h : Hub W) (cfg : MatrixConfig) (matrix_id : String) where
  provision_cells-Covers :
      (total : ℕ) (all rest : List MatrixCell) (r : MatrixResult) (w : W)
      → Covering total all rest r
      → CoversIf total all (provision_cells o h cfg matrix_id rest r w).0
  unfolding provision_cells count_ready count_failed
  provision_cells-Covers total all [] r w c = record {
    counted = c.0;
    in_total = c.1;
    of_cells = sym (append_empty (cleared r.cells)) ∙ c.2;
  }
  provision_cells-Covers total all (cell ∷ rest) r w c =
      holds-elim (λ (p : Result MatrixResult × W). CoversIf total all p.0)
        (create_if_not_exists o h namespace "" (build_namespace cell.name) w).0 _ _
        (λ made.
          holds-elim (λ (p : Result MatrixResult × W). CoversIf total all p.0)
            (create_if_not_exists o h cluster_deployment cell.name
              (build_matrix_cluster_deployment cell cfg)
              (create_if_not_exists o h namespace "" (build_namespace cell.name) w).1).0
            _ _
            (λ deployed.
              provision_cells-Covers total all rest
                (count_ready (with_status "Provisioning" cell) r) _
                (
                  count_ready-IsCounted "Provisioning" "Failed" refl r cell c.0,
                  c.1,
                  cleared-snoc "Provisioning" r.cells rest cell ∙ c.2,
                ))
            (λ e.
              provision_cells-Covers total all rest (count_failed (with_status "Failed" cell) r) _ (
                count_failed-IsCounted "Provisioning" "Failed" refl r cell refl c.0,
                c.1,
                cleared-snoc "Failed" r.cells rest cell ∙ c.2,
              )))
        (λ e. tt)

  provision_matrix-CoversIf :
      (spec : MatrixSpec) (w : W)
      → CoversIf
          (length (generate_combinations spec))
          (cleared (generate_combinations spec))
          (provision_matrix o h cfg matrix_id spec w).0
  unfolding provision_matrix
  provision_matrix-CoversIf spec w =
      elim (Bool-cases (
        is_empty spec.ocp_versions
        || is_empty spec.architectures
        || is_empty spec.operator_versions)) [
          | inl empty ↦ rw (provision_matrix, empty) tt
          | inr full ↦
              rw (provision_matrix, full)
                (provision_cells-Covers _ _ (generate_combinations spec) _ w
                  (record { all_ready = refl; all_failed = refl; all_told = refl }, refl, refl))
        ]

  -- When ProvisionMatrix succeeds, its cells are all combinations in their order, each marked
  -- `Provisioning` or `Failed`, the counters of ready and failed are the numbers of these, and the
  -- total is the number of combinations.
  pub provision_matrix-Covers :
      (spec : MatrixSpec) (w : W) (out : MatrixResult)
      → (provision_matrix o h cfg matrix_id spec w).0 ≡ ok out
      → Covers
          (length (generate_combinations spec))
          (map (with_status "") (generate_combinations spec))
          out
  provision_matrix-Covers spec w out e =
      subst (CoversIf (length (generate_combinations spec)) (cleared (generate_combinations spec)))
        e (provision_matrix-CoversIf spec w)
