-- ===== src/Matrix/Combinations.antt =====
-- The cells of `generateCombinations` (internal/matrix/matrix_builder.go).
use acm_caas_poc.Prelude.{
  ℕ, zero, suc, ◌+◌, ◌*◌, String, ◌≡◌, refl, ap, ◌∙◌, some, List, [], ◌∷◌, ◌++◌, arith, length,
  get_elem?, length-append,
}
use acm_caas_poc.Matrix.{
  MatrixSpec, MatrixCell, new_cell, cells_of_arch, cells_of_version, cells_of,
  generate_combinations,
}

length-cells_of_arch :
    (ver arch : String) (ops : List String) → length (cells_of_arch ver arch ops) ≡ length ops
unfolding cells_of_arch
length-cells_of_arch ver arch [] = refl
length-cells_of_arch ver arch (op ∷ ops) = omega (arith, length-cells_of_arch ver arch ops)

length-cells_of_version :
    (ver : String) (archs ops : List String)
    → length (cells_of_version ver archs ops) ≡ length archs * length ops
unfolding cells_of_version
length-cells_of_version ver [] ops = omega arith
length-cells_of_version ver (arch ∷ archs) ops =
    length-append (cells_of_arch ver arch ops) (cells_of_version ver archs ops)
    ∙ rw (length-cells_of_arch ver arch ops, length-cells_of_version ver archs ops) (omega arith)

length-cells_of :
    (vers archs ops : List String)
    → length (cells_of vers archs ops) ≡ length vers * (length archs * length ops)
unfolding cells_of
length-cells_of [] archs ops = omega arith
length-cells_of (ver ∷ vers) archs ops =
    length-append (cells_of_version ver archs ops) (cells_of vers archs ops)
    ∙ rw (length-cells_of_version ver archs ops, length-cells_of vers archs ops) (omega arith)

-- An element of the first part, and one of the second part.
get_elem?-append_left :
    (xs ys : List MatrixCell) (i : ℕ) (c : MatrixCell)
    → get_elem? xs i ≡ some c
    → get_elem? (xs ++ ys) i ≡ some c
get_elem?-append_left [] ys i c e = absurd (ground arith)
get_elem?-append_left (x ∷ xs) ys zero c e = e
get_elem?-append_left (x ∷ xs) ys (suc i) c e = get_elem?-append_left xs ys i c e

get_elem?-append_right :
    (xs ys : List MatrixCell) (i : ℕ) → get_elem? (xs ++ ys) (length xs + i) ≡ get_elem? ys i
get_elem?-append_right [] ys i = let e : 0 + i ≡ i = omega arith in ap (get_elem? ys) e
get_elem?-append_right (x ∷ xs) ys i =
    let e : suc (length xs) + i ≡ suc (length xs + i) = omega arith in
    ap (get_elem? (x ∷ (xs ++ ys))) e ∙ get_elem?-append_right xs ys i

get_elem?-cells_of_arch :
    (ver arch op : String) (ops : List String) (k : ℕ)
    → get_elem? ops k ≡ some op
    → get_elem? (cells_of_arch ver arch ops) k ≡ some (new_cell ver arch op)
unfolding cells_of_arch
get_elem?-cells_of_arch ver arch op [] k e = absurd (ground arith)
get_elem?-cells_of_arch ver arch op (x ∷ ops) zero e = ground (arith, e)
get_elem?-cells_of_arch ver arch op (x ∷ ops) (suc k) e =
    get_elem?-cells_of_arch ver arch op ops k e

get_elem?-cells_of_version :
    (ver arch op : String) (archs ops : List String) (j k : ℕ)
    → get_elem? archs j ≡ some arch
    → get_elem? ops k ≡ some op
    → get_elem? (cells_of_version ver archs ops) (j * length ops + k) ≡ some (new_cell ver arch op)
unfolding cells_of_version
get_elem?-cells_of_version ver arch op [] ops j k ej ek = absurd (ground arith)
get_elem?-cells_of_version ver arch op (x ∷ archs) ops zero k ej ek =
    let e : 0 * length ops + k ≡ k = omega arith in
    let same : x ≡ arch = ground (arith, ej) in
    ap (get_elem? (cells_of_version ver (x ∷ archs) ops)) e
    ∙ get_elem?-append_left (cells_of_arch ver x ops) _ k (new_cell ver arch op)
        (rw same (get_elem?-cells_of_arch ver arch op ops k ek))
get_elem?-cells_of_version ver arch op (x ∷ archs) ops (suc j) k ej ek =
    let e : suc j * length ops + k ≡ length (cells_of_arch ver x ops) + (j * length ops + k) =
      rw (length-cells_of_arch ver x ops) (omega arith) in
    ap (get_elem? (cells_of_version ver (x ∷ archs) ops)) e
    ∙ get_elem?-append_right (cells_of_arch ver x ops) (cells_of_version ver archs ops)
        (j * length ops + k)
    ∙ get_elem?-cells_of_version ver arch op archs ops j k ej ek

get_elem?-cells_of :
    (ver arch op : String) (vers archs ops : List String) (i j k : ℕ)
    → get_elem? vers i ≡ some ver
    → get_elem? archs j ≡ some arch
    → get_elem? ops k ≡ some op
    → get_elem? (cells_of vers archs ops) (i * (length archs * length ops) + (j * length ops + k))
      ≡ some (new_cell ver arch op)
unfolding cells_of
get_elem?-cells_of ver arch op [] archs ops i j k ei ej ek = absurd (ground arith)
get_elem?-cells_of ver arch op (x ∷ vers) archs ops zero j k ei ej ek =
    let m = length archs * length ops in
    let e : 0 * m + (j * length ops + k) ≡ j * length ops + k = omega arith in
    let same : x ≡ ver = ground (arith, ei) in
    ap (get_elem? (cells_of (x ∷ vers) archs ops)) e
    ∙ get_elem?-append_left (cells_of_version x archs ops) _ (j * length ops + k)
        (new_cell ver arch op)
        (rw same (get_elem?-cells_of_version ver arch op archs ops j k ej ek))
get_elem?-cells_of ver arch op (x ∷ vers) archs ops (suc i) j k ei ej ek =
    let m = length archs * length ops in
    let e : suc i * m + (j * length ops + k)
        ≡ length (cells_of_version x archs ops) + (i * m + (j * length ops + k)) =
      rw (length-cells_of_version x archs ops) (omega arith) in
    ap (get_elem? (cells_of (x ∷ vers) archs ops)) e
    ∙ get_elem?-append_right (cells_of_version x archs ops) (cells_of vers archs ops)
        (i * m + (j * length ops + k))
    ∙ get_elem?-cells_of ver arch op vers archs ops i j k ei ej ek

-- The place of a combination in the list.
abbrev pub place : MatrixSpec → ℕ → ℕ → ℕ → ℕ
place spec i j k =
    i * (length spec.architectures * length spec.operator_versions)
    + (j * length spec.operator_versions + k)

-- generateCombinations is the product of the three lists: it has as many cells as their lengths
-- multiply to, and the combination of the elements at three positions stands at the place that the
-- positions compute to.
pub generate_combinations_lem :
    (spec : MatrixSpec)
    → (length (generate_combinations spec)
        ≡ length spec.ocp_versions * (length spec.architectures * length spec.operator_versions))
      × ((ver arch op : String) (i j k : ℕ)
          → get_elem? spec.ocp_versions i ≡ some ver
          → get_elem? spec.architectures j ≡ some arch
          → get_elem? spec.operator_versions k ≡ some op
          → get_elem? (generate_combinations spec) (place spec i j k) ≡ some (new_cell ver arch op))
unfolding generate_combinations
generate_combinations_lem spec = (
  length-cells_of spec.ocp_versions spec.architectures spec.operator_versions,
  λ ver arch op i j k ei ej ek.
      get_elem?-cells_of ver arch op spec.ocp_versions spec.architectures spec.operator_versions i j
        k ei ej ek,
)
