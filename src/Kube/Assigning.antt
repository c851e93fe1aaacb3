-- ===== src/Kube/Assigning.antt =====
-- What is read of a map after an assignment.
use acm_caas_poc.Prelude.{String, ◌≡◌, refl, inl, inr, false, ◌==◌, eq_iff, eq_refl, Bool-cases}
use acm_caas_poc.Kube.Values.{Value, Fields, end, field, index, assign}

pub index-assign : (k : String) (v : Value) (m : Fields) → index (assign k v m) k ≡ v
unfolding index assign
index-assign k v end = rw (eq_refl k) refl
index-assign k v (field j u m) = elim (Bool-cases (j == k)) [
  | inl e ↦ rw (e, e) refl
  | inr e ↦ rw (e, e) (index-assign k v m)
]

pub index-assign_other :
    (k j : String) (v : Value) (m : Fields) → (k == j) ≡ false → index (assign k v m) j ≡ index m j
unfolding index assign
index-assign_other k j v end e = rw e refl
index-assign_other k j v (field i u m) e = elim (Bool-cases (i == k)) [
  | inl same ↦ let other : (i == j) ≡ false = rw ((eq_iff i k).0 same) e in rw (same, other) refl
  | inr differs ↦ rw differs (elim (Bool-cases (i == j)) [
    | inl found ↦ rw found refl
    | inr later ↦ rw later (index-assign_other k j v m e)
  ])
]
