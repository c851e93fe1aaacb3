-- ===== src/Lifecycle/Capi/States.antt =====
-- The power state that internal/lifecycle/lifecycle.go infers from MachineDeployments.
use acm_caas_poc.Prelude.{
  String, ◌≡◌, refl, ◌≢◌, ◌↔◌, Bool, true, false, not, Option, none, some, List, [], ◌∷◌, ◌++◌,
  arith, eq_iff, ltb, if◌then◌else◌, count_if, All,
}
use acm_caas_poc.Prelude.Int.{pos, is_nonpositive}
use acm_caas_poc.Kube.Values.{Fields}
use acm_caas_poc.Kube.Objects.{found_or, Accessors}
use acm_caas_poc.Lifecycle.Capi.{
  running, hibernating, unknown, is_zero, spec_replicas, power_of, drained_status, is_ready,
  first_wanted, status_of,
}

-- A deployment that wants workers.
abbrev pub wants_workers : Accessors → Fields → Bool
wants_workers o md = not (is_nonpositive (spec_replicas o md))

-- The inferred state of spec of a Cluster API cluster is `Running` exactly if some deployment
-- wants workers, and `Hibernating` otherwise.
pub power_of_lem :
    (o : Accessors) (mds : List Fields)
    → power_of o mds ≡ (if ltb 0 (count_if (wants_workers o) mds) then running else hibernating)
unfolding power_of
power_of_lem o [] = refl
power_of_lem o (md ∷ rest) = ground (arith, power_of_lem o rest)

first_wanted-append :
    (o : Accessors) (idle : List Fields) (md : Fields) (rest : List Fields)
    → All (λ d. is_zero (spec_replicas o d) ≡ true) idle
    → is_zero (spec_replicas o md) ≡ false
    → first_wanted o (idle ++ md ∷ rest) ≡ some (if is_ready o md then running else unknown)
unfolding first_wanted
first_wanted-append o [] md rest h e = ground (arith, e)
first_wanted-append o (d ∷ idle) md rest h e =
    let later = first_wanted-append o idle md rest h.1 e in ground (arith, h.0)

-- The first deployment that asks for any replicas decides the status of a Cluster API cluster,
-- whatever stands behind it: `Running` if it is ready, `Unknown` if not.
pub status_of_first :
    (o : Accessors) (idle : List Fields) (md : Fields) (rest : List Fields)
    → All (λ d. is_zero (spec_replicas o d) ≡ true) idle
    → is_zero (spec_replicas o md) ≡ false
    → status_of o (idle ++ md ∷ rest) ≡ (if is_ready o md then running else unknown)
unfolding status_of
status_of_first o idle md rest h e = rw (status_of, first_wanted-append o idle md rest h e) refl

-- A deployment that is scaled down and reports no replicas.
abbrev pub IsDown : Accessors → Fields → Type 0
IsDown o md =
    (is_zero (spec_replicas o md) ≡ true)
    × (is_nonpositive (found_or (pos 0) (o.nested_int64 md ("status" ∷ "replicas" ∷ []))) ≡ true)

running_ne : running ≢ hibernating
running_ne e = cc ((eq_iff running hibernating).1 e)

unknown_ne : unknown ≢ hibernating
unknown_ne e = cc ((eq_iff unknown hibernating).1 e)

IsDown-of_status :
    (o : Accessors) (mds : List Fields)
    → first_wanted o mds ≡ none
    → drained_status o mds ≡ hibernating
    → All (IsDown o) mds
unfolding first_wanted drained_status
IsDown-of_status o [] f d = tt
IsDown-of_status o (md ∷ rest) f d = (
  ground (arith, unknown_ne),
  IsDown-of_status o rest (ground arith) (ground (arith, unknown_ne)),
)

status_of_IsDown :
    (o : Accessors) (mds : List Fields)
    → All (IsDown o) mds
    → (first_wanted o mds ≡ none) × (drained_status o mds ≡ hibernating)
unfolding first_wanted drained_status
status_of_IsDown o [] h = (refl, refl)
status_of_IsDown o (md ∷ rest) h =
    let (f, d) = status_of_IsDown o rest h.1 in (ground (arith, h.0), ground (arith, h.0))

first_wanted-ne :
    (o : Accessors) (mds : List Fields) (s : String) → first_wanted o mds ≡ some s → s ≢ hibernating
unfolding first_wanted
first_wanted-ne o [] s e = cc
first_wanted-ne o (md ∷ rest) s e = ground (arith, running_ne, unknown_ne, first_wanted-ne o rest s)

-- The status `Hibernating` of a Cluster API cluster is inferred exactly if every deployment is
-- scaled down and none still reports a positive number of replicas.
pub status_hibernating_iff :
    (o : Accessors) (mds : List Fields) → (status_of o mds ≡ hibernating) ↔ All (IsDown o) mds
unfolding status_of
status_hibernating_iff o mds = (
  go (first_wanted o mds) refl,
  λ h. let (f, d) = status_of_IsDown o mds h in rw (status_of, f) d,
)
  where
    go :
        (r : Option String)
        → first_wanted o mds ≡ r
        → status_of o mds ≡ hibernating
        → All (IsDown o) mds
    go none f e = IsDown-of_status o mds f (rw (status_of, f) at e)
    go (some s) f e = absurd (first_wanted-ne o mds s f (rw (status_of, f) at e))
