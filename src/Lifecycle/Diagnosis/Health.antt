-- ===== src/Lifecycle/Diagnosis/Health.antt =====
-- What `checkACMHealth` of internal/lifecycle/lifecycle.go warns of.
use acm_caas_poc.Prelude.{
  String, ◌≡◌, refl, ap, ◌∙◌, ◌≢◌, ◌↔◌, ◌⊎◌, Bool, true, false, ◌&&◌, not, List, [], ◌∷◌, ◌++◌,
  arith, ◌==◌, eq_iff,
}
use acm_caas_poc.Lifecycle.Capi.{running}
use acm_caas_poc.Lifecycle.Diagnosis.{
  Severity, severity_ok, DiagnosticCheck, is_asleep, running_mismatch, asleep_available,
  asleep_unavailable, not_joined, or_consistent, check_acm_health,
}

abbrev is_fine : Severity → Bool
is_fine severity_ok = true
is_fine _ = false

-- A cluster whose ACM view agrees with its Hive power state.
pub record Consistent (power available joined : String) : Type 0 where
  pub up : power ≡ running → available ≡ "True"
  pub down : is_asleep power ≡ true → available ≢ "True"
  pub registered : (joined ≡ "True") ⊎ (joined ≡ "Unknown")

-- `checkACMHealth` always reports something.
pub check_acm_health-ne :
    (power available joined : String) → check_acm_health power available joined ≢ []
unfolding check_acm_health
check_acm_health-ne power available joined = ground arith

-- No check is above `ok`.
abbrev pub all_fine : List DiagnosticCheck → Bool
all_fine [] = true
all_fine (c ∷ cs) = is_fine c.severity && all_fine cs

all_fine-append :
    (xs ys : List DiagnosticCheck) → all_fine (xs ++ ys) ≡ (all_fine xs && all_fine ys)
all_fine-append [] ys = refl
all_fine-append (c ∷ cs) ys = ground (arith, all_fine-append cs ys)

all_fine-or_consistent :
    (available joined : String) (cs : List DiagnosticCheck)
    → all_fine (or_consistent available joined cs) ≡ all_fine cs
unfolding or_consistent
all_fine-or_consistent available joined [] = refl
all_fine-or_consistent available joined (c ∷ cs) = refl

fine_running_mismatch :
    (p a : String) → all_fine (running_mismatch p a) ≡ not (p == running && not (a == "True"))
fine_running_mismatch p a = ground arith

fine_asleep_available :
    (p a : String) → all_fine (asleep_available p a) ≡ not (is_asleep p && a == "True")
fine_asleep_available p a = ground arith

fine_asleep_unavailable : (p a : String) → all_fine (asleep_unavailable p a) ≡ true
fine_asleep_unavailable p a = ground arith

fine_not_joined :
    (j : String) → all_fine (not_joined j) ≡ not (not (j == "True") && not (j == "Unknown"))
fine_not_joined j = ground arith

-- The verdicts of the four tests.
fine_parts :
    (power available joined : String)
    → all_fine (check_acm_health power available joined) ≡ (
        not (power == running && not (available == "True"))
        && (not (is_asleep power && available == "True")
            && not (not (joined == "True") && not (joined == "Unknown"))))
unfolding check_acm_health
fine_parts power available joined =
    let a = running_mismatch power available in
    let b = asleep_available power available in
    let c = asleep_unavailable power available in
    let d = not_joined joined in
    all_fine-or_consistent available joined (a ++ (b ++ (c ++ d)))
    ∙ all_fine-append a (b ++ (c ++ d))
    ∙ ap (λ x. all_fine a && x)
        (all_fine-append b (c ++ d) ∙ ap (λ x. all_fine b && x) (all_fine-append c d))
    ∙ rw (
      fine_running_mismatch power available,
      fine_asleep_available power available,
      fine_asleep_unavailable power available,
      fine_not_joined joined,
    )

-- checkACMHealth has no check above `ok` exactly if a running cluster is available, a hibernating
-- or stopping one is not, and the cluster has joined or its joining is unknown.
pub check_acm_health_iff :
    (power available joined : String)
    → (all_fine (check_acm_health power available joined) ≡ true)
      ↔ Consistent power available joined
check_acm_health_iff power available joined = (
  λ h.
      let fine = rw (fine_parts power available joined) at h in
      record {
        up = λ e. ground (arith, eq_iff power running, eq_iff available "True");
        down = λ e a. ground (arith, eq_iff available "True");
        registered = ground (arith, eq_iff joined "True", eq_iff joined "Unknown");
      },
  λ c. rw (fine_parts power available joined) (
      ground (
        arith,
        c.up,
        c.down,
        eq_iff power running,
        eq_iff available "True",
        eq_iff joined "True",
        eq_iff joined "Unknown",
      )),
)
