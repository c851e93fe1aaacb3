-- ===== src/Lifecycle/Reports.antt =====
-- internal/lifecycle/lifecycle.go: `Diagnose`, which collects the checks into a report.
use acm_caas_poc.Prelude.{
  String, true, false, List, [], ◌∷◌, ◌++◌, ◌==◌, if◌then◌else◌, length, concat,
}
use acm_caas_poc.Prelude.Int.{ℤ, pos}
use acm_caas_poc.Prelude.Decimal.{format_int, add_int}
use acm_caas_poc.Kube.Errors.{Error, text, wrapped, is_not_found, Result, ok, err}
use acm_caas_poc.Kube.Values.{Fields}
use acm_caas_poc.Kube.Objects.{found_or, Accessors}
use acm_caas_poc.Kube.Hub.{Run, Hub}
use acm_caas_poc.Client.Resources.{cluster_deployment, managed_cluster}
use acm_caas_poc.Lifecycle.Capi.{
  unknown, is_zero, spec_replicas, list_capi_machine_deployments, get_capi_power_state,
  get_capi_power_state_status,
}
use acm_caas_poc.Lifecycle.Diagnosis.{
  severity_ok, severity_warning, DiagnosticCheck, check, check_hive_transition,
  check_hive_conditions, extract_mc_conditions, check_acm_health, derive_suggestions,
}

pub record DiagnosticReport : Type 0 where
  pub cluster : String
  pub hive_power_spec : String
  pub hive_power_status : String
  pub acm_available : String
  pub acm_joined : String
  pub platform : String
  pub checks : List DiagnosticCheck
  pub suggestions : List String

unfoldable pub with_suggestions : DiagnosticReport → DiagnosticReport
with_suggestions report = record report { suggestions = derive_suggestions report.checks }

abbrev pub or_unknown : String → String
or_unknown s = if s == "" then unknown else s

-- The value of `val, _ := f()` for a text.
abbrev pub text_of : Result String → String
text_of (ok s) = s
text_of (err _) = ""

module _ (o : Accessors) where
  -- What the reading of the ManagedCluster adds; the two callers differ in the detail of the warning.
  unfoldable pub add_acm :
      String → String → DiagnosticReport → Result Fields → Result DiagnosticReport
  add_acm detail power report (err e) =
      if is_not_found e
      then ok (
          with_suggestions (record report {
            acm_available = "not found";
            acm_joined = "not found";
            checks =
                report.checks
                ++ check "managedcluster-exists" severity_warning "No ManagedCluster resource found"
                    detail
                  ∷ [];
          }))
      else err (wrapped "getting ManagedCluster" e)
  add_acm detail power report (ok mc) =
      let (available, joined) = extract_mc_conditions o mc in
      ok (
        with_suggestions (record report {
          acm_available = available;
          acm_joined = joined;
          checks = report.checks ++ check_acm_health power available joined;
        }))

  -- The sum of the wanted replicas, in `int64`.
  unfoldable pub total_replicas : List Fields → ℤ → ℤ
  total_replicas [] n = n
  total_replicas (md ∷ rest) n = total_replicas rest (add_int n (spec_replicas o md))

  unfoldable pub replicas_check : List Fields → DiagnosticCheck
  replicas_check mds =
      let total = total_replicas mds (pos 0) in
      if is_zero total
      then check "capi-replicas" severity_warning
          (concat (
            "All "
            ∷ format_int (pos (length mds))
            ∷ " MachineDeployments have 0 replicas (hibernated)"
            ∷ []))
          "Use 'acmlab lifecycle resume' to scale workers back up"
      else check "capi-replicas" severity_ok
          (concat (
            format_int (pos (length mds))
            ∷ " MachineDeployment(s) with "
            ∷ format_int total
            ∷ " total replicas"
            ∷ []))
          ""

  -- The report on a Hive cluster before its ManagedCluster is read.
  unfoldable pub hive_report : DiagnosticReport → Fields → DiagnosticReport
  hive_report report cd =
      let spec = or_unknown (found_or "" (o.nested_string cd ("spec" ∷ "powerState" ∷ []))) in
      let state = or_unknown (found_or "" (o.nested_string cd ("status" ∷ "powerState" ∷ []))) in
      record report {
        hive_power_spec = spec;
        hive_power_status = state;
        platform = found_or "" (
            o.nested_string cd ("metadata" ∷ "labels" ∷ "hive.openshift.io/cluster-platform" ∷ []));
        checks = check_hive_transition spec state ∷ check_hive_conditions o cd state;
      }

  unfoldable pub new_report : String → String → DiagnosticReport
  new_report ns name = record {
    cluster = concat (ns ∷ "/" ∷ name ∷ []);
    hive_power_spec = "";
    hive_power_status = "";
    acm_available = "";
    acm_joined = "";
    platform = "";
    checks = [];
    suggestions = [];
  }

module _ {W : Type 0} (o : Accessors) (h : Hub W) where
  abbrev no_deployment : String → Error
  no_deployment name =
      text
        (concat ("no ClusterDeployment or CAPI MachineDeployment found for cluster " ∷ name ∷ []))

  unfoldable pub diagnose_capi : String → DiagnosticReport → Run W DiagnosticReport
  diagnose_capi name report w =
      let (listed, w1) = list_capi_machine_deployments o h name w in
      elim listed [
        | err _ ↦ (err (no_deployment name), w1)
        | ok mds ↦ elim mds [
          | [] ↦ (err (no_deployment name), w1)
          | md ∷ rest ↦
              let (spec, w2) = get_capi_power_state o h name w1 in
              let (state, w3) = get_capi_power_state_status o h name w2 in
              let (mc, w4) = h.get managed_cluster "" name w3 in
              (
                add_acm o "" (text_of spec)
                    (record report {
                      platform = "CAPI";
                      hive_power_spec = text_of spec;
                      hive_power_status = text_of state;
                      checks = replicas_check o (md ∷ rest) ∷ [];
                    })
                    mc,
                w4,
              )
        ]
      ]

  unfoldable pub diagnose : String → String → Run W DiagnosticReport
  diagnose ns name w =
      let report = new_report o ns name in
      let (r, w1) = h.get cluster_deployment ns name w in
      elim r [
        | err e ↦ elim (is_not_found e) [
          | true ↦ diagnose_capi name report w1
          | false ↦ (err (wrapped "getting ClusterDeployment" e), w1)
        ]
        | ok cd ↦
            let full = hive_report o report cd in
            let (mc, w2) = h.get managed_cluster "" name w1 in
            (
              add_acm o
                  "ClusterDeployment exists but ManagedCluster does not — cluster may not be registered with ACM"
                  full.hive_power_spec full mc,
              w2,
            )
      ]
