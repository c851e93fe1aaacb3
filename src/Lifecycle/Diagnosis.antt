-- ===== src/Lifecycle/Diagnosis.antt =====
-- internal/lifecycle/lifecycle.go: the checks of `Diagnose` and the suggestions drawn from them.
pub mod Conditions
pub mod Health
use acm_caas_poc.Prelude.{
  String, Bool, true, false, ◌&&◌, ◌||◌, not, List, [], ◌∷◌, ◌++◌, ◌==◌, if◌then◌else◌, concat,
}
use acm_caas_poc.Kube.Values.{Fields, maps_of}
use acm_caas_poc.Kube.Objects.{found, missing, mistyped, found_or, Accessors}
use acm_caas_poc.Lifecycle.Capi.{running, hibernating, stopping}

pub data Severity : Type 0 where
  severity_ok severity_warning severity_error : Severity

pub record DiagnosticCheck : Type 0 where
  pub name : String
  pub severity : Severity
  pub message : String
  pub detail : String

abbrev pub check : String → Severity → String → String → DiagnosticCheck
check name severity message detail = record {
  name = name;
  severity = severity;
  message = message;
  detail = detail;
}

unfoldable pub check_hive_transition : String → String → DiagnosticCheck
check_hive_transition spec status =
    if spec == status
    then check "hive-power-sync" severity_ok (concat ("Power state consistent: " ∷ spec ∷ [])) ""
    else check "hive-power-sync" severity_warning
        (concat ("Power state transitioning: spec=" ∷ spec ∷ ", status=" ∷ status ∷ []))
        "Hive has not yet reached the desired power state"

-- `problemConditions[condType]`
unfoldable pub is_problem : String → Bool
is_problem t =
    t == "Unreachable"
    || t == "ProvisionFailed"
    || t == "SyncSetFailed"
    || t == "InstallLaunchError"
    || t == "AuthenticationFailure"

-- A cluster that is down on purpose.
abbrev pub is_asleep : String → Bool
is_asleep power = power == hibernating || power == stopping

module _ (o : Accessors) where
  abbrev pub text_at : Fields → String → String
  text_at m k = found_or "" (o.nested_string m (k ∷ []))

  unfoldable pub condition_check : String → Fields → DiagnosticCheck
  condition_check power cond =
      let t = text_at cond "type" in
      let msg = text_at cond "message" in
      if t == "Unreachable" && is_asleep power
      then check (concat ("hive-" ∷ t ∷ [])) severity_ok
          (concat ("Unreachable (expected — cluster is " ∷ power ∷ ")" ∷ [])) msg
      else check (concat ("hive-" ∷ t ∷ [])) severity_error
          (concat ("Hive condition " ∷ t ∷ " is True" ∷ [])) msg

  -- The loop of `checkHiveConditions`.
  unfoldable pub condition_checks : String → List Fields → List DiagnosticCheck
  condition_checks power [] = []
  condition_checks power (cond ∷ rest) =
      let later = condition_checks power rest in
      if not (is_problem (text_at cond "type"))
      then later
      else if not (text_at cond "status" == "True")
      then later
      else condition_check power cond ∷ later

  unfoldable pub check_hive_conditions : Fields → String → List DiagnosticCheck
  check_hive_conditions cd power = elim (o.nested_slice cd ("status" ∷ "conditions" ∷ [])) [
    | found items ↦ condition_checks power (maps_of items)
    | missing ↦ []
    | mistyped ↦ []
  ]

  -- The loop of `extractMCConditions`, over the two running values.
  unfoldable pub mc_conditions : List Fields → String → String → String × String
  mc_conditions [] available joined = (available, joined)
  mc_conditions (cond ∷ rest) available joined =
      let t = text_at cond "type" in
      let s = text_at cond "status" in
      mc_conditions rest (if t == "ManagedClusterConditionAvailable" then s else available) (
        if t == "ManagedClusterConditionAvailable"
        then joined
        else if t == "ManagedClusterJoined"
        then s
        else joined)

  unfoldable pub extract_mc_conditions : Fields → String × String
  extract_mc_conditions mc = elim (o.nested_slice mc ("status" ∷ "conditions" ∷ [])) [
    | found items ↦ mc_conditions (maps_of items) "Unknown" "Unknown"
    | missing ↦ ("Unknown", "Unknown")
    | mistyped ↦ ("Unknown", "Unknown")
  ]

-- The four tests of `checkACMHealth`, each adding at most one check.
abbrev running_mismatch : String → String → List DiagnosticCheck
running_mismatch power available =
    if power == running && not (available == "True")
    then check "acm-available-mismatch"
        (if available == "Unknown" then severity_error else severity_warning)
        (concat ("Hive power=Running but ACM Available=" ∷ available ∷ []))
        (if available == "Unknown"
          then "Registration agent stopped updating its lease — klusterlet may need restart"
          else "Hive says Running but ACM agent is not reporting as available")
      ∷ []
    else []

abbrev asleep_available : String → String → List DiagnosticCheck
asleep_available power available =
    if is_asleep power && available == "True"
    then check "acm-available-during-hibernate" severity_warning
        "ACM reports Available=True while cluster is hibernating"
        "Cluster is hibernating but ACM agent lease has not expired yet — will resolve when lease times out"
      ∷ []
    else []

abbrev asleep_unavailable : String → String → List DiagnosticCheck
asleep_unavailable power available =
    if is_asleep power && (available == "Unknown" || available == "False")
    then check "acm-health" severity_ok
        (concat ("ACM Available=" ∷ available ∷ " (expected — cluster is " ∷ power ∷ ")" ∷ [])) ""
      ∷ []
    else []

abbrev not_joined : String → List DiagnosticCheck
not_joined joined =
    if not (joined == "True") && not (joined == "Unknown")
    then check "acm-not-joined" severity_error (concat ("ManagedCluster Joined=" ∷ joined ∷ []))
        "Cluster has not joined the hub — check klusterlet installation on the spoke"
      ∷ []
    else []

-- `if len(checks) == 0`
or_consistent : String → String → List DiagnosticCheck → List DiagnosticCheck
or_consistent available joined [] =
    check "acm-health" severity_ok
      (concat ("ACM health consistent: Available=" ∷ available ∷ ", Joined=" ∷ joined ∷ [])) ""
    ∷ []
or_consistent available joined (c ∷ cs) = c ∷ cs

unfoldable pub check_acm_health : String → String → String → List DiagnosticCheck
unfolding or_consistent
check_acm_health power available joined = or_consistent available joined (
    running_mismatch power available
    ++ (asleep_available power available
        ++ (asleep_unavailable power available ++ not_joined joined)))

abbrev is_error : Severity → Bool
is_error severity_error = true
is_error _ = false

-- The `switch` of `deriveSuggestions`.
unfoldable pub suggestions_for : DiagnosticCheck → List String
suggestions_for c =
    if c.name == "acm-available-mismatch"
    then if is_error c.severity
      then "Restart klusterlet agent pods: kubectl delete pods -n open-cluster-management-agent -l app=klusterlet-agent --context <spoke>"
        ∷ "Check klusterlet logs: kubectl logs -n open-cluster-management-agent -l app=klusterlet-agent --tail=50 --context <spoke>"
        ∷ []
      else []
    else if c.name == "hive-Unreachable"
    then "Check cloud credentials and network connectivity to the cluster's API server" ∷ []
    else if c.name == "hive-ProvisionFailed"
    then "Review ClusterDeployment conditions: kubectl get clusterdeployment -n <namespace> <name> -o yaml"
      ∷ "Check Hive install logs: kubectl logs -n <namespace> -l hive.openshift.io/cluster-deployment-name=<name>"
      ∷ []
    else if c.name == "acm-not-joined"
    then "Re-import the cluster from ACM console or recreate the klusterlet" ∷ []
    else if c.name == "managedcluster-exists"
    then "Import the cluster into ACM: create a ManagedCluster resource matching the ClusterDeployment name"
      ∷ []
    else []

unfoldable pub derive_suggestions : List DiagnosticCheck → List String
derive_suggestions [] = []
derive_suggestions (c ∷ cs) = suggestions_for c ++ derive_suggestions cs
