-- ===== src/Lifecycle/Power.antt =====
-- internal/lifecycle/lifecycle.go: power states, `Hibernate`, `Resume` and the reading of states.
pub mod Keeping
use acm_caas_poc.Prelude.{String, [], ◌∷◌, ◌==◌, if◌then◌else◌, concat}
use acm_caas_poc.Kube.Errors.{text, wrapped, is_not_found, Result, ok, err}
use acm_caas_poc.Kube.Values.{str, Fields, fields_of, map_of}
use acm_caas_poc.Kube.Objects.{found, missing, mistyped, Accessors}
use acm_caas_poc.Kube.Hub.{Run, Hub, pure, raise, lift, attempt, context, ◌>>=◌}
use acm_caas_poc.Client.Resources.{cluster_deployment}
use acm_caas_poc.Lifecycle.Capi.{
  running, hibernating, unknown, hibernate_capi, resume_capi, get_capi_power_state,
  get_capi_power_state_status,
}

-- `getCAPIPowerState` and `getCAPIPowerStateStatus` differ in how they read the deployments.
module _ {W : Type 0} (o : Accessors) (h : Hub W) where
  -- The two `Get…` functions for a Hive cluster read one text each.
  read_power_state : String → Fields → Result String
  read_power_state section cd = elim (o.nested_string cd (section ∷ "powerState" ∷ [])) [
    | mistyped ↦
        err (wrapped (concat ("reading " ∷ section ∷ ".powerState" ∷ [])) (text "mistyped"))
    | missing ↦ ok unknown
    | found s ↦ if s == "" then ok unknown else ok s
  ]

  unfoldable pub get_power_state : String → String → Run W String
  unfolding read_power_state
  get_power_state ns name = do
    r ← attempt (h.get cluster_deployment ns name)
    elim r [
      | err e ↦
          if is_not_found e
          then get_capi_power_state o h name
          else raise (wrapped "getting ClusterDeployment" e)
      | ok cd ↦ lift (read_power_state "spec" cd)
    ]

  unfoldable pub get_power_state_status : String → String → Run W String
  unfolding read_power_state
  get_power_state_status ns name = do
    r ← attempt (h.get cluster_deployment ns name)
    elim r [
      | err e ↦
          if is_not_found e
          then get_capi_power_state_status o h name
          else raise (wrapped "getting ClusterDeployment" e)
      | ok cd ↦ lift (read_power_state "status" cd)
    ]

  -- The merge patch of `setPowerState`.
  abbrev pub power_patch : String → Fields
  power_patch state = fields_of (("spec", map_of (("powerState", str state) ∷ [])) ∷ [])

  unfoldable pub set_power_state : String → String → String → Run W (Unit {0})
  set_power_state ns name state =
      context
        (concat ("patching ClusterDeployment " ∷ ns ∷ "/" ∷ name ∷ " powerState to " ∷ state ∷ []))
        (h.patch cluster_deployment ns name (power_patch state))
      >>= λ _. pure tt

  -- `Hibernate` and `Resume` up to the patch: a state that is there already is left alone.
  abbrev pub switch_hive : String → String → String → Run W (Unit {0})
  switch_hive ns name target = do
    current ← context "checking current power state" (get_power_state ns name)
    if current == target then pure tt else set_power_state ns name target

  unfoldable pub hibernate : String → String → Run W (Unit {0})
  hibernate ns name = do
    r ← attempt (h.get cluster_deployment ns name)
    elim r [
      | err e ↦
          if is_not_found e
          then hibernate_capi o h name
          else raise (wrapped "checking ClusterDeployment" e)
      | ok _ ↦ switch_hive ns name hibernating
    ]

  unfoldable pub resume_cluster : String → String → Run W (Unit {0})
  resume_cluster ns name = do
    r ← attempt (h.get cluster_deployment ns name)
    elim r [
      | err e ↦
          if is_not_found e
          then resume_capi o h name
          else raise (wrapped "checking ClusterDeployment" e)
      | ok _ ↦ switch_hive ns name running
    ]
