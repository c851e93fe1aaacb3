-- ===== src/Lifecycle/Capi.antt =====
-- internal/lifecycle/lifecycle.go: clusters that Cluster API runs, by their MachineDeployments.
pub mod Replicas
pub mod States
use acm_caas_poc.Prelude.{
  zero, String, Bool, true, false, ◌&&◌, Option, none, some, List, [], ◌∷◌, if◌then◌else◌, concat,
  Map, lookup, insert,
}
use acm_caas_poc.Prelude.Int.{ℤ, pos, leb_ℤ, is_nonpositive}
use acm_caas_poc.Prelude.Decimal.{format_int, parsed, syntax_error, range_error, parse_int}
use acm_caas_poc.Kube.Errors.{Error, text, wrapped, is_not_found, ok, err}
use acm_caas_poc.Kube.Values.{int, object, Fields, texts, fields_of, map_of}
use acm_caas_poc.Kube.Objects.{found_or, Accessors}
use acm_caas_poc.Kube.Hub.{Run, Hub, pure, raise, attempt, context, ◌>>=◌, for_each}
use acm_caas_poc.Client.Resources.{capi_machine_deployment}

-- `PowerState` is a text.
abbrev pub running : String
running = "Running"

abbrev pub hibernating : String
hibernating = "Hibernating"

abbrev pub stopping : String
stopping = "Stopping"

abbrev pub resuming : String
resuming = "Resuming"

abbrev pub unknown : String
unknown = "Unknown"

abbrev pub pre_hibernate_annotation : String
pre_hibernate_annotation = "acmlab.redhat.com/pre-hibernate-replicas"

abbrev pub default_capi_replicas : ℤ
default_capi_replicas = pos 1

abbrev pub is_zero : ℤ → Bool
is_zero (pos zero) = true
is_zero _ = false

module _ (o : Accessors) where
  abbrev pub spec_replicas : Fields → ℤ
  spec_replicas md = found_or (pos 0) (o.nested_int64 md ("spec" ∷ "replicas" ∷ []))

  -- The annotations of the object, an empty map for a nil one, with the replicas noted down.
  unfoldable pub noted_annotations : Fields → ℤ → Map String
  noted_annotations md replicas =
      insert pre_hibernate_annotation (format_int replicas)
        (elim (o.get_annotations md) [ none ↦ [] | some m ↦ m ])

  -- The merge patch of `HibernateCAPI` for one deployment, none where it has no replicas.
  unfoldable pub hibernate_patch : Fields → Option Fields
  hibernate_patch md =
      if is_zero (spec_replicas md)
      then none
      else some (
          fields_of (
            (
              "metadata",
              map_of
                  (("annotations", object (texts (noted_annotations md (spec_replicas md)))) ∷ []),
            )
            ∷ ("spec", map_of (("replicas", int (pos 0)) ∷ []))
            ∷ []))

  -- `targetReplicas` of `ResumeCAPI`.
  unfoldable pub target_replicas : Fields → ℤ
  target_replicas md =
      elim (lookup pre_hibernate_annotation
        (elim (o.get_annotations md) [ none ↦ [] | some m ↦ m ])) [
          | none ↦ default_capi_replicas
          | some v ↦ elim (parse_int v) [
            | parsed n ↦ if is_nonpositive n then default_capi_replicas else n
            | syntax_error ↦ default_capi_replicas
            | range_error _ ↦ default_capi_replicas
          ]
        ]

  unfoldable pub resume_patch : Fields → Fields
  resume_patch md = fields_of (("spec", map_of (("replicas", int (target_replicas md)) ∷ [])) ∷ [])

module _ {W : Type 0} (o : Accessors) (h : Hub W) where
  unfoldable pub list_capi_machine_deployments : String → Run W (List Fields)
  list_capi_machine_deployments cluster = do
    r ← attempt (h.list capi_machine_deployment cluster "")
    elim r [
      | ok items ↦ pure items
      | err e ↦
          if is_not_found e
          then pure []
          else raise (wrapped (concat ("listing CAPI MachineDeployments for " ∷ cluster ∷ [])) e)
    ]

  -- One patch of a deployment, with the error that names it.
  unfoldable pub patch_deployment : Fields → Fields → Run W (Unit {0})
  patch_deployment md data' =
      context
        (concat ("patching MachineDeployment " ∷ o.get_namespace md ∷ "/" ∷ o.get_name md ∷ []))
        (h.patch capi_machine_deployment (o.get_namespace md) (o.get_name md) data')
      >>= λ _. pure tt

  unfoldable pub hibernate_deployment : Fields → Run W (Unit {0})
  hibernate_deployment md = elim (hibernate_patch o md) [
    | none ↦ pure tt
    | some data' ↦ patch_deployment md data'
  ]

  unfoldable pub resume_deployment : Fields → Run W (Unit {0})
  resume_deployment md = patch_deployment md (resume_patch o md)

  unfoldable pub no_deployments : String → Error
  no_deployments name = text (concat ("no CAPI MachineDeployments found for cluster " ∷ name ∷ []))

  unfoldable pub hibernate_capi : String → Run W (Unit {0})
  unfolding hibernate_deployment no_deployments
  hibernate_capi name = do
    mds ← list_capi_machine_deployments name
    elim mds [
      | [] ↦ raise (no_deployments name)
      | md ∷ rest ↦ for_each hibernate_deployment (md ∷ rest)
    ]

  unfoldable pub resume_capi : String → Run W (Unit {0})
  unfolding resume_deployment no_deployments
  resume_capi name = do
    mds ← list_capi_machine_deployments name
    elim mds [
      | [] ↦ raise (no_deployments name)
      | md ∷ rest ↦ for_each resume_deployment (md ∷ rest)
    ]

-- The loop of `getCAPIPowerState`.
unfoldable pub power_of : Accessors → List Fields → String
power_of o [] = hibernating
power_of o (md ∷ rest) = if is_nonpositive (spec_replicas o md) then power_of o rest else running

-- The second loop of `getCAPIPowerStateStatus`: deployments with no wanted replicas.
unfoldable pub drained_status : Accessors → List Fields → String
drained_status o [] = hibernating
drained_status o (md ∷ rest) =
    if is_nonpositive (found_or (pos 0) (o.nested_int64 md ("status" ∷ "replicas" ∷ [])))
    then drained_status o rest
    else unknown

abbrev pub is_ready : Accessors → Fields → Bool
is_ready o md =
    leb_ℤ (spec_replicas o md)
      (found_or (pos 0) (o.nested_int64 md ("status" ∷ "readyReplicas" ∷ [])))
    && leb_ℤ (spec_replicas o md)
        (found_or (pos 0) (o.nested_int64 md ("status" ∷ "availableReplicas" ∷ [])))

-- Its first loop, which returns at the first deployment with wanted replicas.
unfoldable pub first_wanted : Accessors → List Fields → Option String
first_wanted o [] = none
first_wanted o (md ∷ rest) =
    if is_zero (spec_replicas o md)
    then first_wanted o rest
    else if is_ready o md
    then some running
    else some unknown

unfoldable pub status_of : Accessors → List Fields → String
unfolding first_wanted drained_status
status_of o mds = elim (first_wanted o mds) [ some s ↦ s | none ↦ drained_status o mds ]

module _ {W : Type 0} (o : Accessors) (h : Hub W) where
  abbrev no_cluster : String → Error
  no_cluster name =
      text
        (concat ("no ClusterDeployment or CAPI MachineDeployment found for cluster " ∷ name ∷ []))

  unfoldable pub get_capi_power_state : String → Run W String
  get_capi_power_state name = do
    mds ← list_capi_machine_deployments o h name
    elim mds [ [] ↦ raise (no_cluster name) | md ∷ rest ↦ pure (power_of o (md ∷ rest)) ]

  unfoldable pub get_capi_power_state_status : String → Run W String
  get_capi_power_state_status name = do
    mds ← list_capi_machine_deployments o h name
    elim mds [ [] ↦ raise (no_cluster name) | md ∷ rest ↦ pure (status_of o (md ∷ rest)) ]
