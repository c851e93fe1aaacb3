-- ===== src/Scaling.antt =====
-- internal/scaling/scaling.go: the errors, the descriptions of pools, and what is read of
-- objects. The operations on machine pools are in Scaling.Pools, those on other pools in Scaling.Nodes.
pub mod Pools
pub mod Nodes
pub mod Fallback
use acm_caas_poc.Prelude.{
  ℕ, ◌+◌, ◌-◌, ◌%◌, String, Bool, true, false, not, Option, none, some, List, [], ◌∷◌, ◌==◌, leb,
  if◌then◌else◌, concat, lookup,
}
use acm_caas_poc.Prelude.Int.{ℤ, pos, negsuc}
use acm_caas_poc.Prelude.Decimal.{format_int}
use acm_caas_poc.Kube.Errors.{Error, ok, err}
use acm_caas_poc.Kube.Values.{Fields, end, has_key}
use acm_caas_poc.Kube.Objects.{Found, found, missing, mistyped, found_or, Accessors, label}
use acm_caas_poc.Kube.Hub.{Run}

-- `ErrNoMachinePool`
pub record NoMachinePool : Type 0 where
  pub cluster_name : String
  pub is_hive : Bool
  pub vendor_type : String
  pub worker_count : ℕ
  pub worker_type : String

abbrev coalesce : String → String → String
coalesce s fallback = if s == "" then fallback else s

-- Its `Error` method.
unfoldable pub no_machine_pool_text : NoMachinePool → String
no_machine_pool_text e =
    if not e.is_hive
    then concat (
        "cluster "
        ∷ e.cluster_name
        ∷ " ("
        ∷ coalesce e.vendor_type "unknown type"
        ∷ ") was not provisioned by Hive — MachinePool scaling is not available.\n"
        ∷ "Use acmlab scaling init to adopt existing workers, or your cloud provider's\n"
        ∷ "native scaling tools (e.g., ibmcloud ks, aws eks, gcloud container)."
        ∷ [])
    else concat (
        "no MachinePool found for cluster "
        ∷ e.cluster_name
        ∷ ".\nCurrent workers detected: "
        ∷ format_int (pos e.worker_count)
        ∷ " × "
        ∷ e.worker_type
        ∷ "\nTo enable scaling management run:\n  acmlab scaling init "
        ∷ e.cluster_name
        ∷ " --worker-type "
        ∷ e.worker_type
        ∷ " --replicas "
        ∷ format_int (pos e.worker_count)
        ∷ [])

-- A result, an `*ErrNoMachinePool`, or another error.
pub data Outcome (A : Type 0) : Type 0 where
  done : A → Outcome A
  no_pool : NoMachinePool → Outcome A
  failed : Error → Outcome A

abbrev pub Scaling : Type 0 → Type 0 → Type 0
Scaling W A = W → Outcome A × W

module _ {W : Type 0} where
  -- A call that fails with an error of the API.
  abbrev pub call : {A : Type 0} → Run W A → Scaling W A
  call m w = let (r, w1) = m w in (elim r [ ok a ↦ done a | err e ↦ failed e ], w1)

  -- `if err != nil { return err }`
  abbrev pub and_then : {A B : Type 0} → Scaling W A → (A → Scaling W B) → Scaling W B
  and_then m f w =
      let (r, w1) = m w in
      elim r [ done a ↦ f a w1 | no_pool e ↦ (no_pool e, w1) | failed e ↦ (failed e, w1) ]

-- A pointer to a number is none where it is nil.
pub record MachinePoolInfo : Type 0 where
  pub name : String
  pub namespace : String
  pub replicas : Option ℤ
  pub min_size : Option ℤ
  pub max_size : Option ℤ
  pub platform : String

-- `err == nil && found`
abbrev pub found_option : {A : Type 0} → Found A → Option A
found_option (found a) = some a
found_option missing = none
found_option mistyped = none

-- The first platform of the list whose key a test accepts, or the empty text.
abbrev pub first_key : (String → Bool) → List String → String
first_key p [] = ""
first_key p (k ∷ ks) = let later = first_key p ks in if p k then k else later

-- `int32(n)`
unfoldable pub to_int32 : ℤ → ℤ
to_int32 (pos n) =
    let u = n % 4294967296 in if leb u 2147483647 then pos u else negsuc (4294967295 - u)
to_int32 (negsuc n) =
    let u = n % 4294967296 in if leb u 2147483647 then negsuc u else pos (4294967295 - u)

module _ (o : Accessors) where
  unfoldable pub machine_pool_info : Fields → MachinePoolInfo
  machine_pool_info mp = record {
    name = o.get_name mp;
    namespace = o.get_namespace mp;
    replicas = found_option (o.nested_int64 mp ("spec" ∷ "replicas" ∷ []));
    min_size = found_option (o.nested_int64 mp ("spec" ∷ "autoscaling" ∷ "minReplicas" ∷ []));
    max_size = found_option (o.nested_int64 mp ("spec" ∷ "autoscaling" ∷ "maxReplicas" ∷ []));
    platform =
        first_key
          (λ p. elim (o.nested_map mp ("spec" ∷ "platform" ∷ p ∷ [])) [
            | found _ ↦ true
            | missing ↦ false
            | mistyped ↦ false
          ])
          ("ibmcloud" ∷ "ibmvpc" ∷ "aws" ∷ "gcp" ∷ "azure" ∷ []);
  }

  unfoldable pub detect_platform : Fields → String
  detect_platform cd =
      let platforms = found_or end (o.nested_map cd ("spec" ∷ "platform" ∷ [])) in
      first_key (has_key platforms)
        ("ibmcloud" ∷ "aws" ∷ "gcp" ∷ "azure" ∷ "openstack" ∷ "vsphere" ∷ "ovirt" ∷ [])

  -- The loop of `GetCurrentWorkerInfo`.
  unfoldable pub count_workers : List Fields → ℕ → String → ℕ × String
  count_workers [] count type = (count, type)
  count_workers (node ∷ rest) count type =
      let labels = found_or [] (o.nested_string_map node ("labels" ∷ [])) in
      elim (lookup "node-role.kubernetes.io/worker" labels) [
        | none ↦ count_workers rest count type
        | some _ ↦
            count_workers rest (count + 1)
              (if type == "" then label labels "node.kubernetes.io/instance-type" else type)
      ]
