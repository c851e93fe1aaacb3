-- ===== src/Client.antt =====
-- internal/client/client.go: the calls that are more than one request. The plain ones are the
-- fields of `Hub`, with the namespace passed on as `resource` does.
pub mod Resources
pub mod Laws
pub mod Idempotence
use acm_caas_poc.Prelude.{String, not, Option, none, some, [], ◌∷◌, if◌then◌else◌, concat}
use acm_caas_poc.Kube.Errors.{Error, wrapped, is_not_found, ok, err}
use acm_caas_poc.Kube.Values.{Fields}
use acm_caas_poc.Kube.Objects.{found_or, Accessors}
use acm_caas_poc.Kube.Hub.{Gvr, Run, Hub, pure, raise, attempt, ◌>>=◌}
use acm_caas_poc.Client.Resources.{managed_cluster_info}

module _ {W : Type 0} (o : Accessors) (h : Hub W) where
  -- `CreateIfNotExists`
  unfoldable pub create_if_not_exists : Gvr → String → Fields → Run W (Unit {0})
  create_if_not_exists gvr ns obj = do
    r ← attempt (h.get gvr ns (o.get_name obj))
    elim r [
      | ok _ ↦ pure tt
      | err e ↦ if not (is_not_found e) then raise e else h.create gvr ns obj >>= λ _. pure tt
    ]

module _ {W : Type 0} (h : Hub W) where
  -- `DeleteIfExists`
  unfoldable pub delete_if_exists : Gvr → String → String → Run W (Unit {0})
  delete_if_exists gvr ns name = do
    r ← attempt (h.delete gvr ns name)
    elim r [ ok _ ↦ pure tt | err e ↦ if not (is_not_found e) then raise e else pure tt ]

-- `ClusterType` of clustertype.go is a text.
abbrev pub cluster_type_ocp : String
cluster_type_ocp = "OCP"

abbrev pub cluster_type_kubernetes : String
cluster_type_kubernetes = "kubernetes"

abbrev pub cluster_type_unknown : String
cluster_type_unknown = ""

module _ {W : Type 0} (o : Accessors) (h : Hub W) where
  -- `GetClusterType` returns a type also with an error, which its callers drop.
  unfoldable pub get_cluster_type : String → W → (String × Option Error) × W
  get_cluster_type cluster w =
      let (r, w1) = h.get managed_cluster_info cluster cluster w in
      (
        elim r [
          | ok info ↦ (
            found_or "" (o.nested_string info ("status" ∷ "distributionInfo" ∷ "type" ∷ [])),
            none,
          )
          | err e ↦ (
            cluster_type_unknown,
            some (wrapped (concat ("getting ManagedClusterInfo for " ∷ cluster ∷ [])) e),
          )
        ],
        w1,
      )
