-- ===== src/Examples/Pool.antt =====
-- internal/pool/manual.go at a server with one cluster.
use acm_caas_poc.Prelude.{String, ◌≡◌, refl, Bool, true, false, some, [], ◌∷◌, lookup}
use acm_caas_poc.Kube.Errors.{Error, wrapped, ok, err}
use acm_caas_poc.Kube.Values.{bool, str, Fields, fields_of, map_of}
use acm_caas_poc.Kube.Hub.{Hub}
use acm_caas_poc.Lifecycle.Capi.{hibernating}
use acm_caas_poc.Lifecycle.Power.{get_power_state, set_power_state, resume_cluster}
use acm_caas_poc.Pool.Manual.{
  label_pool_claimed, ClaimInfo, is_claimed, is_hibernating, resumed, try_atomic_claim, won,
  claim_patched, claim_read, claim_from,
}
use acm_caas_poc.Pool.Manual.Claiming.{Among, Won, claim_from-Won}
use acm_caas_poc.Examples.Worlds.{walking, conflict_error}

-- A cluster that is installed and hibernating, claimed or not.
abbrev pool_cluster : String → Fields
pool_cluster claimed = fields_of (
    (
      "metadata",
      map_of (
          ("name", str "c1")
          ∷ ("resourceVersion", str "7")
          ∷ ("labels", map_of ((label_pool_claimed, str claimed) ∷ []))
          ∷ []),
    )
    ∷ ("spec", map_of (("installed", bool true) ∷ ("powerState", str hibernating) ∷ []))
    ∷ [])

abbrev free_cluster : Fields
free_cluster = pool_cluster "false"

-- The world says whether the cluster has left version 7. A patch by a version succeeds until then.
abbrev pool_hub : Hub Bool
pool_hub = record {
  create = λ g ns x b. (ok x, b);
  get = λ g ns name b. (ok free_cluster, b);
  list = λ g ns sel b. (ok (free_cluster ∷ []), b);
  update = λ g ns x b. (ok x, b);
  delete = λ g ns name b. (ok tt, b);
  patch = λ g ns name d b. elim b [ true ↦ (err conflict_error, true) | false ↦ (ok d, true) ];
}

abbrev Spent : String → String → Bool → Type 0
Spent name v b = b ≡ true

abbrev Later : Bool → Bool → Type 0
Later b c = b ≡ true → c ≡ true

abbrev claim : ClaimInfo
claim = record {
  name = "mine";
  pool = "p";
  namespace = "";
  cluster = "c1";
  status = "ResumeFailed";
}

-- The cluster is claimed, and then the server refuses the patch that would resume it.
abbrev resume_error : Error
resume_error = wrapped "patching ClusterDeployment c1/c1 powerState to Running" conflict_error

claimed :
    (claim_from walking pool_hub (λ p b. b) "p" "mine" ("c1" ∷ []) false).0
    ≡ (some claim, some resume_error)
unfolding claim_from claim_read claim_patched try_atomic_claim won resumed resume_cluster
    get_power_state set_power_state is_claimed is_hibernating walking lookup
claimed = refl

claim_from-Won_example : Among "c1" ("c1" ∷ []) × Won walking pool_hub "c1"
claim_from-Won_example =
    claim_from-Won walking pool_hub (λ p b. b) "p" "mine" ("c1" ∷ []) false claim
      (some resume_error) claimed
