-- ===== src/Decommission/Steps.antt =====
-- The steps of a decommission: internal/decommission/drain.go, backup.go and cleanup.go. Logged
-- warnings are left out: a failed clean-up call only logs.
use acm_caas_poc.Prelude.{
  String, Bool, true, false, not, Option, none, some, List, [], ◌∷◌, ◌==◌, if◌then◌else◌,
}
use acm_caas_poc.Kube.Errors.{Error, text, wrapped, is_not_found, Result, ok, err}
use acm_caas_poc.Kube.Values.{Fields}
use acm_caas_poc.Kube.Objects.{Accessors}
use acm_caas_poc.Kube.Hub.{Run, Hub, pure, raise, ◌>>=◌}
use acm_caas_poc.Client.Resources.{cluster_deployment, managed_cluster, manifest_work, namespace}
use acm_caas_poc.Decommission.State.{Codec}
use acm_caas_poc.Decommission.ConfigMap.{get_state}

abbrev notify_refusal : Error
notify_refusal =
    text "notify not implemented: owner notification and acknowledgement required before proceeding"

abbrev backup_refusal : Error
backup_refusal = text "backup not implemented: real cluster state export required before proceeding"

module _ {W : Type 0} (o : Accessors) (j : Codec) (h : Hub W) where
  unfoldable pub notify : String → Run W (Unit {0})
  notify cluster = do
    state ← get_state o j h cluster
    if not (state.notified_at == "") then pure tt else raise notify_refusal

  unfoldable pub backup : String → Run W (Unit {0})
  backup cluster = do
    state ← get_state o j h cluster
    if not (state.backup_path == "") then pure tt else raise backup_refusal

  -- The timeout is defaulted and then not read.
  unfoldable pub drain : Run W (Unit {0})
  drain = raise (text "drain not implemented: real node drain required before cluster deletion")

  -- `err != nil && !apierrors.IsNotFound(err)` turned into the error to return.
  abbrev gone_is_fine : Result (Unit {0}) → Option Error
  gone_is_fine (ok _) = none
  gone_is_fine (err e) = if is_not_found e then none else some e

  -- `Delete`: whether the cluster was Hive's, and the error, which may come together.
  unfoldable pub delete : String → W → (Bool × Option Error) × W
  delete cluster w =
      let (r, w1) = h.get cluster_deployment cluster cluster w in
      elim r [
        | ok _ ↦
            let (d, w2) = h.delete cluster_deployment cluster cluster w1 in
            ((true, gone_is_fine d), w2)
        | err e ↦ elim (is_not_found e) [
          | false ↦ (
            (
              false,
              some
                  (wrapped "cannot determine cluster type (permissions or connectivity failure)" e),
            ),
            w1,
          )
          | true ↦
              let (d, w2) = h.delete managed_cluster "" cluster w1 in ((false, gone_is_fine d), w2)
        ]
      ]

  -- The loop over the ManifestWorks: every deletion is tried.
  unfoldable pub delete_works : String → List Fields → W → W
  delete_works cluster [] w = w
  delete_works cluster (mw ∷ rest) w =
      delete_works cluster rest (h.delete manifest_work cluster (o.get_name mw) w).1

  -- `Cleanup`, which never returns an error.
  unfoldable pub cleanup : String → W → W
  cleanup cluster w =
      let (r, w1) = h.list manifest_work cluster "" w in
      let w2 : W = elim r [ err _ ↦ w1 | ok works ↦ delete_works cluster works w1 ] in
      let w3 = (h.delete managed_cluster "" cluster w2).1 in (h.delete namespace "" cluster w3).1
