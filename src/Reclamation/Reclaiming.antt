-- ===== src/Reclamation/Reclaiming.antt =====
-- What `ReclaimCluster` of internal/reclamation/reclamation.go can do to a cluster.
use acm_caas_poc.Prelude.{String, ◌≡◌}
use acm_caas_poc.Kube.Errors.{ok}
use acm_caas_poc.Kube.Values.{Fields}
use acm_caas_poc.Kube.Objects.{Accessors}
use acm_caas_poc.Kube.Hub.{Hub}
use acm_caas_poc.Client.Resources.{cluster_deployment}
use acm_caas_poc.Lifecycle.Power.Keeping.{KeptByPatches, keep-hibernate}
use acm_caas_poc.Reclamation.{reclaim_cluster}

-- ReclaimCluster never deletes a cluster that has a ClusterDeployment: whatever the server
-- answers, it keeps every property of the world that reads, lists and merge patches keep.
pub reclaim_keeps :
    {W : Type 0} (o : Accessors) (h : Hub W) (P : W → Type 0)
    → KeptByPatches h P
    → (cluster : String) (w : W) (cd : Fields)
    → (h.get cluster_deployment cluster cluster w).0 ≡ ok cd
    → P w
    → P (reclaim_cluster o h cluster w).1
unfolding reclaim_cluster
reclaim_keeps o h P safe cluster w cd e p =
    let r = h.get cluster_deployment cluster cluster w in
    let q : P r.1 = safe.keep_get cluster_deployment cluster cluster w p in
    rw (reclaim_cluster, e) (keep-hibernate o h P safe cluster cluster r.1 q)
