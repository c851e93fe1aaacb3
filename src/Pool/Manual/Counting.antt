-- ===== src/Pool/Manual/Counting.antt =====
-- The counters of `ListManualPool` (internal/pool/manual.go).
use acm_caas_poc.Prelude.{
  ◌+◌, ◌≤◌, String, ◌≡◌, Bool, ◌&&◌, not, List, [], ◌∷◌, arith, length, count_if,
}
use acm_caas_poc.Kube.Values.{Fields}
use acm_caas_poc.Kube.Objects.{Accessors}
use acm_caas_poc.Pool.Manual.{
  PoolInfo, is_claimed, is_installed, is_hibernating, count_cluster, count_clusters,
}

abbrev is_ready : Accessors → Fields → Bool
is_ready o cd = not (is_claimed o cd) && is_installed o cd

abbrev is_standby : Accessors → Fields → Bool
is_standby o cd = is_ready o cd && is_hibernating o cd

-- Each counter, after any start, has grown by the number of clusters of its kind.
count_clusters_lem :
    (o : Accessors) (cds : List Fields) (info : PoolInfo)
    → count_clusters o cds info ≡ record info {
      ready = info.ready + count_if (is_ready o) cds;
      claimed = info.claimed + count_if (is_claimed o) cds;
      standby = info.standby + count_if (is_standby o) cds;
    }
unfolding count_clusters count_cluster
count_clusters_lem o [] info = ground arith
count_clusters_lem o (cd ∷ rest) info =
    ground (arith, count_clusters_lem o rest (count_cluster o cd info))

kinds_bounded :
    (o : Accessors) (cds : List Fields)
    → (count_if (is_claimed o) cds + count_if (is_ready o) cds ≤ length cds)
      × (count_if (is_standby o) cds ≤ count_if (is_ready o) cds)
kinds_bounded o [] = omega arith
kinds_bounded o (cd ∷ rest) = ground (arith, kinds_bounded o rest)

-- In a new count over the clusters of a pool, claimed and ready together are at most the size, and
-- every standby cluster is ready.
pub counts_bounded :
    (o : Accessors) (pool : String) (cds : List Fields)
    → let info = count_clusters o cds (record {
      name = pool;
      namespace = "";
      size = length cds;
      ready = 0;
      claimed = 0;
      standby = 0;
    }) in
      (info.claimed + info.ready ≤ info.size) × (info.standby ≤ info.ready)
counts_bounded o pool cds =
    let start : PoolInfo = record {
      name = pool;
      namespace = "";
      size = length cds;
      ready = 0;
      claimed = 0;
      standby = 0;
    } in
    rw (count_clusters_lem o cds start) (omega (arith, kinds_bounded o cds))
