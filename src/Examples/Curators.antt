-- ===== src/Examples/Curators.antt =====
-- internal/lifecycle/curator.go for a hook before an upgrade.
use acm_caas_poc.Prelude.{◌≡◌, ◌≢◌, none, some, [], ◌∷◌, eq_iff}
use acm_caas_poc.Prelude.Int.{pos}
use acm_caas_poc.Lifecycle.Curators.{
  CuratorHook, CuratorOpts, build_cluster_curator, parse_curator_info,
}
use acm_caas_poc.Lifecycle.Curators.RoundTrip.{parse-build_cluster_curator}

abbrev upgrade_hook : CuratorHook
upgrade_hook = record {
  name = "notify";
  type = "Job";
  image = "";
  commands = "run" ∷ [];
  job_ttl = pos 60;
  extra_vars = [];
}

abbrev before_upgrade : CuratorOpts
before_upgrade = record {
  cluster = "c";
  namespace = "";
  operation = "upgrade";
  pre_hook = some upgrade_hook;
  post_hook = none;
}

other_key : before_upgrade.operation ≢ "desiredCuration"
other_key e = cc ((eq_iff "upgrade" "desiredCuration").1 e)

parse-build_cluster_curator_example :
    parse_curator_info (build_cluster_curator before_upgrade) ≡ record {
      name = "c";
      namespace = "c";
      pre_hook = some (record { name = "notify"; type = "Job"; status = "" });
      post_hook = none;
      status = "Pending";
    }
parse-build_cluster_curator_example = parse-build_cluster_curator before_upgrade other_key
