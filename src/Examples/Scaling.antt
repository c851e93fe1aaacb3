-- ===== src/Examples/Scaling.antt =====
-- internal/scaling/scaling.go at a server that holds no object.
use acm_caas_poc.Prelude.{none}
use acm_caas_poc.Prelude.Int.{pos}
use acm_caas_poc.Scaling.Nodes.{set_replicas_auto}
use acm_caas_poc.Scaling.Fallback.{Verdict, set_replicas_auto-Verdict}
use acm_caas_poc.Examples.Worlds.{walking, cell_hub}

set_replicas_auto-Verdict_example :
    Verdict walking cell_hub "c" (pos 3) none (set_replicas_auto walking cell_hub "c" (pos 3) none)
set_replicas_auto-Verdict_example = set_replicas_auto-Verdict walking cell_hub "c" (pos 3) none
