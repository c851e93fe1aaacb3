-- ===== src/Examples/Routing.antt =====
-- internal/gpu/routing.go at a server that never decides, with a clock that counts milliseconds.
use acm_caas_poc.Prelude.{ℕ, ◌+◌, ◌≡◌, none, some, [], arith, leb, if◌then◌else◌}
use acm_caas_poc.Kube.Errors.{Error, text, ok, err}
use acm_caas_poc.Kube.Hub.{Hub}
use acm_caas_poc.Gpu.Request.{Route}
use acm_caas_poc.Gpu.Routing.{Clock, best_cluster_with_timeout}
use acm_caas_poc.Gpu.Routing.Polling.{Timely, best_cluster_ends}
use acm_caas_poc.Examples.Worlds.{walking, missing_error}

abbrev timeout : ℕ
timeout = 3000

-- The world is the time; a list request after the timeout fails.
abbrev idle_hub : Hub ℕ
idle_hub = record {
  create = λ g ns obj t. (ok obj, t + 20);
  get = λ g ns name t. (err missing_error, t + 10);
  list = λ g ns sel t.
      ((if leb timeout t then err (text "context deadline exceeded") else ok []), t + 10);
  update = λ g ns obj t. (ok obj, t);
  delete = λ g ns name t. (ok tt, t);
  patch = λ g ns name d t. (ok d, t);
}

abbrev clock : Clock ℕ
clock = record {
  ctx_err = λ t. none;
  op_expired = λ t. leb timeout t;
  select = λ d t. (leb timeout t, t + d);
}

timely : Timely idle_hub clock (λ t. t) timeout
timely = record {
  get_forward = λ g ns name w. omega arith;
  create_forward = λ g ns obj w. omega arith;
  list_forward = λ g ns sel w. omega arith;
  list_expired = λ g ns sel w late. (text "context deadline exceeded", ground arith);
  select_waits = λ d w e. omega arith;
}

best_cluster_ends_example :
    (route : Route Error) × ((best_cluster_with_timeout walking idle_hub clock 7
        (ok "0a")
        "a100"
        0).0
      ≡ some route)
best_cluster_ends_example =
    best_cluster_ends walking idle_hub clock (λ t. t) timeout timely 6 (ok "0a") "a100" 0
      (omega arith)
