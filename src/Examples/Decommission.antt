-- ===== src/Examples/Decommission.antt =====
-- internal/decommission at servers with a fixed answer to every read.
use acm_caas_poc.Prelude.{
  ℕ, suc, String, ◌≡◌, refl, sym, ap, ◌∙◌, ◌≢◌, ◌⊎◌, none, some, [], ◌∷◌, arith, eq_iff, lookup,
  insert,
}
use acm_caas_poc.Prelude.Int.{pos}
use acm_caas_poc.Prelude.Decimal.{format_int}
use acm_caas_poc.Kube.Errors.{Result, ok, err}
use acm_caas_poc.Kube.Values.{str, Fields, index, has_key, maps_of, walk, fields_of, map_of}
use acm_caas_poc.Kube.Hub.{Hub}
use acm_caas_poc.Decommission.Phases.{
  phase_imported, phase_audited, phase_notified, phase_drained, phase_deleted, next_phase,
}
use acm_caas_poc.Decommission.State.{
  HistoryEntry, AuditReport, DecommissionState, StartOpts, add_history, Codec, RoundTrips,
}
use acm_caas_poc.Decommission.ConfigMap.{
  put_if, state_texts, put_audit, put_history, state_data, state_labels, state_to_config_map,
  read_audit, read_history, state_of_data, state_from_config_map, get_state, set_state,
  create_state,
}
use acm_caas_poc.Decommission.ConfigMap.RoundTrip.{ReadsMaps, state_round_trip}
use acm_caas_poc.Decommission.Audit.{
  add_nodes, count_items, detect_platform_from_cd, add_node_info, fill_platform, audit,
}
use acm_caas_poc.Decommission.Steps.{notify}
use acm_caas_poc.Decommission.Manager.{audited_state, start, move_to, after, perform, advance}
use acm_caas_poc.Decommission.Manager.Advancing.{advance_never_destroys}
use acm_caas_poc.Decommission.Manager.Progress.{Progress, advance-Progress}
use acm_caas_poc.Decommission.Manager.Starting.{Fresh, start-Fresh}
use acm_caas_poc.Examples.Worlds.{walking, walking_reads}

abbrev report : AuditReport
report = record {
  node_count = pos 3;
  cpu_capacity = "24";
  memory_capacity = "96Gi";
  namespaces = [];
  owner = "team";
  platform = "aws";
  cluster_age = "12d";
}

abbrev entry : HistoryEntry
entry = record { phase = phase_audited; timestamp = "t0"; message = "audited" }

-- A codec that knows one report and one history.
abbrev codec : Codec
codec = record {
  encode_audit = λ a. "audit";
  decode_audit = λ t. ok report;
  encode_history = λ l. "history";
  decode_history = λ t. ok (entry ∷ []);
}

abbrev workflow : String → String → DecommissionState
workflow phase notified_at = record {
  cluster_name = "c1";
  phase = phase;
  owner = "team";
  deadline = "t9";
  notified_at = notified_at;
  backup_path = "";
  kubeconfig_path = "";
  audit = some report;
  history = entry ∷ [];
}

reads : ReadsMaps walking
reads = record { string_map_back = λ obj path m e. (m, walking_reads obj path m e, λ k. refl) }

survives : (phase notified_at : String) → RoundTrips codec (workflow phase notified_at)
survives phase notified_at = record {
  audit_back = λ a e. ground (arith, e);
  audit_text = λ a e. λ x. cc;
  history_back = refl;
  history_text = λ x. cc;
}

state_round_trip_example :
    state_from_config_map walking codec (state_to_config_map codec (workflow phase_drained "t1"))
    ≡ ok (workflow phase_drained "t1")
state_round_trip_example =
    state_round_trip walking codec (workflow phase_drained "t1") reads (survives phase_drained "t1")

-- A server that answers every read with one object and counts deletions.
abbrev counting : Fields → Hub ℕ
counting obj = record {
  create = λ g ns x n. (ok x, n);
  get = λ g ns name n. (ok obj, n);
  list = λ g ns sel n. (ok [], n);
  update = λ g ns x n. (ok x, n);
  delete = λ g ns name n. (ok tt, suc n);
  patch = λ g ns name d n. (ok d, n);
}

abbrev holding : DecommissionState → Hub ℕ
holding s = counting (state_to_config_map codec s)

stored_phase : Result DecommissionState → String
stored_phase (ok s) = s.phase
stored_phase (err _) = ""

drained_ne_deleted : phase_drained ≢ phase_deleted
drained_ne_deleted e = cc ((eq_iff phase_drained phase_deleted).1 e)

drained_stored :
    (s : DecommissionState)
    → (get_state walking codec (holding (workflow phase_drained "t1")) "c1" 0).0 ≡ ok s
    → s.phase ≢ phase_deleted
unfolding get_state stored_phase
drained_stored s e p = drained_ne_deleted (ap stored_phase (sym state_round_trip_example ∙ e) ∙ p)

advance_never_destroys_example :
    (advance walking codec (holding (workflow phase_drained "t1")) "t2" "c1" 0).1 ≡ 0
advance_never_destroys_example =
    advance_never_destroys walking codec (holding (workflow phase_drained "t1")) (λ n. n ≡ 0)
      (record { keep_get = λ g ns name w p. p; keep_save = λ s w i p. p }) "t2" "c1" 0
      drained_stored refl

notified_after : DecommissionState
notified_after =
    add_history "t2" phase_notified "Owner team notified, deadline t9"
      (workflow phase_notified "t1")

-- The phase moves from `audited` to `notified`, since a notification was noted before.
advanced :
    (advance walking codec (holding (workflow phase_audited "t1")) "t2" "c1" 0).0
    ≡ (some notified_after, none)
unfolding notified_after advance perform after notify move_to get_state set_state next_phase walking
    state_from_config_map state_to_config_map state_of_data read_audit read_history state_data
    state_texts put_if put_audit put_history state_labels insert lookup walk has_key index
advanced = refl

advance-Progress_example :
    (s : DecommissionState) × ((get_state walking codec
        (holding (workflow phase_audited "t1"))
        "c1"
        0).0
      ≡ ok s)
    × Progress s notified_after
advance-Progress_example =
    advance-Progress walking codec (holding (workflow phase_audited "t1")) "t2" "c1" 0
      notified_after advanced

-- A server that knows a cluster, whose labels name its owner, but no workflow.
abbrev cluster_object : Fields
cluster_object = fields_of (
    (
      "metadata",
      map_of (
          ("labels", map_of (("caas-poc/owner", str "team") ∷ ("cloud", str "aws") ∷ []))
          ∷ ("creationTimestamp", str "t0")
          ∷ []),
    )
    ∷ [])

abbrev opts : StartOpts
opts = record { owner = ""; deadline = "t9"; kubeconfig_path = "" }

abbrev audited_report : AuditReport
audited_report = record {
  node_count = pos 0;
  cpu_capacity = "0";
  memory_capacity = "0";
  namespaces = [];
  owner = "team";
  platform = "aws";
  cluster_age = "12d";
}

started_state : DecommissionState
started_state = audited_state "t2" audited_report (record {
  cluster_name = "c1";
  phase = phase_imported;
  owner = "";
  deadline = "t9";
  notified_at = "";
  backup_path = "";
  kubeconfig_path = "";
  audit = none;
  history =
      record { phase = phase_imported; timestamp = "t1"; message = "Decommission workflow started" }
      ∷ [];
})

started :
    (start walking codec
      (counting cluster_object)
      (λ m. none)
      (λ t n. some "12d")
      "t1"
      "t2"
      "c1"
      opts
      0).0
    ≡ (some started_state, none)
unfolding started_state start audit add_node_info add_nodes count_items fill_platform get_state
    set_state create_state walking state_from_config_map state_of_data detect_platform_from_cd
    lookup walk has_key index maps_of audited_state format_int
started = refl

start-Fresh_example :
    ((get_state walking codec (counting cluster_object) "c1" 0).0 ≡ ok started_state)
    ⊎ Fresh "c1" opts started_state
start-Fresh_example =
    start-Fresh walking codec (counting cluster_object) (λ m. none) (λ t n. some "12d") "t1" "t2"
      "c1" opts 0 started_state started
