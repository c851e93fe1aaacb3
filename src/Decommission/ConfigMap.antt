-- ===== src/Decommission/ConfigMap.antt =====
-- internal/decommission/state.go: a workflow's state as a ConfigMap, and its storage.
pub mod RoundTrip
use acm_caas_poc.Prelude.{
  String, Option, none, some, List, [], ◌∷◌, ◌==◌, if◌then◌else◌, concat, Map, insert,
}
use acm_caas_poc.Kube.Errors.{text, wrapped, Result, ok, err}
use acm_caas_poc.Kube.Values.{str, object, Fields, texts, fields_of, map_of}
use acm_caas_poc.Kube.Objects.{found, missing, mistyped, found_or, Accessors, label}
use acm_caas_poc.Kube.Hub.{Run, Hub, pure, lift, context, ◌>>=◌}
use acm_caas_poc.Client.Resources.{config_map}
use acm_caas_poc.Decommission.Phases.{phase_imported}
use acm_caas_poc.Decommission.State.{
  HistoryEntry, AuditReport, DecommissionState, StartOpts, add_history, Codec,
}

unfoldable pub config_map_name : String → String
config_map_name cluster = concat (cluster ∷ "-decommission" ∷ [])

-- `if value != "" { data[key] = value }`
unfoldable pub put_if : String → String → Map String → Map String
put_if k v m = if v == "" then m else insert k v m

-- The `data` map of `stateToConfigMap`, before the audit and the history.
unfoldable pub state_texts : DecommissionState → Map String
state_texts s = put_if "kubeconfigPath" s.kubeconfig_path (
    put_if "backupPath" s.backup_path (
      put_if "notifiedAt" s.notified_at
        (put_if "deadline" s.deadline (put_if "owner" s.owner (("phase", s.phase) ∷ [])))))

unfoldable pub put_audit : Codec → Option AuditReport → Map String → Map String
put_audit j none m = m
put_audit j (some a) m = insert "audit" (j.encode_audit a) m

unfoldable pub put_history : Codec → List HistoryEntry → Map String → Map String
put_history j [] m = m
put_history j (e ∷ l) m = insert "history" (j.encode_history (e ∷ l)) m

unfoldable pub state_data : Codec → DecommissionState → Map String
state_data j s = put_history j s.history (put_audit j s.audit (state_texts s))

-- The labels of `stateToConfigMap`.
unfoldable pub state_labels : DecommissionState → Map String
state_labels s = ("caas-poc/workflow", "decommission") ∷ ("caas-poc/cluster", s.cluster_name) ∷ []

unfoldable pub state_to_config_map : Codec → DecommissionState → Fields
unfolding config_map_name
state_to_config_map j s = fields_of (
    ("apiVersion", str "v1")
    ∷ ("kind", str "ConfigMap")
    ∷ (
      "metadata",
      map_of (
          ("name", str (config_map_name s.cluster_name))
          ∷ ("namespace", str s.cluster_name)
          ∷ ("labels", object (texts (state_labels s)))
          ∷ []),
    )
    ∷ ("data", object (texts (state_data j s)))
    ∷ [])

-- `if auditStr, ok := data["audit"]; ok && auditStr != ""`, at the text behind the key.
unfoldable pub read_audit : Codec → String → Result (Option AuditReport)
read_audit j t =
    if t == ""
    then ok none
    else elim (j.decode_audit t) [ err e ↦ err (wrapped "parsing audit" e) | ok a ↦ ok (some a) ]

unfoldable pub read_history : Codec → String → Result (List HistoryEntry)
read_history j t =
    if t == ""
    then ok []
    else elim (j.decode_history t) [ err e ↦ err (wrapped "parsing history" e) | ok l ↦ ok l ]

unfoldable pub state_of_data : Codec → String → Map String → Result DecommissionState
state_of_data j cluster d = elim (read_audit j (label d "audit")) [
  | err e ↦ err e
  | ok a ↦ elim (read_history j (label d "history")) [
    | err e ↦ err e
    | ok l ↦ ok (record {
      cluster_name = cluster;
      phase = label d "phase";
      owner = label d "owner";
      deadline = label d "deadline";
      notified_at = label d "notifiedAt";
      backup_path = label d "backupPath";
      kubeconfig_path = label d "kubeconfigPath";
      audit = a;
      history = l;
    })
  ]
]

-- `stateFromConfigMap`
unfoldable pub state_from_config_map : Accessors → Codec → Fields → Result DecommissionState
state_from_config_map o j obj = elim (o.nested_string_map obj ("data" ∷ [])) [
  | found d ↦
      state_of_data j
        (label (found_or [] (o.nested_string_map obj ("metadata" ∷ "labels" ∷ [])))
          "caas-poc/cluster")
        d
  | missing ↦ err (text "ConfigMap has no data field")
  | mistyped ↦ err (text "ConfigMap has no data field")
]

-- The states that parse, in order: the loop of `listStates`.
states_of : Accessors → Codec → List Fields → List DecommissionState
states_of o j [] = []
states_of o j (obj ∷ rest) = elim (state_from_config_map o j obj) [
  | err _ ↦ states_of o j rest
  | ok s ↦ s ∷ states_of o j rest
]

module _ {W : Type 0} (o : Accessors) (j : Codec) (h : Hub W) where
  unfoldable pub get_state : String → Run W DecommissionState
  get_state cluster = do
    obj ←
        context (concat ("decommission state not found for " ∷ cluster ∷ []))
          (h.get config_map cluster (config_map_name cluster))
    lift (state_from_config_map o j obj)

  unfoldable pub set_state : DecommissionState → Run W (Unit {0})
  set_state s = h.update config_map s.cluster_name (state_to_config_map j s) >>= λ _. pure tt

  -- `createState`, at the clock reading `now`.
  unfoldable pub create_state : String → String → StartOpts → Run W DecommissionState
  create_state now cluster opts =
      let state : DecommissionState =
        add_history now phase_imported "Decommission workflow started" (record {
          cluster_name = cluster;
          phase = phase_imported;
          owner = opts.owner;
          deadline = opts.deadline;
          notified_at = "";
          backup_path = "";
          kubeconfig_path = opts.kubeconfig_path;
          audit = none;
          history = [];
        }) in
      context "creating decommission state"
        (h.create config_map cluster (state_to_config_map j state))
      >>= λ _. pure state

  unfoldable pub delete_state : String → Run W (Unit {0})
  delete_state cluster = h.delete config_map cluster (config_map_name cluster)

  unfoldable pub list_states : Run W (List DecommissionState)
  unfolding states_of
  list_states = do
    items ← h.list config_map "" "caas-poc/workflow=decommission"
    pure (states_of o j items)
