-- ===== src/Decommission/State.antt =====
-- internal/decommission/state.go: the state of a workflow. A clock reading is its RFC 3339 text.
use acm_caas_poc.Prelude.{String, ◌≡◌, ◌≢◌, Option, some, List, [], ◌∷◌, ◌++◌}
use acm_caas_poc.Prelude.Int.{ℤ}
use acm_caas_poc.Kube.Errors.{Result, ok}

pub record HistoryEntry : Type 0 where
  pub phase : String
  pub timestamp : String
  pub message : String

pub record AuditReport : Type 0 where
  pub node_count : ℤ
  pub cpu_capacity : String
  pub memory_capacity : String
  pub namespaces : List String
  pub owner : String
  pub platform : String
  pub cluster_age : String

pub record DecommissionState : Type 0 where
  pub cluster_name : String
  pub phase : String
  pub owner : String
  pub deadline : String
  pub notified_at : String
  pub backup_path : String
  pub kubeconfig_path : String
  pub audit : Option AuditReport
  pub history : List HistoryEntry

pub record StartOpts : Type 0 where
  pub owner : String
  pub deadline : String
  pub kubeconfig_path : String

-- `addHistory`
abbrev pub add_history : String → String → String → DecommissionState → DecommissionState
add_history now phase message s = record s {
  history = s.history ++ record { phase = phase; timestamp = now; message = message } ∷ [];
}

-- `json.Marshal` and `json.Unmarshal` of the two structures that a ConfigMap holds as texts.
pub record Codec : Type 0 where
  pub encode_audit : AuditReport → String
  pub decode_audit : String → Result AuditReport
  pub encode_history : List HistoryEntry → String
  pub decode_history : String → Result (List HistoryEntry)

-- The audit and the history of a state are unmarshalled from what they are marshalled to, which is
-- never the empty text.
pub record RoundTrips (j : Codec) (s : DecommissionState) : Type 0 where
  pub audit_back : (a : AuditReport) → s.audit ≡ some a → j.decode_audit (j.encode_audit a) ≡ ok a
  pub audit_text : (a : AuditReport) → s.audit ≡ some a → j.encode_audit a ≢ ""
  pub history_back : j.decode_history (j.encode_history s.history) ≡ ok s.history
  pub history_text : j.encode_history s.history ≢ ""
