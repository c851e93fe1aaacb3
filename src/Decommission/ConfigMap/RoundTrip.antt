-- ===== src/Decommission/ConfigMap/RoundTrip.antt =====
-- Storing a workflow's state and reading it back (internal/decommission/state.go).
use acm_caas_poc.Prelude.{
  String, ◌≡◌, refl, ap, ◌∙◌, ◌≢◌, false, Option, none, some, List, [], ◌∷◌, arith, ◌==◌, eq_iff,
  if◌then◌else◌, Map, lookup, lookup-insert, lookup-insert_self,
}
use acm_caas_poc.Kube.Errors.{ok}
use acm_caas_poc.Kube.Values.{object, Fields, index, has_key, texts, walk}
use acm_caas_poc.Kube.Objects.{found, Accessors, text_or_empty, label}
use acm_caas_poc.Decommission.State.{
  HistoryEntry, AuditReport, DecommissionState, Codec, RoundTrips,
}
use acm_caas_poc.Decommission.ConfigMap.{
  put_if, state_texts, put_audit, put_history, state_data, state_labels, state_to_config_map,
  read_audit, read_history, state_of_data, state_from_config_map,
}

-- `NestedStringMap` returns a map of texts that stands at its path.
pub record ReadsMaps (o : Accessors) : Type 0 where
  pub string_map_back :
      (obj : Fields) (path : List String) (m : Map String)
      → walk (object obj) path ≡ some (object (texts m))
      → (d : Map String) × (o.nested_string_map obj path ≡ found d)
        × ((k : String) → lookup k d ≡ lookup k m)

lookup-put_if :
    (k j v : String) (m : Map String)
    → lookup j (put_if k v m)
      ≡ (if k == j then (if v == "" then lookup j m else some v) else lookup j m)
unfolding put_if
lookup-put_if k j v m = ground (arith, lookup-insert k j v m)

lookup-put_audit :
    (c : Codec) (a : Option AuditReport) (m : Map String) (k : String)
    → ("audit" == k) ≡ false
    → lookup k (put_audit c a m) ≡ lookup k m
unfolding put_audit
lookup-put_audit c none m k h = refl
lookup-put_audit c (some a) m k h = rw (lookup-insert, h)

lookup-put_history :
    (c : Codec) (l : List HistoryEntry) (m : Map String) (k : String)
    → ("history" == k) ≡ false
    → lookup k (put_history c l m) ≡ lookup k m
unfolding put_history
lookup-put_history c [] m k h = refl
lookup-put_history c (e ∷ l) m k h = rw (lookup-insert, h)

-- The entry of a text that is stored unless it is empty.
abbrev kept : String → Option String
kept v = if v == "" then none else some v

text_of_kept : (v : String) → text_or_empty (kept v) ≡ v
text_of_kept v = ground (arith, eq_iff v "")

encoded_audit : Codec → Option AuditReport → Option String
encoded_audit c none = none
encoded_audit c (some a) = some (c.encode_audit a)

encoded_history : Codec → List HistoryEntry → Option String
encoded_history c [] = none
encoded_history c (e ∷ l) = some (c.encode_history (e ∷ l))

audit_entry :
    (c : Codec) (a : Option AuditReport) (m : Map String)
    → lookup "audit" m ≡ none
    → lookup "audit" (put_audit c a m) ≡ encoded_audit c a
unfolding put_audit encoded_audit
audit_entry c none m h = h
audit_entry c (some a) m h = lookup-insert_self "audit" (c.encode_audit a) m

history_entry :
    (c : Codec) (l : List HistoryEntry) (m : Map String)
    → lookup "history" m ≡ none
    → lookup "history" (put_history c l m) ≡ encoded_history c l
unfolding put_history encoded_history
history_entry c [] m h = h
history_entry c (e ∷ l) m h = lookup-insert_self "history" (c.encode_history (e ∷ l)) m

read_encoded_audit :
    (c : Codec) (a : Option AuditReport)
    → ((x : AuditReport) → a ≡ some x → c.decode_audit (c.encode_audit x) ≡ ok x)
    → ((x : AuditReport) → a ≡ some x → c.encode_audit x ≢ "")
    → read_audit c (text_or_empty (encoded_audit c a)) ≡ ok a
unfolding read_audit encoded_audit
read_encoded_audit c none back nonempty = refl
read_encoded_audit c (some a) back nonempty =
    ground (arith, eq_iff (c.encode_audit a) "", nonempty a refl, back a refl)

read_encoded_history :
    (c : Codec) (l : List HistoryEntry)
    → c.decode_history (c.encode_history l) ≡ ok l
    → c.encode_history l ≢ ""
    → read_history c (text_or_empty (encoded_history c l)) ≡ ok l
unfolding read_history encoded_history
read_encoded_history c [] back nonempty = refl
read_encoded_history c (e ∷ l) back nonempty = ground (arith, eq_iff (c.encode_history (e ∷ l)) "")

-- A map that answers every key as the stored one does.
module _ (c : Codec) (s : DecommissionState) (d : Map String)
    (same : (k : String) → lookup k d ≡ lookup k (state_data c s)) where
  lookup_text :
      (k : String)
      → ("audit" == k) ≡ false
      → ("history" == k) ≡ false
      → lookup k d ≡ lookup k (state_texts s)
  unfolding state_data
  lookup_text k ha hh =
      same k
      ∙ lookup-put_history c s.history (put_audit c s.audit (state_texts s)) k hh
      ∙ lookup-put_audit c s.audit (state_texts s) k ha

  phase_back : label d "phase" ≡ s.phase
  unfolding state_texts lookup
  phase_back =
      let stored : lookup "phase" (state_texts s) ≡ some s.phase = simp lookup-put_if in
      ap text_or_empty (lookup_text "phase" refl refl ∙ stored)

  owner_back : label d "owner" ≡ s.owner
  unfolding state_texts lookup
  owner_back =
      let stored : lookup "owner" (state_texts s) ≡ kept s.owner = simp lookup-put_if in
      ap text_or_empty (lookup_text "owner" refl refl ∙ stored) ∙ text_of_kept s.owner

  deadline_back : label d "deadline" ≡ s.deadline
  unfolding state_texts lookup
  deadline_back =
      let stored : lookup "deadline" (state_texts s) ≡ kept s.deadline = simp lookup-put_if in
      ap text_or_empty (lookup_text "deadline" refl refl ∙ stored) ∙ text_of_kept s.deadline

  notified_at_back : label d "notifiedAt" ≡ s.notified_at
  unfolding state_texts lookup
  notified_at_back =
      let stored : lookup "notifiedAt" (state_texts s) ≡ kept s.notified_at = simp lookup-put_if in
      ap text_or_empty (lookup_text "notifiedAt" refl refl ∙ stored) ∙ text_of_kept s.notified_at

  backup_path_back : label d "backupPath" ≡ s.backup_path
  unfolding state_texts lookup
  backup_path_back =
      let stored : lookup "backupPath" (state_texts s) ≡ kept s.backup_path = simp lookup-put_if in
      ap text_or_empty (lookup_text "backupPath" refl refl ∙ stored) ∙ text_of_kept s.backup_path

  kubeconfig_path_back : label d "kubeconfigPath" ≡ s.kubeconfig_path
  unfolding state_texts lookup
  kubeconfig_path_back =
      let stored : lookup "kubeconfigPath" (state_texts s) ≡ kept s.kubeconfig_path =
        simp lookup-put_if in
      ap text_or_empty (lookup_text "kubeconfigPath" refl refl ∙ stored)
      ∙ text_of_kept s.kubeconfig_path

  audit_back : RoundTrips c s → read_audit c (label d "audit") ≡ ok s.audit
  unfolding state_data state_texts lookup
  audit_back rt =
      let none_yet : lookup "audit" (state_texts s) ≡ none = simp lookup-put_if in
      ap (λ o. read_audit c (text_or_empty o))
        (same "audit"
          ∙ lookup-put_history c s.history (put_audit c s.audit (state_texts s)) "audit" refl
          ∙ audit_entry c s.audit (state_texts s) none_yet)
      ∙ read_encoded_audit c s.audit rt.audit_back rt.audit_text

  history_back : RoundTrips c s → read_history c (label d "history") ≡ ok s.history
  unfolding state_data state_texts lookup
  history_back rt =
      let none_yet : lookup "history" (state_texts s) ≡ none = simp lookup-put_if in
      ap (λ o. read_history c (text_or_empty o))
        (same "history"
          ∙ history_entry c s.history (put_audit c s.audit (state_texts s))
              (lookup-put_audit c s.audit (state_texts s) "history" refl ∙ none_yet))
      ∙ read_encoded_history c s.history rt.history_back rt.history_text

data_path :
    (c : Codec) (s : DecommissionState)
    → walk (object (state_to_config_map c s)) ("data" ∷ []) ≡ some (object (texts (state_data c s)))
unfolding walk has_key index state_to_config_map
data_path c s = refl

labels_path :
    (c : Codec) (s : DecommissionState)
    → walk (object (state_to_config_map c s)) ("metadata" ∷ "labels" ∷ [])
      ≡ some (object (texts (state_labels s)))
unfolding walk has_key index state_to_config_map
labels_path c s = refl

cluster_back :
    (s : DecommissionState) (l : Map String)
    → ((k : String) → lookup k l ≡ lookup k (state_labels s))
    → label l "caas-poc/cluster" ≡ s.cluster_name
unfolding lookup state_labels
cluster_back s l names = ap text_or_empty (names "caas-poc/cluster")

from_data :
    (c : Codec) (s : DecommissionState) (d l : Map String)
    → ((k : String) → lookup k d ≡ lookup k (state_data c s))
    → ((k : String) → lookup k l ≡ lookup k (state_labels s))
    → RoundTrips c s
    → state_of_data c (label l "caas-poc/cluster") d ≡ ok s
unfolding state_of_data
from_data c s d l same names rt = ground (
  arith,
  cluster_back s l names,
  phase_back c s d same,
  owner_back c s d same,
  deadline_back c s d same,
  notified_at_back c s d same,
  backup_path_back c s d same,
  kubeconfig_path_back c s d same,
  audit_back c s d same rt,
  history_back c s d same rt,
)

-- A ConfigMap that holds a state reads back as that state, if NestedStringMap reads maps of texts
-- and the JSON of its audit and history is read back: also the fields that are left out of the map
-- because they are empty.
pub state_round_trip :
    (o : Accessors) (c : Codec) (s : DecommissionState)
    → ReadsMaps o
    → RoundTrips c s
    → state_from_config_map o c (state_to_config_map c s) ≡ ok s
unfolding state_from_config_map
state_round_trip o c s reads rt =
    let obj = state_to_config_map c s in
    let (d, ed, same) = reads.string_map_back obj ("data" ∷ []) (state_data c s) (data_path c s) in
    let (l, el, names) =
      reads.string_map_back obj ("metadata" ∷ "labels" ∷ []) (state_labels s) (labels_path c s) in
    rw (state_from_config_map, ed, el) (from_data c s d l same names rt)
