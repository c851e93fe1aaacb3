-- ===== src/Upgrade.antt =====
-- internal/upgrade/upgrade.go: how a cluster is upgraded and what is known of its version. The
-- objects that ask for an upgrade are in Upgrade.Works.
pub mod Works
pub mod Writes
pub mod Listing
use acm_caas_poc.Prelude.{
  String, Bool, true, false, ◌&&◌, ◌||◌, not, none, some, List, [], ◌∷◌, ◌++◌, map, ◌==◌,
  if◌then◌else◌, is_empty, concat, lookup,
}
use acm_caas_poc.Kube.Errors.{wrapped, Result, ok, err}
use acm_caas_poc.Kube.Values.{str, object, Fields, Items, no_items, item, maps_of}
use acm_caas_poc.Kube.Objects.{found, missing, mistyped, found_or, Accessors}
use acm_caas_poc.Kube.Hub.{Run, Hub}
use acm_caas_poc.Client.{cluster_type_ocp, cluster_type_kubernetes, get_cluster_type}
use acm_caas_poc.Client.Resources.{
  cluster_deployment, cluster_image_set, managed_cluster, managed_cluster_info,
}

-- `UpgradeMethod` is a text.
abbrev pub method_hive : String
method_hive = "hive"

abbrev pub method_manifest : String
method_manifest = "manifestwork"

abbrev pub method_report_only : String
method_report_only = "report-only"

pub record UpgradeStatus : Type 0 where
  pub cluster : String
  pub cluster_type : String
  pub upgrade_method : String
  pub current_version : String
  pub desired_version : String
  pub channel : String
  pub upgrade_failed : Bool
  pub failure_message : String
  pub available : List String
  pub progressing : Bool

pub record UpgradeableCluster : Type 0 where
  pub cluster : String
  pub current_version : String
  pub channel : String
  pub available : List String
  pub upgrade_method : String

pub record HistoryEntry : Type 0 where
  pub version : String
  pub state : String
  pub started_at : String
  pub completed_at : String

-- The texts of a slice, in order.
unfoldable pub strings_of : Items → List String
strings_of no_items = []
strings_of (item (str s) l) = s ∷ strings_of l
strings_of (item _ l) = strings_of l

module _ (o : Accessors) where
  abbrev ocp_text : Fields → String → String
  ocp_text info key =
      found_or "" (o.nested_string info ("status" ∷ "distributionInfo" ∷ "ocp" ∷ key ∷ []))

  -- The message of the first condition, where there is one.
  unfoldable pub failure_message_of : Items → UpgradeStatus → String
  failure_message_of (item (object cond) _) s = found_or "" (o.nested_string cond ("message" ∷ []))
  failure_message_of _ s = s.failure_message

  unfoldable pub fill_ocp_status : Fields → UpgradeStatus → UpgradeStatus
  fill_ocp_status info s =
      let version' = ocp_text info "version" in
      let desired = ocp_text info "desiredVersion" in
      let broken =
        found_or false
          (o.nested_bool info ("status" ∷ "distributionInfo" ∷ "ocp" ∷ "upgradeFailed" ∷ [])) in
      let conditions = found_or no_items (
        o.nested_slice info
          ("status" ∷ "distributionInfo" ∷ "ocp" ∷ "lastAppliedManifestWorkStatus" ∷ [])) in
      record s {
        current_version = version';
        channel = ocp_text info "channel";
        desired_version = desired;
        upgrade_failed = broken;
        failure_message = if broken then failure_message_of conditions s else s.failure_message;
        progressing =
            if not (version' == "") && not (desired == "") && not (version' == desired)
            then true
            else s.progressing;
        available =
            s.available
            ++ elim (o.nested_slice info
                ("status" ∷ "distributionInfo" ∷ "ocp" ∷ "availableUpdates" ∷ [])) [
                  | found l ↦ strings_of l
                  | missing ↦ []
                  | mistyped ↦ []
                ];
      }

  unfoldable pub fill_k8s_status : Fields → UpgradeStatus → UpgradeStatus
  fill_k8s_status info s = record s {
    current_version =
        found_or ""
          (o.nested_string info ("status" ∷ "distributionInfo" ∷ "k8s" ∷ "gitVersion" ∷ []));
  }

  -- The switch of `GetUpgradeStatus` on the type of the cluster.
  unfoldable pub fill_status : String → Fields → UpgradeStatus → UpgradeStatus
  fill_status type info s =
      if type == cluster_type_ocp
      then fill_ocp_status info s
      else if type == cluster_type_kubernetes
      then fill_k8s_status info s
      else let filled = fill_ocp_status info s in
        if filled.current_version == "" then fill_k8s_status info filled else filled

  unfoldable pub history_entry : Fields → HistoryEntry
  history_entry entry = record {
    version = found_or "" (o.nested_string entry ("version" ∷ []));
    state = found_or "" (o.nested_string entry ("state" ∷ []));
    started_at = found_or "" (o.nested_string entry ("startedTime" ∷ []));
    completed_at = found_or "" (o.nested_string entry ("completionTime" ∷ []));
  }

abbrev new_status : String → String → String → UpgradeStatus
new_status name type method = record {
  cluster = name;
  cluster_type = type;
  upgrade_method = method;
  current_version = "";
  desired_version = "";
  channel = "";
  upgrade_failed = false;
  failure_message = "";
  available = [];
  progressing = false;
}

module _ {W : Type 0} (o : Accessors) (h : Hub W) where
  unfoldable pub detect_upgrade_method : String → String → W → String × W
  detect_upgrade_method name type w =
      if type == cluster_type_kubernetes
      then (method_report_only, w)
      else let (r, w1) = h.get cluster_deployment name name w in
        (
          elim r [
            | ok _ ↦ method_hive
            | err _ ↦ if type == cluster_type_ocp then method_manifest else method_report_only
          ],
          w1,
        )

  -- The type of a cluster and the method that its upgrades use.
  unfoldable pub type_and_method : String → W → (String × String) × W
  type_and_method name w =
      let ((type, _), w1) = get_cluster_type o h name w in
      let (method, w2) = detect_upgrade_method name type w1 in ((type, method), w2)

  unfoldable pub fill_hive_desired_version : String → UpgradeStatus → W → UpgradeStatus × W
  fill_hive_desired_version name s w =
      let (r, w1) = h.get cluster_deployment name name w in
      elim r [
        | err _ ↦ (s, w1)
        | ok cd ↦
            let image_set_ref =
              found_or ""
                (o.nested_string cd ("spec" ∷ "provisioning" ∷ "imageSetRef" ∷ "name" ∷ [])) in
            if image_set_ref == ""
            then (s, w1)
            else let (r', w2) = h.get cluster_image_set "" image_set_ref w1 in
              (
                elim r' [
                  | err _ ↦ s
                  | ok image_set ↦
                      let release =
                        found_or "" (o.nested_string image_set ("spec" ∷ "releaseImage" ∷ [])) in
                      if not (release == "") && s.desired_version == ""
                      then record s { desired_version = release }
                      else s
                ],
                w2,
              )
      ]

  -- The label that gives the version where the ManagedClusterInfo has none.
  unfoldable pub version_by_label : String → UpgradeStatus → W → UpgradeStatus × W
  version_by_label name s w =
      if not (s.current_version == "")
      then (s, w)
      else let (r, w1) = h.get managed_cluster "" name w in
        (
          elim r [
            | err _ ↦ s
            | ok mc ↦ elim (lookup "openshiftVersion" (o.get_labels mc)) [
              | some v ↦ record s { current_version = v }
              | none ↦ s
            ]
          ],
          w1,
        )

  unfoldable pub get_upgrade_status : String → Run W UpgradeStatus
  get_upgrade_status name w =
      let ((type, method), w1) = type_and_method name w in
      let (r, w2) = h.get managed_cluster_info name name w1 in
      elim r [
        | err e ↦ (err (wrapped (concat ("getting ManagedClusterInfo for " ∷ name ∷ [])) e), w2)
        | ok info ↦
            let filled = fill_status o type info (new_status name type method) in
            let (s, w3) = version_by_label name filled w2 in
            let (s', w4) =
              if method == method_hive then fill_hive_desired_version name s w3 else (s, w3) in
            (ok s', w4)
      ]

  abbrev pub upgradeable : String → UpgradeStatus → UpgradeableCluster
  upgradeable name s = record {
    cluster = name;
    current_version = s.current_version;
    channel = s.channel;
    available = s.available;
    upgrade_method = s.upgrade_method;
  }

  -- The entry of one cluster in the result of `ListUpgradeable`.
  unfoldable pub entry_of : String → Result UpgradeStatus → List UpgradeableCluster
  entry_of name (err _) = []
  entry_of name (ok s) =
      if s.upgrade_method == method_report_only || is_empty s.available
      then []
      else upgradeable name s ∷ []

  unfoldable pub list_loop : List Fields → W → List UpgradeableCluster × W
  list_loop [] w = ([], w)
  list_loop (mc ∷ rest) w =
      if o.get_name mc == "local-cluster"
      then list_loop rest w
      else let (r, w1) = get_upgrade_status (o.get_name mc) w in
        let (later, w2) = list_loop rest w1 in (entry_of (o.get_name mc) r ++ later, w2)

  unfoldable pub list_upgradeable : Run W (List UpgradeableCluster)
  list_upgradeable w =
      let (r, w1) = h.list managed_cluster "" "" w in
      elim r [
        | err e ↦ (err (wrapped "listing ManagedClusters" e), w1)
        | ok clusters ↦ let (result, w2) = list_loop clusters w1 in (ok result, w2)
      ]

  unfoldable pub get_history : String → Run W (List HistoryEntry)
  get_history name w =
      let (r, w1) = h.get managed_cluster_info name name w in
      (
        elim r [
          | err e ↦ err (wrapped (concat ("getting ManagedClusterInfo for " ∷ name ∷ [])) e)
          | ok info ↦
              ok
                (elim (o.nested_slice info
                  ("status" ∷ "distributionInfo" ∷ "ocp" ∷ "versionHistory" ∷ [])) [
                    | found l ↦ map (history_entry o) (maps_of l)
                    | missing ↦ []
                    | mistyped ↦ []
                  ])
        ],
        w1,
      )
