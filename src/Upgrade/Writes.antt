-- ===== src/Upgrade/Writes.antt =====
-- What upgrades write to the hub.
use acm_caas_poc.Prelude.{String, ◌≡◌, refl, not, [], ◌∷◌, arith, ◌==◌, if◌then◌else◌, concat}
use acm_caas_poc.Kube.Keeping.{keep-resume, keep-if, keep-choice}
use acm_caas_poc.Kube.Errors.{Error, wrapped, is_not_found, Result, ok, err}
use acm_caas_poc.Kube.Values.{Fields}
use acm_caas_poc.Kube.Objects.{Accessors}
use acm_caas_poc.Kube.Hub.{Gvr, Run, Hub, pure, raise, context}
use acm_caas_poc.Client.{cluster_type_kubernetes, get_cluster_type}
use acm_caas_poc.Client.Resources.{
  cluster_deployment, managed_cluster_info, manifest_work, cluster_curator,
}
use acm_caas_poc.Upgrade.{
  method_hive, method_manifest, method_report_only, detect_upgrade_method, type_and_method,
}
use acm_caas_poc.Upgrade.Works.{
  build_upgrade_manifest_work, send, update_or_create, apply_manifest_work, apply_cluster_curator,
  set_channel, start_upgrade,
}

-- A property of the world that reads keep, and that writing an object of an upgrade of the cluster keeps.
pub record KeptByUpgradesOf {W : Type 0} (h : Hub W) (cluster : String) (P : W → Type 0)
    : Type 0 where
  pub keep_get : (g : Gvr) (ns name : String) (w : W) → P w → P (h.get g ns name w).1
  pub keep_work :
      (obj : Fields) (w : W)
      → P w
      → P (h.create manifest_work cluster obj w).1 × P (h.update manifest_work cluster obj w).1
  pub keep_curator :
      (obj : Fields) (w : W)
      → P w
      → P (h.create cluster_curator cluster obj w).1 × P (h.update cluster_curator cluster obj w).1

module _ {W : Type 0} (o : Accessors) (h : Hub W) (P : W → Type 0)
    (keep_get : (g : Gvr) (ns name : String) (w : W) → P w → P (h.get g ns name w).1) where
  keep-detect : (name type : String) (w : W) → P w → P (detect_upgrade_method o h name type w).1
  unfolding detect_upgrade_method
  keep-detect name type w p =
      keep-choice P (type == cluster_type_kubernetes) (method_report_only, w) _ p
        (keep_get cluster_deployment name name w p)

  keep-type_and_method : (name : String) (w : W) → P w → P (type_and_method o h name w).1
  unfolding type_and_method get_cluster_type
  keep-type_and_method name w p = keep-detect name _ _ (keep_get managed_cluster_info name name w p)

module _ {W : Type 0} (P : W → Type 0) where
  keep-send : (prefix : String) (m : Run W Fields) (w : W) → P (m w).1 → P (send prefix m w).1
  unfolding send
  keep-send prefix m w p = keep-resume P (context prefix m w).0 (λ _. pure tt) _ p (λ _. p)

  keep-update_or_create :
      (r : Result Fields) (checking : String) (update_it : Fields → Run W (Unit {0}))
      (create_it : Run W (Unit {0})) (w : W)
      → P w
      → ((a : Fields) → P (update_it a w).1)
      → P (create_it w).1
      → P (update_or_create r checking update_it create_it w).1
  unfolding update_or_create
  keep-update_or_create (ok a) checking update_it create_it w p on_ok on_err = on_ok a
  keep-update_or_create (err e) checking update_it create_it w p on_ok on_err =
      keep-if P (not (is_not_found e)) (raise (wrapped checking e)) create_it w p on_err

module _ {W : Type 0} (o : Accessors) (set_resource_version : Fields → String → Fields) (h : Hub W)
    (cluster : String) (P : W → Type 0) (safe : KeptByUpgradesOf h cluster P) where
  keep-apply_manifest_work :
      (mw_name : String) (build : String → String → Fields) (w : W)
      → P w
      → P (apply_manifest_work o set_resource_version h cluster mw_name build w).1
  unfolding apply_manifest_work
  keep-apply_manifest_work mw_name build w p =
      let q = safe.keep_get manifest_work cluster mw_name w p in
      keep-update_or_create P _ _ _ _ _ q (λ a. keep-send P _ _ _ (safe.keep_work _ _ q).1)
        (keep-send P _ _ _ (safe.keep_work _ _ q).0)

  keep-apply_cluster_curator :
      (obj : Fields) (w : W)
      → P w
      → P (apply_cluster_curator o set_resource_version h cluster obj w).1
  unfolding apply_cluster_curator
  keep-apply_cluster_curator obj w p =
      let q = safe.keep_get cluster_curator cluster cluster w p in
      keep-update_or_create P _ _ _ _ _ q (λ a. keep-send P _ _ _ (safe.keep_curator _ _ q).1)
        (keep-send P _ _ _ (safe.keep_curator _ _ q).0)

  -- StartUpgrade and SetChannel write only a ManifestWork or a ClusterCurator in the namespace of
  -- the cluster: they keep every property of the world that reads and such writes keep, whatever
  -- the server answers.
  pub upgrades_keep :
      (text' : String) (w : W)
      → P w
      → P (start_upgrade o set_resource_version h cluster text' w).1
        × P (set_channel o set_resource_version h cluster text' w).1
  unfolding start_upgrade set_channel
  upgrades_keep text' w p =
      let q = keep-type_and_method o h P safe.keep_get cluster w p in
      let method = (type_and_method o h cluster w).0.1 in
      let chosen : (refused by_curator by_work : Result (Unit {0}) × W)
          → P refused.1
          → P by_curator.1
          → P by_work.1
          → P
              (if method == method_report_only
                then refused
                else if method == method_hive
                then by_curator
                else by_work).1 =
        λ x y z p0 p1 p2.
          keep-choice P (method == method_report_only) x _ p0
            (keep-choice P (method == method_hive) y z p1 p2) in
      (
        chosen _ _ _ q (keep-apply_cluster_curator _ _ q) (keep-apply_manifest_work _ _ _ q),
        chosen _ _ _ q (keep-apply_cluster_curator _ _ q) (keep-apply_manifest_work _ _ _ q),
      )

-- An answer that is no success, and a world that reads alone lead to.
pub record Refused {W : Type 0} (P : W → Type 0) (answer : Result (Unit {0}) × W) : Type 0 where
  pub only_read : P answer.1
  pub no_success : ¬ (answer.0 ≡ ok tt)

-- StartUpgrade and SetChannel fail on a cluster that is only reported, and keep every property of
-- the world that reads keep.
pub report_only-Refused :
    {W : Type 0} (o : Accessors) (set_resource_version : Fields → String → Fields) (h : Hub W)
    (P : W → Type 0)
    (keep_get : (g : Gvr) (ns name : String) (w : W) → P w → P (h.get g ns name w).1)
    (cluster text' : String) (w : W)
    → (type_and_method o h cluster w).0.1 ≡ method_report_only
    → P w
    → Refused P (start_upgrade o set_resource_version h cluster text' w)
      × Refused P (set_channel o set_resource_version h cluster text' w)
unfolding start_upgrade set_channel
report_only-Refused o set_resource_version h P keep_get cluster text' w e p =
    let q = keep-type_and_method o h P keep_get cluster w p in
    rw e (
      record { only_read = q; no_success = λ same. ground arith },
      record { only_read = q; no_success = λ same. ground arith },
    )

-- A server that refuses an update of a ManifestWork without the version that it replaces, as it does
-- for every resource that a definition of custom resources declares.
pub record NeedsVersion {W : Type 0} (o : Accessors) (h : Hub W) : Type 0 where
  pub refused :
      (ns : String) (obj : Fields) (w : W)
      → o.get_resource_version obj ≡ ""
      → (e : Error) × h.update manifest_work ns obj w ≡ (err e, w)

-- On a cluster that is upgraded by a ManifestWork, StartUpgrade fails once its ManifestWork
-- exists, if the server refuses an update without a resource version: the object that it sends has
-- none.
pub second_upgrade_fails :
    {W : Type 0} (o : Accessors) (set_resource_version : Fields → String → Fields) (h : Hub W)
    (needs : NeedsVersion o h) (cluster version' : String) (w w1 : W) (existing : Fields)
    → o.get_resource_version
        (build_upgrade_manifest_work cluster (concat (cluster ∷ "-upgrade" ∷ [])) version')
      ≡ ""
    → (type_and_method o h cluster w).0.1 ≡ method_manifest
    → h.get manifest_work cluster
        (concat (cluster ∷ "-upgrade" ∷ []))
        (type_and_method o h cluster w).1
      ≡ (ok existing, w1)
    → (e : Error) × start_upgrade o set_resource_version h cluster version' w ≡ (err e, w1)
unfolding start_upgrade apply_manifest_work update_or_create send
second_upgrade_fails o set_resource_version h needs cluster version' w w1 existing fresh e got =
    let mw = build_upgrade_manifest_work cluster (concat (cluster ∷ "-upgrade" ∷ [])) version' in
    let (er, refused) = needs.refused cluster mw w1 fresh in rw (e, got, refused) (_, refl)
