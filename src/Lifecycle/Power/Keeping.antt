-- ===== src/Lifecycle/Power/Keeping.antt =====
-- What `Hibernate` of internal/lifecycle/lifecycle.go can do to the world.
use acm_caas_poc.Prelude.{String, ◌∷◌, ◌==◌}
use acm_caas_poc.Kube.Keeping.{
  keep-resume, keep-if, keep-handler, keep-for_each, keep-list, keep-option,
}
use acm_caas_poc.Kube.Errors.{is_not_found, map_err}
use acm_caas_poc.Kube.Values.{Fields}
use acm_caas_poc.Kube.Objects.{Accessors}
use acm_caas_poc.Kube.Hub.{Gvr, Hub}
use acm_caas_poc.Client.Resources.{cluster_deployment, capi_machine_deployment}
use acm_caas_poc.Lifecycle.Capi.{
  hibernating, hibernate_patch, list_capi_machine_deployments, patch_deployment,
  hibernate_deployment, hibernate_capi, get_capi_power_state,
}
use acm_caas_poc.Lifecycle.Power.{
  get_power_state, power_patch, set_power_state, switch_hive, hibernate,
}

-- A property of the world that reads and merge patches keep.
pub record KeptByPatches {W : Type 0} (h : Hub W) (P : W → Type 0) : Type 0 where
  pub keep_get : (g : Gvr) (ns name : String) (w : W) → P w → P (h.get g ns name w).1
  pub keep_list : (g : Gvr) (ns sel : String) (w : W) → P w → P (h.list g ns sel w).1
  pub keep_patch :
      (g : Gvr) (ns name : String) (data' : Fields) (w : W) → P w → P (h.patch g ns name data' w).1

module _ {W : Type 0} (o : Accessors) (h : Hub W) (P : W → Type 0) (safe : KeptByPatches h P) where
  keep-list_deployments :
      (name : String) (w : W) → P w → P (list_capi_machine_deployments o h name w).1
  unfolding list_capi_machine_deployments
  keep-list_deployments name w p =
      let r = h.list capi_machine_deployment name "" w in
      let q : P r.1 = safe.keep_list capi_machine_deployment name "" w p in
      keep-handler P r.0 _ _ r.1 (λ items. q) (λ e. keep-if P (is_not_found e) _ _ r.1 q q)

  keep-get_capi_power_state : (name : String) (w : W) → P w → P (get_capi_power_state o h name w).1
  unfolding get_capi_power_state
  keep-get_capi_power_state name w p =
      let r = list_capi_machine_deployments o h name w in
      let q : P r.1 = keep-list_deployments name w p in
      keep-resume P r.0 _ r.1 q (λ mds. keep-list P mds _ _ r.1 q (λ md rest. q))

  keep-get_power_state : (ns name : String) (w : W) → P w → P (get_power_state o h ns name w).1
  unfolding get_power_state
  keep-get_power_state ns name w p =
      let r = h.get cluster_deployment ns name w in
      let q : P r.1 = safe.keep_get cluster_deployment ns name w p in
      keep-handler P r.0 _ _ r.1 (λ cd. q)
        (λ e. keep-if P (is_not_found e) _ _ r.1 (keep-get_capi_power_state name r.1 q) q)

  keep-set_power_state :
      (ns name state : String) (w : W) → P w → P (set_power_state o h ns name state w).1
  unfolding set_power_state
  keep-set_power_state ns name state w p =
      let r = h.patch cluster_deployment ns name (power_patch o h state) w in
      let q : P r.1 = safe.keep_patch cluster_deployment ns name (power_patch o h state) w p in
      keep-resume P (map_err _ r.0) _ r.1 q (λ obj. q)

  keep-patch_deployment : (md data' : Fields) (w : W) → P w → P (patch_deployment o h md data' w).1
  unfolding patch_deployment
  keep-patch_deployment md data' w p =
      let r = h.patch capi_machine_deployment (o.get_namespace md) (o.get_name md) data' w in
      let q : P r.1 = safe.keep_patch capi_machine_deployment _ _ data' w p in
      keep-resume P (map_err _ r.0) _ r.1 q (λ obj. q)

  keep-hibernate_deployment : (md : Fields) (w : W) → P w → P (hibernate_deployment o h md w).1
  unfolding hibernate_deployment
  keep-hibernate_deployment md w p =
      keep-option P (hibernate_patch o md) _ _ w p (λ data'. keep-patch_deployment md data' w p)

  keep-hibernate_capi : (name : String) (w : W) → P w → P (hibernate_capi o h name w).1
  unfolding hibernate_capi
  keep-hibernate_capi name w p =
      let r = list_capi_machine_deployments o h name w in
      let q : P r.1 = keep-list_deployments name w p in
      keep-resume P r.0 _ r.1 q (λ mds. keep-list P mds _ _ r.1 q (λ md rest.
        keep-for_each P (hibernate_deployment o h) (md ∷ rest) keep-hibernate_deployment r.1 q))

  pub keep-hibernate : (ns name : String) (w : W) → P w → P (hibernate o h ns name w).1
  unfolding hibernate
  keep-hibernate ns name w p =
      let r = h.get cluster_deployment ns name w in
      let q : P r.1 = safe.keep_get cluster_deployment ns name w p in
      keep-handler P r.0 _ _ r.1 (λ cd. switched r.1 q)
        (λ e. keep-if P (is_not_found e) _ _ r.1 (keep-hibernate_capi name r.1 q) q)
    where
      switched : (v : W) → P v → P (switch_hive o h ns name hibernating v).1
      switched v q =
          let r = get_power_state o h ns name v in
          let s : P r.1 = keep-get_power_state ns name v q in
          keep-resume P (map_err _ r.0) _ r.1 s (λ current.
            keep-if P (current == hibernating) _ _ r.1 s
              (keep-set_power_state ns name hibernating r.1 s))
