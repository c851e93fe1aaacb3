-- ===== src/Lifecycle/Recovery/Approvals.antt =====
-- Which requests the recovery of internal/lifecycle/recovery.go approves.
use acm_caas_poc.Prelude.{
  ℕ, zero, suc, ◌+◌, String, ◌≡◌, refl, inl, inr, Bool, true, Option, none, some, List, [], ◌∷◌,
  ◌==◌, eqb, Bool-cases, concat,
}
use acm_caas_poc.Kube.Keeping.{keep-resume, keep-elim, keep-either, keep-test}
use acm_caas_poc.Kube.Errors.{Error, wrapped, Result, ok, err, map_err}
use acm_caas_poc.Kube.Values.{Fields}
use acm_caas_poc.Kube.Objects.{found_or, Accessors}
use acm_caas_poc.Kube.Hub.{Gvr, Hub, lift}
use acm_caas_poc.Client.Resources.{cluster_deployment, secret}
use acm_caas_poc.Lifecycle.Recovery.{
  RecoveryResult, Csr, Spoke, is_pending_kubelet_csr, approved, no_result, Recovery, approve_each,
  approve_expired_csrs, pause, approve_rounds, find_admin_kubeconfig_secret, secret_name,
  config_of_secret, get_spoke_rest_config, post_resume_recovery,
}

-- A property of the world that is kept by waiting, by listing the requests, and by approving one
-- that a kubelet has signed and that is neither approved nor denied.
pub record KeptByApprovals {W : Type 0} (now : W → ℕ) (wait : W → Option Error × W) (s : Spoke W)
    (P : W → Type 0) : Type 0 where
  pub keep_wait : (w : W) → P w → P (wait w).1
  pub keep_list_csrs : (w : W) → P w → P (s.list_csrs w).1
  pub keep_approval :
      (csr : Csr) (w : W)
      → is_pending_kubelet_csr csr ≡ true
      → P w
      → P (s.update_approval csr.name (approved (now w) csr) w).1

-- A property of the world that reads keep.
pub record KeptByReads {W : Type 0} (h : Hub W) (P : W → Type 0) : Type 0 where
  pub keep_get : (g : Gvr) (ns name : String) (w : W) → P w → P (h.get g ns name w).1
  pub keep_list : (g : Gvr) (ns sel : String) (w : W) → P w → P (h.list g ns sel w).1

module _ {W : Type 0} (now : W → ℕ) (wait : W → Option Error × W) (s : Spoke W) (P : W → Type 0)
    (safe : KeptByApprovals now wait s P) where
  keep-approve_each :
      (csrs : List Csr) (r : RecoveryResult) (w : W) → P w → P (approve_each now wait s csrs r w).1
  unfolding approve_each
  keep-approve_each [] r w p = p
  keep-approve_each (csr ∷ rest) r w p = elim (Bool-cases (is_pending_kubelet_csr csr)) [
    | inr e ↦ rw (approve_each, e) (keep-approve_each rest r w p)
    | inl e ↦
        rw (approve_each, e)
          (keep-elim P (s.update_approval csr.name (approved (now w) csr) w).0 _ _
            (λ a. keep-approve_each rest _ _ (safe.keep_approval csr w e p))
            (λ x. keep-approve_each rest _ _ (safe.keep_approval csr w e p)))
  ]

  keep-approve_expired_csrs : (w : W) → P w → P (approve_expired_csrs now wait s w).1
  unfolding approve_expired_csrs
  keep-approve_expired_csrs w p =
      let q = safe.keep_list_csrs w p in
      keep-elim P (s.list_csrs w).0 _ _ (λ csrs. keep-approve_each csrs no_result _ q) (λ e. q)

  keep-pause : (round : ℕ) (w : W) → P w → P (pause now wait s round w).1
  unfolding pause
  keep-pause zero w p = p
  keep-pause (suc round) w p = safe.keep_wait w p

  pub keep-approve_rounds :
      (left round : ℕ) (total : RecoveryResult) (w : W)
      → P w
      → P (approve_rounds now wait s left round total w).1
  unfolding approve_rounds
  keep-approve_rounds zero round total w p = p
  keep-approve_rounds (suc left) round total w p =
      let q = keep-pause round w p in
      keep-either P (pause now wait s round w).0 _ _
        (let q' = keep-approve_expired_csrs _ q in
          keep-elim P (approve_expired_csrs now wait s (pause now wait s round w).1).0 _ _
            (λ result.
              keep-test P (eqb result.csrs_approved 0) _ _
                (keep-approve_rounds left (round + 1) _ _ q') q')
            (λ e. q'))
        (λ e. q)

keep-connected :
    {W : Type 0} (now : W → ℕ) (wait : W → Option Error × W) (P : W → Type 0) (r : Result (Spoke W))
    (w : W)
    → ((s : Spoke W) → r ≡ ok s → KeptByApprovals now wait s P)
    → P w
    → P
        (elim r as (λ x. Recovery × W) [
          | ok spoke ↦ approve_rounds now wait spoke 3 0 no_result w
          | err e ↦ ((none, some (wrapped "creating spoke clientset" e)), w)
        ]).1
keep-connected now wait P (ok s) w safe p =
    keep-approve_rounds now wait s P (safe s refl) 3 0 no_result w p
keep-connected now wait P (err e) w safe p = p

module _ {W K : Type 0} (o : Accessors) (has_suffix : String → String → Bool)
    (decode_base64 : String → Result String) (rest_config : String → Result K) (h : Hub W)
    (P : W → Type 0) (reads : KeptByReads h P) where
  keep-secret_name :
      (ns name : String) (cd : Fields) (w : W) → P w → P (secret_name o has_suffix h ns name cd w).1
  unfolding secret_name find_admin_kubeconfig_secret
  keep-secret_name ns name cd w p =
      let named =
        found_or "" (o.nested_string cd ("status" ∷ "adminKubeconfigSecretRef" ∷ "name" ∷ [])) in
      elim (Bool-cases (named == "")) [
        | inl e ↦ rw (secret_name, e) (reads.keep_list secret ns "" w p)
        | inr e ↦ rw (secret_name, e) p
      ]

  keep-get_spoke_rest_config :
      (ns name : String) (w : W)
      → P w
      → P (get_spoke_rest_config o has_suffix decode_base64 rest_config h ns name w).1
  unfolding get_spoke_rest_config
  keep-get_spoke_rest_config ns name w p =
      let q = reads.keep_get cluster_deployment ns name w p in
      let w1 = (h.get cluster_deployment ns name w).1 in
      keep-resume P
        (map_err (wrapped "getting ClusterDeployment") (h.get cluster_deployment ns name w).0) _ w1
        q
        (λ cd.
          let q1 = keep-secret_name ns name cd w1 q in
          keep-resume P (secret_name o has_suffix h ns name cd w1).0 _
            (secret_name o has_suffix h ns name cd w1).1 q1
            (λ found_name.
              let q2 = reads.keep_get secret ns found_name _ q1 in
              keep-resume P
                (map_err (wrapped (concat ("getting admin kubeconfig secret " ∷ found_name ∷ [])))
                  (h.get secret ns found_name (secret_name o has_suffix h ns name cd w1).1).0)
                (λ secret'.
                  lift
                    (config_of_secret o has_suffix decode_base64 rest_config h found_name secret'))
                _ q2 (λ secret'. q2)))

  -- PostResumeRecovery writes nothing but approvals of certificate requests of the two kubelet
  -- signers that are neither approved nor denied: it keeps every property of the world that reads,
  -- waits, listings and such approvals keep, whatever the servers answer.
  pub recovery_approves_pending :
      (connect : K → Result (Spoke W)) (now : W → ℕ) (wait : W → Option Error × W)
      (ns name : String) (w : W)
      → ((k : K) (s : Spoke W) → connect k ≡ ok s → KeptByApprovals now wait s P)
      → P w
      → P
          (post_resume_recovery o has_suffix decode_base64 rest_config h connect now wait ns name
            w).1
  unfolding post_resume_recovery
  recovery_approves_pending connect now wait ns name w safe p =
      let q = reads.keep_get cluster_deployment ns name w p in
      let w1 = (h.get cluster_deployment ns name w).1 in
      let q' = keep-get_spoke_rest_config ns name w1 q in
      keep-elim P (h.get cluster_deployment ns name w).0 _ _
        (λ cd.
          keep-elim P (get_spoke_rest_config o has_suffix decode_base64 rest_config h ns name w1).0
            _ _ (λ k. keep-connected now wait P (connect k) _ (safe k) q') (λ e. q'))
        (λ e. q)
