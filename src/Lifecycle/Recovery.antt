-- ===== src/Lifecycle/Recovery.antt =====
-- internal/lifecycle/recovery.go: the approval of the certificates of a cluster that was resumed.
-- The cluster itself is behind the record `Spoke`, which `clientcmd` and `kubernetes` make of a
-- kubeconfig.
pub mod Approvals
use acm_caas_poc.Prelude.{
  ℕ, zero, suc, ◌+◌, String, Bool, true, false, ◌&&◌, ◌||◌, not, Option, none, some, List, [], ◌∷◌,
  ◌++◌, ◌==◌, ltb, eqb, if◌then◌else◌, concat,
}
use acm_caas_poc.Prelude.Int.{pos}
use acm_caas_poc.Prelude.Decimal.{format_int}
use acm_caas_poc.Kube.Errors.{
  Error, status, text, wrapped, is_not_found, Result, ok, err, error_text,
}
use acm_caas_poc.Kube.Values.{Fields}
use acm_caas_poc.Kube.Objects.{found, missing, mistyped, found_or, Accessors}
use acm_caas_poc.Kube.Hub.{Run, Hub, pure, lift, context, ◌>>=◌}
use acm_caas_poc.Client.Resources.{cluster_deployment, secret}

pub record RecoveryResult : Type 0 where
  pub csrs_approved : ℕ
  pub csr_names : List String
  pub message : String

-- `CertificateSigningRequestCondition` and `CertificateSigningRequest` of the Kubernetes API.
pub record CsrCondition : Type 0 where
  pub type : String
  pub status : String
  pub reason : String
  pub message : String
  pub last_update_time : ℕ

pub record Csr : Type 0 where
  pub name : String
  pub signer_name : String
  pub conditions : List CsrCondition

-- The client of certificate signing requests on the cluster.
pub record Spoke (W : Type 0) : Type 0 where
  pub list_csrs : Run W (List Csr)
  pub update_approval : String → Csr → Run W Csr

-- `isPendingKubeletCSR`
unfoldable pub is_kubelet_signer : String → Bool
is_kubelet_signer s =
    s == "kubernetes.io/kube-apiserver-client-kubelet" || s == "kubernetes.io/kubelet-serving"

unfoldable pub is_decided : List CsrCondition → Bool
is_decided [] = false
is_decided (c ∷ rest) = c.type == "Approved" || c.type == "Denied" || is_decided rest

unfoldable pub is_pending_kubelet_csr : Csr → Bool
is_pending_kubelet_csr csr = is_kubelet_signer csr.signer_name && not (is_decided csr.conditions)

-- The request with the condition that `approveExpiredCSRs` appends.
unfoldable pub approved : ℕ → Csr → Csr
approved now csr = record csr {
  conditions =
      csr.conditions
      ++ record {
        type = "Approved";
        status = "True";
        reason = "AutoApprovedByAcmlab";
        message = "Approved by acmlab post-resume recovery";
        last_update_time = now;
      }
        ∷ [];
}

abbrev pub no_result : RecoveryResult
no_result = record { csrs_approved = 0; csr_names = []; message = "" }

unfoldable pub count_failure : Csr → Error → RecoveryResult → RecoveryResult
count_failure csr e r = record r {
  csr_names =
      r.csr_names ++ concat (csr.name ∷ " (approval failed: " ∷ error_text e ∷ ")" ∷ []) ∷ [];
}

unfoldable pub count_approval : Csr → RecoveryResult → RecoveryResult
count_approval csr r = record r {
  csrs_approved = r.csrs_approved + 1;
  csr_names = r.csr_names ++ csr.name ∷ [];
}

-- `total` with what one round has done.
unfoldable pub add_round : RecoveryResult → RecoveryResult → RecoveryResult
add_round total r = record total {
  csrs_approved = total.csrs_approved + r.csrs_approved;
  csr_names = total.csr_names ++ r.csr_names;
}

unfoldable pub with_message : RecoveryResult → RecoveryResult
with_message total = record total {
  message =
      if ltb 0 total.csrs_approved
      then concat (
          "Approved "
          ∷ format_int (pos total.csrs_approved)
          ∷ " expired kubelet certificate(s)"
          ∷ [])
      else "No expired certificates found";
}

-- A result that may come with an error.
abbrev pub Recovery : Type 0
Recovery = Option RecoveryResult × Option Error

-- `metav1.Now` and the wait of 15 seconds, which ends early with the error of a cancelled context.
module _ {W : Type 0} (now : W → ℕ) (wait : W → Option Error × W) (s : Spoke W) where
  -- The loop of `approveExpiredCSRs`.
  unfoldable pub approve_each : List Csr → RecoveryResult → W → RecoveryResult × W
  approve_each [] r w = (r, w)
  approve_each (csr ∷ rest) r w = elim (is_pending_kubelet_csr csr) [
    | false ↦ approve_each rest r w
    | true ↦
        let (done, w1) = s.update_approval csr.name (approved (now w) csr) w in
        elim done [
          | err e ↦ approve_each rest (count_failure csr e r) w1
          | ok _ ↦ approve_each rest (count_approval csr r) w1
        ]
  ]

  unfoldable pub approve_expired_csrs : Run W RecoveryResult
  approve_expired_csrs w =
      let (r, w1) = s.list_csrs w in
      elim r [
        | err e ↦ (err (wrapped "listing CSRs" e), w1)
        | ok csrs ↦ let (result, w2) = approve_each csrs no_result w1 in (ok result, w2)
      ]

  -- What the loop of the rounds does before each but the first.
  unfoldable pub pause : ℕ → W → Option Error × W
  pause zero w = (none, w)
  pause (suc round) w = wait w

  -- The rounds that are left, from a round on.
  unfoldable pub approve_rounds : ℕ → ℕ → RecoveryResult → W → Recovery × W
  approve_rounds zero round total w = ((some (with_message total), none), w)
  approve_rounds (suc left) round total w =
      let (stopped, w1) = pause round w in
      elim stopped [
        | some e ↦ ((some total, some e), w1)
        | none ↦
            let (r, w2) = approve_expired_csrs w1 in
            elim r [
              | err e ↦ (
                (
                  some total,
                  some (
                      wrapped
                        (concat
                          ("approving CSRs (round " ∷ format_int (pos (round + 1)) ∷ ")" ∷ []))
                        e),
                ),
                w2,
              )
              | ok result ↦ elim (eqb result.csrs_approved 0) [
                | true ↦ ((some (with_message (add_round total result)), none), w2)
                | false ↦ approve_rounds left (round + 1) (add_round total result) w2
              ]
            ]
      ]

-- `strings.HasSuffix` is an argument.
module _ {W : Type 0} (o : Accessors) (has_suffix : String → String → Bool) (h : Hub W) where
  unfoldable pub first_kubeconfig : List Fields → Option String
  first_kubeconfig [] = none
  first_kubeconfig (secret' ∷ rest) =
      let later = first_kubeconfig rest in
      if has_suffix (o.get_name secret') "-admin-kubeconfig"
      then some (o.get_name secret')
      else later

  unfoldable pub find_admin_kubeconfig_secret : String → Run W String
  find_admin_kubeconfig_secret ns w =
      let (r, w1) = h.list secret ns "" w in
      (
        elim r [
          | err e ↦ err (wrapped (concat ("listing secrets in " ∷ ns ∷ [])) e)
          | ok secrets ↦ elim (first_kubeconfig secrets) [
            | some name ↦ ok name
            | none ↦
                err (text (concat ("no *-admin-kubeconfig secret found in namespace " ∷ ns ∷ [])))
          ]
        ],
        w1,
      )

  -- The name of the secret: from the status of the cluster, or else by its suffix.
  unfoldable pub secret_name : String → String → Fields → Run W String
  secret_name ns name cd =
      let named =
        found_or "" (o.nested_string cd ("status" ∷ "adminKubeconfigSecretRef" ∷ "name" ∷ [])) in
      if named == ""
      then context
          (concat (
            "ClusterDeployment " ∷ ns ∷ "/" ∷ name
            ∷ " has no adminKubeconfigSecretRef and fallback search failed" ∷ []))
          (find_admin_kubeconfig_secret ns)
      else pure named

-- `base64`, and `clientcmd` and `kubernetes`, which make a configuration and a client, are arguments.
module _ {W K : Type 0} (o : Accessors) (has_suffix : String → String → Bool)
    (decode_base64 : String → Result String) (rest_config : String → Result K) (h : Hub W) where
  -- What is made of the secret.
  unfoldable pub config_of_secret : String → Fields → Result K
  config_of_secret found_name secret' =
      elim (o.nested_string secret' ("data" ∷ "kubeconfig" ∷ [])) [
        | found b64 ↦ elim (decode_base64 b64) [
          | err e ↦ err (wrapped "decoding kubeconfig" e)
          | ok kubeconfig ↦ rest_config kubeconfig
        ]
        | missing ↦ err (text (concat ("secret " ∷ found_name ∷ " has no kubeconfig data" ∷ [])))
        | mistyped ↦ err (text (concat ("secret " ∷ found_name ∷ " has no kubeconfig data" ∷ [])))
      ]

  unfoldable pub get_spoke_rest_config : String → String → Run W K
  get_spoke_rest_config ns name =
      context "getting ClusterDeployment" (h.get cluster_deployment ns name) >>= λ cd.
      secret_name o has_suffix h ns name cd >>= λ found_name.
      context (concat ("getting admin kubeconfig secret " ∷ found_name ∷ []))
        (h.get secret ns found_name)
      >>= λ secret'. lift (config_of_secret found_name secret')

  unfoldable pub post_resume_recovery :
      (K → Result (Spoke W)) → (W → ℕ) → (W → Option Error × W) → String → String → W → Recovery × W
  post_resume_recovery connect now wait ns name w =
      let (r, w1) = h.get cluster_deployment ns name w in
      elim r [
        | err e ↦ (
          (if is_not_found e
              then (
                some (record no_result {
                  message =
                      "Skipped: CAPI cluster (certificate recovery requires ClusterDeployment)";
                }),
                none,
              )
              else (none, some (wrapped "checking ClusterDeployment" e))),
          w1,
        )
        | ok _ ↦
            let (config, w2) = get_spoke_rest_config ns name w1 in
            elim config [
              | err e ↦ ((none, some (wrapped "getting spoke kubeconfig" e)), w2)
              | ok spoke_config ↦ elim (connect spoke_config) [
                | err e ↦ ((none, some (wrapped "creating spoke clientset" e)), w2)
                | ok spoke ↦ approve_rounds now wait spoke 3 0 no_result w2
              ]
            ]
      ]
