-- ===== src/Examples/Recovery.antt =====
-- internal/lifecycle/recovery.go at a cluster with a request of a kubelet and one of another signer.
-- The world holds the requests that were approved.
use acm_caas_poc.Prelude.{ℕ, ◌≡◌, true, false, Option, none, List, [], ◌∷◌, arith, All}
use acm_caas_poc.Kube.Errors.{Error, Result, ok, err}
use acm_caas_poc.Kube.Values.{str, Fields, fields_of, map_of}
use acm_caas_poc.Kube.Hub.{Hub}
use acm_caas_poc.Lifecycle.Recovery.{
  Csr, Spoke, is_kubelet_signer, is_pending_kubelet_csr, approved, post_resume_recovery,
}
use acm_caas_poc.Lifecycle.Recovery.Approvals.{
  KeptByApprovals, KeptByReads, recovery_approves_pending,
}
use acm_caas_poc.Examples.Worlds.{walking, conflict_error}

abbrev of_kubelet : Csr
of_kubelet = record {
  name = "csr-1";
  signer_name = "kubernetes.io/kubelet-serving";
  conditions = [];
}

abbrev of_another : Csr
of_another = record { name = "csr-2"; signer_name = "example.com/signer"; conditions = [] }

abbrev spoke : Spoke (List Csr)
spoke = record {
  list_csrs = λ w. (ok (of_another ∷ of_kubelet ∷ []), w);
  update_approval = λ name csr w. (ok csr, csr ∷ w);
}

abbrev has_kubeconfig : Fields
has_kubeconfig = fields_of (
    ("status", map_of (("adminKubeconfigSecretRef", map_of (("name", str "s") ∷ [])) ∷ []))
    ∷ ("data", map_of (("kubeconfig", str "") ∷ []))
    ∷ [])

abbrev hub : Hub (List Csr)
hub = record {
  create = λ g ns obj w. (err conflict_error, w);
  get = λ g ns name w. (ok has_kubeconfig, w);
  list = λ g ns sel w. (ok [], w);
  update = λ g ns obj w. (err conflict_error, w);
  delete = λ g ns name w. (ok tt, w);
  patch = λ g ns name d w. (err conflict_error, w);
}

-- Every approved request is one of a kubelet.
abbrev OfKubelets : List Csr → Type 0
OfKubelets w = All (λ csr. is_kubelet_signer csr.signer_name ≡ true) w

abbrev wait : List Csr → Option Error × List Csr
wait w = (none, w)

abbrev now : List Csr → ℕ
now w = 0

approvals : KeptByApprovals now wait spoke OfKubelets
unfolding approved is_pending_kubelet_csr
approvals = record {
  keep_wait = λ w p. p;
  keep_list_csrs = λ w p. p;
  keep_approval = λ csr w e p. (ground arith, p);
}

reads : KeptByReads hub OfKubelets
reads = record { keep_get = λ g ns name w p. p; keep_list = λ g ns sel w p. p }

abbrev connect : Unit {0} → Result (Spoke (List Csr))
connect k = ok spoke

spoke_known :
    (k : Unit {0}) (s : Spoke (List Csr)) → connect k ≡ ok s → KeptByApprovals now wait s OfKubelets
spoke_known k s e = let same : spoke ≡ s = ground arith in rw (← same) approvals

recovery_approves_pending_example :
    OfKubelets
      (post_resume_recovery walking
        (λ s t. false)
        (λ s. ok s)
        (λ s. ok tt)
        hub
        connect
        now
        wait
        "c"
        "c"
        []).1
recovery_approves_pending_example =
    recovery_approves_pending walking (λ s t. false) (λ s. ok s) (λ s. ok tt) hub OfKubelets reads
      connect now wait "c" "c" [] spoke_known tt
