-- ===== src/Decommission/Manager/Starting.antt =====
-- What a successful `Start` of internal/decommission/manager.go returns.
use acm_caas_poc.Prelude.{
  String, ◌≡◌, refl, ap, ◌∙◌, ◌⊎◌, inl, inr, Option, none, some, [], ◌∷◌, map, arith, ◌==◌, eq_iff,
  if◌then◌else◌,
}
use acm_caas_poc.Kube.Errors.{Error, Result, ok, err}
use acm_caas_poc.Kube.Values.{Fields}
use acm_caas_poc.Kube.Objects.{Accessors}
use acm_caas_poc.Kube.Hub.{Hub}
use acm_caas_poc.Client.Resources.{config_map}
use acm_caas_poc.Decommission.Phases.{phase_imported, phase_audited}
use acm_caas_poc.Decommission.State.{
  HistoryEntry, AuditReport, DecommissionState, StartOpts, add_history, Codec,
}
use acm_caas_poc.Decommission.ConfigMap.{state_to_config_map, get_state, set_state, create_state}
use acm_caas_poc.Decommission.Audit.{audit}
use acm_caas_poc.Decommission.Manager.{audited_state, start}

-- A workflow that was just started and audited.
pub record Fresh (cluster : String) (opts : StartOpts) (s : DecommissionState) : Type 0 where
  pub report : AuditReport
  pub audited : s.audit ≡ some report
  pub in_phase : s.phase ≡ phase_audited
  pub of_cluster : s.cluster_name ≡ cluster
  pub of_deadline : s.deadline ≡ opts.deadline
  pub not_notified : s.notified_at ≡ ""
  pub not_backed_up : s.backup_path ≡ ""
  -- the owner of the options, or the audited one if those name none
  pub of_owner : s.owner ≡ (if opts.owner == "" then report.owner else opts.owner)
  pub two_entries :
      map (λ (e : HistoryEntry). e.phase) s.history ≡ phase_imported ∷ phase_audited ∷ []

-- The state that `createState` builds.
abbrev created_state : String → String → StartOpts → DecommissionState
created_state now cluster opts =
    add_history now phase_imported "Decommission workflow started" (record {
      cluster_name = cluster;
      phase = phase_imported;
      owner = opts.owner;
      deadline = opts.deadline;
      notified_at = "";
      backup_path = "";
      kubeconfig_path = opts.kubeconfig_path;
      audit = none;
      history = [];
    })

audited_state-Fresh :
    (now later cluster : String) (opts : StartOpts) (a : AuditReport)
    → Fresh cluster opts (audited_state later a (created_state now cluster opts))
unfolding audited_state
audited_state-Fresh now later cluster opts a = record {
  report = a;
  audited = refl;
  in_phase = refl;
  of_cluster = refl;
  of_deadline = refl;
  not_notified = refl;
  not_backed_up = refl;
  of_owner = ground (arith, eq_iff opts.owner "", eq_iff a.owner "");
  two_entries = refl;
}

module _ {W : Type 0} (o : Accessors) (j : Codec) (h : Hub W) where
  create_state-ok :
      (now cluster : String) (opts : StartOpts) (w : W) (s : DecommissionState)
      → (create_state o j h now cluster opts w).0 ≡ ok s
      → s ≡ created_state now cluster opts
  unfolding create_state
  create_state-ok now cluster opts w s e =
      go (h.create config_map cluster (state_to_config_map j (created_state now cluster opts)) w).0
        refl
    where
      go :
          (r : Result Fields)
          → (h.create config_map cluster
              (state_to_config_map j (created_state now cluster opts))
              w).0
            ≡ r
          → s ≡ created_state now cluster opts
      go (ok x) er = ground arith
      go (err x) er = ground arith

  -- When Start returns a state without an error, the workflow existed and is returned as stored,
  -- or it is a fresh one in phase `audited` for this cluster: it has a report, its owner is that
  -- of the options or else the one of the report, and its history is `imported`, `audited`.
  pub start-Fresh :
      (any_key : Fields → Option String) (age : String → W → Option String)
      (now later cluster : String) (opts : StartOpts) (w : W) (s : DecommissionState)
      → (start o j h any_key age now later cluster opts w).0 ≡ (some s, none)
      → ((get_state o j h cluster w).0 ≡ ok s) ⊎ Fresh cluster opts s
  unfolding start
  start-Fresh any_key age now later cluster opts w s e = existing (get_state o j h cluster w).0 refl
    where
      w1 : W
      w1 = (get_state o j h cluster w).1

      w2 : W
      w2 = (create_state o j h now cluster opts w1).1

      w3 : W
      w3 = (audit o h any_key age cluster w2).1

      saved :
          (x : Error) (a : AuditReport)
          → (get_state o j h cluster w).0 ≡ err x
          → (create_state o j h now cluster opts w1).0 ≡ ok (created_state now cluster opts)
          → (audit o h any_key age cluster w2).0 ≡ ok a
          → (r : Result (Unit {0}))
          → (set_state o j h (audited_state later a (created_state now cluster opts)) w3).0 ≡ r
          → s ≡ audited_state later a (created_state now cluster opts)
      saved x a ex ec ea (ok u) er = ground arith
      saved x a ex ec ea (err y) er = ground arith

      report :
          (x : Error)
          → (get_state o j h cluster w).0 ≡ err x
          → (create_state o j h now cluster opts w1).0 ≡ ok (created_state now cluster opts)
          → (r : Result AuditReport) → (audit o h any_key age cluster w2).0 ≡ r
          → Fresh cluster opts s
      report x ex ec (err y) er = ground arith
      report x ex ec (ok a) er =
          rw (saved x a ex ec er _ refl) (audited_state-Fresh now later cluster opts a)

      created :
          (x : Error)
          → (get_state o j h cluster w).0 ≡ err x
          → (r : Result DecommissionState) → (create_state o j h now cluster opts w1).0 ≡ r
          → Fresh cluster opts s
      created x ex (err y) er = ground arith
      created x ex (ok c) er =
          let same : c ≡ created_state now cluster opts =
            create_state-ok now cluster opts w1 c er in
          report x ex (er ∙ ap ok same) _ refl

      existing :
          (r : Result DecommissionState)
          → (get_state o j h cluster w).0 ≡ r
          → ((get_state o j h cluster w).0 ≡ ok s) ⊎ Fresh cluster opts s
      existing (ok c) er = inl (ground arith)
      existing (err x) er = inr (created x er _ refl)
