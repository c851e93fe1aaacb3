-- ===== src/Decommission/Manager.antt =====
-- internal/decommission/manager.go. `*DecommissionState, error` is a pair of options, since some
-- paths return both.
pub mod Advancing
pub mod Progress
pub mod Starting
use acm_caas_poc.Prelude.{
  String, ◌&&◌, not, Option, none, some, [], ◌∷◌, ◌==◌, if◌then◌else◌, concat,
}
use acm_caas_poc.Prelude.Decimal.{format_int}
use acm_caas_poc.Kube.Errors.{Error, text, wrapped, ok, err}
use acm_caas_poc.Kube.Values.{Fields}
use acm_caas_poc.Kube.Objects.{Accessors}
use acm_caas_poc.Kube.Hub.{Run, Hub}
use acm_caas_poc.Decommission.Phases.{
  phase_audited, phase_notified, phase_backed_up, phase_drained, phase_deleted, phase_cleaned,
  next_phase,
}
use acm_caas_poc.Decommission.State.{AuditReport, DecommissionState, StartOpts, add_history, Codec}
use acm_caas_poc.Decommission.ConfigMap.{get_state, set_state, create_state, delete_state}
use acm_caas_poc.Decommission.Audit.{audit}
use acm_caas_poc.Decommission.Steps.{notify, backup, drain, cleanup}

abbrev pub Outcome : Type 0
Outcome = Option DecommissionState × Option Error

-- `return state, nil`, `return nil, err` and `return state, err`.
abbrev pub returned : DecommissionState → Outcome
returned s = (some s, none)

abbrev pub failed : Error → Outcome
failed e = (none, some e)

abbrev pub stopped : DecommissionState → Error → Outcome
stopped s e = (some s, some e)

-- `validateSafeguards` refuses every state.
unfoldable pub validate_safeguards : DecommissionState → Error
validate_safeguards s =
    text
      "cannot delete: safeguard operations (notify, backup, drain) are not yet implemented with verifiable evidence"

-- The state that `Start` saves after the audit.
unfoldable pub audited_state : String → AuditReport → DecommissionState → DecommissionState
audited_state now report s =
    let owner = if not (report.owner == "") && s.owner == "" then report.owner else s.owner in
    add_history now phase_audited
      (concat (
        format_int report.node_count
        ∷ " nodes, "
        ∷ report.cpu_capacity
        ∷ " CPU, "
        ∷ report.memory_capacity
        ∷ " memory"
        ∷ []))
      (record s { audit = some report; phase = phase_audited; owner = owner })

module _ {W : Type 0} (o : Accessors) (j : Codec) (h : Hub W) (any_key : Fields → Option String)
    (age : String → W → Option String) where
  -- `Start`, whose two history entries read the clock at `now` and `later`.
  unfoldable pub start : String → String → String → StartOpts → W → Outcome × W
  start now later cluster opts w =
      let (existing, w1) = get_state o j h cluster w in
      elim existing [
        | ok s ↦ (returned s, w1)
        | err _ ↦
            let (created, w2) = create_state o j h now cluster opts w1 in
            elim created [
              | err e ↦ (failed e, w2)
              | ok s ↦
                  let (report, w3) = audit o h any_key age cluster w2 in
                  elim report [
                    | err e ↦ (stopped s (wrapped "audit failed" e), w3)
                    | ok a ↦
                        let s' = audited_state later a s in
                        let (saved, w4) = set_state o j h s' w3 in
                        elim saved [
                          | err e ↦ (failed (wrapped "saving audit state" e), w4)
                          | ok _ ↦ (returned s', w4)
                        ]
                  ]
            ]
      ]

module _ {W : Type 0} (o : Accessors) (j : Codec) (h : Hub W) where
  -- The end of `Advance`: the state is read again, moved to the target and saved.
  unfoldable pub move_to : String → String → String → String → W → Outcome × W
  move_to now cluster target msg w =
      let (again, w1) = get_state o j h cluster w in
      elim again [
        | err e ↦ (failed e, w1)
        | ok s ↦
            let s' = add_history now target msg (record s { phase = target }) in
            let (saved, w2) = set_state o j h s' w1 in
            elim saved [ err e ↦ (failed e, w2) | ok _ ↦ (returned s', w2) ]
      ]

  -- `if err := step; err != nil { return state, err }`, then the end of `Advance`.
  unfoldable pub after :
      String → String → String → DecommissionState → Run W (Unit {0}) → String → W → Outcome × W
  after now cluster target state step msg w =
      let (r, w1) = step w in
      elim r [ err e ↦ (stopped state e, w1) | ok _ ↦ move_to now cluster target msg w1 ]

  -- The `switch target` of `Advance`.
  unfoldable pub perform : String → String → String → DecommissionState → W → Outcome × W
  perform now cluster target state w =
      if target == phase_notified
      then after now cluster target state (notify o j h cluster)
          (concat ("Owner " ∷ state.owner ∷ " notified, deadline " ∷ state.deadline ∷ [])) w
      else if target == phase_backed_up
      then after now cluster target state (backup o j h cluster) "Cluster state backed up" w
      else if target == phase_drained
      then after now cluster target state (drain o j h) "Worker nodes drained" w
      else if target == phase_deleted
      then (stopped state (validate_safeguards state), w)
      else if target == phase_cleaned
      then (
        returned (
            add_history now phase_cleaned "ACM resources cleaned up"
              (record state { phase = phase_cleaned })),
        cleanup o j h cluster w,
      )
      else move_to now cluster target (concat ("Advanced to " ∷ target ∷ [])) w

  unfoldable pub advance : String → String → W → Outcome × W
  advance now cluster w =
      let (r, w1) = get_state o j h cluster w in
      elim r [
        | err e ↦ (failed e, w1)
        | ok state ↦
            let target = next_phase state.phase in
            if target == state.phase
            then (returned state, w1)
            else perform now cluster target state w1
      ]

  -- `Cancel`
  unfoldable pub cancel : String → Run W (Unit {0})
  cancel cluster = delete_state o j h cluster
