-- ===== src/Decommission/Manager/Advancing.antt =====
-- How far `Advance` of internal/decommission/manager.go can take a workflow.
use acm_caas_poc.Prelude.{String, ◌≡◌, refl, ◌≢◌, inl, inr, not, ◌==◌, eq_iff, Bool-cases}
use acm_caas_poc.Kube.Keeping.{keep-resume, keep-elim, keep-if}
use acm_caas_poc.Kube.Errors.{Result, ok, err, map_err}
use acm_caas_poc.Kube.Objects.{Accessors}
use acm_caas_poc.Kube.Hub.{Gvr, Run, Hub}
use acm_caas_poc.Client.Resources.{config_map}
use acm_caas_poc.Decommission.Phases.{
  phase_audited, phase_notified, phase_backed_up, phase_deleted, next_phase, Next, imported_audited,
  audited_notified, notified_backed_up, backed_up_drained, drained_deleted, deleted_cleaned, fixed,
  next_phase-Next,
}
use acm_caas_poc.Decommission.State.{DecommissionState, add_history, Codec}
use acm_caas_poc.Decommission.ConfigMap.{config_map_name, state_to_config_map, get_state, set_state}
use acm_caas_poc.Decommission.Steps.{notify, backup, drain}
use acm_caas_poc.Decommission.Manager.{move_to, after, perform, advance}

-- The phases that `Advance` can save.
pub data IsHarmless (p : String) : Type 0 where
  is_audited : p ≡ phase_audited → IsHarmless p
  is_notified : p ≡ phase_notified → IsHarmless p
  is_backed_up : p ≡ phase_backed_up → IsHarmless p

module _ {W : Type 0} (o : Accessors) (j : Codec) (h : Hub W) where
  -- A property of the world that reads keep, and the saving of a state in a harmless phase. Nothing
  -- is asked of deletions, of other phases or of other writes.
  pub record KeptBySafeCalls (P : W → Type 0) : Type 0 where
    pub keep_get : (g : Gvr) (ns name : String) (w : W) → P w → P (h.get g ns name w).1
    pub keep_save :
        (s : DecommissionState) (w : W)
        → IsHarmless s.phase
        → P w
        → P (h.update config_map s.cluster_name (state_to_config_map j s) w).1

  module _ (P : W → Type 0) (safe : KeptBySafeCalls P) where
    keep-get_state : (cluster : String) (w : W) → P w → P (get_state o j h cluster w).1
    unfolding get_state
    keep-get_state cluster w p =
        let read = h.get config_map cluster (config_map_name cluster) w in
        let q : P read.1 = safe.keep_get config_map cluster (config_map_name cluster) w p in
        keep-resume P (map_err _ read.0) _ read.1 q (λ obj. q)

    keep-set_state :
        (s : DecommissionState) (w : W) → IsHarmless s.phase → P w → P (set_state o j h s w).1
    unfolding set_state
    keep-set_state s w i p =
        let saved = h.update config_map s.cluster_name (state_to_config_map j s) w in
        let q : P saved.1 = safe.keep_save s w i p in keep-resume P saved.0 _ saved.1 q (λ obj. q)

    keep-move_to :
        (now cluster target msg : String) (w : W)
        → IsHarmless target
        → P w
        → P (move_to o j h now cluster target msg w).1
    unfolding move_to
    keep-move_to now cluster target msg w i p =
        let again = get_state o j h cluster w in
        let q : P again.1 = keep-get_state cluster w p in
        keep-elim P again.0 _ _
          (λ s.
            let s' = add_history now target msg (record s { phase = target }) in
            let saved = set_state o j h s' again.1 in
            let r : P saved.1 = keep-set_state s' again.1 i q in
            keep-elim P saved.0 _ _ (λ _. r) (λ _. r))
          (λ _. q)

    -- A step that keeps `P` before the state is moved.
    keep-after :
        (now cluster target : String) (s : DecommissionState) (step : Run W (Unit {0}))
        (msg : String) (w : W)
        → IsHarmless target
        → P (step w).1
        → P (after o j h now cluster target s step msg w).1
    unfolding after
    keep-after now cluster target s step msg w i q =
        keep-elim P (step w).0 _ _ (λ _. keep-move_to now cluster target msg (step w).1 i q)
          (λ _. q)

    keep-notify : (cluster : String) (w : W) → P w → P (notify o j h cluster w).1
    unfolding notify
    keep-notify cluster w p =
        let read = get_state o j h cluster w in
        let q : P read.1 = keep-get_state cluster w p in
        keep-resume P read.0 _ read.1 q (λ s. keep-if P (not (s.notified_at == "")) _ _ read.1 q q)

    keep-backup : (cluster : String) (w : W) → P w → P (backup o j h cluster w).1
    unfolding backup
    keep-backup cluster w p =
        let read = get_state o j h cluster w in
        let q : P read.1 = keep-get_state cluster w p in
        keep-resume P read.0 _ read.1 q (λ s. keep-if P (not (s.backup_path == "")) _ _ read.1 q q)

    keep-perform :
        (now cluster target : String) (s : DecommissionState) (w : W)
        → Next s.phase target
        → s.phase ≢ phase_deleted
        → target ≢ s.phase
        → P w
        → P (perform o j h now cluster target s w).1
    unfolding perform drain
    keep-perform now cluster target s w (imported_audited e t) safe_phase moves p =
        rw t (keep-move_to now cluster phase_audited _ w (is_audited refl) p)
    keep-perform now cluster target s w (audited_notified e t) safe_phase moves p = rw t (
        keep-after now cluster phase_notified s (notify o j h cluster) _ w (is_notified refl)
          (keep-notify cluster w p))
    keep-perform now cluster target s w (notified_backed_up e t) safe_phase moves p = rw t (
        keep-after now cluster phase_backed_up s (backup o j h cluster) _ w (is_backed_up refl)
          (keep-backup cluster w p))
    keep-perform now cluster target s w (backed_up_drained e t) safe_phase moves p =
        rw t (unfold after in p)
    keep-perform now cluster target s w (drained_deleted e t) safe_phase moves p = rw t p
    keep-perform now cluster target s w (deleted_cleaned e t) safe_phase moves p =
        absurd (safe_phase e)
    keep-perform now cluster target s w (fixed t) safe_phase moves p = absurd (moves t)

  -- Unless the stored phase is `deleted`, Advance makes no deletion and no write but the saving of
  -- a state in phase `audited`, `notified` or `backed-up`: it keeps every property of the world
  -- that reads and such saves keep, whatever the server answers.
  pub advance_never_destroys :
      (P : W → Type 0)
      → KeptBySafeCalls P
      → (now cluster : String) (w : W)
      → ((s : DecommissionState) → (get_state o j h cluster w).0 ≡ ok s → s.phase ≢ phase_deleted)
      → P w
      → P (advance o j h now cluster w).1
  unfolding advance
  advance_never_destroys P safe now cluster w stored p = go (get_state o j h cluster w).0 refl
    where
      q : P (get_state o j h cluster w).1
      q = keep-get_state P safe cluster w p

      go :
          (r : Result DecommissionState)
          → (get_state o j h cluster w).0 ≡ r
          → P (advance o j h now cluster w).1
      go (err e) er = rw (advance, er) q
      go (ok s) er = elim (Bool-cases (next_phase s.phase == s.phase)) [
        | inl same ↦ rw (advance, er, same) q
        | inr moves ↦
            rw (advance, er, moves)
              (keep-perform P safe now cluster (next_phase s.phase) s _ (next_phase-Next s.phase)
                (stored s er) (λ same. cc ((eq_iff (next_phase s.phase) s.phase).1 same, moves)) q)
      ]
