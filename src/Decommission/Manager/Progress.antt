-- ===== src/Decommission/Manager/Progress.antt =====
-- What a successful `Advance` of internal/decommission/manager.go returns.
use acm_caas_poc.Prelude.{
  String, ◌≡◌, refl, sym, ◌∙◌, ◌≢◌, ◌⊎◌, inl, inr, none, some, arith, ◌==◌, eq_iff, Bool-cases,
}
use acm_caas_poc.Kube.Errors.{Result, ok, err}
use acm_caas_poc.Kube.Objects.{Accessors}
use acm_caas_poc.Kube.Hub.{Run, Hub}
use acm_caas_poc.Decommission.Phases.{
  phase_audited, phase_notified, phase_backed_up, phase_deleted, phase_cleaned, next_phase, Next,
  imported_audited, audited_notified, notified_backed_up, backed_up_drained, drained_deleted,
  deleted_cleaned, fixed, next_phase-Next,
}
use acm_caas_poc.Decommission.State.{DecommissionState, add_history, Codec}
use acm_caas_poc.Decommission.ConfigMap.{get_state, set_state}
use acm_caas_poc.Decommission.Steps.{notify, backup, drain}
use acm_caas_poc.Decommission.Manager.{move_to, after, perform, advance}
use acm_caas_poc.Decommission.Manager.Advancing.{IsHarmless, is_audited, is_notified, is_backed_up}

-- From the stored state `s` to the returned one.
pub data Progress (s s' : DecommissionState) : Type 0 where
  unchanged : next_phase s.phase ≡ s.phase → s' ≡ s → Progress s s'
  moved : s'.phase ≡ next_phase s.phase → IsHarmless s'.phase → Progress s s'
  cleaned_up : s.phase ≡ phase_deleted → s'.phase ≡ phase_cleaned → Progress s s'

module _ {W : Type 0} (o : Accessors) (j : Codec) (h : Hub W) where
  module _ (now cluster target msg : String) (w : W) (s' : DecommissionState) where
    move_to-phase : (move_to o j h now cluster target msg w).0 ≡ (some s', none) → s'.phase ≡ target
    unfolding move_to
    move_to-phase e = read (get_state o j h cluster w).0 refl
      where
        saved :
            (s : DecommissionState)
            → (get_state o j h cluster w).0 ≡ ok s
            → (r : Result (Unit {0}))
            → (set_state o j h
                (add_history now target msg (record s { phase = target }))
                (get_state o j h cluster w).1).0
              ≡ r
            → s'.phase ≡ target
        saved s es (ok u) er = ground arith
        saved s es (err x) er = ground arith

        read :
            (r : Result DecommissionState) → (get_state o j h cluster w).0 ≡ r → s'.phase ≡ target
        read (err x) er = ground arith
        read (ok s) er = saved s er _ refl

    after-phase :
        (s : DecommissionState) (step : Run W (Unit {0}))
        → (after o j h now cluster target s step msg w).0 ≡ (some s', none)
        → (v : W) × ((move_to o j h now cluster target msg v).0 ≡ (some s', none))
    unfolding after
    after-phase s step e = go (step w).0 refl
      where
        go :
            (r : Result (Unit {0}))
            → (step w).0 ≡ r
            → (v : W) × ((move_to o j h now cluster target msg v).0 ≡ (some s', none))
        go (ok u) er = ((step w).1, ground arith)
        go (err x) er = ground arith

  drain_stops :
      (now cluster target msg : String) (w : W) (s s' : DecommissionState)
      → ¬ ((after o j h now cluster target s (drain o j h) msg w).0 ≡ (some s', none))
  unfolding after drain
  drain_stops now cluster target msg w s s' e = ground arith

  perform-Progress :
      (now cluster target : String) (s s' : DecommissionState) (w : W)
      → Next s.phase target
      → target ≢ s.phase
      → (perform o j h now cluster target s w).0 ≡ (some s', none)
      → ((s'.phase ≡ target) × IsHarmless s'.phase)
        ⊎ ((s.phase ≡ phase_deleted) × (s'.phase ≡ phase_cleaned))
  unfolding perform
  perform-Progress now cluster target s s' w (imported_audited e t) moves er =
      let at : s'.phase ≡ phase_audited =
        move_to-phase now cluster phase_audited _ w s' (rw (t, perform) at er) in
      inl (at ∙ sym t, is_audited at)
  perform-Progress now cluster target s s' w (audited_notified e t) moves er =
      let (v, m) =
        after-phase now cluster phase_notified _ w s' s (notify o j h cluster)
          (rw (t, perform) at er) in
      let at : s'.phase ≡ phase_notified = move_to-phase now cluster phase_notified _ v s' m in
      inl (at ∙ sym t, is_notified at)
  perform-Progress now cluster target s s' w (notified_backed_up e t) moves er =
      let (v, m) =
        after-phase now cluster phase_backed_up _ w s' s (backup o j h cluster)
          (rw (t, perform) at er) in
      let at : s'.phase ≡ phase_backed_up = move_to-phase now cluster phase_backed_up _ v s' m in
      inl (at ∙ sym t, is_backed_up at)
  perform-Progress now cluster target s s' w (backed_up_drained e t) moves er =
      let made = rw (t, perform) at er in absurd (drain_stops now cluster _ _ w s s' made)
  perform-Progress now cluster target s s' w (drained_deleted e t) moves er =
      let made = rw (t, perform) at er in absurd (ground arith)
  perform-Progress now cluster target s s' w (deleted_cleaned e t) moves er =
      let made = rw (t, perform) at er in inr (e, ground arith)
  perform-Progress now cluster target s s' w (fixed t) moves er = absurd (moves t)

  -- When Advance returns a state without an error, a state was stored and either it has no next
  -- phase and is returned as it is, or the phase of the result is the next one and is `audited`,
  -- `notified` or `backed-up`, or `cleaned` follows a stored `deleted`, whatever the server
  -- answers.
  pub advance-Progress :
      (now cluster : String) (w : W) (s' : DecommissionState)
      → (advance o j h now cluster w).0 ≡ (some s', none)
      → (s : DecommissionState) × ((get_state o j h cluster w).0 ≡ ok s) × Progress s s'
  unfolding advance
  advance-Progress now cluster w s' e = go (get_state o j h cluster w).0 refl
    where
      go :
          (r : Result DecommissionState)
          → (get_state o j h cluster w).0 ≡ r
          → (s : DecommissionState) × ((get_state o j h cluster w).0 ≡ ok s) × Progress s s'
      go (err x) er = ground arith
      go (ok s) er = elim (Bool-cases (next_phase s.phase == s.phase)) [
        | inl same ↦ (
          s,
          er,
          unchanged ((eq_iff (next_phase s.phase) s.phase).0 same) (ground (arith, same, er)),
        )
        | inr moves ↦
            let done = rw (advance, er, moves) at e in
            elim (perform-Progress now cluster (next_phase s.phase) s s' _ (next_phase-Next s.phase)
              (λ same. cc ((eq_iff (next_phase s.phase) s.phase).1 same, moves)) done) [
                | inl (at_next, harmless) ↦ (s, er, moved at_next harmless)
                | inr (was, now_is) ↦ (s, er, cleaned_up was now_is)
              ]
      ]
