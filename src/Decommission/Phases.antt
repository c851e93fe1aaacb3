-- ===== src/Decommission/Phases.antt =====
-- internal/decommission/state.go: the phases. A phase is a text, and what a ConfigMap holds may be
-- any text.
use acm_caas_poc.Prelude.{
  String, ◌≡◌, sym, inl, inr, List, [], ◌∷◌, ◌==◌, eq_iff, if◌then◌else◌, Bool-cases,
}

abbrev pub phase_imported : String
phase_imported = "imported"

abbrev pub phase_audited : String
phase_audited = "audited"

abbrev pub phase_notified : String
phase_notified = "notified"

abbrev pub phase_backed_up : String
phase_backed_up = "backed-up"

abbrev pub phase_drained : String
phase_drained = "drained"

abbrev pub phase_deleted : String
phase_deleted = "deleted"

abbrev pub phase_cleaned : String
phase_cleaned = "cleaned"

abbrev pub phase_order : List String
phase_order =
    phase_imported ∷ phase_audited ∷ phase_notified ∷ phase_backed_up ∷ phase_drained
    ∷ phase_deleted ∷ phase_cleaned ∷ []

-- The loop of `nextPhase`: the successor of the first match that is not the last entry.
abbrev next_in : List String → String → String
next_in [] current = current
next_in (p ∷ []) current = current
next_in (p ∷ q ∷ rest) current = if p == current then q else next_in (q ∷ rest) current

unfoldable pub next_phase : String → String
next_phase current = next_in phase_order current

-- What `nextPhase` answers, in terms of the diagram of the workflow: the successor of a phase, or
-- the same text for the last phase and for a text that is no phase.
pub data Next (p t : String) : Type 0 where
  imported_audited : p ≡ phase_imported → t ≡ phase_audited → Next p t
  audited_notified : p ≡ phase_audited → t ≡ phase_notified → Next p t
  notified_backed_up : p ≡ phase_notified → t ≡ phase_backed_up → Next p t
  backed_up_drained : p ≡ phase_backed_up → t ≡ phase_drained → Next p t
  drained_deleted : p ≡ phase_drained → t ≡ phase_deleted → Next p t
  deleted_cleaned : p ≡ phase_deleted → t ≡ phase_cleaned → Next p t
  fixed : t ≡ p → Next p t

-- nextPhase answers the successor of a phase in the diagram of the workflow, or the same text for
-- the last phase and for a text that is no phase.
pub next_phase-Next : (p : String) → Next p (next_phase p)
unfolding next_phase
next_phase-Next p = elim (Bool-cases (phase_imported == p)) [
  | inl e ↦ imported_audited (sym ((eq_iff phase_imported p).0 e)) (rw e)
  | inr e1 ↦ elim (Bool-cases (phase_audited == p)) [
    | inl e ↦ audited_notified (sym ((eq_iff phase_audited p).0 e)) (rw (e1, e))
    | inr e2 ↦ elim (Bool-cases (phase_notified == p)) [
      | inl e ↦ notified_backed_up (sym ((eq_iff phase_notified p).0 e)) (rw (e1, e2, e))
      | inr e3 ↦ elim (Bool-cases (phase_backed_up == p)) [
        | inl e ↦ backed_up_drained (sym ((eq_iff phase_backed_up p).0 e)) (rw (e1, e2, e3, e))
        | inr e4 ↦ elim (Bool-cases (phase_drained == p)) [
          | inl e ↦ drained_deleted (sym ((eq_iff phase_drained p).0 e)) (rw (e1, e2, e3, e4, e))
          | inr e5 ↦ elim (Bool-cases (phase_deleted == p)) [
            | inl e ↦
                deleted_cleaned (sym ((eq_iff phase_deleted p).0 e)) (rw (e1, e2, e3, e4, e5, e))
            | inr e6 ↦ fixed (rw (e1, e2, e3, e4, e5, e6))
          ]
        ]
      ]
    ]
  ]
]
