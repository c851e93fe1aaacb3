-- ===== src/Rollout/Statuses.antt =====
-- What the status of a rollout says.
use acm_caas_poc.Prelude.{
  String, ◌≡◌, refl, ◌≢◌, ◌↔◌, inl, inr, Bool, true, false, ◌&&◌, not, some, List, [], ◌∷◌, arith,
  ◌==◌, eq_iff, if◌then◌else◌, Bool-cases,
}
use acm_caas_poc.Prelude.Int.{ℤ, pos, negsuc, is_nonpositive}
use acm_caas_poc.Kube.Values.{Fields, map_at_key, str_at_key}
use acm_caas_poc.Rollout.{counts_of, placement_status, eqb_ℤ, final_status, parse_rollout_info}

abbrev complete : ℤ → ℤ → ℤ → Bool
complete applied total failed =
    not (is_nonpositive applied) && eqb_ℤ applied total && eqb_ℤ failed (pos 0)

eqb_ℤ_iff : (a b : ℤ) → (eqb_ℤ a b ≡ true) ↔ (a ≡ b)
eqb_ℤ_iff (pos m) (pos n) = ground arith
eqb_ℤ_iff (pos m) (negsuc n) = ground arith
eqb_ℤ_iff (negsuc m) (pos n) = ground arith
eqb_ℤ_iff (negsuc m) (negsuc n) = ground arith

abbrev IsOther : String → Type 0
IsOther s = s ≢ "Complete"

active_ne : IsOther "Active"
active_ne e = cc ((eq_iff "Active" "Complete").1 e)

not_found_ne : IsOther "PlacementNotFound"
not_found_ne e = cc ((eq_iff "PlacementNotFound" "Complete").1 e)

degraded_ne : IsOther "Degraded"
degraded_ne e = cc ((eq_iff "Degraded" "Complete").1 e)

if_ne :
    (b : Bool) (x y : String) → x ≢ "Complete" → y ≢ "Complete" → (if b then x else y) ≢ "Complete"
if_ne true x y p q = p
if_ne false x y p q = q

placement_status-ne :
    (l : List Fields) (s : String) → s ≢ "Complete" → placement_status l s ≢ "Complete"
unfolding placement_status
placement_status-ne [] s h = h
placement_status-ne (cond ∷ rest) s h = placement_status-ne rest _ (
    if_ne (str_at_key cond "type" == "PlacementVerified" && str_at_key cond "status" == "False")
      "PlacementNotFound" _ not_found_ne
      (if_ne (str_at_key cond "type" == "PlacementVerified" && str_at_key cond "status" == "True")
        "Active" s active_ne h))

final_status_iff :
    (applied total failed : ℤ) (s : String)
    → s ≢ "Complete"
    → (final_status applied total failed s ≡ "Complete") ↔ (complete applied total failed ≡ true)
unfolding final_status
final_status_iff applied total failed s h = elim (Bool-cases (complete applied total failed)) [
  | inl e ↦ rw e (λ _. refl, λ _. refl)
  | inr e ↦ rw e (
    λ same. absurd (if_ne (not (is_nonpositive failed)) "Degraded" s degraded_ne h same),
    λ same. ground arith,
  )
]

unknown_ne : IsOther "Unknown"
unknown_ne e = cc ((eq_iff "Unknown" "Complete").1 e)

both_iff : {A B C : Type 0} → A ↔ B → B ↔ C → A ↔ C
both_iff f g = (λ a. g.0 (f.0 a), λ c. f.1 (g.1 c))

complete_iff :
    (applied total failed : ℤ)
    → (complete applied total failed ≡ true)
      ↔ ((is_nonpositive applied ≡ false) × (applied ≡ total) × (failed ≡ pos 0))
complete_iff applied total failed =
    ground (arith, eqb_ℤ_iff applied total, eqb_ℤ_iff failed (pos 0))

-- A rollout that has a status is shown as `Complete` exactly if something is applied, as much is
-- applied as there is in total, and nothing failed, whatever its conditions say.
pub status_Complete_iff :
    (name : String) (obj st : Fields) (applied total failed : ℤ)
    → map_at_key obj "status" ≡ some st
    → counts_of st ≡ (applied, total, failed)
    → ((parse_rollout_info name obj).status ≡ "Complete")
      ↔ ((is_nonpositive applied ≡ false) × (applied ≡ total) × (failed ≡ pos 0))
unfolding parse_rollout_info
status_Complete_iff name obj st applied total failed e counts =
    rw (parse_rollout_info, e, counts)
      (both_iff
        (final_status_iff applied total failed _ (placement_status-ne _ "Unknown" unknown_ne))
        (complete_iff applied total failed))
