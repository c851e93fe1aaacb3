-- ===== src/Upgrade/Listing.antt =====
-- The clusters that `ListUpgradeable` of internal/upgrade/upgrade.go lists.
use acm_caas_poc.Prelude.{
  String, ◌≡◌, refl, ◌⊎◌, inl, inr, true, false, List, [], ◌∷◌, ◌++◌, arith, ◌==◌, eq_iff,
  Bool-cases, is_empty,
}
use acm_caas_poc.Kube.Errors.{Error, Result, ok, err}
use acm_caas_poc.Kube.Values.{Fields}
use acm_caas_poc.Kube.Objects.{Accessors}
use acm_caas_poc.Kube.Hub.{Hub}
use acm_caas_poc.Client.Resources.{managed_cluster}
use acm_caas_poc.Upgrade.{
  method_report_only, UpgradeStatus, UpgradeableCluster, get_upgrade_status, upgradeable, entry_of,
  list_loop, list_upgradeable,
}

is_empty-cases :
    {A : Type 0} (xs : List A)
    → ((is_empty xs ≡ true) × (xs ≡ [])) ⊎ ((is_empty xs ≡ false) × ¬ (xs ≡ []))
is_empty-cases [] = inl (refl, refl)
is_empty-cases (x ∷ xs) = inr (refl, λ same. ground arith)

module _ {W : Type 0} (o : Accessors) (h : Hub W) where
  -- What the list has of one cluster, and why.
  pub data Verdict (name : String) : List UpgradeableCluster → Type 0 where
    hub_itself : name ≡ "local-cluster" → Verdict name []
    unreadable : (w : W) (e : Error) → (get_upgrade_status o h name w).0 ≡ err e → Verdict name []
    unfit :
        (w : W) (s : UpgradeStatus)
        → (get_upgrade_status o h name w).0 ≡ ok s
        → (s.upgrade_method ≡ method_report_only) ⊎ (s.available ≡ [])
        → Verdict name []
    listed :
        (w : W) (s : UpgradeStatus)
        → ¬ (name ≡ "local-cluster")
        → (get_upgrade_status o h name w).0 ≡ ok s
        → ¬ (s.upgrade_method ≡ method_report_only)
        → ¬ (s.available ≡ [])
        → Verdict name (upgradeable o h name s ∷ [])

  pub data Verdicts : List Fields → List UpgradeableCluster → Type 0 where
    all_judged : Verdicts [] []
    judged :
        {mc : Fields} {mcs : List Fields} {es later : List UpgradeableCluster}
        → Verdict (o.get_name mc) es
        → Verdicts mcs later
        → Verdicts (mc ∷ mcs) (es ++ later)

  entry_of-Verdict :
      (name : String) (w : W) (r : Result UpgradeStatus)
      → ¬ (name ≡ "local-cluster")
      → (get_upgrade_status o h name w).0 ≡ r
      → Verdict name (entry_of o h name r)
  unfolding entry_of
  entry_of-Verdict name w (err e) other same = unreadable w e same
  entry_of-Verdict name w (ok s) other same =
      elim (Bool-cases (s.upgrade_method == method_report_only)) [
        | inl e ↦ rw e (unfit w s same (inl ((eq_iff _ _).0 e)))
        | inr e ↦ elim (is_empty-cases s.available) [
          | inl (none_found, empty) ↦ rw (e, none_found) (unfit w s same (inr empty))
          | inr (some_found, full) ↦
              rw (e, some_found)
                (listed w s other same
                  (λ eq. cc (e, (eq_iff s.upgrade_method method_report_only).1 eq)) full)
        ]
      ]

  list_loop-Verdicts : (mcs : List Fields) (w : W) → Verdicts mcs (list_loop o h mcs w).0
  unfolding list_loop
  list_loop-Verdicts [] w = all_judged
  list_loop-Verdicts (mc ∷ mcs) w =
      let name = o.get_name mc in
      elim (Bool-cases (name == "local-cluster")) [
        | inl e ↦
            rw e
              (judged (hub_itself ((eq_iff name "local-cluster").0 e)) (list_loop-Verdicts mcs w))
        | inr e ↦ rw e (
            judged
              (entry_of-Verdict name w _ (λ same. cc (e, (eq_iff name "local-cluster").1 same))
                refl)
              (list_loop-Verdicts mcs (get_upgrade_status o h name w).1))
      ]

  -- When the clusters can be listed, ListUpgradeable succeeds with one entry, in order, for each
  -- cluster other than `local-cluster` whose status was read with a method that can upgrade and
  -- with updates available, and with nothing for the others.
  pub list_upgradeable-Verdicts :
      (clusters : List Fields) (w : W)
      → (h.list managed_cluster "" "" w).0 ≡ ok clusters
      → (result : List UpgradeableCluster) × ((list_upgradeable o h w).0 ≡ ok result)
        × Verdicts clusters result
  unfolding list_upgradeable
  list_upgradeable-Verdicts clusters w e =
      rw (list_upgradeable, e)
        (_, refl, list_loop-Verdicts clusters (h.list managed_cluster "" "" w).1)
