-- ===== src/Fleet/Taints/RoundTrip.antt =====
-- A taint that is added and removed again (internal/fleet/taints.go).
use acm_caas_poc.Prelude.{
  String, ◌≡◌, refl, sym, ap, ◌∙◌, inl, inr, false, List, [], ◌∷◌, ◌++◌, map, arith, eq_iff,
  Bool-cases,
}
use acm_caas_poc.Kube.Errors.{Result, ok, err}
use acm_caas_poc.Kube.Values.{object, Fields, index, maps_of, items_of}
use acm_caas_poc.Kube.Hub.{Hub}
use acm_caas_poc.Client.Resources.{managed_cluster}
use acm_caas_poc.Fleet.Taints.{
  Taint, taint_of, extract_taints, taint_entry, taint_list, taint_patch, has_taint, without_key,
  patch_taints, list_taints, add_taint, remove_taint,
}

-- What is relied on of the server while no other client writes: after a merge patch of
-- the taints, a read gives an object with the taints of the patch, and writes nothing.
pub record MergesTaints {W : Type 0} (h : Hub W) (cluster : String) : Type 0 where
  pub get-patch :
      (ts : List Taint) (res : Fields) (w t : W)
      → h.patch managed_cluster "" cluster (taint_patch ts) w ≡ (ok res, t)
      → (obj : Fields) × (spec : Fields) × (h.get managed_cluster "" cluster t ≡ (ok obj, t))
        × (index obj "spec" ≡ object spec)
        × (index spec "taints" ≡ taint_list ts)

entries_back : (ts : List Taint) → map taint_of (maps_of (items_of (map taint_entry ts))) ≡ ts
unfolding taint_of taint_entry maps_of index
entries_back [] = refl
entries_back (t ∷ ts) = ap (λ (l : List Taint). t ∷ l) (entries_back ts)

-- The taints that are written to an object are read back from it.
pub extract-taint_list :
    (ts : List Taint) (obj spec : Fields)
    → index obj "spec" ≡ object spec
    → index spec "taints" ≡ taint_list ts
    → extract_taints obj ≡ ts
unfolding extract_taints taint_list
extract-taint_list ts obj spec e1 e2 = rw (extract_taints, e1, e2) (entries_back ts)

without_new :
    (key : String) (t : Taint) (ts : List Taint)
    → has_taint key ts ≡ false
    → t.key ≡ key
    → without_key key (ts ++ t ∷ []) ≡ ts
unfolding has_taint without_key
without_new key t [] h e = ground (arith, eq_iff t.key key)
without_new key t (u ∷ ts) h e = ground (arith, without_new key t ts, h)

module _ {W : Type 0} (h : Hub W) (cluster key : String) (laws : MergesTaints h cluster) where
  -- What a successful change wrote.
  patch_taints-inv :
      (ts : List Taint) (w t : W)
      → patch_taints h cluster ts w ≡ (ok tt, t)
      → list_taints h cluster t ≡ (ok ts, t)
  unfolding patch_taints list_taints
  patch_taints-inv ts w t e = go (h.patch managed_cluster "" cluster (taint_patch ts) w) refl
    where
      go :
          (r : Result Fields × W)
          → h.patch managed_cluster "" cluster (taint_patch ts) w ≡ r
          → list_taints h cluster t ≡ (ok ts, t)
      go (err x, v) er = ground arith
      go (ok res, v) er =
          let same : v ≡ t = ground arith in
          let (obj, spec, got, e1, e2) = laws.get-patch ts res w v er in
          let read : list_taints h cluster v ≡ (ok ts, v) =
            rw (list_taints, got, extract-taint_list ts obj spec e1 e2) in
          rw (← same) read

  -- What a successful `AddTaint` finds and leaves.
  add_taint-inv :
      (value effect : String) (w t : W)
      → add_taint h cluster key value effect w ≡ (ok tt, t)
      → (ts : List Taint) × ((list_taints h cluster w).0 ≡ ok ts)
        × (has_taint key ts ≡ false)
        × (list_taints h cluster t
            ≡ (ok (ts ++ record { key = key; value = value; effect = effect } ∷ []), t))
  unfolding add_taint
  add_taint-inv value effect w t e = go (list_taints h cluster w) refl
    where
      go :
          (r : Result (List Taint) × W)
          → list_taints h cluster w ≡ r
          → (ts : List Taint) × ((list_taints h cluster w).0 ≡ ok ts)
            × (has_taint key ts ≡ false)
            × (list_taints h cluster t
                ≡ (ok (ts ++ record { key = key; value = value; effect = effect } ∷ []), t))
      go (err x, v) er = ground arith
      go (ok ts, v) er = elim (Bool-cases (has_taint key ts)) [
        | inl there ↦ absurd (ground (arith, there, er, e))
        | inr new ↦
            (ts, ap (λ r. r.0) er, new, patch_taints-inv _ v t (rw (add_taint, er, new) at e))
      ]

  -- When no other client writes meanwhile, a successful RemoveTaint right after a successful
  -- AddTaint of the same key leaves the list of taints that was there before.
  pub add_then_remove :
      (value effect : String) (w t u : W)
      → add_taint h cluster key value effect w ≡ (ok tt, t)
      → remove_taint h cluster key t ≡ (ok tt, u)
      → (list_taints h cluster u).0 ≡ (list_taints h cluster w).0
  unfolding remove_taint
  add_then_remove value effect w t u added removed =
      let (ts, before, new, after) = add_taint-inv value effect w t added in
      elim (Bool-cases
        (has_taint key (ts ++ record { key = key; value = value; effect = effect } ∷ []))) [
          | inl there ↦
              let wrote = rw (remove_taint, after, there) at removed in
              let left = patch_taints-inv _ t u wrote in
              ap (λ r. r.0) left ∙ ap ok (without_new key _ ts new refl) ∙ sym before
          | inr gone ↦ absurd (ground (arith, gone, after, removed))
        ]
