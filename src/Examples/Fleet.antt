-- ===== src/Examples/Fleet.antt =====
-- internal/fleet/taints.go at a server whose object is the last patch.
use acm_caas_poc.Prelude.{◌≡◌, refl, ap, List, [], ◌∷◌}
use acm_caas_poc.Kube.Errors.{ok}
use acm_caas_poc.Kube.Values.{object, Fields, index, maps_of, fields_of}
use acm_caas_poc.Kube.Hub.{Hub}
use acm_caas_poc.Client.Resources.{managed_cluster}
use acm_caas_poc.Fleet.Taints.{
  Taint, taint_of, extract_taints, taint_entry, taint_list, taint_patch, has_taint, without_key,
  patch_taints, list_taints, add_taint, remove_taint,
}
use acm_caas_poc.Fleet.Taints.RoundTrip.{MergesTaints, add_then_remove}

abbrev last_patch : Hub Fields
last_patch = record {
  create = λ g ns x w. (ok x, w);
  get = λ g ns name w. (ok w, w);
  list = λ g ns sel w. (ok (w ∷ []), w);
  update = λ g ns x w. (ok x, w);
  delete = λ g ns name w. (ok tt, w);
  patch = λ g ns name d w. (ok d, d);
}

merges : MergesTaints last_patch "c1"
unfolding taint_patch index
merges = record { get-patch = λ ts res w t e. patched ts t (ap (λ r. r.1) e) }
  where
    patched :
        (ts : List Taint) (t : Fields)
        → taint_patch ts ≡ t
        → (obj : Fields) × (spec : Fields) × (last_patch.get managed_cluster "" "c1" t
            ≡ (ok obj, t))
          × (index obj "spec" ≡ object spec)
          × (index spec "taints" ≡ taint_list ts)
    patched ts t e =
        rw (← e) (taint_patch ts, fields_of (("taints", taint_list ts) ∷ []), refl, refl, refl)

abbrev gpu_taint : Taint
gpu_taint = record { key = "gpu"; value = "a100"; effect = "NoSelect" }

abbrev old_taint : Taint
old_taint = record { key = "old"; value = ""; effect = "NoSelect" }

abbrev before : Fields
unfolding taint_patch
before = taint_patch (old_taint ∷ [])

added :
    add_taint last_patch "c1" "gpu" "a100" "NoSelect" before
    ≡ (ok tt, taint_patch (old_taint ∷ gpu_taint ∷ []))
unfolding add_taint list_taints patch_taints has_taint extract_taints taint_of taint_patch
    taint_list taint_entry index maps_of
added = refl

removed :
    remove_taint last_patch "c1" "gpu" (taint_patch (old_taint ∷ gpu_taint ∷ [])) ≡ (ok tt, before)
unfolding remove_taint list_taints patch_taints has_taint without_key extract_taints taint_of
    taint_patch taint_list taint_entry index maps_of
removed = refl

add_then_remove_example :
    (list_taints last_patch "c1" before).0 ≡ (list_taints last_patch "c1" before).0
add_then_remove_example =
    add_then_remove last_patch "c1" "gpu" merges "a100" "NoSelect" before
      (taint_patch (old_taint ∷ gpu_taint ∷ [])) before added removed
