-- ===== src/Lifecycle/Capi/Replicas.antt =====
-- Hibernating and resuming a MachineDeployment (internal/lifecycle/lifecycle.go).
use acm_caas_poc.Prelude.{
  ℕ, zero, suc, ◌≤◌, ◌<◌, String, ◌≡◌, refl, ap, none, some, [], ◌∷◌, arith, Map, lookup,
  lookup-insert_self,
}
use acm_caas_poc.Prelude.Int.{ℤ, pos}
use acm_caas_poc.Prelude.Decimal.{format_int, max_int64, parse_int-format_int}
use acm_caas_poc.Kube.Values.{
  int, str, object, Fields, index, has_key, texts, walk, fields_of, map_of,
}
use acm_caas_poc.Kube.Objects.{Accessors}
use acm_caas_poc.Lifecycle.Capi.{
  pre_hibernate_annotation, spec_replicas, noted_annotations, hibernate_patch, target_replicas,
  resume_patch,
}

abbrev pub annotations : Accessors → Fields → Map String
annotations o md = elim (o.get_annotations md) [ none ↦ [] | some m ↦ m ]

-- `md'` is what the server stores of a deployment after the merge patch `data'` (RFC 7386): an
-- annotation and a number of replicas that the patch sets are in force. Of those that the patch
-- does not set nothing is known.
pub record Merged (o : Accessors) (data' md' : Fields) : Type 0 where
  pub annotated :
      (k v : String)
      → walk (object data') ("metadata" ∷ "annotations" ∷ k ∷ []) ≡ some (str v)
      → lookup k (annotations o md') ≡ some v
  pub scaled :
      (z : ℤ)
      → walk (object data') ("spec" ∷ "replicas" ∷ []) ≡ some (int z)
      → spec_replicas o md' ≡ z

target_of_noted :
    (o : Accessors) (md' : Fields) (n : ℕ)
    → suc n ≤ max_int64
    → lookup pre_hibernate_annotation (annotations o md') ≡ some (format_int (pos (suc n)))
    → target_replicas o md' ≡ pos (suc n)
unfolding target_replicas
target_of_noted o md' n h e = rw (target_replicas, e, parse_int-format_int (suc n) h) refl

noted_entry :
    (o : Accessors) (md : Fields) (z : ℤ)
    → lookup pre_hibernate_annotation (noted_annotations o md z) ≡ some (format_int z)
unfolding noted_annotations
noted_entry o md z = lookup-insert_self pre_hibernate_annotation (format_int z) _

index-texts :
    (k v : String) (m : Map String)
    → lookup k m ≡ some v
    → walk (object (texts m)) (k ∷ []) ≡ some (str v)
unfolding lookup walk has_key index
index-texts k v [] e = ground arith
index-texts k v ((j, u) ∷ m) e = ground (arith, index-texts k v m)

-- A deployment with a positive number of replicas, as far as an int64 goes, is patched by
-- hibernation; once the server has merged the patch, hibernating again patches nothing and
-- resuming asks for the number of replicas from before.
pub hibernate_then_resume :
    (o : Accessors) (md : Fields) (stored : Fields → Fields) (n : ℕ)
    → spec_replicas o md ≡ pos n
    → 0 < n
    → n ≤ max_int64
    → ((data' : Fields) → hibernate_patch o md ≡ some data' → Merged o data' (stored data'))
    → (data' : Fields) × (hibernate_patch o md ≡ some data')
      × (hibernate_patch o (stored data') ≡ none)
      × (resume_patch o (stored data')
          ≡ fields_of (("spec", map_of (("replicas", int (pos n)) ∷ [])) ∷ []))
unfolding hibernate_patch resume_patch walk has_key index
hibernate_then_resume o md stored zero e pos_n h merges = elim pos_n [ ]
hibernate_then_resume o md stored (suc n) e pos_n h merges = (
  data',
  patched,
  rw (hibernate_patch, scaled_down) refl,
  ap (λ (z : ℤ). fields_of (("spec", map_of (("replicas", int z) ∷ [])) ∷ []))
      (target_of_noted o (stored data') n h noted),
)
  where
    data' : Fields
    data' = fields_of (
        (
          "metadata",
          map_of (("annotations", object (texts (noted_annotations o md (pos (suc n))))) ∷ []),
        )
        ∷ ("spec", map_of (("replicas", int (pos 0)) ∷ []))
        ∷ [])

    patched : hibernate_patch o md ≡ some data'
    patched = rw (hibernate_patch, e) refl

    scaled_down : spec_replicas o (stored data') ≡ pos 0
    scaled_down = (merges data' patched).scaled (pos 0) refl

    noted :
        lookup pre_hibernate_annotation (annotations o (stored data'))
        ≡ some (format_int (pos (suc n)))
    noted =
        (merges data' patched).annotated pre_hibernate_annotation _
          (index-texts pre_hibernate_annotation _ _ (noted_entry o md (pos (suc n))))
