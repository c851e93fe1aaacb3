-- ===== src/Client/Laws.antt =====
-- The documented behaviour of the API server on which internal/client/client.go relies, for a
-- stretch of time in which no other client writes.
use acm_caas_poc.Prelude.{String, ◌≡◌, true, false, ◌==◌}
use acm_caas_poc.Kube.Errors.{Error, is_not_found, Result, ok, err}
use acm_caas_poc.Kube.Values.{Fields, index}
use acm_caas_poc.Kube.Objects.{Accessors}
use acm_caas_poc.Kube.Hub.{Gvr, Hub}

-- The answer to a deletion of something that is deleted already.
abbrev pub IsGone : {A : Type 0} → Result A → Type 0
IsGone (ok _) = Unit {0}
IsGone (err e) = is_not_found e ≡ true

pub record QuietHub {W : Type 0} (o : Accessors) (h : Hub W) : Type 0 where
  -- a read writes nothing
  pub get_reads : (g : Gvr) (ns name : String) (w : W) → (h.get g ns name w).1 ≡ w
  -- what was created can be read
  pub get-create :
      (g : Gvr) (ns : String) (obj res : Fields) (w t : W)
      → h.create g ns obj w ≡ (ok res, t)
      → (seen : Fields) × (h.get g ns (o.get_name obj) t ≡ (ok seen, t))
  -- a second deletion finds nothing, or something that is being deleted, and writes nothing
  pub delete_again :
      (g : Gvr) (ns name : String) (w t : W)
      → h.delete g ns name w ≡ (ok tt, t)
      → ((h.delete g ns name t).1 ≡ t) × IsGone (h.delete g ns name t).0
  -- a deletion that finds nothing writes nothing
  pub delete_missing :
      (g : Gvr) (ns name : String) (e : Error) (w t : W)
      → h.delete g ns name w ≡ (err e, t)
      → is_not_found e ≡ true
      → t ≡ w

-- The name of an object stands in its metadata.
pub record NamesInMetadata (o : Accessors) : Type 0 where
  pub same_name :
      (a b : Fields) → index a "metadata" ≡ index b "metadata" → o.get_name a ≡ o.get_name b

-- What an update has stored is what is read under the name of the object, while no other client
-- writes: its fields, but for the metadata, of which the server sets the version, and the status,
-- which has an endpoint of its own. Of the other objects nothing is known.
pub record StoresUpdates {W : Type 0} (o : Accessors) (h : Hub W) (g : Gvr) : Type 0 where
  pub reads_named :
      (ns name : String) (obj : Fields) (w t : W)
      → h.get g ns name w ≡ (ok obj, t)
      → o.get_name obj ≡ name
  pub get-update :
      (ns : String) (obj res : Fields) (w t : W)
      → h.update g ns obj w ≡ (ok res, t)
      → (seen : Fields) × ((h.get g ns (o.get_name obj) t).0 ≡ ok seen)
        × ((k : String)
            → (k == "metadata") ≡ false
            → (k == "status") ≡ false
            → index seen k ≡ index obj k)
