-- ===== src/Examples/Client.antt =====
-- internal/client/client.go at a server that holds one object.
use acm_caas_poc.Prelude.{◌≡◌, refl, true, none, some, [], ◌∷◌, arith}
use acm_caas_poc.Kube.Errors.{Error, is_not_found, ok, err}
use acm_caas_poc.Kube.Values.{str, Fields, fields_of}
use acm_caas_poc.Client.{create_if_not_exists}
use acm_caas_poc.Client.Resources.{config_map}
use acm_caas_poc.Client.Laws.{IsGone, QuietHub}
use acm_caas_poc.Client.Idempotence.{create_twice}
use acm_caas_poc.Examples.Worlds.{walking, Cell, cell_hub}

cell_laws : QuietHub walking cell_hub
unfolding cell_hub
cell_laws = record {
  get_reads = λ g ns name w. reads w;
  get-create = λ g ns obj res w t e. created obj res w t e;
  delete_again = λ g ns name w t e. again w t e;
  delete_missing = λ g ns name e w t eq. gone w t e eq;
}
  where
    reads : (w : Cell) → (cell_hub.get config_map "" "" w).1 ≡ w
    reads none = refl
    reads (some _) = refl

    created :
        (obj res : Fields) (w t : Cell)
        → cell_hub.create config_map "" obj w ≡ (ok res, t)
        → (seen : Fields) × (cell_hub.get config_map "" "" t ≡ (ok seen, t))
    created obj res none t e = (obj, ground arith)
    created obj res (some _) t e = ground arith

    again :
        (w t : Cell)
        → cell_hub.delete config_map "" "" w ≡ (ok tt, t)
        → ((cell_hub.delete config_map "" "" t).1 ≡ t)
          × IsGone (cell_hub.delete config_map "" "" t).0
    again none t e = ground arith
    again (some _) none e = (refl, refl)
    again (some _) (some _) e = ground arith

    gone :
        (w t : Cell) (e : Error)
        → cell_hub.delete config_map "" "" w ≡ (err e, t)
        → is_not_found e ≡ true
        → t ≡ w
    gone none t e eq n = ground arith
    gone (some _) t e eq n = ground arith

abbrev team : Fields
team = fields_of (("kind", str "ConfigMap") ∷ [])

created_once : create_if_not_exists walking cell_hub config_map "a" team none ≡ (ok tt, some team)
unfolding create_if_not_exists cell_hub
created_once = refl

create_twice_example :
    create_if_not_exists walking cell_hub config_map "a" team (some team) ≡ (ok tt, some team)
create_twice_example =
    create_twice walking cell_hub config_map "a" team cell_laws none (some team) created_once
