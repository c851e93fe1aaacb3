-- ===== src/Client/Idempotence.antt =====
-- The create-once and delete-once calls of internal/client/client.go, repeated.
use acm_caas_poc.Prelude.{String, ◌≡◌, refl, sym, ap, ◌∙◌, ◌⊎◌, inl, inr, true, arith}
use acm_caas_poc.Kube.Errors.{Error, is_not_found, Result, ok, err}
use acm_caas_poc.Kube.Values.{Fields}
use acm_caas_poc.Kube.Objects.{Accessors}
use acm_caas_poc.Kube.Hub.{Gvr, Hub}
use acm_caas_poc.Client.{create_if_not_exists, delete_if_exists}
use acm_caas_poc.Client.Laws.{IsGone, QuietHub}

module _ {W : Type 0} (o : Accessors) (h : Hub W) (g : Gvr) (ns : String) (obj : Fields) where
  -- How the object came to exist: it did before, or the call created it.
  abbrev Existed : W → W → Type 0
  Existed w t = (seen : Fields) × (h.get g ns (o.get_name obj) w ≡ (ok seen, t))

  abbrev Created : W → W → Type 0
  Created w t = (v : W) × (res : Fields) × (h.create g ns obj v ≡ (ok res, t))

  create_if_not_exists-inv :
      (w t : W) → create_if_not_exists o h g ns obj w ≡ (ok tt, t) → Existed w t ⊎ Created w t
  unfolding create_if_not_exists
  create_if_not_exists-inv w t e = read (h.get g ns (o.get_name obj) w) refl
    where
      made :
          (v : W) (x : Error)
          → h.get g ns (o.get_name obj) w ≡ (err x, v)
          → (c : Result Fields × W) → h.create g ns obj v ≡ c
          → Existed w t ⊎ Created w t
      made v x er (ok res, u) ec = inr (v, res, ground arith)
      made v x er (err y, u) ec = ground arith

      read : (r : Result Fields × W) → h.get g ns (o.get_name obj) w ≡ r → Existed w t ⊎ Created w t
      read (ok seen, v) er = inl (seen, ground arith)
      read (err x, v) er = made v x er (h.create g ns obj v) refl

  create_if_not_exists-exists :
      (w t : W) (seen : Fields)
      → h.get g ns (o.get_name obj) w ≡ (ok seen, t)
      → create_if_not_exists o h g ns obj w ≡ (ok tt, t)
  unfolding create_if_not_exists
  create_if_not_exists-exists w t seen e = ground arith

  -- When no other client writes meanwhile, a second create-if-not-exists of the same object right
  -- after a successful one also succeeds and changes nothing, whether or not the first created it.
  pub create_twice :
      QuietHub o h
      → (w t : W) → create_if_not_exists o h g ns obj w ≡ (ok tt, t)
      → create_if_not_exists o h g ns obj t ≡ (ok tt, t)
  create_twice laws w t e = elim (create_if_not_exists-inv w t e) [
    | inl (seen, er) ↦
        let same : w ≡ t = sym (laws.get_reads g ns (o.get_name obj) w) ∙ ap (λ r. r.1) er in
        create_if_not_exists-exists t t seen (rw same at er)
    | inr (v, res, ec) ↦
        let (seen, er) = laws.get-create g ns obj res v t ec in
        create_if_not_exists-exists t t seen er
  ]

module _ {W : Type 0} (h : Hub W) (g : Gvr) (ns name : String) where
  delete_of_IsGone :
      (t : W) (r : Result (Unit {0}))
      → h.delete g ns name t ≡ (r, t)
      → IsGone r
      → delete_if_exists h g ns name t ≡ (ok tt, t)
  unfolding delete_if_exists
  delete_of_IsGone t (ok tt) e gone = ground arith
  delete_of_IsGone t (err x) e gone = ground arith

  -- When no other client writes meanwhile, a second delete-if-exists right after a successful one
  -- also succeeds and changes nothing, whether or not the first found something to delete.
  pub delete_twice :
      (o : Accessors)
      → QuietHub o h
      → (w t : W) → delete_if_exists h g ns name w ≡ (ok tt, t)
      → delete_if_exists h g ns name t ≡ (ok tt, t)
  unfolding delete_if_exists
  delete_twice o laws w t e = ran (h.delete g ns name w) refl
    where
      ran :
          (r : Result (Unit {0}) × W)
          → h.delete g ns name w ≡ r
          → delete_if_exists h g ns name t ≡ (ok tt, t)
      ran (ok u, v) er =
          let same : h.delete g ns name w ≡ (ok tt, t) = ground arith in
          let (still, gone) = laws.delete_again g ns name w t same in
          delete_of_IsGone t (h.delete g ns name t).0
            (ap (λ x. ((h.delete g ns name t).0, x)) still) gone
      ran (err x, v) er =
          let gone : is_not_found x ≡ true = ground arith in
          let here : v ≡ t = ground arith in
          let same : v ≡ w = laws.delete_missing g ns name x w v er gone in
          delete_of_IsGone t (err x) (rw (← here) (rw (← same) at er)) gone
