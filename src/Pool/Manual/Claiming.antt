-- ===== src/Pool/Manual/Claiming.antt =====
-- Who gets a cluster of a manual pool (internal/pool/manual.go).
use acm_caas_poc.Prelude.{
  String, ◌≡◌, refl, sym, subst, inl, inr, Bool, true, false, ◌||◌, not, Option, some, List, [],
  ◌∷◌, arith, Bool-cases,
}
use acm_caas_poc.Kube.Errors.{Error, Result, ok, err}
use acm_caas_poc.Kube.Values.{str, object, Fields, walk}
use acm_caas_poc.Kube.Objects.{Accessors}
use acm_caas_poc.Kube.Hub.{Hub}
use acm_caas_poc.Client.Resources.{cluster_deployment}
use acm_caas_poc.Pool.Manual.{
  ClaimInfo, is_claimed, is_hibernating, Claim, resumed, succeeded, try_atomic_claim, won,
  claim_patched, claim_read, claim_from,
}

-- The data of a merge patch names a version.
abbrev pub Names : String → Fields → Type 0
Names v data' = walk (object data') ("metadata" ∷ "resourceVersion" ∷ []) ≡ some (str v)

-- What the claim relies on: the server refuses a patch whose `metadata.resourceVersion` is not the
-- stored one, and never gives a version again. `Spent name v w` says that the cluster has left
-- version `v` in the world `w`, and `Later w w'` that `w'` may follow `w`. Nothing is known of a
-- patch that names no version.
pub record Versioned {W : Type 0} (h : Hub W) (Spent : String → String → W → Type 0)
    (Later : W → W → Type 0) : Type 0 where
  pub refuses_spent :
      (name v : String) (data' : Fields) (w : W)
      → Names v data'
      → Spent name v w
      → succeeded (h.patch cluster_deployment name name data' w).0 ≡ false
  pub spends :
      (name v : String) (data' : Fields) (w : W)
      → Names v data'
      → succeeded (h.patch cluster_deployment name name data' w).0 ≡ true
      → Spent name v (h.patch cluster_deployment name name data' w).1
  pub stays_spent : (name v : String) (w t : W) → Later w t → Spent name v w → Spent name v t

-- One of the names.
pub data Among (name : String) : List String → Type 0 where
  head : {rest : List String} → Among name (name ∷ rest)
  tail : {other : String} {rest : List String} → Among name rest → Among name (other ∷ rest)

module _ {W : Type 0} (o : Accessors) (h : Hub W) where
  -- `name` was read unclaimed and hibernating, and the patch by the version that was read succeeded.
  pub record Won (name : String) : Type 0 where
    pub before : W
    pub cd : Fields
    pub read : W
    pub seen : h.get cluster_deployment name name before ≡ (ok cd, read)
    pub free : is_claimed o cd ≡ false
    pub asleep : is_hibernating o cd ≡ true
    pub patched : (try_atomic_claim o h name (o.get_resource_version cd) read).0 ≡ true

  module _ (replenish : String → W → W) (pool claim : String) where
    resumed-cluster :
        (name : String) (r : Result (Unit {0})) (info : ClaimInfo) (e : Option Error)
        → resumed pool claim name r ≡ (some info, e)
        → info.cluster ≡ name
    unfolding resumed
    resumed-cluster name (ok _) info e eq = ground arith
    resumed-cluster name (err _) info e eq = ground arith

    -- One cluster of the loop, with what is known when the cluster was read.
    module _ (name : String) (later : W → Claim × W) (info : ClaimInfo) (e : Option Error) where
      data Outcome : Type 0 where
        mine : info.cluster ≡ name → Won name → Outcome
        passed : (t : W) → (later t).0 ≡ (some info, e) → Outcome

      claim_patched-Outcome :
          (b : Bool) (w : W)
          → (b ≡ true → Won name)
          → (claim_patched o h replenish pool claim name later b w).0 ≡ (some info, e)
          → Outcome
      unfolding claim_patched won
      claim_patched-Outcome true w proof eq = mine (resumed-cluster name _ info e eq) (proof refl)
      claim_patched-Outcome false w proof eq = passed w eq

      claim_read-Outcome :
          (r : Result Fields) (before w : W)
          → h.get cluster_deployment name name before ≡ (r, w)
          → (claim_read o h replenish pool claim name later r w).0 ≡ (some info, e)
          → Outcome
      unfolding claim_read
      claim_read-Outcome (err _) before w seen eq = passed w eq
      claim_read-Outcome (ok cd) before w seen eq =
          elim (Bool-cases (is_claimed o cd || not (is_hibernating o cd))) [
            | inl skipped ↦ let done = rw (claim_read, skipped) at eq in passed w done
            | inr taken ↦
                let done = rw (claim_read, taken) at eq in
                claim_patched-Outcome _ _
                  (λ won. record {
                    before = before;
                    cd = cd;
                    read = w;
                    seen = seen;
                    free = ground (arith, taken);
                    asleep = ground (arith, taken);
                    patched = won;
                  })
                  done
          ]

    -- A claim that returns a cluster, with an error or without one, returns one of the names that
    -- the loop was given, which was read as unclaimed and hibernating and was then claimed by a
    -- successful patch on exactly the version that was read.
    pub claim_from-Won :
        (names : List String) (w : W) (info : ClaimInfo) (e : Option Error)
        → (claim_from o h replenish pool claim names w).0 ≡ (some info, e)
        → Among info.cluster names × Won info.cluster
    unfolding claim_from
    claim_from-Won [] w info e eq = ground arith
    claim_from-Won (name ∷ rest) w info e eq =
        let found =
          claim_read-Outcome name (claim_from o h replenish pool claim rest) info e
            (h.get cluster_deployment name name w).0 w (h.get cluster_deployment name name w).1 refl
            eq in
        elim found [
          | mine same proof ↦ subst (λ n. Among n (name ∷ rest) × Won n) (sym same) (head, proof)
          | passed t eq ↦
              let (among, proof) = claim_from-Won rest t info e eq in (tail among, proof)
        ]
