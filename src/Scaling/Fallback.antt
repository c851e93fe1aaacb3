-- ===== src/Scaling/Fallback.antt =====
-- What an answer of `SetReplicasAuto` of internal/scaling/scaling.go tells.
use acm_caas_poc.Prelude.{String, ◌≡◌, refl, some, [], ◌∷◌, arith, concat}
use acm_caas_poc.Prelude.Int.{ℤ}
use acm_caas_poc.Kube.Errors.{Error, wrapped, Result, ok, err, map_err}
use acm_caas_poc.Kube.Values.{nil, int, object, Fields, index, has_key, walk, fields_of, map_of}
use acm_caas_poc.Kube.Objects.{Accessors}
use acm_caas_poc.Kube.Hub.{Gvr, Run, Hub, pure, context, resume, ◌>>=◌}
use acm_caas_poc.Client.Resources.{machine_pool, node_pool, capi_machine_deployment}
use acm_caas_poc.Scaling.{
  NoMachinePool, Outcome, done, no_pool, failed, call, and_then, MachinePoolInfo,
}
use acm_caas_poc.Scaling.Pools.{get_machine_pool, set_replicas}
use acm_caas_poc.Scaling.Nodes.{
  NodePoolInfo, MachineDeploymentInfo, get_node_pool, get_machine_deployment,
  set_node_pool_replicas, set_machine_deployment_replicas, or_other_pools, set_replicas_auto,
}

module _ {W : Type 0} (o : Accessors) (h : Hub W) (cluster : String) (replicas : ℤ) where
  -- The last request was a merge patch that asks for the replicas, and the server accepted it.
  pub record Scaled (t : W) : Type 0 where
    pub kind : Gvr
    pub namespace : String
    pub name : String
    pub data' : Fields
    pub asks : walk (object data') ("spec" ∷ "replicas" ∷ []) ≡ some (int replicas)
    pub before : W
    pub stored : Fields
    pub accepted : h.patch kind namespace name data' before ≡ (ok stored, t)

  -- An answer, and why it is given.
  pub data Verdict (w : W) : Outcome (Unit {0}) × W → Type 0 where
    scaled : (t : W) → Scaled t → Verdict w (done tt, t)
    -- nothing was tried after the machine pool
    refused :
        (e : Error) (t : W)
        → set_replicas o h cluster replicas w ≡ (failed e, t)
        → Verdict w (failed e, t)
    -- all three kinds of pools were tried
    none_left :
        (missing' : NoMachinePool) (x y : Error) (w1 w2 t : W)
        → set_replicas o h cluster replicas w ≡ (no_pool missing', w1)
        → set_node_pool_replicas o h cluster replicas w1 ≡ (err x, w2)
        → set_machine_deployment_replicas o h cluster replicas w2 ≡ (err y, t)
        → Verdict w (no_pool missing', t)

  patched-Scaled :
      (g : Gvr) (ns name prefix : String) (data' : Fields)
      → walk (object data') ("spec" ∷ "replicas" ∷ []) ≡ some (int replicas)
      → (v t : W) (r : Result Fields × W) → h.patch g ns name data' v ≡ r
      → resume (map_err (wrapped prefix) r.0) (λ _. pure tt) r.1 ≡ (ok tt, t)
      → Scaled t
  patched-Scaled g ns name prefix data' asks v t (err x, t1) ep q = ground arith
  patched-Scaled g ns name prefix data' asks v t (ok res, t1) ep q =
      let same : t1 ≡ t = ground arith in
      record {
        kind = g;
        namespace = ns;
        name = name;
        data' = data';
        asks = asks;
        before = v;
        stored = res;
        accepted = rw same at ep;
      }

  by_node_pool-Scaled :
      (w t : W) → set_node_pool_replicas o h cluster replicas w ≡ (ok tt, t) → Scaled t
  unfolding set_node_pool_replicas walk has_key index
  by_node_pool-Scaled w t e = go (get_node_pool o h cluster w) refl
    where
      go : (r : Result NodePoolInfo × W) → get_node_pool o h cluster w ≡ r → Scaled t
      go (err x, v) er = let q = rw er at e in ground arith
      go (ok np, v) er =
          patched-Scaled node_pool np.namespace np.name _ _ refl v t _ refl (rw er at e)

  by_deployment-Scaled :
      (w t : W) → set_machine_deployment_replicas o h cluster replicas w ≡ (ok tt, t) → Scaled t
  unfolding set_machine_deployment_replicas walk has_key index
  by_deployment-Scaled w t e = go (get_machine_deployment o h cluster w) refl
    where
      go :
          (r : Result MachineDeploymentInfo × W)
          → get_machine_deployment o h cluster w ≡ r
          → Scaled t
      go (err x, v) er = let q = rw er at e in ground arith
      go (ok md, v) er =
          patched-Scaled capi_machine_deployment md.namespace md.name _ _ refl v t _ refl
            (rw er at e)

  done_call : (m : Run W (Unit {0})) (v t : W) → call m v ≡ (done tt, t) → m v ≡ (ok tt, t)
  done_call m v t e = go (m v) refl
    where
      go : (r : Result (Unit {0}) × W) → m v ≡ r → m v ≡ (ok tt, t)
      go (ok _, v1) er = let q = rw er at e in ground arith
      go (err x, v1) er = let q = rw er at e in ground arith

  pool_patched-Scaled :
      (ns name prefix : String) (data' : Fields)
      → walk (object data') ("spec" ∷ "replicas" ∷ []) ≡ some (int replicas)
      → (v t : W)
      → call (context prefix (h.patch machine_pool ns name data') >>= λ _. pure tt) v ≡ (done tt, t)
      → Scaled t
  pool_patched-Scaled ns name prefix data' asks v t e =
      patched-Scaled machine_pool ns name prefix data' asks v t
        (h.patch machine_pool ns name data' v) refl
        (done_call (context prefix (h.patch machine_pool ns name data') >>= λ _. pure tt) v t e)

  by_pool-Scaled : (w t : W) → set_replicas o h cluster replicas w ≡ (done tt, t) → Scaled t
  unfolding set_replicas walk has_key index
  by_pool-Scaled w t e = go (get_machine_pool o h cluster w) refl
    where
      go : (r : Outcome MachinePoolInfo × W) → get_machine_pool o h cluster w ≡ r → Scaled t
      go (no_pool x, v) er = let q = rw (set_replicas, and_then, er) at e in ground arith
      go (failed x, v) er = let q = rw (set_replicas, and_then, er) at e in ground arith
      go (done mp, v) er =
          pool_patched-Scaled mp.namespace mp.name
            (concat ("patching MachinePool " ∷ mp.namespace ∷ "/" ∷ mp.name ∷ " replicas" ∷ []))
            (fields_of
              (("spec", map_of (("replicas", int replicas) ∷ ("autoscaling", nil) ∷ [])) ∷ []))
            refl v t (rw (set_replicas, and_then, er, er) at e)

  or_other_pools-Verdict :
      (w : W) (r : Outcome (Unit {0}) × W)
      → set_replicas o h cluster replicas w ≡ r
      → Verdict w (or_other_pools o h cluster replicas r)
  unfolding or_other_pools
  or_other_pools-Verdict w (done _, w1) e = scaled w1 (by_pool-Scaled w w1 e)
  or_other_pools-Verdict w (failed x, w1) e = refused x w1 e
  or_other_pools-Verdict w (no_pool x, w1) e =
      by_node_pool (set_node_pool_replicas o h cluster replicas w1) refl
    where
      by_deployment :
          (y : Error) (w2 : W)
          → set_node_pool_replicas o h cluster replicas w1 ≡ (err y, w2)
          → (r : Result (Unit {0}) × W)
          → set_machine_deployment_replicas o h cluster replicas w2 ≡ r
          → Verdict w (or_other_pools o h cluster replicas (no_pool x, w1))
      by_deployment y w2 en (ok _, t) ed =
          rw (or_other_pools, en, en, ed) (scaled t (by_deployment-Scaled w2 t ed))
      by_deployment y w2 en (err z, t) ed =
          rw (or_other_pools, en, en, ed) (none_left x y z w1 w2 t e en ed)

      by_node_pool :
          (r : Result (Unit {0}) × W)
          → set_node_pool_replicas o h cluster replicas w1 ≡ r
          → Verdict w (or_other_pools o h cluster replicas (no_pool x, w1))
      by_node_pool (ok _, t) en =
          rw (or_other_pools, en, en) (scaled t (by_node_pool-Scaled w1 t en))
      by_node_pool (err y, w2) en =
          by_deployment y w2 en (set_machine_deployment_replicas o h cluster replicas w2) refl

  -- Whatever the server answers, SetReplicasAuto succeeds only right after the server has accepted
  -- a patch that asks for the replicas, fails with an error other than a missing machine pool only
  -- as the attempt on the machine pool did and without any further attempt, and reports a missing
  -- machine pool only after the attempts on a node pool and on a MachineDeployment have failed
  -- too.
  pub set_replicas_auto-Verdict : (w : W) → Verdict w (set_replicas_auto o h cluster replicas w)
  unfolding set_replicas_auto
  set_replicas_auto-Verdict w = or_other_pools-Verdict w (set_replicas o h cluster replicas w) refl
