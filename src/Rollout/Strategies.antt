-- ===== src/Rollout/Strategies.antt =====
-- The strategy of a rollout, written by `UpdateStrategy` and read back by `Get`.
use acm_caas_poc.Prelude.{
  String, ◌≡◌, refl, ◌∙◌, Bool, true, false, Option, none, some, List, [], ◌∷◌, arith, ◌==◌, eqb,
  if◌then◌else◌, concat,
}
use acm_caas_poc.Prelude.Int.{pos}
use acm_caas_poc.Kube.Errors.{text, wrapped, Result, ok, err, map_err}
use acm_caas_poc.Kube.Values.{
  object, slice, Fields, Items, no_items, item, index, assign, map_at_key, len_items,
}
use acm_caas_poc.Kube.Objects.{found_or, Accessors}
use acm_caas_poc.Kube.Hub.{Hub, pure, lift, resume, ◌>>=◌}
use acm_caas_poc.Client.Resources.{manifest_work_replica_set}
use acm_caas_poc.Client.Laws.{NamesInMetadata, StoresUpdates}
use acm_caas_poc.Kube.Assigning.{index-assign}
use acm_caas_poc.Rollout.{
  RolloutOpts, StrategyOpts, RolloutInfo, or_default, build_rollout_strategy,
  build_manifest_work_replica_set, strategy_of_refs, strategy_of, parse_rollout_info, with_strategy,
  restrategized, get_rollout, update_strategy,
}

-- `SetNestedSlice` at the placement references: it leaves the list at its place in the spec,
-- and the metadata as they were.
pub record SetsRefs (set_nested_slice : Fields → Items → List String → Result Fields) : Type 0 where
  pub refs_at_place :
      (obj obj' : Fields) (refs : Items)
      → set_nested_slice obj refs ("spec" ∷ "placementRefs" ∷ []) ≡ ok obj'
      → (spec : Fields) × (index obj' "spec" ≡ object spec)
        × (index spec "placementRefs" ≡ slice refs)
  pub metadata_kept :
      (obj obj' : Fields) (refs : Items)
      → set_nested_slice obj refs ("spec" ∷ "placementRefs" ∷ []) ≡ ok obj'
      → index obj' "metadata" ≡ index obj "metadata"

-- The strategy that is in force where one is asked for.
abbrev pub strategy_or_all : String → String
strategy_or_all asked = if asked == "" then "All" else asked

-- x
pub strategy_of-build :
    (opts : RolloutOpts) (name : String)
    → parse_rollout_info name (build_manifest_work_replica_set opts) ≡ record {
      name = name;
      namespace = opts.namespace;
      strategy = strategy_or_all opts.strategy;
      applied = pos 0;
      total = pos 0;
      failed = pos 0;
      status = "Pending";
    }
unfolding parse_rollout_info build_manifest_work_replica_set strategy_of strategy_of_refs
    build_rollout_strategy index
strategy_of-build opts name = refl

strategy_of-with_strategy :
    (strategy : StrategyOpts) (refs changed : Items)
    → with_strategy strategy refs ≡ some changed
    → strategy_of_refs (slice changed) ≡ strategy_or_all strategy.type
unfolding with_strategy strategy_of_refs build_rollout_strategy index
strategy_of-with_strategy strategy (item (object ref) rest) changed e =
    let new_ref =
      assign "rolloutStrategy"
        (object (
          build_rollout_strategy strategy.type strategy.max_concurrency strategy.max_failures
            strategy.progress_deadline))
        ref in
    let same : item (object new_ref) rest ≡ changed = ground arith in
    rw (← same, index-assign "rolloutStrategy" _ ref) refl
strategy_of-with_strategy strategy _ changed e = ground arith

module _ (o : Accessors) (set_nested_slice : Fields → Items → List String → Result Fields)
    (laws : SetsRefs set_nested_slice) (name : String) (strategy : StrategyOpts)
    (obj obj' : Fields) where
  abbrev pub HasStrategy : Type 0
  HasStrategy =
      (strategy_of obj' ≡ strategy_or_all strategy.type)
      × (index obj' "metadata" ≡ index obj "metadata")

  strategy_of-set :
      (changed : Items)
      → strategy_of_refs (slice changed) ≡ strategy_or_all strategy.type
      → (r : Result Fields) → set_nested_slice obj changed ("spec" ∷ "placementRefs" ∷ []) ≡ r
      → map_err (wrapped "setting placementRefs") r ≡ ok obj'
      → HasStrategy
  unfolding strategy_of
  strategy_of-set changed has (ok obj1) e same =
      let kept : obj1 ≡ obj' = ground arith in
      let (spec, at_spec, at_refs) = laws.refs_at_place obj obj' changed (rw kept at e) in
      (rw (strategy_of, at_spec, at_refs) has, laws.metadata_kept obj obj' changed (rw kept at e))
  strategy_of-set changed has (err x) e same = ground arith

  strategy_of-restrategized :
      restrategized o set_nested_slice name strategy obj ≡ ok obj' → HasStrategy
  unfolding restrategized
  strategy_of-restrategized e = go (eqb (len_items refs) 0) (with_strategy strategy refs) refl e
    where
      refs : Items
      refs = found_or no_items (o.nested_slice obj ("spec" ∷ "placementRefs" ∷ []))

      go :
          (b : Bool) (m : Option Items)
          → with_strategy strategy refs ≡ m
          → (if b
              then err
                  (text (concat ("ManifestWorkReplicaSet " ∷ name ∷ " has no placementRefs" ∷ [])))
              else elim m [
                | none ↦
                    err (
                      text (concat ("invalid placementRef in ManifestWorkReplicaSet " ∷ name ∷ [])))
                | some changed ↦
                    map_err
                      (wrapped "setting placementRefs")
                      (set_nested_slice obj changed ("spec" ∷ "placementRefs" ∷ []))
              ])
            ≡ ok obj'
          → HasStrategy
      go true m same er = ground arith
      go false none same er = ground arith
      go false (some changed) same er =
          strategy_of-set changed (strategy_of-with_strategy strategy refs changed same) _ refl er

-- The strategy is read from the spec alone.
same_spec_strategy :
    (a b : Fields) → index a "spec" ≡ index b "spec" → strategy_of a ≡ strategy_of b
unfolding strategy_of
same_spec_strategy a b e = rw (strategy_of, e) refl

strategy-parse_rollout_info :
    (name : String) (obj : Fields) → (parse_rollout_info name obj).strategy ≡ strategy_of obj
unfolding parse_rollout_info
strategy-parse_rollout_info name obj = go (map_at_key obj "status") refl
  where
    go :
        (st : Option Fields)
        → map_at_key obj "status" ≡ st
        → (parse_rollout_info name obj).strategy ≡ strategy_of obj
    go none e = rw (parse_rollout_info, e) refl
    go (some st) e = rw (parse_rollout_info, e) refl

module _ {W : Type 0} (o : Accessors)
    (set_nested_slice : Fields → Items → List String → Result Fields) (h : Hub W)
    (laws : SetsRefs set_nested_slice) (names : NamesInMetadata o)
    (stores : StoresUpdates o h manifest_work_replica_set) where
  -- When no other client writes meanwhile, Get after a successful UpdateStrategy succeeds and
  -- shows the strategy that was asked for, or `All` if none was named.
  pub get-update_strategy :
      (name ns : String) (strategy : StrategyOpts) (w t : W)
      → update_strategy o set_nested_slice h name ns strategy w ≡ (ok tt, t)
      → (info : RolloutInfo) × ((get_rollout o set_nested_slice h name ns t).0 ≡ ok info)
        × (info.strategy ≡ strategy_or_all strategy.type)
  unfolding update_strategy get_rollout
  get-update_strategy name ns strategy w t e =
      read (h.get manifest_work_replica_set (or_default ns) name w) refl e
    where
      Reads : Type 0
      Reads =
          (info : RolloutInfo) × ((get_rollout o set_nested_slice h name ns t).0 ≡ ok info)
          × (info.strategy ≡ strategy_or_all strategy.type)

      stored :
          (obj' : Fields) (v : W)
          → strategy_of obj' ≡ strategy_or_all strategy.type
          → o.get_name obj' ≡ name
          → (r : Result Fields × W) → h.update manifest_work_replica_set (or_default ns) obj' v ≡ r
          → resume r.0 (λ _. pure tt) r.1 ≡ (ok tt, t)
          → Reads
      stored obj' v has named (ok res, t1) eu q =
          let same : t1 ≡ t = ground arith in
          let (seen, got, fields) =
            stores.get-update (or_default ns) obj' res v t (rw same at eu) in
          (
            parse_rollout_info name seen,
            rw (get_rollout, rw named at got) refl,
            strategy-parse_rollout_info name seen
                ∙ same_spec_strategy seen obj' (fields "spec" refl refl)
                ∙ has,
          )
      stored obj' v has named (err x, t1) eu q = ground arith

      sent :
          (obj : Fields) (v : W)
          → o.get_name obj ≡ name
          → (r : Result Fields) → restrategized o set_nested_slice name strategy obj ≡ r
          → resume r
              (λ obj'. h.update manifest_work_replica_set (or_default ns) obj' >>= λ _. pure tt)
              v
            ≡ (ok tt, t)
          → Reads
      sent obj v named (ok obj') er q =
          let (has, kept) =
            strategy_of-restrategized o set_nested_slice laws name strategy obj obj' er in
          stored obj' v has (names.same_name obj' obj kept ∙ named)
            (h.update manifest_work_replica_set (or_default ns) obj' v) refl q
      sent obj v named (err x) er q = ground arith

      read :
          (r : Result Fields × W)
          → h.get manifest_work_replica_set (or_default ns) name w ≡ r
          → resume
              (map_err (wrapped (concat ("getting ManifestWorkReplicaSet " ∷ name ∷ []))) r.0)
              (λ obj. lift (restrategized o set_nested_slice name strategy obj) >>= λ obj'.
                h.update manifest_work_replica_set (or_default ns) obj' >>= λ _. pure tt)
              r.1
            ≡ (ok tt, t)
          → Reads
      read (ok obj, v) er q =
          sent obj v (stores.reads_named (or_default ns) name obj w v er) _ refl q
      read (err x, v) er q = ground arith
