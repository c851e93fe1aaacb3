-- ===== src/Lifecycle/Curators/RoundTrip.antt =====
-- What is read of a ClusterCurator that was built from options.
use acm_caas_poc.Prelude.{
  String, ◌≡◌, refl, sym, ap, ◌≢◌, inl, inr, Bool, true, false, not, Option, none, some, ◌==◌,
  eq_iff, eq_refl, Bool-cases, is_empty, or_else,
}
use acm_caas_poc.Prelude.Int.{is_nonpositive}
use acm_caas_poc.Kube.Values.{Value, str, object, Fields, end, field, index, maps_of}
use acm_caas_poc.Lifecycle.Curators.{
  CuratorHook, CuratorOpts, HookInfo, key_if, build_hook_spec, put_hook, build_cluster_curator,
  parse_hook_info, first_hook, hook_source, job_status, parse_curator_info,
}

-- What is shown of a hook.
abbrev pub shown : Option CuratorHook → Option HookInfo
shown none = none
shown (some hook) = some (record { name = hook.name; type = hook.type; status = "" })

index-key_if :
    (b : Bool) (k j : String) (v : Value) (m : Fields)
    → (k == j) ≡ false
    → index (key_if b k v m) j ≡ index m j
unfolding index
index-key_if true k j v m e = rw e refl
index-key_if false k j v m e = refl

parse-build_hook_spec :
    (hook : CuratorHook)
    → parse_hook_info (build_hook_spec hook)
      ≡ record { name = hook.name; type = hook.type; status = "" }
unfolding parse_hook_info build_hook_spec index
parse-build_hook_spec hook = elim (Bool-cases (hook.type == "")) [
  | inl e ↦
      let same : "" ≡ hook.type = sym ((eq_iff hook.type "").0 e) in
      rw
        (
          e,
          index-key_if (not (hook.image == "")) "extra_vars" "type" _ _ refl,
          index-key_if (not (is_empty hook.commands)) "commands" "type" _ _ refl,
          index-key_if (not (is_nonpositive hook.job_ttl)) "job_ttl" "type" _ _ refl,
        )
        (ap (λ t. record { name = hook.name; type = t; status = "" }) same)
  | inr e ↦ rw e refl
]

hook_source-operation :
    (operation : String) (m : Fields)
    → (operation == "desiredCuration") ≡ false
    → (operation == "") ≡ false
    → hook_source (field operation (object m) (field "desiredCuration" (str operation) end)) ≡ m
unfolding hook_source index
hook_source-operation operation m d e = rw (d, e, eq_refl operation) refl

first_hook-put_hook :
    (pre post : Option CuratorHook)
    → let m = put_hook "prehook" pre (put_hook "posthook" post end) in
      (first_hook (index m "prehook") ≡ shown pre) × (first_hook (index m "posthook") ≡ shown post)
unfolding first_hook put_hook index
first_hook-put_hook none none = (refl, refl)
first_hook-put_hook none (some b) = (refl, ap some (parse-build_hook_spec b))
first_hook-put_hook (some a) none = (ap some (parse-build_hook_spec a), refl)
first_hook-put_hook (some a) (some b) =
    (ap some (parse-build_hook_spec a), ap some (parse-build_hook_spec b))

ne_test : (a b : String) → a ≢ b → (a == b) ≡ false
ne_test a b other = elim (Bool-cases (a == b)) [
  | inl e ↦ absurd (other ((eq_iff a b).0 e))
  | inr e ↦ e
]

operation-tests :
    (operation : String)
    → operation ≢ "desiredCuration"
    → ((or_else operation "install" == "desiredCuration") ≡ false)
      × ((or_else operation "install" == "") ≡ false)
operation-tests operation other = elim (Bool-cases (operation == "")) [
  | inl e ↦ rw e (refl, refl)
  | inr e ↦ rw e (ne_test operation "desiredCuration" other, e)
]

-- A ClusterCurator that was built from options is read back with their cluster, with their
-- namespace or else the name of the cluster, with the name and the type of either hook, and as
-- `Pending`, unless the operation is called `desiredCuration`.
pub parse-build_cluster_curator :
    (opts : CuratorOpts)
    → opts.operation ≢ "desiredCuration"
    → parse_curator_info (build_cluster_curator opts) ≡ record {
      name = opts.cluster;
      namespace = or_else opts.namespace opts.cluster;
      pre_hook = shown opts.pre_hook;
      post_hook = shown opts.post_hook;
      status = "Pending";
    }
unfolding parse_curator_info build_cluster_curator index hook_source job_status maps_of
parse-build_cluster_curator opts other =
    let tests = operation-tests opts.operation other in
    let hooks = first_hook-put_hook opts.pre_hook opts.post_hook in
    rw
      (
        parse_curator_info,
        hook_source-operation (or_else opts.operation "install") _ tests.0 tests.1,
        hooks.0,
        hooks.1,
      )
      refl
