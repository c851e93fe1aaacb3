-- ===== src/Reclamation.antt =====
-- internal/reclamation/reclamation.go: the time to live of clusters, and their reclamation. A time
-- is a number of nanoseconds from the zero time of Go; `now` is one reading of the clock.
pub mod Expiry
pub mod Reclaiming
use acm_caas_poc.Prelude.{
  ℕ, suc, ◌+◌, ◌-◌, String, Bool, true, false, Option, none, some, List, [], ◌∷◌, ◌==◌, ltb, eqb,
  if◌then◌else◌, concat, Map, lookup,
}
use acm_caas_poc.Prelude.Int.{ℤ, pos, negsuc, is_nonpositive}
use acm_caas_poc.Prelude.Decimal.{format_int, parsed, syntax_error, range_error, parse_int, mul_int}
use acm_caas_poc.Kube.Errors.{Error, text, wrapped, is_not_found, ok, err, error_text}
use acm_caas_poc.Kube.Values.{
  str, object, Fields, index, as_map, map_or_nil, str_or_empty, as_str, texts, fields_of, map_of,
}
use acm_caas_poc.Kube.Objects.{Accessors}
use acm_caas_poc.Kube.Hub.{Run, Hub, pure, raise, context, ◌>>=◌}
use acm_caas_poc.Client.Resources.{cluster_deployment, managed_cluster}
use acm_caas_poc.Lifecycle.Power.{hibernate}

-- `Format` and `time.Parse` at the layout RFC 3339.
pub record Rfc3339 : Type 0 where
  pub format : ℕ → String
  pub parse : String → Option ℕ

pub record ClusterTtl : Type 0 where
  pub name : String
  pub ttl_hours : ℤ
  pub expiry_date : ℕ
  pub expired : Bool
  pub owner : String

pub record ReclaimResult : Type 0 where
  pub cluster : String
  pub action : String
  pub error : String

-- `time.Hour`
abbrev pub hour : ℕ
hour = 3600000000000

-- `time.Duration(hours) * time.Hour`
unfoldable pub duration_of : ℤ → ℤ
duration_of hours = mul_int hours (pos hour)

-- `t.Add(d)`
unfoldable pub add_duration : ℕ → ℤ → ℕ
add_duration t (pos d) = t + d
add_duration t (negsuc d) = t - suc d

abbrev pub ttl_key : String
ttl_key = "caas/ttl-hours"

abbrev pub expiry_key : String
expiry_key = "caas/expiry-date"

module _ (clock : Rfc3339) where
  -- The labels of `buildTTLLabelPatch`.
  unfoldable pub ttl_labels : ℤ → ℕ → Map String
  ttl_labels hours expiry = (ttl_key, format_int hours) ∷ (expiry_key, clock.format expiry) ∷ []

  unfoldable pub build_ttl_label_patch : ℤ → ℕ → Fields
  unfolding ttl_labels
  build_ttl_label_patch hours expiry =
      fields_of
        (("metadata", map_of (("labels", object (texts (ttl_labels hours expiry))) ∷ [])) ∷ [])

  unfoldable pub build_extend_patch : ℕ → String → Fields
  build_extend_patch expiry justification = fields_of (
      (
        "metadata",
        map_of (
            ("labels", map_of ((expiry_key, str (clock.format expiry)) ∷ []))
            ∷ ("annotations", map_of (("caas/extend-justification", str justification) ∷ []))
            ∷ []),
      )
      ∷ [])

  -- The zero time where the label is missing or does not parse.
  unfoldable pub parse_expiry_from_labels : Map String → ℕ
  parse_expiry_from_labels labels = elim (lookup expiry_key labels) [
    | none ↦ 0
    | some s ↦ elim (clock.parse s) [ none ↦ 0 | some t ↦ t ]
  ]

  -- The end of `parseClusterTTL`, which reads the expiry date if there is one that parses.
  unfoldable pub with_expiry : ℕ → Option String → ClusterTtl → ClusterTtl
  with_expiry now none ttl = ttl
  with_expiry now (some s) ttl = elim (clock.parse s) [
    | none ↦ ttl
    | some expiry ↦ record ttl { expiry_date = expiry; expired = ltb expiry now }
  ]

  -- `parseClusterTTL` at the labels.
  unfoldable pub ttl_of_labels : ℕ → String → Fields → Option ClusterTtl
  ttl_of_labels now name labels = elim (as_str (index labels ttl_key)) [
    | none ↦ none
    | some s ↦ elim (parse_int s) [
      | syntax_error ↦ none
      | range_error _ ↦ none
      | parsed hours ↦ some (
          with_expiry now (as_str (index labels expiry_key)) (record {
            name = name;
            ttl_hours = hours;
            expiry_date = 0;
            expired = false;
            owner = str_or_empty (index labels "caas/owner");
          }))
    ]
  ]

  unfoldable pub parse_cluster_ttl : Fields → ℕ → Option ClusterTtl
  parse_cluster_ttl obj now = elim (as_map (index obj "metadata")) [
    | none ↦ none
    | some meta ↦
        ttl_of_labels now (str_or_empty (index meta "name")) (map_or_nil (index meta "labels"))
  ]

  -- The loop of `ListTTLs`.
  unfoldable pub ttls_of : ℕ → List Fields → List ClusterTtl
  ttls_of now [] = []
  ttls_of now (obj ∷ rest) =
      let later = ttls_of now rest in
      elim (parse_cluster_ttl obj now) [ none ↦ later | some ttl ↦ ttl ∷ later ]

unfoldable pub filter_expired : List ClusterTtl → List ClusterTtl
filter_expired [] = []
filter_expired (ttl ∷ rest) =
    let later = filter_expired rest in if ttl.expired then ttl ∷ later else later

module _ {W : Type 0} (o : Accessors) (h : Hub W) (clock : Rfc3339) where
  unfoldable pub set_ttl : ℕ → String → ℤ → Run W (Unit {0})
  set_ttl now cluster hours =
      if is_nonpositive hours
      then raise (text (concat ("TTL must be positive, got " ∷ format_int hours ∷ [])))
      else context (concat ("patching ManagedCluster " ∷ cluster ∷ " TTL labels" ∷ [])) (
          h.patch managed_cluster "" cluster
            (build_ttl_label_patch clock hours (add_duration now (duration_of hours))))
        >>= λ _. pure tt

  unfoldable pub list_ttls : ℕ → Run W (List ClusterTtl)
  list_ttls now = do
    items ← context "listing ManagedClusters" (h.list managed_cluster "" "")
    pure (ttls_of clock now items)

  unfoldable pub check_expired : ℕ → Run W (List ClusterTtl)
  check_expired now = list_ttls now >>= λ all. pure (filter_expired all)

  unfoldable pub extend_ttl : String → ℤ → String → Run W (Unit {0})
  extend_ttl cluster hours justification =
      if is_nonpositive hours
      then raise (text (concat ("extension hours must be positive, got " ∷ format_int hours ∷ [])))
      else if justification == ""
      then raise (text "justification is required for TTL extension")
      else context (concat ("getting ManagedCluster " ∷ cluster ∷ []))
          (h.get managed_cluster "" cluster)
        >>= λ mc. extend_from mc
    where
      extend_from : Fields → Run W (Unit {0})
      extend_from mc =
          let current = parse_expiry_from_labels clock (o.get_labels mc) in
          if eqb current 0
          then raise (text (concat ("cluster " ∷ cluster ∷ " has no TTL set" ∷ [])))
          else context (concat ("patching ManagedCluster " ∷ cluster ∷ " extension" ∷ [])) (
              h.patch managed_cluster "" cluster
                (build_extend_patch clock (add_duration current (duration_of hours)) justification))
            >>= λ _. pure tt

-- The results of `ReclaimCluster`, which may come with an error.
abbrev pub done_as : String → String → Option ReclaimResult × Option Error
done_as cluster action = (some (record { cluster = cluster; action = action; error = "" }), none)

abbrev pub failed_as : String → String → String → Error → Option ReclaimResult × Option Error
failed_as cluster action prefix e = (
  some (record { cluster = cluster; action = action; error = error_text e }),
  some (wrapped (concat (prefix ∷ " cluster " ∷ cluster ∷ [])) e),
)

module _ {W : Type 0} (o : Accessors) (h : Hub W) where
  unfoldable pub reclaim_cluster : String → W → (Option ReclaimResult × Option Error) × W
  reclaim_cluster cluster w =
      let (r, w1) = h.get cluster_deployment cluster cluster w in
      elim r [
        | ok _ ↦
            let (done, w2) = hibernate o h cluster cluster w1 in
            (
              elim done [
                | ok _ ↦ done_as cluster "hibernated"
                | err e ↦ failed_as cluster "hibernate-failed" "hibernating" e
              ],
              w2,
            )
        | err e ↦ elim (is_not_found e) [
          | false ↦
              ((none, some (wrapped (concat ("checking ClusterDeployment " ∷ cluster ∷ [])) e)), w1)
          | true ↦
              let (done, w2) = h.delete managed_cluster "" cluster w1 in
              (
                elim done [
                  | ok _ ↦ done_as cluster "detached"
                  | err d ↦ failed_as cluster "detach-failed" "detaching" d
                ],
                w2,
              )
        ]
      ]
