-- ===== src/Reclamation/Expiry.antt =====
-- When a time to live ends (internal/reclamation/reclamation.go).
use native.Mathlib.Decide.{dec_lt}
use acm_caas_poc.Prelude.{
  ℕ, ◌+◌, ◌-◌, ◌*◌, ◌/◌, ◌%◌, ◌≤◌, ◌<◌, String, ◌≡◌, refl, ap, ◌∙◌, ◌↔◌, some, arith, ltb, Map,
  lookup,
}
use acm_caas_poc.Prelude.Int.{pos, negsuc}
use acm_caas_poc.Prelude.Decimal.{format_int, two_64, of_word, mul_int-pos, parse_int-format_int}
use acm_caas_poc.Kube.Values.{str, object, Fields, index, str_or_empty}
use acm_caas_poc.Reclamation.{
  Rfc3339, ClusterTtl, hour, duration_of, add_duration, ttl_key, expiry_key, ttl_labels,
  with_expiry, ttl_of_labels, parse_cluster_ttl,
}

-- `time.Second`
abbrev pub second : ℕ
second = 1000000000

-- What is parsed is what was formatted, to the second.
pub record ReadsBack (clock : Rfc3339) : Type 0 where
  pub parse-format : (t : ℕ) → clock.parse (clock.format t) ≡ some (t / second * second)

-- An object whose labels hold the given ones.
pub record HasLabels (obj : Fields) (set : Map String) : Type 0 where
  pub meta : Fields
  pub labels : Fields
  pub at_metadata : index obj "metadata" ≡ object meta
  pub at_labels : index meta "labels" ≡ object labels
  pub holds : (k v : String) → lookup k set ≡ some v → index labels k ≡ str v

-- The duration before the wrap-around.
duration_word : (hours : ℕ) → hours ≤ 5124095 → duration_of (pos hours) ≡ of_word (hours * hour)
unfolding duration_of
duration_word hours h =
    let small : hours * hour % two_64 ≡ hours * hour = omega arith in
    mul_int-pos hours hour (omega arith) (omega arith) ∙ ap of_word small

pub duration-exact : (hours : ℕ) → hours ≤ 2562047 → duration_of (pos hours) ≡ pos (hours * hour)
unfolding of_word
duration-exact hours h = duration_word hours (omega arith) ∙ (ground arith)

duration-wrapped :
    (hours : ℕ)
    → 2562047 < hours
    → hours ≤ 5124095
    → duration_of (pos hours) ≡ negsuc (two_64 - hours * hour - 1)
unfolding of_word
duration-wrapped hours l h = duration_word hours h ∙ (ground arith)

-- Up to 5124095 hours, a time to live of a positive number of hours ends in the future exactly if
-- it has at most 2562047 hours: from there on the duration wraps around and the cluster is expired
-- at once.
pub ttl_in_future_iff :
    (now hours : ℕ)
    → 0 < now
    → 0 < hours
    → hours ≤ 5124095
    → (now < add_duration now (duration_of (pos hours))) ↔ (hours ≤ 2562047)
unfolding add_duration
ttl_in_future_iff now hours n p h = elim (dec_lt 2562047 hours) [
  | yes l ↦ rw (duration-wrapped hours l h) ((λ x. omega (arith, x)), (λ x. omega (arith, x)))
  | no g ↦
      rw (duration-exact hours (omega (arith, g))) ((λ x. omega (arith, g)), (λ x. omega arith))
]

-- A cluster that carries the labels that SetTTL writes at a time for 1 to 2562047 hours, if times
-- are formatted to the second, is read back with that number of hours, with the expiry date as
-- many hours later, and as expired exactly if that date is in the past.
pub parse-set_ttl :
    (clock : Rfc3339) (now later hours : ℕ) (obj : Fields)
    → ReadsBack clock
    → 0 < hours
    → hours ≤ 2562047
    → HasLabels obj (ttl_labels clock (pos hours) (add_duration now (duration_of (pos hours))))
    → let expiry = (now + hours * hour) / second * second in
      (ttl : ClusterTtl) × (parse_cluster_ttl clock obj later ≡ some ttl)
      × (ttl.ttl_hours ≡ pos hours)
      × (ttl.expiry_date ≡ expiry)
      × (ttl.expired ≡ ltb expiry later)
unfolding parse_cluster_ttl ttl_of_labels with_expiry ttl_labels add_duration lookup
parse-set_ttl clock now later hours obj laws p h has =
    let e = duration-exact hours h in
    let until : index has.labels expiry_key ≡ str (clock.format (now + hours * hour)) =
      has.holds expiry_key _ (rw e refl) in
    let held = has.holds ttl_key (format_int (pos hours)) refl in
    let expiry = (now + hours * hour) / second * second in
    let ttl : ClusterTtl = record {
      name = str_or_empty (index has.meta "name");
      ttl_hours = pos hours;
      expiry_date = expiry;
      expired = ltb expiry later;
      owner = str_or_empty (index has.labels "caas/owner");
    } in
    let labels : ttl_of_labels clock later (str_or_empty (index has.meta "name")) has.labels
        ≡ some ttl =
      rw
        (
          ttl_of_labels,
          held,
          parse_int-format_int hours (omega arith),
          with_expiry,
          until,
          laws.parse-format (now + hours * hour),
        )
        refl in
    (ttl, rw (parse_cluster_ttl, has.at_metadata, has.at_labels) labels, refl, refl, refl)
