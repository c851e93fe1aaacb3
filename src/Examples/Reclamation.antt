-- ===== src/Examples/Reclamation.antt =====
-- internal/reclamation/reclamation.go with a clock that tallies seconds, and at a server that holds
-- one object.
use acm_caas_poc.Prelude.{
  ℕ, zero, suc, ◌+◌, ◌*◌, ◌/◌, ◌≤◌, ◌<◌, String, ◌≡◌, refl, ap, ◌↔◌, inl, inr, some, [], ◌∷◌, arith,
  ◌==◌, ltb, Bool-cases, lookup,
}
use acm_caas_poc.Prelude.Int.{pos}
use acm_caas_poc.Prelude.Decimal.{format_int}
use acm_caas_poc.Kube.Errors.{ok}
use acm_caas_poc.Kube.Values.{str, object, Fields, index, fields_of, map_of}
use acm_caas_poc.Client.Resources.{cluster_deployment}
use acm_caas_poc.Lifecycle.Power.Keeping.{KeptByPatches}
use acm_caas_poc.Reclamation.{
  Rfc3339, ClusterTtl, hour, duration_of, add_duration, ttl_key, expiry_key, ttl_labels,
  parse_cluster_ttl, reclaim_cluster,
}
use acm_caas_poc.Reclamation.Expiry.{
  second, ReadsBack, HasLabels, duration-exact, ttl_in_future_iff, parse-set_ttl,
}
use acm_caas_poc.Reclamation.Reclaiming.{reclaim_keeps}
use acm_caas_poc.Examples.Worlds.{walking, Cell, cell_hub}

ttl_in_future_iff_example : (1000 < add_duration 1000 (duration_of (pos 24))) ↔ (24 ≤ 2562047)
ttl_in_future_iff_example = ttl_in_future_iff 1000 24 (omega arith) (omega arith) (omega arith)

-- A time is written as one stroke for each second.
tally : ℕ → String
tally zero = ""
tally (suc n) = String.◌∷◌ "|" (tally n)

strokes : String → ℕ
strokes String.[] = 0
strokes (String.◌∷◌ c s) = suc (strokes s)

strokes-tally : (n : ℕ) → strokes (tally n) ≡ n
unfolding strokes tally
strokes-tally zero = refl
strokes-tally (suc n) = ap (λ k. suc k) (strokes-tally n)

abbrev tally_clock : Rfc3339
tally_clock = record { format = λ t. tally (t / second); parse = λ s. some (strokes s * second) }

tally_reads : ReadsBack tally_clock
tally_reads = record { parse-format = λ t. rw (strokes-tally (t / second)) refl }

-- The labels that SetTTL writes for one hour, one second after the zero time.
abbrev labels : Fields
labels = fields_of (
    (ttl_key, str "1")
    ∷ (expiry_key, str (tally ((second + 1 * hour) / second)))
    ∷ ("caas/owner", str "ana")
    ∷ [])

abbrev cluster : Fields
cluster = fields_of (("metadata", map_of (("name", str "c") ∷ ("labels", object labels) ∷ [])) ∷ [])

one_hour : duration_of (pos 1) ≡ pos (1 * hour)
one_hour = duration-exact 1 (omega arith)

one_label : format_int (pos 1) ≡ "1"
unfolding format_int
one_label = refl

held :
    (k v : String)
    → lookup k (ttl_labels tally_clock (pos 1) (add_duration second (duration_of (pos 1)))) ≡ some v
    → index labels k ≡ str v
unfolding index ttl_labels lookup add_duration
held k v e = elim (Bool-cases (ttl_key == k)) [
  | inl first ↦ rw first (ground (arith, first, one_label))
  | inr other ↦ rw other (elim (Bool-cases (expiry_key == k)) [
    | inl second' ↦ rw second' (ground (arith, other, second', one_hour))
    | inr neither ↦ ground (arith, other, neither)
  ])
]

has_labels :
    HasLabels cluster (ttl_labels tally_clock (pos 1) (add_duration second (duration_of (pos 1))))
unfolding index ttl_labels lookup add_duration format_int
has_labels = record {
  meta = fields_of (("name", str "c") ∷ ("labels", object labels) ∷ []);
  labels = labels;
  at_metadata = refl;
  at_labels = refl;
  holds = λ k v e. held k v e;
}

parse-set_ttl_example :
    let expiry = (second + 1 * hour) / second * second in
    (ttl : ClusterTtl) × (parse_cluster_ttl tally_clock cluster 5 ≡ some ttl)
    × (ttl.ttl_hours ≡ pos 1)
    × (ttl.expiry_date ≡ expiry)
    × (ttl.expired ≡ ltb expiry 5)
parse-set_ttl_example =
    parse-set_ttl tally_clock second 5 1 cluster tally_reads (omega arith) (omega arith) has_labels

-- The server has something.
abbrev Full : Cell → Type 0
Full w = (obj : Fields) × (w ≡ some obj)

holds_kept : KeptByPatches cell_hub Full
unfolding cell_hub
holds_kept = record {
  keep_get = λ g ns name w p. rw p.1 (p.0, refl);
  keep_list = λ g ns sel w p. rw p.1 (p.0, refl);
  keep_patch = λ g ns name d w p. rw p.1 (p.0, refl);
}

found_cluster : (cell_hub.get cluster_deployment "c" "c" (some cluster)).0 ≡ ok cluster
unfolding cell_hub
found_cluster = refl

reclaim_keeps_example : Full (reclaim_cluster walking cell_hub "c" (some cluster)).1
reclaim_keeps_example =
    reclaim_keeps walking cell_hub Full holds_kept "c" (some cluster) cluster found_cluster
      (cluster, refl)
