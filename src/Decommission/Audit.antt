-- ===== src/Decommission/Audit.antt =====
-- internal/decommission/audit.go. Two things are arguments: `age`, the text `<days>d` of a creation
-- time against the clock, or none where `time.Parse` fails; and `any_key`, the key that a `range`
-- over a Go map meets first, whose order the language leaves open.
use acm_caas_poc.Prelude.{
  ℕ, suc, String, Option, none, some, List, [], ◌∷◌, ◌==◌, if◌then◌else◌, concat, lookup,
}
use acm_caas_poc.Prelude.Int.{ℤ, pos}
use acm_caas_poc.Prelude.Decimal.{
  format_int, is_digit, parsed, syntax_error, range_error, parse_int, parsed_value, add_int,
}
use acm_caas_poc.Kube.Errors.{Result, ok, err}
use acm_caas_poc.Kube.Values.{Fields, end, Items, no_items, item, maps_of}
use acm_caas_poc.Kube.Objects.{found_or, Accessors, text_or_empty, label}
use acm_caas_poc.Kube.Hub.{Run, Hub, context}
use acm_caas_poc.Client.Resources.{cluster_deployment, managed_cluster, managed_cluster_info}
use acm_caas_poc.Decommission.State.{AuditReport}

-- The longest prefix of digits, and the rest: the loop of `parseMemory`.
unfoldable pub span_digits : String → String × String
span_digits String.[] = ("", "")
span_digits (String.◌∷◌ c s) =
    let (ds, rest) = span_digits s in
    if is_digit c then (String.◌∷◌ c ds, rest) else ("", String.◌∷◌ c s)

unfoldable pub parse_memory : String → ℤ × String
unfolding span_digits
parse_memory s = let (ds, unit) = span_digits s in (parsed_value (parse_int ds), unit)

-- The running totals of the loop over `nodeList`.
pub record Totals : Type 0 where
  pub cpu : ℤ
  pub memory : ℤ
  pub unit : String

-- `if cpu, err := strconv.Atoi(cpuStr); err == nil { totalCPU += cpu }`
unfoldable pub add_cpu : Option String → Totals → Totals
add_cpu none t = t
add_cpu (some s) t = elim (parse_int s) [
  | parsed z ↦ record t { cpu = add_int t.cpu z }
  | syntax_error ↦ t
  | range_error _ ↦ t
]

unfoldable pub add_memory : Option String → Totals → Totals
add_memory none t = t
add_memory (some s) t =
    let (m, u) = parse_memory s in record t { memory = add_int t.memory m; unit = u }

module _ (o : Accessors) where
  unfoldable pub add_nodes : List Fields → Totals → Totals
  add_nodes [] t = t
  add_nodes (node ∷ rest) t =
      let capacity = found_or [] (o.nested_string_map node ("capacity" ∷ [])) in
      add_nodes rest (add_memory (lookup "memory" capacity) (add_cpu (lookup "cpu" capacity) t))

-- `len(nodeList)`
unfoldable pub count_items : Items → ℕ
count_items no_items = 0
count_items (item _ l) = suc (count_items l)

module _ {W : Type 0} (o : Accessors) (h : Hub W) (any_key : Fields → Option String) where
  unfoldable pub detect_platform_from_cd : String → W → String × W
  detect_platform_from_cd name w =
      let (r, w1) = h.get cluster_deployment name name w in
      elim r [
        | err _ ↦ ("unknown", w1)
        | ok cd ↦ (
          elim (any_key (found_or end (o.nested_map cd ("spec" ∷ "platform" ∷ [])))) [
            | none ↦ "unknown"
            | some key ↦ key
          ],
          w1,
        )
      ]

  -- The part of the report that `ManagedClusterInfo` gives, if it can be read.
  unfoldable pub add_node_info : Result Fields → AuditReport → AuditReport
  add_node_info (err _) report = report
  add_node_info (ok mci) report =
      let nodes = found_or no_items (o.nested_slice mci ("status" ∷ "nodeList" ∷ [])) in
      let t = add_nodes o (maps_of nodes) (record { cpu = pos 0; memory = pos 0; unit = "" }) in
      record report {
        node_count = pos (count_items nodes);
        cpu_capacity = format_int t.cpu;
        memory_capacity = concat (format_int t.memory ∷ t.unit ∷ []);
      }

  -- `if report.Platform == "" { report.Platform = detectPlatformFromCD(…) }`
  unfoldable pub fill_platform : String → AuditReport → W → AuditReport × W
  fill_platform cluster report w =
      let (p, w1) = detect_platform_from_cd cluster w in
      if report.platform == "" then (record report { platform = p }, w1) else (report, w)

  unfoldable pub audit : (String → W → Option String) → String → Run W AuditReport
  audit age cluster w =
      let (r, w1) =
        context (concat ("getting ManagedCluster " ∷ cluster ∷ []))
          (h.get managed_cluster "" cluster) w in
      elim r [
        | err e ↦ (err e, w1)
        | ok mc ↦
            let labels = found_or [] (o.nested_string_map mc ("metadata" ∷ "labels" ∷ [])) in
            let creation =
              found_or "" (o.nested_string mc ("metadata" ∷ "creationTimestamp" ∷ [])) in
            let report : AuditReport = record {
              node_count = pos 0;
              cpu_capacity = "";
              memory_capacity = "";
              namespaces = [];
              owner = label labels "caas-poc/owner";
              platform = label labels "cloud";
              cluster_age = text_or_empty (age creation w1);
            } in
            let (info, w2) = h.get managed_cluster_info cluster cluster w1 in
            let (full, w3) = fill_platform cluster (add_node_info info report) w2 in (ok full, w3)
      ]
