-- ===== src/Matrix.antt =====
-- internal/matrix/matrix.go and matrix_builder.go: clusters for every combination of versions,
-- architectures and operator versions.
pub mod Combinations
pub mod Provisioning
use Prim.Native.Char.{code}
use acm_caas_poc.Prelude.{
  ℕ, ◌+◌, String, true, false, ◌||◌, List, [], ◌∷◌, ◌++◌, map, eqb, if◌then◌else◌, length, is_empty,
  concat, or_else, Map,
}
use acm_caas_poc.Kube.Errors.{status, text, wrapped, ok, err}
use acm_caas_poc.Kube.Values.{str, object, Fields, texts, fields_of, map_of}
use acm_caas_poc.Kube.Objects.{found_or, Accessors, label}
use acm_caas_poc.Kube.Hub.{Run, Hub, pure, raise, context, ◌>>=◌}
use acm_caas_poc.Client.{create_if_not_exists, delete_if_exists}
use acm_caas_poc.Client.Resources.{cluster_deployment, managed_cluster, namespace}

pub record MatrixSpec : Type 0 where
  pub ocp_versions : List String
  pub architectures : List String
  pub operator_versions : List String
  pub platform : String
  pub region : String

pub record MatrixCell : Type 0 where
  pub name : String
  pub ocp_version : String
  pub architecture : String
  pub operator_version : String
  pub status : String

pub record MatrixResult : Type 0 where
  pub cells : List MatrixCell
  pub total : ℕ
  pub ready : ℕ
  pub failed : ℕ

-- What `buildMatrixClusterDeployment` reads of the configuration.
pub record MatrixConfig : Type 0 where
  pub platform : String
  pub ibm_cloud_region : String

-- `strings.ReplaceAll(s, ".", "")`
unfoldable pub drop_dots : String → String
drop_dots String.[] = ""
drop_dots (String.◌∷◌ c s) =
    let rest = drop_dots s in if eqb (code c) b'.' then rest else String.◌∷◌ c rest

unfoldable pub cell_name : String → String → String → String
unfolding drop_dots
cell_name ocp_version arch operator_version =
    concat ("matrix-" ∷ drop_dots ocp_version ∷ "-" ∷ arch ∷ "-" ∷ drop_dots operator_version ∷ [])

unfoldable pub new_cell : String → String → String → MatrixCell
new_cell ver arch op = record {
  name = cell_name ver arch op;
  ocp_version = ver;
  architecture = arch;
  operator_version = op;
  status = "";
}

-- The three loops of `generateCombinations`.
unfoldable pub cells_of_arch : String → String → List String → List MatrixCell
cells_of_arch ver arch [] = []
cells_of_arch ver arch (op ∷ ops) = new_cell ver arch op ∷ cells_of_arch ver arch ops

unfoldable pub cells_of_version : String → List String → List String → List MatrixCell
cells_of_version ver [] ops = []
cells_of_version ver (arch ∷ archs) ops =
    cells_of_arch ver arch ops ++ cells_of_version ver archs ops

unfoldable pub cells_of : List String → List String → List String → List MatrixCell
cells_of [] archs ops = []
cells_of (ver ∷ vers) archs ops = cells_of_version ver archs ops ++ cells_of vers archs ops

unfoldable pub generate_combinations : MatrixSpec → List MatrixCell
generate_combinations spec = cells_of spec.ocp_versions spec.architectures spec.operator_versions

unfoldable pub build_namespace : String → Fields
build_namespace name = fields_of (
    ("apiVersion", str "v1")
    ∷ ("kind", str "Namespace")
    ∷ ("metadata", map_of (("name", str name) ∷ []))
    ∷ [])

unfoldable pub build_matrix_cluster_deployment : MatrixCell → MatrixConfig → Fields
build_matrix_cluster_deployment cell cfg = fields_of (
    ("apiVersion", str "hive.openshift.io/v1")
    ∷ ("kind", str "ClusterDeployment")
    ∷ (
      "metadata",
      map_of (
          ("name", str cell.name)
          ∷ ("namespace", str cell.name)
          ∷ (
            "labels",
            map_of (
                ("acmlab.redhat.com/managed", str "true")
                ∷ ("acmlab.redhat.com/matrix", str "true")
                ∷ ("ocp-version", str cell.ocp_version)
                ∷ ("arch", str cell.architecture)
                ∷ ("ai-platform-version", str cell.operator_version)
                ∷ []),
          )
          ∷ []),
    )
    ∷ (
      "spec",
      map_of (
          ("clusterName", str cell.name)
          ∷ (
            "platform",
            map_of (
                (
                  or_else cfg.platform "ibmcloud",
                  map_of (("region", str (or_else cfg.ibm_cloud_region "us-south")) ∷ []),
                )
                ∷ []),
          )
          ∷ (
            "provisioning",
            map_of (
                (
                  "imageSetRef",
                  map_of (
                      ("name", str (concat ("img" ∷ drop_dots cell.ocp_version ∷ "-multi" ∷ [])))
                      ∷ []),
                )
                ∷ (
                  "installConfigSecretRef",
                  map_of (("name", str (concat (cell.name ∷ "-install-config" ∷ []))) ∷ []),
                )
                ∷ []),
          )
          ∷ []),
    )
    ∷ [])

-- The labels of `buildMatrixLabelPatch`.
unfoldable pub matrix_labels : MatrixCell → String → Map String
matrix_labels cell matrix_id =
    ("ocp-version", cell.ocp_version)
    ∷ ("arch", cell.architecture)
    ∷ ("ai-platform-version", cell.operator_version)
    ∷ ("matrix", "true")
    ∷ ("matrix-id", matrix_id)
    ∷ []

unfoldable pub build_matrix_label_patch : MatrixCell → String → Fields
build_matrix_label_patch cell matrix_id =
    fields_of
      (("metadata", map_of (("labels", object (texts (matrix_labels cell matrix_id))) ∷ [])) ∷ [])

unfoldable pub parse_matrix_cell : Accessors → Fields → MatrixCell
parse_matrix_cell o obj =
    let labels = found_or [] (o.nested_string_map obj ("metadata" ∷ "labels" ∷ [])) in
    record {
      name = found_or "" (o.nested_string obj ("metadata" ∷ "name" ∷ []));
      ocp_version = label labels "ocp-version";
      architecture = label labels "arch";
      operator_version = label labels "ai-platform-version";
      status = "";
    }

abbrev pub with_status : String → MatrixCell → MatrixCell
with_status s cell = record cell { status = s }

-- One more cell of a result, counted as failed or as ready.
unfoldable pub count_failed : MatrixCell → MatrixResult → MatrixResult
count_failed cell r = record r { cells = r.cells ++ cell ∷ []; failed = r.failed + 1 }

unfoldable pub count_ready : MatrixCell → MatrixResult → MatrixResult
count_ready cell r = record r { cells = r.cells ++ cell ∷ []; ready = r.ready + 1 }

module _ {W : Type 0} (o : Accessors) (h : Hub W) where
  -- The loop of `ProvisionMatrix`; a failed label is only logged.
  unfoldable pub provision_cells :
      MatrixConfig → String → List MatrixCell → MatrixResult → Run W MatrixResult
  provision_cells cfg matrix_id [] r w = (ok r, w)
  provision_cells cfg matrix_id (cell ∷ rest) r w =
      let (made, w1) = create_if_not_exists o h namespace "" (build_namespace cell.name) w in
      elim made [
        | err e ↦ (err (wrapped (concat ("creating namespace " ∷ cell.name ∷ [])) e), w1)
        | ok _ ↦
            let (deployed, w2) =
              create_if_not_exists o h cluster_deployment cell.name
                (build_matrix_cluster_deployment cell cfg) w1 in
            elim deployed [
              | err _ ↦
                  provision_cells cfg matrix_id rest (count_failed (with_status "Failed" cell) r) w2
              | ok _ ↦
                  let (_, w3) =
                    h.patch managed_cluster "" cell.name (build_matrix_label_patch cell matrix_id)
                      w2 in
                  provision_cells cfg matrix_id rest
                    (count_ready (with_status "Provisioning" cell) r) w3
            ]
      ]

  -- `ProvisionMatrix`; `matrix_id` is the text of the clock.
  unfoldable pub provision_matrix : MatrixConfig → String → MatrixSpec → Run W MatrixResult
  provision_matrix cfg matrix_id spec =
      if is_empty spec.ocp_versions
        || is_empty spec.architectures
        || is_empty spec.operator_versions
      then raise (
          text
            "matrix spec must have at least one value for ocpVersions, architectures, and operatorVersions")
      else let cells = generate_combinations spec in
        provision_cells cfg matrix_id cells
          (record { cells = []; total = length cells; ready = 0; failed = 0 })

  -- The loops of `DestroyMatrix` and of `StatusMatrix`.
  unfoldable pub destroy_cells : List Fields → MatrixResult → W → MatrixResult × W
  destroy_cells [] r w = (r, w)
  destroy_cells (obj ∷ rest) r w =
      let cell = parse_matrix_cell o obj in
      let (gone, w1) = delete_if_exists h cluster_deployment (o.get_name obj) (o.get_name obj) w in
      elim gone [
        | err _ ↦ destroy_cells rest (count_failed (with_status "DeleteFailed" cell) r) w1
        | ok _ ↦ destroy_cells rest (count_ready (with_status "Deleting" cell) r) w1
      ]

  unfoldable pub status_cells : List Fields → MatrixResult → W → MatrixResult × W
  status_cells [] r w = (r, w)
  status_cells (obj ∷ rest) r w =
      let cell = parse_matrix_cell o obj in
      let (read, w1) = h.get cluster_deployment (o.get_name obj) (o.get_name obj) w in
      let unready : String → MatrixResult =
        λ s. record r { cells = r.cells ++ with_status s cell ∷ [] } in
      elim read [
        | err _ ↦ status_cells rest (unready "Unknown") w1
        | ok cd ↦ elim (found_or false (o.nested_bool cd ("spec" ∷ "installed" ∷ []))) [
          | true ↦ status_cells rest (count_ready (with_status "Ready" cell) r) w1
          | false ↦ status_cells rest (unready "Provisioning") w1
        ]
      ]

  abbrev matrix_clusters : String → Run W (List Fields)
  matrix_clusters selector = context "listing matrix clusters" (h.list managed_cluster "" selector)

  abbrev no_cells : List Fields → MatrixResult
  no_cells items = record { cells = []; total = length items; ready = 0; failed = 0 }

  unfoldable pub destroy_matrix : String → Run W MatrixResult
  destroy_matrix matrix_id = matrix_clusters (concat ("matrix-id=" ∷ matrix_id ∷ [])) >>= λ items w.
      let (r, w1) = destroy_cells items (no_cells items) w in (ok r, w1)

  unfoldable pub status_matrix : String → Run W MatrixResult
  status_matrix matrix_id = matrix_clusters (concat ("matrix-id=" ∷ matrix_id ∷ [])) >>= λ items w.
      let (r, w1) = status_cells items (no_cells items) w in (ok r, w1)

  unfoldable pub list_matrix_clusters : Run W (List MatrixCell)
  list_matrix_clusters =
      matrix_clusters "matrix=true" >>= λ items. pure (map (parse_matrix_cell o) items)
