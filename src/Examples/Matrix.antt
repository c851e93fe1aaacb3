-- ===== src/Examples/Matrix.antt =====
-- internal/matrix/matrix.go for one version, two architectures and two operator versions.
use acm_caas_poc.Prelude.{
  ℕ, ◌*◌, String, ◌≡◌, refl, some, [], ◌∷◌, map, ◌==◌, if◌then◌else◌, length, get_elem?,
}
use acm_caas_poc.Kube.Errors.{ok, err}
use acm_caas_poc.Kube.Values.{end}
use acm_caas_poc.Kube.Hub.{Hub}
use acm_caas_poc.Client.{create_if_not_exists}
use acm_caas_poc.Matrix.{
  MatrixSpec, MatrixResult, MatrixConfig, drop_dots, cell_name, new_cell, cells_of_arch,
  cells_of_version, cells_of, generate_combinations, build_namespace,
  build_matrix_cluster_deployment, with_status, count_ready, provision_cells, provision_matrix,
}
use acm_caas_poc.Matrix.Combinations.{place, generate_combinations_lem}
use acm_caas_poc.Matrix.Provisioning.{Covers, provision_matrix-Covers}
use acm_caas_poc.Examples.Worlds.{walking, missing_error, conflict_error}

abbrev four_cells : MatrixSpec
four_cells = record {
  ocp_versions = "4.16" ∷ [];
  architectures = "amd64" ∷ "arm64" ∷ [];
  operator_versions = "2.10" ∷ "2.11" ∷ [];
  platform = "";
  region = "";
}

generate_combinations_lem_example :
    (length (generate_combinations four_cells) ≡ 1 * (2 * 2))
    × ((ver arch op : String) (i j k : ℕ)
        → get_elem? four_cells.ocp_versions i ≡ some ver
        → get_elem? four_cells.architectures j ≡ some arch
        → get_elem? four_cells.operator_versions k ≡ some op
        → get_elem? (generate_combinations four_cells) (place four_cells i j k)
          ≡ some (new_cell ver arch op))
generate_combinations_lem_example = generate_combinations_lem four_cells

abbrev config : MatrixConfig
config = record { platform = "aws"; ibm_cloud_region = "" }

-- A server that has everything but lets nothing be patched.
abbrev full_hub : Hub (Unit {0})
full_hub = record {
  create = λ g ns obj w. (err conflict_error, w);
  get = λ g ns name w. (if name == "matrix-416-arm64-211" then err missing_error else ok end, w);
  list = λ g ns sel w. (ok [], w);
  update = λ g ns obj w. (err conflict_error, w);
  delete = λ g ns name w. (ok tt, w);
  patch = λ g ns name d w. (err conflict_error, w);
}

abbrev one_cell : MatrixSpec
one_cell = record four_cells { architectures = "amd64" ∷ []; operator_versions = "2.10" ∷ [] }

abbrev provisioned : MatrixResult
provisioned = record {
  cells = with_status "Provisioning" (new_cell "4.16" "amd64" "2.10") ∷ [];
  total = 1;
  ready = 1;
  failed = 0;
}

provisioned_once : (provision_matrix walking full_hub config "1" one_cell tt).0 ≡ ok provisioned
unfolding provision_matrix provision_cells generate_combinations cells_of cells_of_version
    cells_of_arch new_cell create_if_not_exists count_ready build_namespace
    build_matrix_cluster_deployment cell_name drop_dots walking
provisioned_once = refl

provision_matrix-Covers_example :
    Covers
      (length (generate_combinations one_cell))
      (map (with_status "") (generate_combinations one_cell))
      provisioned
provision_matrix-Covers_example =
    provision_matrix-Covers walking full_hub config "1" one_cell tt provisioned provisioned_once
