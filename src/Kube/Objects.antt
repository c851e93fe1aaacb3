-- ===== src/Kube/Objects.antt =====
-- The accessors of k8s.io/apimachinery's `unstructured` package that the program calls, as a
-- record of functions, and their documented behaviour as named laws.
use acm_caas_poc.Prelude.{String, Bool, Option, none, some, List, Map, lookup}
use acm_caas_poc.Prelude.Int.{ℤ}
use acm_caas_poc.Kube.Values.{Fields, Items}

-- `(value, found, err)` of `unstructured.NestedString` and its like.
pub data Found (A : Type 0) : Type 0 where
  found : A → Found A
  missing mistyped : Found A

-- `v, _, _ := …`: the zero value where nothing was found.
abbrev pub found_or : {A : Type 0} → A → Found A → A
found_or d (found a) = a
found_or d missing = d
found_or d mistyped = d

pub record Accessors : Type 0 where
  pub nested_string : Fields → List String → Found String
  pub nested_bool : Fields → List String → Found Bool
  pub nested_int64 : Fields → List String → Found ℤ
  pub nested_slice : Fields → List String → Found Items
  pub nested_map : Fields → List String → Found Fields
  pub nested_string_map : Fields → List String → Found (Map String)
  pub get_name : Fields → String
  pub get_namespace : Fields → String
  pub get_labels : Fields → Map String
  -- `none` is the nil map
  pub get_annotations : Fields → Option (Map String)
  pub get_resource_version : Fields → String

-- `labels[key]` of a `map[string]string`: the empty text where the key is missing.
abbrev pub text_or_empty : Option String → String
text_or_empty none = ""
text_or_empty (some v) = v

abbrev pub label : Map String → String → String
label m k = text_or_empty (lookup k m)
