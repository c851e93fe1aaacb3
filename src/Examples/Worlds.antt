-- ===== src/Examples/Worlds.antt =====
-- Concrete instances of what the models take as arguments: accessors that walk through the fields,
-- a hub that holds one object, and one that holds several.
use acm_caas_poc.Prelude.{
  String, ◌≡◌, refl, sym, ap, ◌∙◌, inl, inr, Bool, false, Option, none, some, List, [], ◌∷◌, arith,
  ◌==◌, eq_iff, eq_refl, if◌then◌else◌, Bool-cases, Map,
}
use acm_caas_poc.Prelude.Int.{ℤ}
use acm_caas_poc.Kube.Errors.{not_found, conflict, Error, status, Result, ok, err}
use acm_caas_poc.Kube.Values.{
  Value, nil, bool, int, str, object, slice, Fields, end, field, Items, index, has_key, texts, walk,
}
use acm_caas_poc.Kube.Objects.{Found, found, missing, mistyped, found_or, Accessors}
use acm_caas_poc.Kube.Hub.{Gvr, Hub}
use acm_caas_poc.Client.Laws.{NamesInMetadata, StoresUpdates}

texts_of : Fields → Option (Map String)
texts_of end = some []
texts_of (field k (str v) m) = elim (texts_of m) [ none ↦ none | some l ↦ some ((k, v) ∷ l) ]
texts_of _ = none

found_string : Option Value → Found String
found_string none = missing
found_string (some (str s)) = found s
found_string (some _) = mistyped

found_bool : Option Value → Found Bool
found_bool none = missing
found_bool (some (bool b)) = found b
found_bool (some _) = mistyped

found_int : Option Value → Found ℤ
found_int none = missing
found_int (some (int z)) = found z
found_int (some _) = mistyped

found_slice : Option Value → Found Items
found_slice none = missing
found_slice (some (slice l)) = found l
found_slice (some _) = mistyped

found_map : Option Value → Found Fields
found_map none = missing
found_map (some (object m)) = found m
found_map (some _) = mistyped

as_found : {A : Type 0} → Option A → Found A
as_found none = mistyped
as_found (some a) = found a

found_texts : Option Value → Found (Map String)
unfolding texts_of as_found
found_texts none = missing
found_texts (some (object m)) = as_found (texts_of m)
found_texts (some _) = mistyped

string_at : Fields → List String → Found String
unfolding found_string walk
string_at m p = found_string (walk (object m) p)

map_at : Fields → List String → Found (Map String)
unfolding found_texts
map_at m p = found_texts (walk (object m) p)

-- Accessors by walking.
unfoldable pub walking : Accessors
unfolding found_bool found_int found_slice found_map string_at map_at walk has_key index texts_of
    as_found found_texts found_string
walking = record {
  nested_string = string_at;
  nested_bool = λ m p. found_bool (walk (object m) p);
  nested_int64 = λ m p. found_int (walk (object m) p);
  nested_slice = λ m p. found_slice (walk (object m) p);
  nested_map = λ m p. found_map (walk (object m) p);
  nested_string_map = map_at;
  get_name = λ m. found_or "" (string_at m ("metadata" ∷ "name" ∷ []));
  get_namespace = λ m. found_or "" (string_at m ("metadata" ∷ "namespace" ∷ []));
  get_labels = λ m. found_or [] (map_at m ("metadata" ∷ "labels" ∷ []));
  get_annotations = λ m. elim (map_at m ("metadata" ∷ "annotations" ∷ [])) [
    | found a ↦ some a
    | missing ↦ none
    | mistyped ↦ none
  ];
  get_resource_version = λ m. found_or "" (string_at m ("metadata" ∷ "resourceVersion" ∷ []));
}

texts_of-texts : (m : Map String) → texts_of (texts m) ≡ some m
unfolding texts_of
texts_of-texts [] = refl
texts_of-texts ((k, v) ∷ m) = rw (texts_of-texts m) refl

pub walking_reads :
    (obj : Fields) (path : List String) (m : Map String)
    → walk (object obj) path ≡ some (object (texts m))
    → walking.nested_string_map obj path ≡ found m
unfolding walking map_at found_texts as_found
walking_reads obj path m e = rw (e, texts_of-texts m) refl

abbrev pub missing_error : Error
missing_error = status not_found "not found"

abbrev pub conflict_error : Error
conflict_error = status conflict "conflict"

-- A server that holds at most one object, under any name.
abbrev pub Cell : Type 0
Cell = Option Fields

unfoldable pub cell_hub : Hub Cell
cell_hub = record {
  create = λ g ns obj w. elim w [
    | none ↦ (ok obj, some obj)
    | some old ↦ (err conflict_error, some old)
  ];
  get = λ g ns name w. elim w [ none ↦ (err missing_error, none) | some obj ↦ (ok obj, some obj) ];
  list = λ g ns sel w. elim w [ none ↦ (ok [], none) | some obj ↦ (ok (obj ∷ []), some obj) ];
  update = λ g ns obj w. elim w [ none ↦ (err missing_error, none) | some _ ↦ (ok obj, some obj) ];
  delete = λ g ns name w. elim w [ none ↦ (err missing_error, none) | some _ ↦ (ok tt, none) ];
  patch =
      λ g ns name d w. elim w [ none ↦ (err missing_error, none) | some obj ↦ (ok obj, some obj) ];
}

-- A server that holds any number of objects, each under its name.
module _ (name_of : Fields → String) where
  unfoldable pub find : String → List Fields → Option Fields
  find name [] = none
  find name (obj ∷ rest) =
      let later = find name rest in if name_of obj == name then some obj else later

  unfoldable pub replace : Fields → List Fields → List Fields
  replace obj [] = []
  replace obj (old ∷ rest) =
      let later = replace obj rest in
      if name_of old == name_of obj then obj ∷ later else old ∷ later

  find-named :
      (name : String) (w : List Fields) (obj : Fields) → find name w ≡ some obj → name_of obj ≡ name
  unfolding find
  find-named name [] obj e = ground arith
  find-named name (x ∷ rest) obj e = elim (Bool-cases (name_of x == name)) [
    | inl same ↦
        let here : x ≡ obj = ground (arith, rw (find, same) at e) in
        rw (← here) ((eq_iff _ _).0 same)
    | inr differs ↦ find-named name rest obj (rw (find, differs) at e)
  ]

  find-replace :
      (obj old : Fields) (w : List Fields)
      → find (name_of obj) w ≡ some old
      → find (name_of obj) (replace obj w) ≡ some obj
  unfolding find replace
  find-replace obj old [] e = ground arith
  find-replace obj old (x ∷ rest) e = elim (Bool-cases (name_of x == name_of obj)) [
    | inl same ↦ rw (replace, same, eq_refl (name_of obj)) refl
    | inr differs ↦
        rw (replace, differs, differs) (find-replace obj old rest (rw (find, differs) at e))
  ]

abbrev pub read_answer : List Fields → Option Fields → Result Fields × List Fields
read_answer w none = (err missing_error, w)
read_answer w (some obj) = (ok obj, w)

unfoldable pub update_answer : Fields → List Fields → Option Fields → Result Fields × List Fields
update_answer obj w none = (err missing_error, w)
update_answer obj w (some _) = (ok obj, replace walking.get_name obj w)

unfoldable pub store_hub : Hub (List Fields)
store_hub = record {
  create = λ g ns obj w. (ok obj, obj ∷ w);
  get = λ g ns name w. read_answer w (find walking.get_name name w);
  list = λ g ns sel w. (ok w, w);
  update = λ g ns obj w. update_answer obj w (find walking.get_name (walking.get_name obj) w);
  delete = λ g ns name w. (err conflict_error, w);
  patch = λ g ns name d w. (err conflict_error, w);
}

index-missing : (m : Fields) (k : String) → has_key m k ≡ false → index m k ≡ nil
unfolding has_key index
index-missing end k e = refl
index-missing (field j v m) k e = ground (arith, index-missing m k)

name_at_metadata :
    (m : Fields)
    → walk (object m) ("metadata" ∷ "name" ∷ []) ≡ walk (index m "metadata") ("name" ∷ [])
unfolding walk
name_at_metadata m = elim (Bool-cases (has_key m "metadata")) [
  | inl has ↦ rw has refl
  | inr lacks ↦ rw (lacks, index-missing m "metadata" lacks) refl
]

pub walking_names : NamesInMetadata walking
unfolding walking string_at
walking_names = record {
  same_name = λ a b e.
      ap (λ v. found_or "" (found_string v))
        (name_at_metadata a ∙ ap (λ v. walk v ("name" ∷ [])) e ∙ sym (name_at_metadata b));
}

pub stores_updates : (g : Gvr) → StoresUpdates walking store_hub g
unfolding store_hub update_answer
stores_updates g = record {
  reads_named = λ ns name obj w t e. named name obj w t (find walking.get_name name w) refl e;
  get-update = λ ns obj res w t e. (
    obj,
    stored obj res w t (find walking.get_name (walking.get_name obj) w) refl e,
    λ k _ _. refl,
  );
}
  where
    named :
        (name : String) (obj : Fields) (w t : List Fields) (r : Option Fields)
        → find walking.get_name name w ≡ r
        → read_answer w r ≡ (ok obj, t)
        → walking.get_name obj ≡ name
    named name obj w t none er e = ground arith
    named name obj w t (some x) er e =
        find-named walking.get_name name w obj (let same : x ≡ obj = ground arith in rw same at er)

    stored :
        (obj res : Fields) (w t : List Fields) (r : Option Fields)
        → find walking.get_name (walking.get_name obj) w ≡ r
        → update_answer obj w r ≡ (ok res, t)
        → (read_answer t (find walking.get_name (walking.get_name obj) t)).0 ≡ ok obj
    stored obj res w t none er e = ground arith
    stored obj res w t (some old) er e =
        let same : replace walking.get_name obj w ≡ t = ground arith in
        rw (← same, find-replace walking.get_name obj old w er) refl
