-- ===== src/Kube/Values.antt =====
-- Go's dynamic values, as decoded JSON holds them: `interface{}`, `map[string]interface{}` and
-- `[]interface{}`. A map is a list of fields with the first entry of a key in force.
use acm_caas_poc.Prelude.{
  ℕ, suc, String, Bool, true, false, ◌&&◌, ◌||◌, Option, none, some, List, [], ◌∷◌, ◌==◌,
  if◌then◌else◌, Map,
}
use acm_caas_poc.Prelude.Int.{ℤ}

mutual
  -- `float64` is given by its bits.
  pub data Value : Type 0 where
    nil : Value
    bool : Bool → Value
    int : ℤ → Value
    float64 : ℕ → Value
    str : String → Value
    object : Fields → Value
    slice : Items → Value

  pub data Fields : Type 0 where
    end : Fields
    field : String → Value → Fields → Fields

  pub data Items : Type 0 where
    no_items : Items
    item : Value → Items → Items

-- `m[key]`; a missing key gives nil.
unfoldable pub index : Fields → String → Value
index end k = nil
index (field j v m) k = if j == k then v else index m k

-- `_, ok := m[key]`
unfoldable pub has_key : Fields → String → Bool
has_key end k = false
has_key (field j v m) k = j == k || has_key m k

-- `v.(map[string]interface{})`
abbrev pub as_map : Value → Option Fields
as_map (object m) = some m
as_map _ = none

-- `v, _ := v.(map[string]interface{})`: a nil map on failure, which has no key.
abbrev pub map_or_nil : Value → Fields
map_or_nil (object m) = m
map_or_nil _ = end

-- `s, _ := v.(string)`
abbrev pub str_or_empty : Value → String
str_or_empty (str s) = s
str_or_empty _ = ""

-- `l, _ := v.([]interface{})`
abbrev pub items_or_nil : Value → Items
items_or_nil (slice l) = l
items_or_nil _ = no_items

-- `s, ok := v.(string)`
abbrev pub as_str : Value → Option String
as_str (str s) = some s
as_str _ = none

-- `n, ok := v.(int64)`
abbrev pub as_int : Value → Option ℤ
as_int (int n) = some n
as_int _ = none

-- A map literal `map[string]interface{}{"k": "v", …}` with text values.
abbrev pub texts : Map String → Fields
texts [] = end
texts ((k, v) ∷ m) = field k (str v) (texts m)

-- The elements of a slice that are maps, in order: the loop `m, ok := raw.(map…); if !ok continue`.
unfoldable pub maps_of : Items → List Fields
maps_of no_items = []
maps_of (item (object m) l) = m ∷ maps_of l
maps_of (item _ l) = maps_of l

-- The value behind a path of keys through nested maps.
unfoldable pub walk : Value → List String → Option Value
walk v [] = some v
walk (object m) (k ∷ ks) = if has_key m k then walk (index m k) ks else none
walk _ (k ∷ ks) = none

-- A map literal and a slice literal.
abbrev pub fields_of : List (String × Value) → Fields
fields_of [] = end
fields_of ((k, v) ∷ m) = field k v (fields_of m)

abbrev pub map_of : List (String × Value) → Value
map_of m = object (fields_of m)

abbrev pub items_of : List Value → Items
items_of [] = no_items
items_of (v ∷ l) = item v (items_of l)

abbrev pub list_of : List Value → Value
list_of l = slice (items_of l)

-- `m[key] = v`
unfoldable pub assign : String → Value → Fields → Fields
assign k v end = field k v end
assign k v (field j u m) =
    let later = assign k v m in if j == k then field j v m else field j u later

-- `_, ok := v.(map[string]interface{})` and the map behind a key of a map.
abbrev pub map_at_key : Fields → String → Option Fields
map_at_key m k = as_map (index m k)

-- `s, _ := m[key].(string)`
abbrev pub str_at_key : Fields → String → String
str_at_key m k = str_or_empty (index m k)

-- `len(l)`
unfoldable pub len_items : Items → ℕ
len_items no_items = 0
len_items (item v l) = suc (len_items l)

-- `v == "text"` for an `interface{}`
abbrev pub is_text : Value → String → Bool
is_text (str s) t = s == t
is_text _ t = false

-- Whether a condition of a type is `True`, in the loops that stop there or set a flag.
unfoldable pub any_condition : String → List Fields → Bool
any_condition type [] = false
any_condition type (cond ∷ rest) =
    let later = any_condition type rest in
    if is_text (index cond "type") type && is_text (index cond "status") "True" then true else later
