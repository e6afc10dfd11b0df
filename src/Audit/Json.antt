-- ===== src/Audit/Json.antt =====
-- The values that encoding/json yields for `map[string]any`, with Go's nil map apart from the
-- empty one. A number is held by its text.
use openllm_metrics.Prelude.{Bool, Option, none, some, Text, Text-discrete, ite}

mutual
  pub data Value : Type 0 where
    null : Value
    bool : Bool → Value
    str : Text → Value
    num : Text → Value
    arr : Items → Value
    obj : Fields → Value

  pub data Items : Type 0 where
    nil : Items
    cons : Value → Items → Items

  pub data Fields : Type 0 where
    end : Fields
    field : Text → Value → Fields → Fields

-- A `map[string]any`: `none` is the nil map.
abbrev pub Map : Type 0
Map = Option Fields

-- m[k], with whether it is there
unfoldable pub lookup : Text → Fields → Option Value
lookup k end = none
lookup k (field j v fs) = ite (Text-discrete k j) (some v) (lookup k fs)

abbrev pub fields : Map → Fields
fields none = end
fields (some fs) = fs

-- m[k] = v
unfoldable pub assign : Text → Value → Fields → Fields
assign k v end = field k v end
assign k v (field j w fs) = ite (Text-discrete k j) (field j v fs) (field j w (assign k v fs))
