-- ===== src/Audit/Canonical/Order.antt =====
-- A Go map has no order: the canonical JSON of
-- apps/api/audit-service/internal/hasher/hasher.go is the same whatever order a range over any map
-- of the document, at any depth, yields.
use openllm_metrics.Prelude.{◌≡◌, ◌≢◌, refl, ◌∙◌, Text}
use openllm_metrics.Audit.Json.{Value, arr, obj, Items, nil, cons, Fields, end, field}
use openllm_metrics.Audit.Canonical.{sort, encode, encode_items, encode_fields}
use openllm_metrics.Audit.Canonical.Sorting.{insert_comm}

-- The same document, up to the order of the members of its maps.
mutual
  pub data SameValue : Value → Value → Type 0 where
    same : (v : Value) → SameValue v v
    same_arr : {xs ys : Items} → SameItems xs ys → SameValue (arr xs) (arr ys)
    same_obj : {fs gs : Fields} → SameFields fs gs → SameValue (obj fs) (obj gs)

  pub data SameItems : Items → Items → Type 0 where
    same_nil : SameItems nil nil
    same_cons :
        {v w : Value} {xs ys : Items}
        → SameValue v w
        → SameItems xs ys
        → SameItems (cons v xs) (cons w ys)

  pub data SameFields : Fields → Fields → Type 0 where
    same_end : SameFields end end
    same_field :
        {v w : Value} {fs gs : Fields} (k : Text)
        → SameValue v w
        → SameFields fs gs
        → SameFields (field k v fs) (field k w gs)
    swapped :
        (j k : Text) (v w : Value) (fs : Fields)
        → j ≢ k
        → SameFields (field j v (field k w fs)) (field k w (field j v fs))
    chained : {fs gs hs : Fields} → SameFields fs gs → SameFields gs hs → SameFields fs hs

mutual
  unfolding encode encode_items encode_fields sort

  encode-SameValue : {v w : Value} → SameValue v w → encode v ≡ encode w
  encode-SameValue (same v) = refl
  encode-SameValue (same_arr s) = cc (encode-SameItems s)
  encode-SameValue (same_obj s) = cc (sort-SameFields s)

  encode-SameItems : {xs ys : Items} → SameItems xs ys → encode_items xs ≡ encode_items ys
  encode-SameItems same_nil = refl
  encode-SameItems (same_cons s r) = cc (encode-SameValue s, encode-SameItems r)

  sort-SameFields :
      {fs gs : Fields} → SameFields fs gs → sort (encode_fields fs) ≡ sort (encode_fields gs)
  sort-SameFields same_end = refl
  sort-SameFields (same_field k s r) = cc (encode-SameValue s, sort-SameFields r)
  sort-SameFields (swapped j k v w fs d) =
      insert_comm (j, encode v) (k, encode w) (sort (encode_fields fs)) d
  sort-SameFields (chained r s) = sort-SameFields r ∙ sort-SameFields s

-- Documents that differ in the order of the members of their maps, at any depth, encode to the same
-- text; a swap is of two members with different keys.
pub encode-same : {v w : Value} → SameValue v w → encode v ≡ encode w
encode-same s = encode-SameValue s
