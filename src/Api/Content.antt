-- ===== src/Api/Content.antt =====
-- The content of an unstructured object, `map[string]interface{}`. A number of type `float64` is
-- its bit pattern.
use dr.Base.{String, ℕ, Bool, Option, none, some, ◌==◌, ◌≡◌, refl, arith, eq_iff, if◌then◌else◌}
use dr.Base.Int.{ℤ}

mutual
  pub data Fields : Type 0 where
    end : Fields
    field : String → Value → Fields → Fields

  pub data Items : Type 0 where
    nil : Items
    cons : Value → Items → Items

  pub data Value : Type 0 where
    obj : (content : Fields) → Value
    arr : (items : Items) → Value
    str : (text : String) → Value
    int : (number : ℤ) → Value
    float : (bits : ℕ) → Value
    bool : (flag : Bool) → Value
    null : Value

-- `m[k]` with its `ok`, and `m[k] = v`.
unfoldable pub get : String → Fields → Option Value
get k end = none
get k (field j v fs) = if j == k then some v else get k fs

unfoldable pub put : String → Value → Fields → Fields
put k v end = field k v end
put k v (field j w fs) = if j == k then field k v fs else field j w (put k v fs)

pub get-put :
    (k j : String) (v : Value) (fs : Fields)
    → get j (put k v fs) ≡ (if k == j then some v else get j fs)
unfolding get put
get-put k j v end = refl
get-put k j v (field i w fs) = ground (arith, eq_iff k j, eq_iff i k, eq_iff i j, get-put k j v fs)
