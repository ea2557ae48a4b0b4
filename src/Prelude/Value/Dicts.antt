-- ===== src/Prelude/Value/Dicts.antt =====
-- The laws of `get` and `put` on dicts.
use Prim.Native.String.{String}
use mathlib.Core.Path.{◌≡◌, refl, ap}
use mathlib.Core.Option.{none, some}
use native.Mathlib.Omega.{arith}
use package.text.Mathlib.Text.{◌==◌}
use package.text.Mathlib.TextEquality.{eq_iff}
use rpa_group.Prelude.Tests.{if◌then◌else◌}
use rpa_group.Prelude.Value.{Value, Fields, end, field, get, get_or, put, HasUniqueKeys}

pub get-put :
    (k j : String) (v : Value) (d : Fields)
    → get j (put k v d) ≡ (if k == j then some v else get j d)
get-put k j v end = refl
get-put k j v (field i w d) = ground (arith, eq_iff i k, eq_iff i j, eq_iff k j, get-put k j v d)

-- Writing what is there changes nothing.
pub put_same : (k : String) (v : Value) (d : Fields) → get k d ≡ some v → put k v d ≡ d
put_same k v end h = cc
put_same k v (field i w d) h = ground (arith, eq_iff i k, put_same k v d)

pub put-HasUniqueKeys :
    (k : String) (v : Value) (d : Fields) → HasUniqueKeys d → HasUniqueKeys (put k v d)
put-HasUniqueKeys k v end h = (refl, tt)
put-HasUniqueKeys k v (field i w d) h =
    ground (arith, eq_iff i k, eq_iff k i, get-put k i v d, put-HasUniqueKeys k v d h.1)

pub get_or_found :
    (k : String) (default v : Value) (d : Fields) → get k d ≡ some v → get_or k default d ≡ v
get_or_found k default v d h = ap (λ o. elim o [ none ↦ default | some w ↦ w ]) h
