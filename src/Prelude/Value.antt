-- ===== src/Prelude/Value.antt =====
-- The values of a JSON document as Python holds them, and its dicts: `obj` holds the entries in
-- insertion order. Numbers are integers; floats do not occur in what is modelled.
pub mod Dicts
use Prim.Native.Nat.{ℕ, zero, suc, ◌/◌, ◌%◌}
use Prim.Native.String.{String}
use mathlib.Core.Bool.{Bool, true, false}
use mathlib.Core.Option.{Option, none, some}
use mathlib.Core.Path.{◌≡◌}
use text.Mathlib.Text.{◌==◌}
use rpa_group.Prelude.Tests.{ltb, eqb, is_some, if◌then◌else◌}
use rpa_group.Prelude.Text.{join2}

-- `negsuc n` is -(n + 1).
pub data ℤ : Type 0 where
  pos : ℕ → ℤ
  negsuc : ℕ → ℤ

mutual
  -- The entries of a dict, and the items of a list.
  pub data Fields : Type 0 where
    field : String → Value → Fields → Fields
    end : Fields

  pub data Items : Type 0 where
    cons : Value → Items → Items
    nil : Items

  -- None, a Boolean, a number, a text, a list or a dict.
  pub data Value : Type 0 where
    obj : Fields → Value
    arr : Items → Value
    str : String → Value
    int : ℤ → Value
    bool : Bool → Value
    null : Value

-- d.get(key)
abbrev pub get : String → Fields → Option Value
get k end = none
get k (field j v d) = if j == k then some v else get k d

-- key in d
abbrev pub has_key : String → Fields → Bool
has_key k d = is_some (get k d)

-- d[key] = value: a key that is there keeps its place.
abbrev pub put : String → Value → Fields → Fields
put k v end = field k v end
put k v (field j w d) = if j == k then field j v d else field j w (put k v d)

-- d.get(key, default)
abbrev pub get_or : String → Value → Fields → Value
get_or k default d = elim (get k d) [ none ↦ default | some v ↦ v ]

abbrev pub is_obj : Value → Bool
is_obj (obj _) = true
is_obj _ = false

-- bool(value)
abbrev pub truthy : Value → Bool
truthy null = false
truthy (bool b) = b
truthy (int (pos zero)) = false
truthy (int (pos (suc n))) = true
truthy (int (negsuc n)) = true
truthy (str String.[]) = false
truthy (str (String.◌∷◌ c s)) = true
truthy (arr nil) = false
truthy (arr (cons v vs)) = true
truthy (obj end) = false
truthy (obj (field k v d)) = true

-- No key stands twice, as in every Python dict.
abbrev pub HasUniqueKeys : Fields → Type 0
HasUniqueKeys end = Unit
HasUniqueKeys (field k v d) = (has_key k d ≡ false) × HasUniqueKeys d

digit : ℕ → String
digit n =
    if eqb n 0
    then "0"
    else if eqb n 1
    then "1"
    else if eqb n 2
    then "2"
    else if eqb n 3
    then "3"
    else if eqb n 4
    then "4"
    else if eqb n 5
    then "5"
    else if eqb n 6
    then "6"
    else if eqb n 7
    then "7"
    else if eqb n 8
    then "8"
    else "9"

-- The decimal digits of `n` in front of `rest`. Fuel `n + 1` is enough, since `n / 10 < n`.
show_digits : ℕ → ℕ → String → String
show_digits zero n rest = rest
show_digits (suc fuel) n rest =
    let front = show_digits fuel (n / 10) (join2 (digit (n % 10)) rest) in
    if ltb n 10 then join2 (digit n) rest else front

-- str(n)
unfoldable pub show_ℕ : ℕ → String
unfolding show_digits digit
show_ℕ n = show_digits (suc n) n ""

unfoldable pub show_ℤ : ℤ → String
unfolding show_ℕ
show_ℤ (pos n) = show_ℕ n
show_ℤ (negsuc n) = join2 "-" (show_ℕ (suc n))

-- str(value). The text of a list or a dict, which is its repr, is the argument `repr`.
unfoldable pub str_of : (Value → String) → Value → String
unfolding show_ℤ
str_of repr null = "None"
str_of repr (bool true) = "True"
str_of repr (bool false) = "False"
str_of repr (int n) = show_ℤ n
str_of repr (str s) = s
str_of repr (arr vs) = repr (arr vs)
str_of repr (obj d) = repr (obj d)
