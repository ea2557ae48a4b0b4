-- ===== src/Integrations/Answers.antt =====
-- How the clients read an answer.
use rpa_group.Prelude.{
  String, is_empty, if◌then◌else◌, type_error, attribute_error, Result, ok, err,
}
use rpa_group.Prelude.Value.{
  Value, null, bool, int, str, arr, obj, Items, nil, Fields, end, field, get_or, put, truthy, pos,
  str_of,
}

-- d.update(e)
abbrev pub update : Fields → Fields → Fields
update d end = d
update d (field k v e) = update (put k v d) e

-- What `for row in value` goes through, where each item is then asked with `get`: the characters of
-- a text and the keys of a dict have no such method.
abbrev pub rows_of : Value → Result Items
rows_of (arr vs) = ok vs
rows_of (str s) = if is_empty s then ok nil else err (attribute_error "get")
rows_of (obj end) = ok nil
rows_of (obj (field k v d)) = err (attribute_error "get")
rows_of null = err (type_error "iter")
rows_of (bool b) = err (type_error "iter")
rows_of (int n) = err (type_error "iter")

-- The value if it is a dict, and {} if it is not.
abbrev pub dict_or_empty : Value → Fields
dict_or_empty (obj d) = d
dict_or_empty _ = end

-- `value or 0`
abbrev pub or_zero : Value → Value
or_zero v = if truthy v then v else int (pos 0)

-- str(d.get(key, ""))
unfoldable pub text_of : (Value → String) → String → Fields → String
text_of repr key d = str_of repr (get_or key (str "") d)
