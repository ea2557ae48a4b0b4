-- ===== src/Store/Context/Merge.antt =====
-- What a merged context holds.
use rpa_group.Prelude.{
  String, ◌≡◌, refl, sym, ap, ap₂, ◌∙◌, if_true, if_false, false, Option, none, some, arith, ◌==◌,
  eq_iff, Bool-cases, inl, inr,
}
use rpa_group.Prelude.Value.{Value, Fields, end, field, get, has_key, put, HasUniqueKeys}
use rpa_group.Prelude.Value.Dicts.{get-put, put-HasUniqueKeys}
use rpa_group.Store.Context.{merge_values, deep_merge}

-- What stands under a key after the merge, from what stood there in the two dicts.
abbrev pub merged_entry : Option Value → Option Value → Option Value
merged_entry current none = current
merged_entry current (some value) = some (merge_values current value)

absent : (k : String) (d : Fields) → has_key k d ≡ false → get k d ≡ none
absent k d h = ground arith

-- One entry of the patch, and the rest of it by `ih`.
get-merge_field :
    (j k : String) (v : Value) (b p : Fields)
    → has_key k p ≡ false
    → let put_first = put k (merge_values (get k b) v) b in
      get j (deep_merge put_first p) ≡ merged_entry (get j put_first) (get j p)
      → get j (deep_merge put_first p) ≡ merged_entry (get j b) (get j (field k v p))
get-merge_field j k v b p fresh ih = elim (Bool-cases (k == j)) [
  | inl e ↦
      let same = (eq_iff k j).0 e in
      rw e (
        ih
        ∙ ap₂ merged_entry (get-put k j (merge_values (get k b) v) b ∙ if_true _ _ e)
            (ap (λ i. get i p) (sym same) ∙ absent k p fresh)
        ∙ ap (λ i. some (merge_values (get i b) v)) same)
  | inr e ↦ rw e (
      ih
      ∙ ap (λ o. merged_entry o (get j p))
          (get-put k j (merge_values (get k b) v) b ∙ if_false _ _ e))
]

get-deep_merge_of :
    (j : String) (b p : Fields)
    → HasUniqueKeys p
    → get j (deep_merge b p) ≡ merged_entry (get j b) (get j p)
unfolding deep_merge
get-deep_merge_of j b end u = refl
get-deep_merge_of j b (field k v p) u =
    get-merge_field j k v b p u.0 (get-deep_merge_of j (put k (merge_values (get k b) v) b) p u.1)

-- After the merge of a patch whose keys are distinct, a key of the patch holds the merge of the old
-- value with the patch's (two dicts are merged in turn, any other value is replaced), and every
-- other key what it held.
get-deep_merge :
    (key : String) (base patch : Fields)
    → HasUniqueKeys patch
    → get key (deep_merge base patch) ≡ merged_entry (get key base) (get key patch)
get-deep_merge = get-deep_merge_of

-- The merge of a patch into a dict whose keys are distinct is one again.
pub deep_merge-HasUniqueKeys :
    (base patch : Fields) → HasUniqueKeys base → HasUniqueKeys (deep_merge base patch)
unfolding deep_merge
deep_merge-HasUniqueKeys b end u = u
deep_merge-HasUniqueKeys b (field k v p) u =
    deep_merge-HasUniqueKeys (put k (merge_values (get k b) v) b) p
      (put-HasUniqueKeys k (merge_values (get k b) v) b u)
