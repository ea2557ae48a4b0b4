-- ===== src/Store/Context.antt =====
-- `_deep_merge`: the merge of a patch into a task's runtime context.
pub mod Merge
use rpa_group.Prelude.{String, Option, none, some}
use rpa_group.Prelude.Value.{Value, obj, Fields, end, field, get, put}

-- The assignment to `merged[key]`: two dicts are merged, anything else is replaced. `merge_values`
-- is the branch for a value of the patch.
unfoldable mutual
  pub merge_values : Option Value → Value → Value
  merge_values (some (obj current)) (obj patch) = obj (deep_merge current patch)
  merge_values current value = value

  pub deep_merge : Fields → Fields → Fields
  deep_merge merged end = merged
  deep_merge merged (field key value patch) =
      deep_merge (put key (merge_values (get key merged) value) merged) patch
