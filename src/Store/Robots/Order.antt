-- ===== src/Store/Robots/Order.antt =====
-- Which task the claim's SELECT finds.
use rpa_group.Prelude.{
  String, true, false, none, some, List, [], ◌≡◌, subst, arith, select, false_of_not,
}
use rpa_group.Prelude.Text.Order.{text_le_refl, text_le_total, text_le_trans}
use rpa_group.Prelude.Tables.Ordered.{
  Elem, All-Elem, Elem-select, select-Elem, head?-order_by, head?-order_by-none,
}
use rpa_group.Store.Rows.{Task}
use rpa_group.Store.Robots.{is_runnable, claimed_before, next_task}

claimed_before_refl : (t : Task) → claimed_before t t ≡ true
claimed_before_refl t = ground (arith, text_le_refl t.created_at)

claimed_before_total : (t u : Task) → claimed_before t u ≡ false → claimed_before u t ≡ true
claimed_before_total t u h = ground (arith, text_le_total t.created_at u.created_at)

claimed_before_trans :
    (t u v : Task)
    → claimed_before t u ≡ true
    → claimed_before u v ≡ true
    → claimed_before t v ≡ true
claimed_before_trans t u v h k =
    ground (arith, text_le_trans t.created_at u.created_at v.created_at)

-- The task that is found can be run, and no task that can be run comes before it: none has a lower
-- rank, and none of its rank was created earlier.
pub next_task-first :
    (now : String) (tasks : List Task) (t : Task)
    → next_task now tasks ≡ some t
    → Elem t tasks
      × (is_runnable now t ≡ true)
      × ((u : Task) → Elem u tasks → is_runnable now u ≡ true → claimed_before t u ≡ true)
unfolding next_task
next_task-first now tasks t h =
    let (there, first) =
      head?-order_by claimed_before claimed_before_refl claimed_before_total claimed_before_trans
        (select (is_runnable now) tasks) t h in
    let (in_table, passes) = Elem-select (is_runnable now) t tasks there in
    (
      in_table,
      passes,
      λ u m r.
          All-Elem (λ y. claimed_before t y ≡ true) u (select (is_runnable now) tasks) first
            (select-Elem (is_runnable now) u tasks m r),
    )

not-Elem_nil : (u : Task) (ts : List Task) → ts ≡ [] → ¬ Elem u ts
not-Elem_nil u ts e m = subst (Elem u) e m

-- Nothing is found only if no task can be run.
pub next_task-none :
    (now : String) (tasks : List Task)
    → next_task now tasks ≡ none
    → (u : Task) → Elem u tasks
    → is_runnable now u ≡ false
unfolding next_task
next_task-none now tasks h u m =
    let nothing =
      head?-order_by-none claimed_before claimed_before_refl claimed_before_total
        claimed_before_trans (select (is_runnable now) tasks) h in
    false_of_not (is_runnable now u) (λ r.
      not-Elem_nil u (select (is_runnable now) tasks) nothing
        (select-Elem (is_runnable now) u tasks m r))
