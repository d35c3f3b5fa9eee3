-- ===== src/Task/Index.antt =====
-- The two maps of the table agree: a task stands under its identifier and under its scoped key.
use distributed_workbench.Base.{
  Str, Option, some, List, ◌≡◌, ◌∷◌, none, arith, Option-cases, inl, [], ◌∙◌, refl, inr,
}
use distributed_workbench.Base.Map.{
  lookup, remove, insert, remove_absent, lookup-insert, lookup-remove,
}
use distributed_workbench.Base.Map.Order.{
  IsSorted, IsKeyed, insert-IsSorted, insert-IsKeyed, lookup-IsKeyed, remove-IsSorted,
  remove-IsKeyed,
}
use distributed_workbench.Schema.Task.{Task}
use distributed_workbench.Task.{TaskTable, scope_of, put}
use distributed_workbench.Task.Pruning.{remove_tasks, forget}

abbrev pub id_of : Task → Str
id_of t = t.id

-- What an index entry `k` finds.
abbrev pub PointsTo : Str → Option Task → Type 0
PointsTo k none = ⊥
PointsTo k (some t) = scope_of t ≡ k

pub record IsIndexed (table : TaskTable) : Type 0 where
  pub sorted : IsSorted table.tasks
  pub keyed : IsKeyed id_of table.tasks
  pub indexed :
      (id : Str) (t : Task)
      → lookup id table.tasks ≡ some t
      → lookup (scope_of t) table.idempotency ≡ some id
  pub pointing :
      (k id : Str) → lookup k table.idempotency ≡ some id → PointsTo k (lookup id table.tasks)

-- A task that is written back with its identifier and its scoped key.
pub put-IsIndexed :
    (table : TaskTable) (id : Str) (t t' : Task)
    → IsIndexed table
    → lookup id table.tasks ≡ some t
    → t'.id ≡ t.id
    → scope_of t' ≡ scope_of t
    → IsIndexed (put table id t')
put-IsIndexed table id t t' v found same_id same_scope = record {
  sorted = insert-IsSorted id t' table.tasks v.sorted;
  keyed =
      insert-IsKeyed id_of id t' table.tasks
        (same_id ∙ lookup-IsKeyed id_of id table.tasks t v.keyed found) v.keyed;
  indexed = λ j u e.
      ground (arith, lookup-insert j id t' table.tasks, v.indexed j u, v.indexed id t found);
  pointing = λ k j e. ground (arith, lookup-insert j id t' table.tasks, v.pointing k j e);
}

-- A new task under an identifier and a scoped key that are both free.
pub insert-IsIndexed :
    (table : TaskTable) (t : Task)
    → IsIndexed table
    → lookup t.id table.tasks ≡ none
    → lookup (scope_of t) table.idempotency ≡ none
    → IsIndexed (record {
      tasks = insert t.id t table.tasks;
      idempotency = insert (scope_of t) t.id table.idempotency;
    })
insert-IsIndexed table t v fresh free = record {
  sorted = insert-IsSorted t.id t table.tasks v.sorted;
  keyed = insert-IsKeyed id_of t.id t table.tasks refl v.keyed;
  indexed = λ j u e. ground (
    arith,
    lookup-insert j t.id t table.tasks,
    lookup-insert (scope_of u) (scope_of t) t.id table.idempotency,
    v.indexed j u,
  );
  pointing = λ k j e. ground (
    arith,
    lookup-insert j t.id t table.tasks,
    lookup-insert k (scope_of t) t.id table.idempotency,
    v.pointing k j,
  );
}

-- A task that goes with its index entry.
pub forget-IsIndexed :
    (table : TaskTable) (id : Str)
    → IsIndexed table
    → IsIndexed (forget (lookup id table.tasks) (record table { tasks = remove id table.tasks }))
forget-IsIndexed table id v = elim (Option-cases (lookup id table.tasks)) [
  | inl e ↦ rw e (rw (remove_absent id table.tasks e) v)
  | inr (t, found) ↦ rw found (record {
    sorted = remove-IsSorted id table.tasks v.sorted;
    keyed = remove-IsKeyed id_of id table.tasks v.keyed;
    indexed = λ j u e. ground (
      arith,
      lookup-remove j id table.tasks,
      lookup-remove (scope_of u) (scope_of t) table.idempotency,
      v.indexed j u,
      v.indexed id t found,
    );
    pointing = λ k j e. ground (
      arith,
      lookup-remove j id table.tasks,
      lookup-remove k (scope_of t) table.idempotency,
      v.pointing k j,
      v.pointing k id,
    );
  })
]

pub remove_tasks-IsIndexed :
    (ids : List Str) (table : TaskTable) → IsIndexed table → IsIndexed (remove_tasks ids table).1
unfolding remove_tasks
remove_tasks-IsIndexed [] table v = v
remove_tasks-IsIndexed (id ∷ ids) table v =
    ground (arith, remove_tasks-IsIndexed ids _ (forget-IsIndexed table id v))
