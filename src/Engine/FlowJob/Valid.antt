-- ===== src/Engine/FlowJob/Valid.antt =====
-- The expansion of flows, and of all pending jobs, keeps the tables valid, whichever calls of the
-- store fail.
use encodeswarmr.Prelude.{ℕ, String, List, [], ◌∷◌}
use encodeswarmr.Db.Types.{RowId, Job, TaskType, Source, Variables}
use encodeswarmr.Db.IsValid.{IsValid}
use encodeswarmr.Db.Valid.{table_keeps}
use encodeswarmr.Exec.Keeps.{StmtKeeps, Keeps, keeps_rules, Keeps-pure, Keeps-bind}
use encodeswarmr.Engine.Float.{Float}
use encodeswarmr.Engine.Condition.{Reals}
use encodeswarmr.Engine.Walk.{TaskStep}
use encodeswarmr.Engine.Expand.{Engine}
use encodeswarmr.Engine.Expand.Valid.{finish_expansion-Keeps, fail_job-Keeps, mark_failed-Keeps}
use encodeswarmr.Engine.FlowJob.{
  Flows, StepKind, get_template, template_vars, notify, add_task, expand_kind, expand_steps,
  get_flow, get_summary, expand_flow_job, kind_of,
}

ruleset store_keeps = (keeps_rules, table_keeps, fail_job-Keeps, mark_failed-Keeps)

module _ (fl : Float) (rs : Reals) (fs : Flows) (e : Engine fl) where
  template-keeps : (id : String) → StmtKeeps IsValid (get_template fl rs fs e id)
  template-keeps id = record { at = λ now db v. v }

  flow-keeps : (id : RowId) → StmtKeeps IsValid (get_flow fl rs fs e id)
  flow-keeps id = record { at = λ now db v. v }

  summary-keeps : (id : RowId) → StmtKeeps IsValid (get_summary fl rs fs e id)
  summary-keeps id = record { at = λ now db v. v }

  template_vars-Keeps :
      (t : TaskStep) (vars : Variables) → Keeps IsValid (template_vars fl rs fs e t vars)
  unfolding template_vars
  template_vars-Keeps t vars = search (store_keeps, template-keeps) depth 10

  notify-Keeps :
      (job : Job) (source : Source) (t : TaskStep) → Keeps IsValid (notify fl rs fs e job source t)
  unfolding notify
  notify-Keeps job source t = search store_keeps depth 6

  add_task-Keeps :
      (job : Job) (source : Source) (index : ℕ) (ty : TaskType) (vars : Variables)
      → Keeps IsValid (add_task fl rs fs e job source index ty vars)
  unfolding add_task
  add_task-Keeps job source index ty vars = search store_keeps depth 10

  expand_kind-Keeps :
      (job : Job) (source : Source) (index : ℕ) (t : TaskStep) (k : StepKind)
      → Keeps IsValid (expand_kind fl rs fs e job source index t k)
  unfolding expand_kind
  expand_kind-Keeps job source index t StepKind.webhook = search (store_keeps, notify-Keeps) depth 8
  expand_kind-Keeps job source index t StepKind.condition = Keeps-pure index
  expand_kind-Keeps job source index t (StepKind.twopass x264) =
      search (store_keeps, add_task-Keeps) depth 8
  expand_kind-Keeps job source index t StepKind.template_run =
      search (store_keeps, add_task-Keeps, template_vars-Keeps) depth 8
  expand_kind-Keeps job source index t k = add_task-Keeps job source index _ _

  expand_steps-Keeps :
      (job : Job) (source : Source) (index : ℕ) (ts : List TaskStep)
      → Keeps IsValid (expand_steps fl rs fs e job source index ts)
  unfolding expand_steps
  expand_steps-Keeps job source index [] = Keeps-pure tt
  expand_steps-Keeps job source index (t ∷ ts) =
      Keeps-bind _ _ (expand_kind-Keeps job source index t (kind_of t.node_type))
        (λ next. expand_steps-Keeps job source next ts)

  pub expand_flow_job-Keeps : (job : Job) → Keeps IsValid (expand_flow_job fl rs fs e job)
  unfolding expand_flow_job
  expand_flow_job-Keeps job =
      search (store_keeps, flow-keeps, summary-keeps, expand_steps-Keeps, finish_expansion-Keeps)
        depth 20
