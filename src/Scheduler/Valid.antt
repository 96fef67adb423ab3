-- ===== src/Scheduler/Valid.antt =====
-- The scheduler keeps the tables valid, whichever calls of the store fail.
use encodeswarmr.Prelude.{ℕ, inl, inr, List, [], ◌∷◌, Option, Bool-cases, any_of}
use encodeswarmr.Db.Types.{RowId, Schedule}
use encodeswarmr.Db.IsValid.{IsValid}
use encodeswarmr.Db.Schedules.{has_schedule_id, list_due_schedules, mark_schedule_run}
use encodeswarmr.Db.Valid.{table_keeps, IsValid-schedules}
use encodeswarmr.Exec.{Result, ok, err}
use encodeswarmr.Exec.Keeps.{
  StmtKeeps, Keeps, keeps_rules, Keeps-pure, Keeps-bind, Keeps-ignore, Keeps-call,
}
use encodeswarmr.Scheduler.{Cron, mark_run, fire, fire_all, fire_due, tick}

mark_schedule_run-keeps :
    (id : RowId) (last : ℕ) (next : Option ℕ) → StmtKeeps IsValid (mark_schedule_run id last next)
unfolding mark_schedule_run
mark_schedule_run-keeps id last next = record {
  at = λ now db v. elim (Bool-cases (any_of (has_schedule_id id) db.schedules)) [
    | inl e ↦ rw e (IsValid-schedules db _ v)
    | inr e ↦ rw e v
  ];
}

list_due_schedules-keeps : StmtKeeps IsValid list_due_schedules
unfolding list_due_schedules
list_due_schedules-keeps = record { at = λ now db v. v }

mark_run-Keeps : (c : Cron) (s : Schedule) → Keeps IsValid (mark_run c s)
mark_run-Keeps c s = record {
  at = λ w v.
      (Keeps-call _ (mark_schedule_run-keeps s.id w.now (c.next_run s.cron_expr w.now))).at w v;
}

fire-Keeps : (c : Cron) (s : Schedule) → Keeps IsValid (fire c s)
unfolding fire
fire-Keeps c s = search (keeps_rules, table_keeps, mark_run-Keeps) depth 10

fire_all-Keeps : (c : Cron) (ss : List Schedule) → Keeps IsValid (fire_all c ss)
unfolding fire_all
fire_all-Keeps c [] = Keeps-pure tt
fire_all-Keeps c (s ∷ ss) =
    Keeps-bind _ _ (Keeps-ignore _ (fire-Keeps c s)) (λ _. fire_all-Keeps c ss)

fire_due-Keeps : (c : Cron) (r : Result (List Schedule)) → Keeps IsValid (fire_due c r)
fire_due-Keeps c (ok ss) = fire_all-Keeps c ss
fire_due-Keeps c (err e) = Keeps-pure tt

pub tick-Keeps : (c : Cron) → Keeps IsValid (tick c)
unfolding tick
tick-Keeps c = search (keeps_rules, list_due_schedules-keeps, fire_due-Keeps) depth 8
