-- ===== src/Db/Valid/Sources.antt =====
-- The statements on sources keep the tables valid.
use encodeswarmr.Prelude.{
  suc, ◌<◌, ◌≡◌, refl, inl, inr, false, List, [], ◌∷◌, ◌++◌, arith, String, ℤ, Bool-cases, All,
  All-append, All-update_where, Distinct-append_one, Distinct-update_where, any_of,
}
use encodeswarmr.Db.Types.{RowId, Source, SourceState, Db}
use encodeswarmr.Exec.Keeps.{StmtKeeps}
use encodeswarmr.Db.Sources.{
  CreateSourceParams, has_source_id, has_path, new_source, create_source, get_source_by_id,
  get_source_by_unc_path, update_source_or_missing, update_source_hdr, update_source_state,
  update_source_watch,
}
use encodeswarmr.Db.IsValid.{IsValid, same_source_id, same_path}
use encodeswarmr.Db.Valid.Tasks.{All-rows, All-given, All-below, IsAgentTable-suc}
use encodeswarmr.Db.Valid.Agents.{str_eq_sym}

fresh_source :
    (n : RowId) (s : Source) (ss : List Source)
    → s.id ≡ n
    → All (λ t. t.id < n) ss
    → any_of (same_source_id s) ss ≡ false
unfolding any_of
fresh_source n s [] e h = refl
fresh_source n s (t ∷ ts) e h = ground (arith, fresh_source n s ts e h.1)

insert_source-IsValid :
    (s : Source) (db : Db)
    → s.id ≡ db.next_id
    → any_of (has_path s.unc_path) db.sources ≡ false
    → IsValid db
    → IsValid (record db { sources = db.sources ++ s ∷ []; next_id = suc db.next_id })
insert_source-IsValid s db e free v = record {
  task_ids_given = All-given db.next_id db.tasks v.task_ids_given;
  task_ids_distinct = v.task_ids_distinct;
  slots_distinct = v.slots_distinct;
  jobs_rows = All-rows db.next_id db.jobs v.jobs_rows;
  job_ids_distinct = v.job_ids_distinct;
  agent_table = IsAgentTable-suc db.next_id db.agents v.agent_table;
  source_table = record {
    given =
        All-append (λ t. t.id < suc db.next_id) db.sources (s ∷ [])
          (All-below (λ t. t.id) db.next_id db.sources v.source_table.given) (omega arith, tt);
    ids_distinct =
        Distinct-append_one same_source_id db.sources s (λ a b. ground arith)
          (fresh_source db.next_id s db.sources e v.source_table.given) v.source_table.ids_distinct;
    paths_distinct =
        Distinct-append_one same_path db.sources s (λ a b. str_eq_sym b.unc_path a.unc_path) free
          v.source_table.paths_distinct;
  };
}

pub create_source-keeps : (p : CreateSourceParams) → StmtKeeps IsValid (create_source p)
unfolding create_source new_source
create_source-keeps p = record {
  at = λ now db v. elim (Bool-cases (any_of (has_path p.unc_path) db.sources)) [
    | inl e ↦ rw e v
    | inr e ↦ rw e (insert_source-IsValid (new_source p db.next_id) db refl e v)
  ];
}

pub get_source_by_id-keeps : (id : RowId) → StmtKeeps IsValid (get_source_by_id id)
unfolding get_source_by_id
get_source_by_id-keeps id = record { at = λ now db v. v }

pub get_source_by_unc_path-keeps : (p : String) → StmtKeeps IsValid (get_source_by_unc_path p)
unfolding get_source_by_unc_path
get_source_by_unc_path-keeps p = record { at = λ now db v. v }

-- An update of a source that leaves its identifier and its path alone.
update_source_or_missing-IsValid :
    (id : RowId) (f : Source → Source) (db : Db)
    → ((s : Source) → (f s).id ≡ s.id)
    → ((s : Source) → (f s).unc_path ≡ s.unc_path)
    → IsValid db
    → IsValid (update_source_or_missing id f db).1
unfolding update_source_or_missing
update_source_or_missing-IsValid id f db same kept v =
    elim (Bool-cases (any_of (has_source_id id) db.sources)) [
      | inl e ↦ rw e (record {
        task_ids_given = v.task_ids_given;
        task_ids_distinct = v.task_ids_distinct;
        slots_distinct = v.slots_distinct;
        jobs_rows = v.jobs_rows;
        job_ids_distinct = v.job_ids_distinct;
        agent_table = v.agent_table;
        source_table = record {
          given =
              All-update_where (λ s. s.id < db.next_id) (has_source_id id) f db.sources
                (λ s _ h. rw (same s) h) v.source_table.given;
          ids_distinct =
              Distinct-update_where same_source_id (has_source_id id) f db.sources
                (λ a b. rw (same a)) (λ a b. rw (same b)) v.source_table.ids_distinct;
          paths_distinct =
              Distinct-update_where same_path (has_source_id id) f db.sources (λ a b. rw (kept a))
                (λ a b. rw (kept b)) v.source_table.paths_distinct;
        };
      })
      | inr e ↦ rw e v
    ]

pub update_source_hdr-keeps :
    (id : RowId) (h : String) (p : ℤ) → StmtKeeps IsValid (update_source_hdr id h p)
unfolding update_source_hdr
update_source_hdr-keeps id h p = record {
  at = λ now db v. update_source_or_missing-IsValid id _ db (λ s. refl) (λ s. refl) v;
}

pub update_source_state-keeps :
    (id : RowId) (st : SourceState) → StmtKeeps IsValid (update_source_state id st)
unfolding update_source_state
update_source_state-keeps id st = record {
  at = λ now db v. update_source_or_missing-IsValid id _ db (λ s. refl) (λ s. refl) v;
}

pub update_source_watch-keeps :
    (id : RowId) (f c : String) → StmtKeeps IsValid (update_source_watch id f c)
unfolding update_source_watch
update_source_watch-keeps id f c = record {
  at = λ now db v. update_source_or_missing-IsValid id _ db (λ s. refl) (λ s. refl) v;
}

pub ruleset source_keeps = (
  create_source-keeps, get_source_by_id-keeps, get_source_by_unc_path-keeps,
  update_source_hdr-keeps, update_source_state-keeps, update_source_watch-keeps,
)
