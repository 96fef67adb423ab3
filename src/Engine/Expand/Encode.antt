-- ===== src/Engine/Expand/Encode.antt =====
-- internal/controller/engine/expand.go, expandEncodeJob: a task for each chunk of the frames, and
-- one that concatenates their outputs.
use encodeswarmr.Prelude.{
  ℕ, suc, ℤ, pos, ◌+ℤ◌, ltbℤ, pos_part, neg_part, String, Bool, true, false, ◌&&◌, List, [], ◌∷◌,
  Option, none, some, ◌==◌, if◌then◌else◌, length,
}
use encodeswarmr.Prelude.Text.{join, decimal_4}
use encodeswarmr.Db.Types.{
  RowId, TaskType, Job, ChunkBoundary, ChunkingConfig, Source, Agent, AgentStatus,
}
use encodeswarmr.Db.Tasks.{create_task, set_task_script_dir}
use encodeswarmr.Db.Sources.{get_source_by_id}
use encodeswarmr.Exec.{
  Exec, Stmt, Result, ok, err, pure, call, catch, or_fail, outside, ◌>>=◌, ◌>>◌,
}
use encodeswarmr.Engine.Float.{Float}
use encodeswarmr.Engine.Chunks.{compute_adaptive_chunks}
use encodeswarmr.Engine.Expand.{
  Engine, extension, mark_failed, task_params, create_with_scripts, finish_expansion,
}

-- a.Status != "idle" && a.Status != "busy" is skipped.
abbrev pub takes_work : AgentStatus → Bool
takes_work AgentStatus.idle = true
takes_work AgentStatus.busy = true
takes_work _ = false

-- The largest EndFrame + 1, and at least `total`.
unfoldable pub max_end : ℤ → List ChunkBoundary → ℤ
max_end total [] = total
max_end total (b ∷ bs) =
    max_end (if ltbℤ total (b.end_frame +ℤ pos 1) then b.end_frame +ℤ pos 1 else total) bs

unfoldable pub last_end : ℤ → List ChunkBoundary → ℤ
last_end total [] = total
last_end total (b ∷ bs) = last_end (b.end_frame +ℤ pos 1) bs

abbrev pub is_zero : ℤ → Bool
is_zero z = pos_part z == 0 && neg_part z == 0

unfoldable pub total_frames : ChunkingConfig → List ChunkBoundary → ℤ
unfolding max_end last_end
total_frames chunking bs =
    let total = max_end (pos 0) bs in
    if is_zero total && ltbℤ (pos 0) chunking.chunk_size_frames then last_end total bs else total

abbrev pub with_boundaries : Job → List ChunkBoundary → Job
with_boundaries job bs = record job {
  encode_config = record job.encode_config { chunk_boundaries = bs };
}

module _ (fl : Float) where
  open fl use {F, zero_f}

  -- ListAgents, ordered by name.
  unfoldable pub insert_by_name : Engine fl → Agent → List Agent → List Agent
  insert_by_name e a [] = a ∷ []
  insert_by_name e a (b ∷ bs) =
      let later = b ∷ insert_by_name e a bs in
      if e.name_before b.name a.name then later else a ∷ b ∷ bs

  unfoldable pub sort_by_name : Engine fl → List Agent → List Agent
  unfolding insert_by_name
  sort_by_name e [] = []
  sort_by_name e (a ∷ rest) = insert_by_name e a (sort_by_name e rest)

  unfoldable pub list_agents : Engine fl → Stmt (List Agent)
  unfolding sort_by_name
  list_agents e now db = (ok (sort_by_name e db.agents), db)

  -- GetAgentAvgFPS, and 0 in case of an error.
  unfoldable pub get_agent_avg_fps : Engine fl → RowId → Stmt F
  get_agent_avg_fps e id now db = (ok (e.avg_fps id), db)

  abbrev pub fps_or_zero : Result F → F
  fps_or_zero (ok fps) = fps
  fps_or_zero (err x) = zero_f

  unfoldable pub collect_fps : Engine fl → List Agent → Exec (List F)
  unfolding get_agent_avg_fps
  collect_fps e [] = pure []
  collect_fps e (a ∷ others) =
      let rest = collect_fps e others in
      let with_this = (do
        fps ← catch (call (get_agent_avg_fps e a.id))
        more ← rest
        pure (fps_or_zero fps ∷ more)) in
      if takes_work a.status then with_this else rest

  -- The boundaries that the agents' speeds give, where they give any.
  abbrev pub nonempty_or : Job → List ChunkBoundary → Job
  nonempty_or job [] = job
  nonempty_or job (b ∷ bs) = with_boundaries job (b ∷ bs)

  unfoldable pub rebound : Job → ChunkingConfig → List F → Job
  unfolding total_frames compute_adaptive_chunks
  rebound job chunking fps =
      let total = total_frames chunking job.encode_config.chunk_boundaries in
      if ltbℤ (pos 0) total
      then nonempty_or job (compute_adaptive_chunks fl fps (pos_part total))
      else job

  abbrev pub adapt_to : Engine fl → Job → ChunkingConfig → Result (List Agent) → Exec Job
  adapt_to e job chunking (ok agents) = do
    fps ← collect_fps e agents
    pure (rebound job chunking fps)
  adapt_to e job chunking (err x) = pure job

  abbrev pub adapt_config : Engine fl → Job → Option ChunkingConfig → Exec Job
  adapt_config e job none = pure job
  adapt_config e job (some chunking) =
      if chunking.adaptive_chunking
      then (do agents ← catch (call (list_agents e)); adapt_to e job chunking agents)
      else pure job

  unfoldable pub adapt : Engine fl → Job → Exec Job
  unfolding list_agents collect_fps rebound
  adapt e job = adapt_config e job job.encode_config.chunking_config

  abbrev pub chunk_output : Engine fl → Job → ℕ → String
  chunk_output e job i = join (
      job.encode_config.output_root
      ∷ "\\"
      ∷ e.uuid_text job.id
      ∷ "\\chunk_"
      ∷ decimal_4 i
      ∷ "."
      ∷ extension job
      ∷ [])

  abbrev pub final_output : Engine fl → Job → String
  final_output e job =
      join (
        job.encode_config.output_root
        ∷ "\\"
        ∷ e.uuid_text job.id
        ∷ "\\output."
        ∷ extension job
        ∷ [])

  -- The loop over the chunks, from chunk `i` on; the answer is the list of their outputs.
  unfoldable pub create_chunks :
      Engine fl → Job → Source → ℕ → List ChunkBoundary → Exec (List String)
  unfolding create_with_scripts join decimal_4
  create_chunks e job source i [] = pure []
  create_chunks e job source i (b ∷ bs) = do
    create_with_scripts job.id (task_params job source i TaskType.encode (chunk_output e job i) [])
        (λ task. e.render job task source)
    rest ← create_chunks e job source (suc i) bs
    pure (chunk_output e job i ∷ rest)

  -- The concat task; its scripts are written only for agents to run. An error fails the job, and
  -- leaves the tasks.
  unfoldable pub create_concat : Engine fl → Job → Source → ℕ → List String → Exec (Unit {0})
  unfolding mark_failed join
  create_concat e job source n paths = do
    task ←
        or_fail
          (call (create_task (task_params job source n TaskType.concat (final_output e job) [])))
          (mark_failed job.id)
    if e.has_concat then pure tt else (do
      dir ←
          or_fail (outside (e.render_concat job task paths (final_output e job)))
            (mark_failed job.id)
      or_fail (call (set_task_script_dir task.id dir)) (mark_failed job.id))

  unfoldable pub expand_chunks : Engine fl → Job → Exec (Unit {0})
  unfolding create_chunks create_concat finish_expansion
  expand_chunks e job =
      let bs = job.encode_config.chunk_boundaries in
      if length bs == 0 then pure tt else (do
        source ← call (get_source_by_id job.source_id)
        paths ← create_chunks e job source 0 bs
        create_concat e job source (length bs) paths
        finish_expansion job.id)

  unfoldable pub expand_encode_job : Engine fl → Job → Exec (Unit {0})
  unfolding adapt expand_chunks
  expand_encode_job e job = do adapted ← adapt e job; expand_chunks e adapted
