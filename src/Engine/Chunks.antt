-- ===== src/Engine/Chunks.antt =====
-- internal/controller/engine/expand.go, computeAdaptiveChunks: the frames of a source dealt out to
-- the agents by their speed.
pub mod Cover
pub mod Sizes
use encodeswarmr.Prelude.{
  ℕ, ◌+◌, ◌/◌, ℤ, pos, ◌+ℤ◌, ◌-ℤ◌, ltbℤ, Bool, true, false, List, [], ◌∷◌, ltb, if◌then◌else◌,
}
use encodeswarmr.Db.Types.{ChunkBoundary}
use encodeswarmr.Engine.Float.{Float}

abbrev pub min_chunk : ℕ
min_chunk = 500

abbrev pub max_chunk : ℕ → ℕ
max_chunk total_frames =
    let half = total_frames / 2 in if ltb half min_chunk then min_chunk else half

-- The three clamps, in the order of the source.
unfoldable pub clamp_size : ℕ → ℤ → ℤ → ℤ
clamp_size total_frames remaining size =
    let s1 = if ltbℤ size (pos min_chunk) then pos min_chunk else size in
    let s2 = if ltbℤ (pos (max_chunk total_frames)) s1 then pos (max_chunk total_frames) else s1 in
    if ltbℤ (remaining -ℤ pos min_chunk) s2 then remaining -ℤ pos min_chunk else s2

abbrev pub boundary : ℤ → ℤ → ChunkBoundary
boundary start size = record { start_frame = start; end_frame = (start +ℤ size) -ℤ pos 1 }

module _ (fl : Float) where
  open fl use {F, zero_f, one_f, add_f, mul_f, div_f, le_f, of_int, round_int}

  -- An unknown speed counts as 1.
  abbrev pub weight : F → F
  weight fps = if le_f fps zero_f then one_f else fps

  unfoldable pub total_weight : F → List F → F
  total_weight acc [] = acc
  total_weight acc (fps ∷ rest) = total_weight (add_f acc (weight fps)) rest

  -- int(math.Round(float64(totalFrames) * w / total))
  unfoldable pub share : ℕ → F → F → ℤ
  share total_frames total fps =
      round_int (div_f (mul_f (of_int (pos total_frames)) (weight fps)) total)

  -- The loop: the last agent gets what remains.
  unfoldable pub chunks_from : ℕ → F → List F → ℤ → ℤ → List ChunkBoundary
  unfolding share clamp_size
  chunks_from total_frames total [] start remaining = []
  chunks_from total_frames total (fps ∷ []) start remaining = boundary start remaining ∷ []
  chunks_from total_frames total (fps ∷ (next ∷ rest)) start remaining =
      let size = clamp_size total_frames remaining (share total_frames total fps) in
      boundary start size
      ∷ chunks_from total_frames total (next ∷ rest) (start +ℤ size) (remaining -ℤ size)

  unfoldable pub compute_adaptive_chunks : List F → ℕ → List ChunkBoundary
  unfolding chunks_from total_weight
  compute_adaptive_chunks agent_fps total_frames =
      chunks_from total_frames (total_weight zero_f agent_fps) agent_fps (pos 0) (pos total_frames)
