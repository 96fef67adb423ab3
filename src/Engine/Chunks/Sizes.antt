-- ===== src/Engine/Chunks/Sizes.antt =====
-- How long the chunks of computeAdaptiveChunks are.
use encodeswarmr.Prelude.{
  ℕ, ◌≤◌, ◌<◌, ℤ, pos, negsuc, ◌+ℤ◌, ◌-ℤ◌, ◌≤ℤ◌, -ℤ_parts, List, [], ◌∷◌, arith, int_laws, All,
}
use encodeswarmr.Db.Types.{ChunkBoundary}
use encodeswarmr.Engine.Float.{Float}
use encodeswarmr.Engine.Chunks.{
  min_chunk, max_chunk, clamp_size, boundary, share, chunks_from, total_weight,
  compute_adaptive_chunks,
}

-- With enough frames left for the last agent, the size that is cut off is not negative, is at most
-- the largest chunk, and leaves the smallest chunk over.
clamp_size_bounds :
    (total_frames : ℕ) (remaining size : ℤ)
    → pos min_chunk ≤ℤ remaining
    → let c = clamp_size total_frames remaining size in
      (pos 0 ≤ℤ c) × (c ≤ℤ pos (max_chunk total_frames)) × (pos min_chunk ≤ℤ (remaining -ℤ c))
unfolding clamp_size
clamp_size_bounds total_frames remaining size h = ground (
  arith,
  -ℤ_parts remaining (pos min_chunk),
  -ℤ_parts remaining (remaining -ℤ pos min_chunk),
  -ℤ_parts remaining size,
  -ℤ_parts remaining (pos min_chunk),
  -ℤ_parts remaining (pos (max_chunk total_frames)),
)

-- A chunk that begins at a frame of the source and ends no earlier than one frame before.
abbrev pub IsChunk : ChunkBoundary → Type 0
IsChunk b = (pos 0 ≤ℤ b.start_frame) × (b.start_frame ≤ℤ (b.end_frame +ℤ pos 1))

boundary-IsChunk : (start size : ℤ) → pos 0 ≤ℤ start → pos 0 ≤ℤ size → IsChunk (boundary start size)
boundary-IsChunk start size h k = (h, omega int_laws)

plus_pos : (a b : ℤ) → pos 0 ≤ℤ a → pos 0 ≤ℤ b → pos 0 ≤ℤ (a +ℤ b)
plus_pos a b h k = omega int_laws

le_zero_of_min : (a : ℤ) → pos min_chunk ≤ℤ a → pos 0 ≤ℤ a
le_zero_of_min a h = omega arith

abbrev pub FirstEndsBefore : ℤ → List ChunkBoundary → Type 0
FirstEndsBefore z [] = ⊥
FirstEndsBefore z (b ∷ bs) = (b.end_frame +ℤ pos 1) ≤ℤ z

clamp_size_short :
    (total_frames : ℕ) (size : ℤ)
    → total_frames < min_chunk
    → (clamp_size total_frames (pos total_frames) size) ≤ℤ negsuc 0
unfolding clamp_size
clamp_size_short total_frames size h = ground (arith, -ℤ_parts (pos total_frames) (pos min_chunk))

before_zero : (z : ℤ) → z ≤ℤ negsuc 0 → (((pos 0 +ℤ z) -ℤ pos 1) +ℤ pos 1) ≤ℤ negsuc 0
before_zero z h = omega int_laws

module _ (fl : Float) where
  open fl use {F}

  chunks_from-IsChunk :
      (total_frames : ℕ) (total : F) (fps : F) (rest : List F) (start remaining : ℤ)
      → pos 0 ≤ℤ start
      → pos min_chunk ≤ℤ remaining
      → All IsChunk (chunks_from fl total_frames total (fps ∷ rest) start remaining)
  unfolding chunks_from
  chunks_from-IsChunk total_frames total fps [] start remaining h k =
      (boundary-IsChunk start remaining h (le_zero_of_min remaining k), tt)
  chunks_from-IsChunk total_frames total fps (next ∷ rest) start remaining h k =
      let size = clamp_size total_frames remaining (share fl total_frames total fps) in
      let b = clamp_size_bounds total_frames remaining (share fl total_frames total fps) k in
      (
        boundary-IsChunk start size h b.0,
        chunks_from-IsChunk total_frames total next rest (start +ℤ size) (remaining -ℤ size)
            (plus_pos start size h b.0) b.2,
      )

  pub compute_adaptive_chunks-IsChunk :
      (total_frames : ℕ) (fps : F) (rest : List F)
      → min_chunk ≤ total_frames
      → All IsChunk (compute_adaptive_chunks fl (fps ∷ rest) total_frames)
  unfolding compute_adaptive_chunks
  compute_adaptive_chunks-IsChunk total_frames fps rest h =
      chunks_from-IsChunk total_frames _ fps rest (pos 0) (pos total_frames) (omega arith)
        (omega arith)

  -- Below 500 frames and with two agents or more, the first chunk ends before frame -1: its length
  -- is negative, whatever the speeds and the rounding.
  pub compute_adaptive_chunks_short :
      (total_frames : ℕ) (fps next : F) (rest : List F)
      → total_frames < min_chunk
      → FirstEndsBefore (negsuc 0) (compute_adaptive_chunks fl (fps ∷ next ∷ rest) total_frames)
  unfolding compute_adaptive_chunks chunks_from
  compute_adaptive_chunks_short total_frames fps next rest h = before_zero _ (
      clamp_size_short total_frames
        (share fl total_frames (total_weight fl fl.zero_f (fps ∷ next ∷ rest)) fps) h)
