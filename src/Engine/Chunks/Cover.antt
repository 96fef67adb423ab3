-- ===== src/Engine/Chunks/Cover.antt =====
-- The chunks of computeAdaptiveChunks cover the frames, each once and in order.
use encodeswarmr.Prelude.{
  ℕ, ◌≤◌, ◌≤ℤ◌, ◌≡◌, refl, subst, All, ℤ, pos, ◌+ℤ◌, ◌-ℤ◌, List, [], ◌∷◌, int_laws,
}
use encodeswarmr.Db.Types.{ChunkBoundary}
use encodeswarmr.Engine.Float.{Float}
use encodeswarmr.Engine.Chunks.Sizes.{IsChunk, compute_adaptive_chunks-IsChunk}
use encodeswarmr.Engine.Chunks.{
  min_chunk, clamp_size, share, chunks_from, total_weight, compute_adaptive_chunks,
}

-- The chunks run from the first frame up to the last, each beginning behind the end of the one before
-- it, and ending no earlier than one frame before it begins.
abbrev pub Covers : ℤ → ℤ → List ChunkBoundary → Type 0
Covers first last [] = first ≡ last +ℤ pos 1
Covers first last (b ∷ bs) =
    (b.start_frame ≡ first)
    × (first ≤ℤ (b.end_frame +ℤ pos 1))
    × Covers (b.end_frame +ℤ pos 1) last bs

-- The same, for chunks of any length.
abbrev Joins : ℤ → ℤ → List ChunkBoundary → Type 0
Joins first last [] = first ≡ last +ℤ pos 1
Joins first last (b ∷ bs) = (b.start_frame ≡ first) × Joins (b.end_frame +ℤ pos 1) last bs

Joins-Covers :
    (first last : ℤ) (bs : List ChunkBoundary)
    → Joins first last bs
    → All IsChunk bs
    → Covers first last bs
Joins-Covers first last [] j h = j
Joins-Covers first last (b ∷ bs) j h = (
  j.0,
  subst (λ z. z ≤ℤ (b.end_frame +ℤ pos 1)) j.0 h.0.1,
  Joins-Covers (b.end_frame +ℤ pos 1) last bs j.1 h.1,
)

behind_chunk : (start size : ℤ) → ((start +ℤ size) -ℤ pos 1) +ℤ pos 1 ≡ start +ℤ size
behind_chunk start size = omega int_laws

behind_last :
    (start remaining size : ℤ)
    → (((start +ℤ size) +ℤ (remaining -ℤ size)) -ℤ pos 1) ≡ (start +ℤ remaining) -ℤ pos 1
behind_last start remaining size = omega int_laws

zero_plus : (n : ℕ) → pos 0 +ℤ pos n ≡ pos n
zero_plus n = omega int_laws

module _ (fl : Float) where
  open fl use {F}

  chunks_from-Joins :
      (total_frames : ℕ) (total : F) (fps : F) (rest : List F) (start remaining : ℤ)
      → Joins start
          ((start +ℤ remaining) -ℤ pos 1)
          (chunks_from fl total_frames total (fps ∷ rest) start remaining)
  unfolding chunks_from
  chunks_from-Joins total_frames total fps [] start remaining = (refl, refl)
  chunks_from-Joins total_frames total fps (next ∷ rest) start remaining =
      let size = clamp_size total_frames remaining (share fl total_frames total fps) in
      (
        refl,
        rw (behind_chunk start size, ← behind_last start remaining size)
            (chunks_from-Joins total_frames total next rest (start +ℤ size) (remaining -ℤ size)),
      )

  all_frames :
      (total_frames : ℕ) (fps : F) (rest : List F)
      → Joins
          (pos 0)
          (pos total_frames -ℤ pos 1)
          (compute_adaptive_chunks fl (fps ∷ rest) total_frames)
  unfolding compute_adaptive_chunks
  all_frames total_frames fps rest = rw zero_plus at (
      chunks_from-Joins total_frames (total_weight fl fl.zero_f (fps ∷ rest)) fps rest (pos 0)
        (pos total_frames))

  -- From 500 frames on and for at least one agent, whatever the speeds and the rounding, the chunks
  -- cover exactly the frames from 0 to the last one, in order and with no gap and no overlap. A
  -- chunk may be empty.
  pub compute_adaptive_chunks-Covers :
      (total_frames : ℕ) (fps : F) (rest : List F)
      → min_chunk ≤ total_frames
      → Covers
          (pos 0)
          (pos total_frames -ℤ pos 1)
          (compute_adaptive_chunks fl (fps ∷ rest) total_frames)
  compute_adaptive_chunks-Covers total_frames fps rest h =
      Joins-Covers (pos 0) (pos total_frames -ℤ pos 1) _ (all_frames total_frames fps rest)
        (compute_adaptive_chunks-IsChunk fl total_frames fps rest h)
