-- ===== src/Engine/Scaling/Cooldown.antt =====
-- Calls that ask for more agents keep their distance.
use encodeswarmr.Prelude.{
  ℕ, ◌≡◌, inl, inr, ℤ, pos, ltbℤ, ◌+ℤ◌, ◌≤ℤ◌, true, not, ◌&&◌, List, [], ◌∷◌, Option, none, some,
  arith, ◌==◌, Bool-cases,
}
use encodeswarmr.Engine.Scaling.{
  AutoScalingConfig, AutoScalingHook, ScalePayload, cooled, is_off, check,
}

-- A tick of the engine's loop: the time, and what the tables show.
pub record Tick : Type 0 where
  pub now : ℕ
  pub pending : ℕ
  pub active : ℕ
  pub idle : ℕ

abbrev if_up : Option ScalePayload → ℕ → List ℕ → List ℕ
if_up (some (ScalePayload.scale_up p a)) now rest = now ∷ rest
if_up _ now rest = rest

-- The times of the calls that ask for more agents, over a run of ticks.
unfoldable pub ups : AutoScalingConfig → AutoScalingHook → List Tick → List ℕ
ups cfg h [] = []
ups cfg h (t ∷ ts) =
    let (p, h') = check cfg t.now t.pending t.active t.idle h in if_up p t.now (ups cfg h' ts)

-- Each call comes a cooldown, or more, after the one before it.
abbrev pub Spaced : ℤ → Option ℕ → List ℕ → Type 0
Spaced c last [] = Unit
Spaced c none (t ∷ ts) = Spaced c (some t) ts
Spaced c (some u) (t ∷ ts) = ((pos u +ℤ c) ≤ℤ pos t) × Spaced c (some t) ts

after_cooldown :
    (c : ℤ) (u now : ℕ) → not (ltbℤ (pos now) (pos u +ℤ c)) ≡ true → (pos u +ℤ c) ≤ℤ pos now
after_cooldown c u now h = ground arith

Spaced-step :
    (c : ℤ) (now : ℕ) (last : Option ℕ) (ts : List ℕ)
    → cooled c now last ≡ true
    → Spaced c (some now) ts
    → Spaced c last (now ∷ ts)
Spaced-step c now none ts h s = s
Spaced-step c now (some u) ts h s = (after_cooldown c u now h, s)

-- The calls for more agents over any run of the engine's loop, with a configuration that stays the
-- same, are a cooldown or more apart, whatever the tables show.
pub ups-Spaced :
    (cfg : AutoScalingConfig) (h : AutoScalingHook) (ts : List Tick)
    → Spaced cfg.cooldown_seconds h.last_scale_up (ups cfg h ts)
unfolding ups check
ups-Spaced cfg h [] = tt
ups-Spaced cfg h (t ∷ ts) = elim (Bool-cases (is_off cfg)) [
  | inl off ↦ rw off (ups-Spaced cfg h ts)
  | inr on ↦ elim (Bool-cases (ltbℤ cfg.scale_up_threshold (pos t.pending) && t.idle == 0)) [
    | inl busy ↦ elim (Bool-cases (cooled cfg.cooldown_seconds t.now h.last_scale_up)) [
      | inl c ↦
          rw (on, busy, c)
            (Spaced-step cfg.cooldown_seconds t.now h.last_scale_up _ c
              (ups-Spaced cfg (record h { last_scale_up = some t.now }) ts))
      | inr c ↦ rw (on, busy, c) (ups-Spaced cfg h ts)
    ]
    | inr calm ↦
        elim (Bool-cases (
          ltbℤ cfg.scale_down_threshold (pos t.idle)
          && cooled cfg.cooldown_seconds t.now h.last_scale_down)) [
            | inl down ↦
                rw (on, calm, down) (ups-Spaced cfg (record h { last_scale_down = some t.now }) ts)
            | inr same ↦ rw (on, calm, same) (ups-Spaced cfg h ts)
          ]
  ]
]
