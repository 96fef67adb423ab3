-- ===== src/Db/Claim/Laws.antt =====
-- What ClaimNextTask hands out.
use mathlib.Core.List.{Memᴰ}
use encodeswarmr.Prelude.{
  Bool, ◌&&◌, ℕ, ◌≡◌, refl, ◌⊎◌, inl, inr, String, true, false, List, [], ◌∷◌, Option, none, some,
  if◌then◌else◌, arith, Bool-cases, All, count_if,
}
use encodeswarmr.Db.Types.{Task, Job}
use encodeswarmr.Db.Claim.{eligible, before, best_of, next_task}
use encodeswarmr.Db.Claim.Order.{before_irrefl, before_asymm, before_trans}

-- No eligible task of the list comes before `t`.
abbrev pub NoneBefore : ℕ → List String → List Job → Task → List Task → Type 0
NoneBefore now tags jobs t = All (λ u. (eligible now tags jobs u && before jobs u t) ≡ false)

-- A task of the list that may be claimed, and that none of the others precedes.
pub record IsNext (now : ℕ) (tags : List String) (jobs : List Job) (ts : List Task) (t : Task)
    : Type 0 where
  pub in_table : Memᴰ t ts
  pub is_eligible : eligible now tags jobs t ≡ true
  pub none_before : NoneBefore now tags jobs t ts

not_before : (e a b : Bool) → (a ≡ false → b ≡ false) → (e && a) ≡ false → (e && b) ≡ false
not_before true a b f h = f h
not_before false a b f h = refl

never : (e b : Bool) → b ≡ false → (e && b) ≡ false
never true b h = h
never false b h = refl

NoneBefore-trans :
    (now : ℕ) (tags : List String) (jobs : List Job) (u t : Task) (ts : List Task)
    → before jobs u t ≡ false
    → NoneBefore now tags jobs u ts
    → NoneBefore now tags jobs t ts
NoneBefore-trans now tags jobs u t [] h n = tt
NoneBefore-trans now tags jobs u t (v ∷ ts) h n = (
  not_before (eligible now tags jobs v) (before jobs v u) (before jobs v t)
      (λ k. before_trans jobs v u t k h) n.0,
  NoneBefore-trans now tags jobs u t ts h n.1,
)

-- What a search of a list finds: nothing, if no task is eligible, or the next one.
abbrev pub Finds : ℕ → List String → List Job → List Task → Option Task → Type 0
Finds now tags jobs ts o =
    ((o ≡ none) × (count_if (eligible now tags jobs) ts ≡ 0))
    ⊎ ((t : Task) × (o ≡ some t) × IsNext now tags jobs ts t)

NoneBefore-of-count :
    (now : ℕ) (tags : List String) (jobs : List Job) (t : Task) (ts : List Task)
    → count_if (eligible now tags jobs) ts ≡ 0
    → NoneBefore now tags jobs t ts
unfolding count_if
NoneBefore-of-count now tags jobs t [] h = tt
NoneBefore-of-count now tags jobs t (u ∷ ts) h = elim (Bool-cases (eligible now tags jobs u)) [
  | inl e ↦ absurd (omega (arith, rw e at h))
  | inr e ↦ (rw e refl, NoneBefore-of-count now tags jobs t ts (rw e at h))
]

-- The head of a list, eligible, is next when nothing behind it is eligible.
head-IsNext :
    (now : ℕ) (tags : List String) (jobs : List Job) (t : Task) (ts : List Task)
    → eligible now tags jobs t ≡ true
    → NoneBefore now tags jobs t ts
    → IsNext now tags jobs (t ∷ ts) t
head-IsNext now tags jobs t ts e n = record {
  in_table = Memᴰ.head refl;
  is_eligible = e;
  none_before = (never (eligible now tags jobs t) (before jobs t t) (before_irrefl jobs t), n);
}

-- The next task behind a head that does not precede it.
tail-IsNext :
    (now : ℕ) (tags : List String) (jobs : List Job) (t u : Task) (ts : List Task)
    → IsNext now tags jobs ts u
    → (eligible now tags jobs t && before jobs t u) ≡ false
    → IsNext now tags jobs (t ∷ ts) u
tail-IsNext now tags jobs t u ts n h = record {
  in_table = Memᴰ.tail n.in_table;
  is_eligible = n.is_eligible;
  none_before = (h, n.none_before);
}

-- An eligible head against the best of the rest.
best_of-IsNext :
    (now : ℕ) (tags : List String) (jobs : List Job) (t : Task) (ts : List Task) (o : Option Task)
    → eligible now tags jobs t ≡ true
    → Finds now tags jobs ts o
    → IsNext now tags jobs (t ∷ ts) (best_of jobs t o)
best_of-IsNext now tags jobs t ts o e (inl (eo, c)) =
    rw eo (head-IsNext now tags jobs t ts e (NoneBefore-of-count now tags jobs t ts c))
best_of-IsNext now tags jobs t ts o e (inr (u, eo, n)) = elim (Bool-cases (before jobs u t)) [
  | inl b ↦
      rw (eo, b)
        (tail-IsNext now tags jobs t u ts n
          (never (eligible now tags jobs t) (before jobs t u) (before_asymm jobs u t b)))
  | inr b ↦
      rw (eo, b)
        (head-IsNext now tags jobs t ts e (NoneBefore-trans now tags jobs u t ts b n.none_before))
]

next_task_step :
    (now : ℕ) (tags : List String) (jobs : List Job) (t : Task) (ts : List Task) (o : Option Task)
    → Finds now tags jobs ts o
    → Finds now tags jobs (t ∷ ts) (if eligible now tags jobs t then some (best_of jobs t o) else o)
unfolding count_if
next_task_step now tags jobs t ts o f = elim (Bool-cases (eligible now tags jobs t)) [
  | inl e ↦ inr (best_of jobs t o, (rw e refl), best_of-IsNext now tags jobs t ts o e f)
  | inr e ↦ elim f [
    | inl (eo, c) ↦ inl ((rw e eo), (rw e c))
    | inr (u, eo, n) ↦ inr (u, (rw e eo), tail-IsNext now tags jobs t u ts n (rw e refl))
  ]
]

pub next_task-Finds :
    (now : ℕ) (tags : List String) (jobs : List Job) (ts : List Task)
    → Finds now tags jobs ts (next_task now tags jobs ts)
unfolding next_task count_if
next_task-Finds now tags jobs [] = inl (refl, refl)
next_task-Finds now tags jobs (t ∷ ts) =
    next_task_step now tags jobs t ts (next_task now tags jobs ts)
      (next_task-Finds now tags jobs ts)
