-- ===== src/Db/Claim/Order.antt =====
-- The order in which ClaimNextTask looks at the tasks is a weak order.
use encodeswarmr.Prelude.{ℕ, ◌≡◌, ℤ, true, false, List, arith}
use encodeswarmr.Db.Types.{Task, Job}
use encodeswarmr.Db.Claim.{job_of, ranks_before, before, job_priority, job_created}

ranks_before_irrefl : (p : ℤ) (c i : ℕ) → ranks_before p c i p c i ≡ false
ranks_before_irrefl p c i = ground arith

ranks_before_asymm :
    (p q : ℤ) (c d i j : ℕ) → ranks_before p c i q d j ≡ true → ranks_before q d j p c i ≡ false
ranks_before_asymm p q c d i j h = ground arith

ranks_before_trans :
    (p q r : ℤ) (c d e i j k : ℕ)
    → ranks_before p c i q d j ≡ false
    → ranks_before q d j r e k ≡ false
    → ranks_before p c i r e k ≡ false
ranks_before_trans p q r c d e i j k h g = ground arith

abbrev prio : List Job → Task → ℤ
prio jobs t = job_priority (job_of jobs t)

abbrev created : List Job → Task → ℕ
created jobs t = job_created (job_of jobs t)

pub before_irrefl : (jobs : List Job) (t : Task) → before jobs t t ≡ false
unfolding before
before_irrefl jobs t = ranks_before_irrefl (prio jobs t) (created jobs t) t.chunk_index

pub before_asymm : (jobs : List Job) (t u : Task) → before jobs t u ≡ true → before jobs u t ≡ false
unfolding before
before_asymm jobs t u =
    ranks_before_asymm (prio jobs t) (prio jobs u) (created jobs t) (created jobs u) t.chunk_index
      u.chunk_index

-- What is not before the second is not before the third.
pub before_trans :
    (jobs : List Job) (t u v : Task)
    → before jobs t u ≡ false
    → before jobs u v ≡ false
    → before jobs t v ≡ false
unfolding before
before_trans jobs t u v =
    ranks_before_trans (prio jobs t) (prio jobs u) (prio jobs v) (created jobs t) (created jobs u)
      (created jobs v) t.chunk_index u.chunk_index v.chunk_index
