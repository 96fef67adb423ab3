-- ===== src/Api/Valid/Rules.antt =====
-- The rules by which `search` keeps the tables valid through a handler of the API.
use encodeswarmr.Db.IsValid.{IsValid}
use encodeswarmr.Db.Valid.{table_keeps}
use encodeswarmr.Exec.{Exec, Result, ok, err, Err}
use encodeswarmr.Exec.Keeps.{Keeps, keeps_rules}
use encodeswarmr.Api.Jobs.{Reply, with_found, with_done}

pub with_found-Keeps {ℓ} :
    {A : Type ℓ} (r : Result A) (k : A → Exec Reply)
    → ((a : A) → Keeps IsValid (k a))
    → Keeps IsValid (with_found r k)
with_found-Keeps (ok a) k h = record { at = λ w v. (h a).at w v }
with_found-Keeps (err Err.not_found) k h = record { at = λ w v. v }
with_found-Keeps (err e) k h = record { at = λ w v. v }

pub with_done-Keeps {ℓ} :
    {A : Type ℓ} (r : Result A) (k : A → Exec Reply)
    → ((a : A) → Keeps IsValid (k a))
    → Keeps IsValid (with_done r k)
with_done-Keeps (ok a) k h = record { at = λ w v. (h a).at w v }
with_done-Keeps (err e) k h = record { at = λ w v. v }

pub ruleset api_keeps = (keeps_rules, table_keeps, with_found-Keeps, with_done-Keeps)
