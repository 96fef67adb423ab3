-- ===== src/Watcher/Again.antt =====
-- A scan once more: it finds nothing new.
use text.Mathlib.Text.{◌==◌ as str_eq}
use text.Mathlib.TextEquality.{eq_iff}
use encodeswarmr.Prelude.{
  ◌≡◌, refl, sym, subst, inl, inr, String, Bool, true, false, List, [], ◌∷◌, none, some, arith,
  Bool-cases, Option-cases, All, any_of, find_first,
}
use encodeswarmr.Db.Types.{Source}
use encodeswarmr.Db.Jobs.{create_job}
use encodeswarmr.Db.Sources.{get_source_by_unc_path, create_source, has_path}
use encodeswarmr.Exec.{World, answering, Result, ok, pure, call, catch, ignore, ◌>>=◌, continue}
use encodeswarmr.Watcher.{
  Files, WatchFolder, schedule_analysis, new_file, process_file, skipped, patterns_of,
  matches_any_pattern, to_unc_path, scan_entries, scan,
}

-- A world in which no call fails.
abbrev Answers : World → Type 0
Answers w = w.faults ≡ []

settled : (w : World) → Answers w → w ≡ answering w
settled w h = λ i. record w { faults = h i }

none-absent :
    (path : String) (ss : List Source)
    → find_first (has_path path) ss ≡ none
    → any_of (has_path path) ss ≡ false
unfolding find_first any_of
none-absent path [] h = refl
none-absent path (s ∷ ss) h = ground (arith, none-absent path ss)

module _ (fs : Files) (f : WatchFolder) where
  -- A file that is processed is seen.
  process_answering :
      (name : String) (seen : List String) (w : World)
      → ((process_file fs f name seen (answering w)).0 ≡ ok (fs.join f.path name ∷ seen))
        × Answers (process_file fs f name seen (answering w)).1
  unfolding process_file new_file schedule_analysis get_source_by_unc_path create_source create_job
      call catch ignore pure ◌>>=◌
  process_answering name seen w =
      elim (Option-cases (find_first (has_path (to_unc_path fs f name)) w.db.sources)) [
        | inl e ↦ elim (Bool-cases f.auto_analyze) [
          | inl b ↦ rw (e, none-absent (to_unc_path fs f name) w.db.sources e, b) (refl, refl)
          | inr b ↦ rw (e, none-absent (to_unc_path fs f name) w.db.sources e, b) (refl, refl)
        ]
        | inr (s, e) ↦ rw e (refl, refl)
      ]

  -- The paths seen only become more.
  abbrev Grows : List String → List String → Type 0
  Grows seen seen' = (p : String) → any_of (str_eq p) seen ≡ true → any_of (str_eq p) seen' ≡ true

  skipped-Grows :
      (seen seen' : List String) (e : String × Bool)
      → Grows seen seen'
      → skipped fs f seen e ≡ true
      → skipped fs f seen' e ≡ true
  unfolding matches_any_pattern
  skipped-Grows seen seen' (name, true) g h = refl
  skipped-Grows seen seen' (name, false) g h =
      elim (Bool-cases (matches_any_pattern fs name (patterns_of f))) [
        | inl e ↦ rw e (g (fs.join f.path name) (rw e at h))
        | inr e ↦ rw e refl
      ]

  seen_now :
      (seen : List String) (e : String × Bool) → skipped fs f (fs.join f.path e.0 ∷ seen) e ≡ true
  unfolding any_of
  seen_now seen (name, true) = refl
  seen_now seen (name, false) = elim (Bool-cases (matches_any_pattern fs name (patterns_of f))) [
    | inl e ↦ rw (e, (eq_iff (fs.join f.path name) (fs.join f.path name)).1 refl) refl
    | inr e ↦ rw e refl
  ]

  Grows-cons : (path : String) (seen : List String) → Grows seen (path ∷ seen)
  unfolding any_of
  Grows-cons path seen p h = ground arith

  -- What a scan leaves behind in a world that answers.
  abbrev Settles : List (String × Bool) → List String → Result (List String) × World → Type 0
  Settles es seen r =
      (seen' : List String) × (r.0 ≡ ok seen')
      × Answers r.1
      × Grows seen seen'
      × All (λ e. skipped fs f seen' e ≡ true) es

  after_file :
      (e : String × Bool) (es : List (String × Bool)) (seen : List String)
      (r : Result (List String)) (w : World)
      → r ≡ ok (fs.join f.path e.0 ∷ seen)
      → Answers w
      → Settles es
          (fs.join f.path e.0 ∷ seen)
          (scan_entries fs f es (fs.join f.path e.0 ∷ seen) (answering w))
      → Settles (e ∷ es) seen (continue r (scan_entries fs f es) w)
  after_file e es seen r w q a (s, k, b, g, all) =
      let path = fs.join f.path e.0 in
      let grown : Grows seen s = λ p h. g p (Grows-cons path seen p h) in
      let settles : Settles (e ∷ es) seen (scan_entries fs f es (path ∷ seen) (answering w)) =
        (s, k, b, grown, (skipped-Grows (path ∷ seen) s e g (seen_now seen e), all)) in
      rw q (
        subst (λ v. Settles (e ∷ es) seen (scan_entries fs f es (path ∷ seen) v))
          (sym (settled w a)) settles)

  scan_entries-Settles :
      (es : List (String × Bool)) (seen : List String) (w : World)
      → Settles es seen (scan_entries fs f es seen (answering w))
  unfolding scan_entries pure ◌>>=◌
  scan_entries-Settles [] seen w = (seen, refl, refl, (λ p h. h), tt)
  scan_entries-Settles (e ∷ es) seen w = elim (Bool-cases (skipped fs f seen e)) [
    | inl k ↦
        let (s, r, a, g, all) = scan_entries-Settles es seen w in
        rw k (s, r, a, g, (skipped-Grows seen s e g k, all))
    | inr k ↦
        let m = process_file fs f e.0 seen (answering w) in
        let (q, a) = process_answering e.0 seen w in
        rw k (
          after_file e es seen m.0 m.1 q a
            (scan_entries-Settles es (fs.join f.path e.0 ∷ seen) m.1))
  ]

  over_all :
      (es : List (String × Bool)) (seen : List String) (w : World)
      → All (λ e. skipped fs f seen e ≡ true) es
      → scan_entries fs f es seen w ≡ (ok seen, w)
  unfolding scan_entries pure
  over_all [] seen w all = refl
  over_all (e ∷ es) seen w all = rw all.0 (over_all es seen w all.1)

-- With a store that answers, a scan of a folder ends, and another scan of the same folder right
-- behind it changes nothing: no source and no job is made twice.
pub scan-again :
    (fs : Files) (f : WatchFolder) (es : List (String × Bool)) (seen : List String) (w : World)
    → let r = scan fs f (some es) seen (answering w) in
      (seen' : List String) × (r.0 ≡ ok seen') × (scan fs f (some es) seen' r.1 ≡ (ok seen', r.1))
unfolding scan
scan-again fs f es seen w =
    let (s, k, b, g, all) = scan_entries-Settles fs f es seen w in (s, k, over_all fs f es s _ all)
