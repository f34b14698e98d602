-- ===== src/BackupRun/Runner/Exclusion.antt =====
-- No project is backed up by two runs at once.
use back_orbit.Base.{
  Bool, true, false, none, some, List, [], ◌∷◌, Bytes, ◌==◌, if◌then◌else◌, ok, ◌≡◌, arith, Any,
  All, inl, inr, sym, subst, Option-cases, Bool-cases,
}
use back_orbit.Base.Assoc.{Assoc, lookup, insert, remove, lookup-insert, lookup-remove}
use back_orbit.Base.Text.{bytes_eq, bytes_beq_iff}
use back_orbit.BackupRun.Runner.{Runner, activate, cancel, release, reserve}

-- A run is live from its reservation to its release.
pub record System : Type 0 where
  pub runner : Runner
  pub live : List (Bytes × Bytes)

abbrev pub is_other : Bytes → Bytes → Bytes × Bytes → Bool
is_other project run (p, r) = if p == project then (if r == run then false else true) else true

-- One live run less.
unfoldable pub without : Bytes → Bytes → List (Bytes × Bytes) → List (Bytes × Bytes)
without project run [] = []
without project run (x ∷ xs) =
    let rest = without project run xs in if is_other project run x then x ∷ rest else rest

abbrev pub IsLive : Bytes → Bytes → System → Type 0
IsLive project run s = Any (λ x. x ≡ (project, run)) s.live

infix 20 ◌⟶◌
-- The steps that the calls of the runner take, in any order. A new run has a new id.
pub data ◌⟶◌ : System → System → Type 0 where
  reserved :
      (s : System) (project run : Bytes) (t : Runner)
      → reserve project run s.runner ≡ ok t
      → s ⟶ record { runner = t; live = (project, run) ∷ s.live }
  activated :
      (s : System) (project run : Bytes)
      → IsLive project run s
      → s ⟶ record s { runner = activate run s.runner }
  cancelled :
      (s : System) (run : Bytes) (t : Runner)
      → cancel run s.runner ≡ some t
      → s ⟶ record s { runner = t }
  -- a failed insertion, or the end of the run's goroutine
  released :
      (s : System) (project run : Bytes)
      → IsLive project run s
      → s ⟶ record { runner = release project run s.runner; live = without project run s.live }

pub data Reachable : System → Type 0 where
  start : Reachable (record { runner = record { active = []; by_project = [] }; live = [] })
  step : (s t : System) → Reachable s → s ⟶ t → Reachable t

-- The map knows each live run.
abbrev pub Known : Assoc Bytes Bytes → List (Bytes × Bytes) → Type 0
Known m = All (λ x. lookup x.0 m ≡ some x.1)

Known-lookup :
    (m : Assoc Bytes Bytes) (project run : Bytes) (xs : List (Bytes × Bytes))
    → Known m xs
    → Any (λ x. x ≡ (project, run)) xs
    → lookup project m ≡ some run
Known-lookup m project run [] h here = elim here [ ]
Known-lookup m project run (x ∷ xs) h (inl e) = subst (λ y. lookup y.0 m ≡ some y.1) e h.0
Known-lookup m project run (x ∷ xs) h (inr later) = Known-lookup m project run xs h.1 later

Known-insert :
    (m : Assoc Bytes Bytes) (project run : Bytes) (xs : List (Bytes × Bytes))
    → lookup project m ≡ none
    → Known m xs
    → Known (insert project run m) xs
Known-insert m project run [] n h = tt
Known-insert m project run ((p, r) ∷ xs) n h = (
  rw (lookup-insert project p run m) (ground (arith, bytes_beq_iff project p, n, h.0)),
  Known-insert m project run xs n h.1,
)

kept :
    (m : Assoc Bytes Bytes) (project run p r : Bytes)
    → lookup project m ≡ some run
    → lookup p m ≡ some r
    → is_other project run (p, r) ≡ true
    → lookup p (remove project m) ≡ some r
kept m project run p r n h o =
    rw (lookup-remove project p m) (
      ground
        (arith, bytes_beq_iff project p, bytes_beq_iff p project, bytes_beq_iff r run, n, h, o))

Known-without :
    (m : Assoc Bytes Bytes) (project run : Bytes) (xs : List (Bytes × Bytes))
    → lookup project m ≡ some run
    → Known m xs
    → Known (remove project m) (without project run xs)
unfolding without
Known-without m project run [] n h = tt
Known-without m project run ((p, r) ∷ xs) n h = elim (Bool-cases (is_other project run (p, r))) [
  | inl e ↦ rw e (kept m project run p r n h.0 e, Known-without m project run xs n h.1)
  | inr e ↦ rw e (Known-without m project run xs n h.1)
]

lookup-inserted :
    (project run : Bytes) (m : Assoc Bytes Bytes) → lookup project (insert project run m) ≡ some run
lookup-inserted project run m =
    rw (lookup-insert project project run m) (ground (arith, bytes_beq_iff project project))

Known-activate :
    (run : Bytes) (s : System)
    → Known s.runner.by_project s.live
    → Known (activate run s.runner).by_project s.live
unfolding activate
Known-activate run s h = h

pub reserve-by_project :
    (project run : Bytes) (s t : Runner)
    → reserve project run s ≡ ok t
    → (lookup project s.by_project ≡ none) × (t.by_project ≡ insert project run s.by_project)
unfolding reserve
reserve-by_project project run s t e = elim (Option-cases (lookup project s.by_project)) [
  | inl n ↦ (n, ground (arith, n, e))
  | inr (x, n) ↦ ground (arith, n, e)
]

cancel-by_project :
    (run : Bytes) (s t : Runner) → cancel run s ≡ some t → t.by_project ≡ s.by_project
unfolding cancel
cancel-by_project run s t e = ground (arith, e)

pub release-by_project :
    (project run : Bytes) (s : Runner)
    → lookup project s.by_project ≡ some run
    → (release project run s).by_project ≡ remove project s.by_project
unfolding release
release-by_project project run s n = ground (arith, n, bytes_beq_iff run run)

Known-step :
    (s t : System) → s ⟶ t → Known s.runner.by_project s.live → Known t.runner.by_project t.live
Known-step s _ (reserved _ project run t e) h =
    let (n, m) = reserve-by_project project run s.runner t e in
    subst (λ b. Known b ((project, run) ∷ s.live)) (sym m)
      (
        lookup-inserted project run s.runner.by_project,
        Known-insert s.runner.by_project project run s.live n h,
      )
Known-step s _ (activated _ project run l) h = Known-activate run s h
Known-step s _ (cancelled _ run t e) h =
    subst (λ b. Known b s.live) (sym (cancel-by_project run s.runner t e)) h
Known-step s _ (released _ project run l) h =
    let n = Known-lookup s.runner.by_project project run s.live h l in
    subst (λ b. Known b (without project run s.live))
      (sym (release-by_project project run s.runner n))
      (Known-without s.runner.by_project project run s.live n h)

Known-reachable : (s : System) → Reachable s → Known s.runner.by_project s.live
Known-reachable _ start = tt
Known-reachable _ (step s t r e) = Known-step s t e (Known-reachable s r)

-- In every state that the calls can reach, in whatever order, two live runs of one project are one
-- run.
pub live_unique :
    (s : System) (project run other : Bytes)
    → Reachable s
    → IsLive project run s
    → IsLive project other s
    → run ≡ other
live_unique s project run other r l m =
    let h = Known-reachable s r in
    let a : lookup project s.runner.by_project ≡ some run = Known-lookup _ project run s.live h l in
    let b : lookup project s.runner.by_project ≡ some other =
      Known-lookup _ project other s.live h m in
    cc (a, b)
