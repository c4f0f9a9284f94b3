-- ===== src/Sys/Process/Reap.antt =====
-- Which child a wait reaps, and when a wait parks.
use edge_libos.Kernel.{ChildExitStatus, Kernel}
use edge_libos.Base.{
  Bool-cases, List, Option, Option-cases, [], ap, arith, false, inl, inr, none, refl, some, subst,
  sym, true, ℕ, ℤ, ◌==◌, ◌∙◌, ◌∷◌, ◌≡◌, ◌≢◌,
}
use edge_libos.Map.{contains_key, contains_key-get, get, get-remove, remove}
use edge_libos.Sys.Process.{Children, find_exited, pick, remove_child, target_of, try_reap}

abbrev pub children_of : Kernel → Children
children_of k = k.process_state.children

-- What `try_reap` picked and what is left.
pub record Reaped (cs : Children) (pid : ℤ) (r : Children × ℕ × ℕ) : Type 0 where
  pub child : ChildExitStatus
  pub was_child : get r.1 cs ≡ some child
  pub had_exited : child.exited ≡ true
  pub code : r.2 ≡ child.exit_code
  pub gone : get r.1 r.0 ≡ none
  pub others : (q : ℕ) → q ≢ r.1 → get q r.0 ≡ get q cs
  pub wanted : (p : ℕ) → target_of pid ≡ some p → r.1 ≡ p

-- A child with this number has exited.
abbrev HasExited : Children → ℕ → Type 0
HasExited cs p = (c : ChildExitStatus) × (get p cs ≡ some c) × (c.exited ≡ true)

-- No two entries have the same number.
abbrev pub IsMap {ℓ} : {V : Type ℓ} → List (ℕ × V) → Type 0
IsMap [] = Unit
IsMap ((p, v) ∷ m) = (contains_key p m ≡ false) × IsMap m

find_exited-HasExited :
    (cs : Children) (p : ℕ) → IsMap cs → find_exited cs ≡ some p → HasExited cs p
unfolding find_exited
find_exited-HasExited [] p m h = absurd (cc)
find_exited-HasExited ((q, c) ∷ cs) p m h = elim (Bool-cases c.exited) [
  | inl exited ↦ let same : q ≡ p = ground (arith, exited) in (c, ground (arith, same), exited)
  | inr alive ↦
      let (d, there, exited) = find_exited-HasExited cs p m.1 (ground (arith, alive)) in
      (d, ground (arith, m.0, there, contains_key-get q cs), exited)
]

find_exited-none : (cs : Children) (p : ℕ) → find_exited cs ≡ none → ¬ HasExited cs p
unfolding find_exited
find_exited-none [] p h (c, there, exited) = cc
find_exited-none ((q, d) ∷ cs) p h (c, there, exited) = elim (Bool-cases d.exited) [
  | inl gone ↦ ground (arith, gone)
  | inr alive ↦ elim (Bool-cases (q == p)) [
    | inl same ↦ ground (arith, same, alive, there, exited)
    | inr other ↦
        find_exited-none cs p (ground (arith, alive)) (c, ground (arith, other, there), exited)
  ]
]

pick-HasExited :
    (cs : Children) (t : Option ℕ) (p : ℕ) → IsMap cs → pick cs t ≡ some p → HasExited cs p
unfolding pick
pick-HasExited cs none p m h = find_exited-HasExited cs p m h
pick-HasExited cs (some q) p m h = elim (Option-cases (get q cs)) [
  | inl gone ↦ absurd (ground (arith, gone))
  | inr (c, there) ↦ elim (Bool-cases c.exited) [
    | inl exited ↦
        let same : q ≡ p = ground (arith, there, exited) in
        (c, ap (λ n. get n cs) (sym same) ∙ there, exited)
    | inr alive ↦ absurd (ground (arith, there, alive))
  ]
]

pick-wanted : (cs : Children) (q p : ℕ) → pick cs (some q) ≡ some p → p ≡ q
unfolding pick
pick-wanted cs q p h = elim (Option-cases (get q cs)) [
  | inl gone ↦ absurd (ground (arith, gone))
  | inr (c, there) ↦ ground (arith, there)
]

pub try_reap-pick :
    (cs : Children) (pid : ℤ) (p : ℕ) (c : ChildExitStatus)
    → pick cs (target_of pid) ≡ some p
    → get p cs ≡ some c
    → try_reap cs pid ≡ some (remove p cs, p, c.exit_code)
unfolding try_reap remove_child
try_reap-pick cs pid p c h there = rw (h, there, try_reap, remove_child) refl

pick-Reaped :
    (cs : Children) (pid : ℤ) (p : ℕ)
    → IsMap cs
    → pick cs (target_of pid) ≡ some p
    → (c : ChildExitStatus) × Reaped cs pid (remove p cs, p, c.exit_code)
      × (try_reap cs pid ≡ some (remove p cs, p, c.exit_code))
pick-Reaped cs pid p m h =
    let (c, there, exited) = pick-HasExited cs (target_of pid) p m h in
    (
      c,
      record {
        child = c;
        was_child = there;
        had_exited = exited;
        code = refl;
        gone = ground (arith, get-remove p p cs);
        others = λ q n. ground (arith, get-remove p q cs);
        wanted = λ q w. pick-wanted cs q p (rw w at h);
      },
      try_reap-pick cs pid p c h there,
    )

pub try_reap-none :
    (cs : Children) (pid : ℤ) → pick cs (target_of pid) ≡ none → try_reap cs pid ≡ none
unfolding try_reap
try_reap-none cs pid h = rw (h, try_reap) refl

-- A child that the request would take.
abbrev pub IsCandidate : Children → ℤ → ℕ → Type 0
IsCandidate cs pid p = HasExited cs p × ((q : ℕ) → target_of pid ≡ some q → p ≡ q)

pick-none :
    (cs : Children) (t : Option ℕ) (p : ℕ)
    → pick cs t ≡ none
    → ((q : ℕ) → t ≡ some q → p ≡ q)
    → ¬ HasExited cs p
unfolding pick
pick-none cs none p h w e = find_exited-none cs p h e
pick-none cs (some q) p h w (c, there, exited) =
    let same = w q refl in ground (arith, same, there, exited)

abbrev pub ReapOutcome : Children → ℤ → Option (Children × ℕ × ℕ) → Type 0
ReapOutcome cs pid none = (p : ℕ) → ¬ IsCandidate cs pid p
ReapOutcome cs pid (some r) = Reaped cs pid r

-- `try_reap`, on a table of children without double entries: it takes out one child that had
-- exited, the wanted one if the caller named one, with its exit code, and leaves all others; or it
-- takes none, and then no child that the caller would accept had exited.
pub try_reap-ReapOutcome :
    (cs : Children) (pid : ℤ) → IsMap cs → ReapOutcome cs pid (try_reap cs pid)
try_reap-ReapOutcome cs pid m = elim (Option-cases (pick cs (target_of pid))) [
  | inl nothing ↦
      let failed : try_reap cs pid ≡ none = try_reap-none cs pid nothing in
      subst (ReapOutcome cs pid) (sym failed)
        (λ p c. pick-none cs (target_of pid) p nothing c.1 c.0)
  | inr (p, h) ↦
      let (c, reaped, e) = pick-Reaped cs pid p m h in subst (ReapOutcome cs pid) (sym e) reaped
]
