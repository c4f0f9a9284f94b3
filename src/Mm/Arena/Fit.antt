-- ===== src/Mm/Arena/Fit.antt =====
-- What the best-fit search returns: a hole in which the request fits, with the least waste.
use mathlib.Core.List.{append-nil, append_assoc}
use edge_libos.Base.{
  All, All-append, All-mono, Bool-cases, List, [], arith, get_or, get_or-append_left,
  get_or-append_length, inl, inr, length, length-append, ltb, none, refl, some, subst, ℕ, ◌%◌, ◌++◌,
  ◌+◌, ◌-◌, ◌<◌, ◌∷◌, ◌≡◌, ◌≤◌,
}
use edge_libos.Mm.Arena.{Best, align_up, best_fit, better, consider}

-- Rounding up by a positive alignment: the least multiple that is not below.
pub align_up-le : (x align : ℕ) → 0 < align → x ≤ align_up x align
unfolding align_up
align_up-le x align h = grind arith

pub align_up-mod : (x align : ℕ) → 0 < align → align_up x align % align ≡ 0
unfolding align_up
align_up-mod x align h = grind arith

-- The request fits in the hole at the hole's first aligned offset.
abbrev pub Fits : ℕ → ℕ → ℕ × ℕ → Type 0
Fits len align (off, hlen) = align_up off align - off + len ≤ hlen

abbrev pub waste : ℕ → ℕ → ℕ × ℕ → ℕ
waste len align (off, hlen) = hlen - len - (align_up off align - off)

-- `best` is the best hole of `es`, if one fits at all.
abbrev pub Chosen : ℕ → ℕ → List (ℕ × ℕ) → Best → Type 0
Chosen len align es none = All (λ e. ¬ Fits len align e) es
Chosen len align es (some (i, o, w)) =
    (i < length es)
    × (o ≡ align_up (get_or es i (0, 0)).0 align)
    × Fits len align (get_or es i (0, 0))
    × All (λ e. Fits len align e → w ≤ waste len align e) es
    × (w ≡ waste len align (get_or es i (0, 0)))

module _ (len align : ℕ) where
  take-Chosen :
      (es : List (ℕ × ℕ)) (e : ℕ × ℕ) (w : ℕ)
      → Fits len align e
      → w ≡ waste len align e
      → All (λ d. Fits len align d → w ≤ waste len align d) es
      → Chosen len align (es ++ e ∷ []) (some (length es, align_up e.0 align, w))
  take-Chosen es e w f h all = rw (get_or-append_length es [] e (0, 0)) (
    omega (arith, length-append es (e ∷ [])),
    refl,
    f,
    All-append (λ d. Fits len align d → w ≤ waste len align d) es (e ∷ []) all
        (λ _. omega arith, tt),
    h,
  )

  keep-Chosen :
      (es : List (ℕ × ℕ)) (e : ℕ × ℕ) (i o w : ℕ)
      → Chosen len align es (some (i, o, w))
      → (Fits len align e → w ≤ waste len align e)
      → Chosen len align (es ++ e ∷ []) (some (i, o, w))
  keep-Chosen es e i o w (b, p, f, all, h) le = rw (get_or-append_left es (e ∷ []) i (0, 0) b) (
    omega (arith, length-append es (e ∷ [])),
    p,
    f,
    All-append (λ d. Fits len align d → w ≤ waste len align d) es (e ∷ []) all (le, tt),
    h,
  )

  consider-Chosen :
      (es : List (ℕ × ℕ)) (e : ℕ × ℕ) (best : Best)
      → Chosen len align es best
      → Chosen len align (es ++ e ∷ []) (consider len align (length es) e best)
  unfolding consider better
  consider-Chosen es (off, hlen) none all =
      elim (Bool-cases (ltb hlen (align_up off align - off + len))) [
        | inl miss ↦
            rw miss
              (All-append (λ d. ¬ Fits len align d) es ((off, hlen) ∷ []) all (ground arith, tt))
        | inr hit ↦ rw hit (
            take-Chosen es (off, hlen) _ (ground arith) (ground arith)
              (All-mono (λ d. ¬ Fits len align d) _ es (λ d n f. absurd (n f)) all))
      ]
  consider-Chosen es (off, hlen) (some (j, o, w)) best =
      elim (Bool-cases (ltb hlen (align_up off align - off + len))) [
        | inl miss ↦ rw miss (keep-Chosen es (off, hlen) j o w best (ground arith))
        | inr hit ↦ rw hit (elim (Bool-cases (ltb (hlen - len - (align_up off align - off)) w)) [
          | inl less ↦ rw less (
              take-Chosen es (off, hlen) _ (ground arith) (ground arith)
                (All-mono (λ d. Fits len align d → w ≤ waste len align d) _ es
                  (λ d le f. ground (arith, le f)) best.3))
          | inr more ↦ rw more (keep-Chosen es (off, hlen) j o w best (ground arith))
        ])
      ]

  best_fit-Chosen_from :
      (es fs : List (ℕ × ℕ)) (best : Best)
      → Chosen len align es best
      → Chosen len align (es ++ fs) (best_fit len align (length es) fs best)
  unfolding best_fit
  best_fit-Chosen_from es [] best c = rw (append-nil es) c
  best_fit-Chosen_from es (e ∷ fs) best c =
      let next =
        best_fit-Chosen_from (es ++ e ∷ []) fs (consider len align (length es) e best)
          (consider-Chosen es e best c) in
      subst
        (λ n.
          Chosen len align (es ++ e ∷ fs)
            (best_fit len align n fs (consider len align (length es) e best)))
        (omega (arith, length-append es (e ∷ [])))
        (subst
          (λ l.
            Chosen len align l (
              best_fit len align (length (es ++ e ∷ [])) fs
                (consider len align (length es) e best)))
          (append_assoc es (e ∷ []) fs) next)

  -- The search over the holes finds one exactly if some hole fits the request at an aligned offset;
  -- the hole that it finds fits, and wastes no more bytes than any hole that fits.
  pub best_fit-Chosen : (es : List (ℕ × ℕ)) → Chosen len align es (best_fit len align 0 es none)
  best_fit-Chosen es = best_fit-Chosen_from [] es none tt
