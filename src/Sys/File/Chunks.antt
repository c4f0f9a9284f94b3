-- ===== src/Sys/File/Chunks.antt =====
-- The loop of read over the chunks of a host file.
-- Two continuations that agree on longer, still short results.
use edge_libos.Base.{
  Bool-cases, List, Option, [], arith, inl, inr, leb, length, length-append, length-take, ltb, none,
  refl, some, suc, take, zero, ℕ, ◌++◌, ◌+◌, ◌-◌, ◌<◌, ◌∷◌, ◌≡◌, ◌≤◌,
}
use edge_libos.Sys.File.{HostFile, after_chunk, read_chunks}

after_chunk-eq :
    (f g : ℕ → List ℕ → ℕ × Option (List ℕ)) (len : ℕ) (got : List ℕ)
    → ((inner : ℕ) (more : List ℕ)
        → length got < length more
        → length more < len
        → f inner more ≡ g inner more)
    → (c : ℕ × Option (List ℕ)) → after_chunk f len got c ≡ after_chunk g len got c
unfolding after_chunk
after_chunk-eq f g len got h (inner, none) = refl
after_chunk-eq f g len got h (inner, some []) = refl
after_chunk-eq f g len got h (inner, some (b ∷ bs)) =
    let grows = length-append got (b ∷ bs) in
    elim (Bool-cases (ltb (len - length got) (length (b ∷ bs)))) [
      | inl over ↦ rw over refl
      | inr fits ↦ elim (Bool-cases (leb len (length (got ++ b ∷ bs)))) [
        | inl enough ↦ rw (fits, enough) refl
        | inr short ↦
            rw (fits, short) (h inner (got ++ b ∷ bs) (omega (arith, grows)) (ground arith))
      ]
    ]

read_chunks_fuel :
    (h : HostFile) (fuel more inner len : ℕ) (got : List ℕ)
    → length got < len
    → len < fuel + length got
    → read_chunks h (fuel + more) inner len got ≡ read_chunks h fuel inner len got
unfolding read_chunks
read_chunks_fuel h zero more inner len got short enough = absurd (omega arith)
read_chunks_fuel h (suc fuel) more inner len got short enough =
    let s : suc fuel + more ≡ suc (fuel + more) = omega arith in
    rw s (
      after_chunk-eq (λ next g. read_chunks h (fuel + more) next len g)
        (λ next g. read_chunks h fuel next len g) len got
        (λ next g longer left. read_chunks_fuel h fuel more next len g left (omega arith))
        (h.read_chunk inner 4096))

-- No more bytes than asked for.
abbrev pub IsShortRead : ℕ → ℕ × Option (List ℕ) → Type 0
IsShortRead len (inner, none) = Unit
IsShortRead len (inner, some bytes) = length bytes ≤ len

after_chunk-IsShortRead :
    (f : ℕ → List ℕ → ℕ × Option (List ℕ)) (len : ℕ) (got : List ℕ)
    → length got ≤ len
    → ((inner : ℕ) (more : List ℕ) → length more ≤ len → IsShortRead len (f inner more))
    → (c : ℕ × Option (List ℕ)) → IsShortRead len (after_chunk f len got c)
unfolding after_chunk
after_chunk-IsShortRead f len got p h (inner, none) = tt
after_chunk-IsShortRead f len got p h (inner, some []) = p
after_chunk-IsShortRead f len got p h (inner, some (b ∷ bs)) =
    let grows = length-append got (b ∷ bs) in
    elim (Bool-cases (ltb (len - length got) (length (b ∷ bs)))) [
      | inl over ↦ rw over (
          omega (
            arith,
            length-append got (take (len - length got) (b ∷ bs)),
            length-take (len - length got) (b ∷ bs),
          ))
      | inr fits ↦ elim (Bool-cases (leb len (length (got ++ b ∷ bs)))) [
        | inl enough ↦ rw (fits, enough) (ground (arith, grows))
        | inr short ↦ rw (fits, short) (h inner (got ++ b ∷ bs) (ground arith))
      ]
    ]

read_chunks-IsShortRead :
    (h : HostFile) (fuel inner len : ℕ) (got : List ℕ)
    → length got ≤ len
    → IsShortRead len (read_chunks h fuel inner len got)
unfolding read_chunks
read_chunks-IsShortRead h zero inner len got p = p
read_chunks-IsShortRead h (suc fuel) inner len got p =
    after_chunk-IsShortRead (λ next g. read_chunks h fuel next len g) len got p
      (λ next g. read_chunks-IsShortRead h fuel next len g) (h.read_chunk inner 4096)

-- The loop that reads a host file for `len` bytes, which are more than 0, ends within `len` + 1
-- rounds, however short the host's chunks are: more fuel changes nothing. It never returns more
-- than `len` bytes.
pub read_chunks_ends :
    (h : HostFile) (more inner len : ℕ)
    → 0 < len
    → (read_chunks h (suc len + more) inner len [] ≡ read_chunks h (suc len) inner len [])
      × IsShortRead len (read_chunks h (suc len) inner len [])
read_chunks_ends h more inner len p = (
  read_chunks_fuel h (suc len) more inner len [] p (omega arith),
  read_chunks-IsShortRead h (suc len) inner len [] (omega arith),
)
