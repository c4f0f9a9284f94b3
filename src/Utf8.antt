-- ===== src/Utf8.antt =====
-- `String::from_utf8_lossy` of the standard library, behind `to_string_lossy`: each longest run of
-- bytes that starts a character and does not end it becomes U+FFFD.
use edge_libos.Base.{
  All, Bool, List, Option, [], ap, arith, drop, false, if◌then◌else◌, leb, length, ltb, none, refl,
  some, suc, take, true, zero, ℕ, ◌&&◌, ◌++◌, ◌<◌, ◌==◌, ◌∷◌, ◌≡◌, ◌≤◌,
}

-- What may follow a first byte: how many bytes, and the bounds of the first of them.
abbrev pub lead : ℕ → Option (ℕ × ℕ × ℕ)
lead b =
    if ltb b 128
    then some (0, 0, 0)
    else if ltb b 194
    then none
    else if ltb b 224
    then some (1, 128, 191)
    else if b == 224
    then some (2, 160, 191)
    else if b == 237
    then some (2, 128, 159)
    else if ltb b 240
    then some (2, 128, 191)
    else if b == 240
    then some (3, 144, 191)
    else if ltb b 244
    then some (3, 128, 191)
    else if b == 244
    then some (3, 128, 143)
    else none

-- How many of the bytes that must follow are there, and whether all are.
abbrev pub follow : ℕ → (lo hi : ℕ) → List ℕ → ℕ × Bool
follow zero lo hi s = (0, true)
follow (suc n) lo hi [] = (0, false)
follow (suc n) lo hi (b ∷ s) =
    let (m, whole) = follow n 128 191 s in
    if leb lo b && leb b hi then (suc m, whole) else (0, false)

-- The text of a first byte and those that follow it.
abbrev pub char_text : ℕ → List ℕ → Bool → List ℕ
char_text b taken whole = if whole then b ∷ taken else 239 ∷ 191 ∷ 189 ∷ []

-- With as much fuel as there are bytes: each round takes one or more.
unfoldable pub lossy : ℕ → List ℕ → List ℕ
lossy zero s = []
lossy (suc n) [] = []
lossy (suc n) (b ∷ s) = elim (lead b) [
  | none ↦ 239 ∷ 191 ∷ 189 ∷ lossy n s
  | some (more, lo, hi) ↦
      let (m, whole) = follow more lo hi s in char_text b (take m s) whole ++ lossy n (drop m s)
]

unfoldable pub from_utf8_lossy : List ℕ → List ℕ
from_utf8_lossy s = lossy (length s) s

-- Text of one byte each stays, and more fuel changes nothing.
lossy_ascii : (n : ℕ) (s : List ℕ) → length s ≤ n → All (λ b. b < 128) s → lossy n s ≡ s
unfolding lossy
lossy_ascii zero [] h a = refl
lossy_ascii zero (b ∷ s) h a = absurd (omega arith)
lossy_ascii (suc n) [] h a = refl
lossy_ascii (suc n) (b ∷ s) h a =
    let one : ltb b 128 ≡ true = (let f = a.0 in ground arith) in
    rw (one, lossy) (ap (◌∷◌ b) (lossy_ascii n s (omega arith) a.1))
