-- ===== src/Mem/Bytes.antt =====
-- Byte buffers: reading and writing a range, and little-endian numbers.
use native.Mathlib.Nat.{pow-suc}
use edge_libos.Base.{
  List, [], ap, arith, drop, if◌then◌else◌, inl, inr, length, refl, replicate, suc, sym, take, true,
  zero, ℕ, ◌%◌, ◌*◌, ◌+◌, ◌-◌, ◌/◌, ◌<◌, ◌==◌, ◌^◌, ◌∙◌, ◌∷◌, ◌≡◌, ◌≤◌, ◌⊎◌,
}

-- The `n` bytes from `p` on.
unfoldable pub read_at : ℕ → ℕ → (ℕ → ℕ) → List ℕ
read_at p zero f = []
read_at p (suc n) f = f p ∷ read_at (p + 1) n f

-- `f` with the bytes from `p` on replaced by `bs`.
unfoldable pub write_at : ℕ → List ℕ → (ℕ → ℕ) → ℕ → ℕ
write_at p [] f q = f q
write_at p (b ∷ bs) f q = if p == q then b else write_at (p + 1) bs f q

-- `to_le_bytes` of a number of `n` bytes, and `from_le_bytes`.
unfoldable pub to_le : ℕ → ℕ → List ℕ
to_le zero v = []
to_le (suc n) v = v % 256 ∷ to_le n (v / 256)

unfoldable pub from_le : List ℕ → ℕ
from_le [] = 0
from_le (b ∷ bs) = b + 256 * from_le bs

pub read_at-zero : (p : ℕ) (f : ℕ → ℕ) → read_at p 0 f ≡ []
unfolding read_at
read_at-zero p f = refl

pub length-read_at : (p n : ℕ) (f : ℕ → ℕ) → length (read_at p n f) ≡ n
unfolding read_at
length-read_at p zero f = refl
length-read_at p (suc n) f = ap suc (length-read_at (p + 1) n f)

pub length-to_le : (n v : ℕ) → length (to_le n v) ≡ n
unfolding to_le
length-to_le zero v = refl
length-to_le (suc n) v = ap suc (length-to_le n (v / 256))

-- A number that fits in `n` bytes survives the round trip.
pub from_le-to_le : (n v : ℕ) → v < 256 ^ n → from_le (to_le n v) ≡ v
unfolding from_le to_le
from_le-to_le zero v h = omega arith
from_le-to_le (suc n) v h = omega (arith, from_le-to_le n (v / 256) (omega (arith, pow-suc 256 n)))

-- Reading back what was written.
write_at-below : (p : ℕ) (bs : List ℕ) (f : ℕ → ℕ) (q : ℕ) → q < p → write_at p bs f q ≡ f q
unfolding write_at
write_at-below p [] f q h = refl
write_at-below p (b ∷ bs) f q h = ground (arith, write_at-below (p + 1) bs f q)

pub write_at-above :
    (p : ℕ) (bs : List ℕ) (f : ℕ → ℕ) (q : ℕ) → p + length bs ≤ q → write_at p bs f q ≡ f q
unfolding write_at
write_at-above p [] f q h = refl
write_at-above p (b ∷ bs) f q h = ground (arith, write_at-above (p + 1) bs f q)

-- Bytes outside the written range keep their values.
pub write_at-outside :
    (p : ℕ) (bs : List ℕ) (f : ℕ → ℕ) (q : ℕ)
    → (q < p) ⊎ (p + length bs ≤ q)
    → write_at p bs f q ≡ f q
write_at-outside p bs f q (inl h) = write_at-below p bs f q h
write_at-outside p bs f q (inr h) = write_at-above p bs f q h

pub read_at-eq :
    (p n : ℕ) (f g : ℕ → ℕ)
    → ((q : ℕ) → p ≤ q → q < p + n → f q ≡ g q)
    → read_at p n f ≡ read_at p n g
unfolding read_at
read_at-eq p zero f g h = refl
read_at-eq p (suc n) f g h = rw (
  h p (omega arith) (omega arith),
  read_at-eq (p + 1) n f g (λ q lo hi. h q (omega arith) (omega arith)),
)

pub read_at-write_at :
    (p : ℕ) (bs : List ℕ) (f : ℕ → ℕ) → read_at p (length bs) (write_at p bs f) ≡ bs
unfolding read_at write_at
read_at-write_at p [] f = refl
read_at-write_at p (b ∷ bs) f =
    let self : (p == p) ≡ true = ground arith in
    rw self (
      ap (◌∷◌ b) (
        read_at-eq (p + 1) (length bs) _ (write_at (p + 1) bs f) (λ q lo hi. ground arith)
        ∙ read_at-write_at (p + 1) bs f))

pub write_at-replicate :
    (p n v : ℕ) (f : ℕ → ℕ) (q : ℕ) → p ≤ q → q < p + n → write_at p (replicate n v) f q ≡ v
unfolding write_at
write_at-replicate p zero v f q lo hi = absurd (omega arith)
write_at-replicate p (suc n) v f q lo hi = ground (arith, write_at-replicate (p + 1) n v f q)

pub take-read_at : (n m p : ℕ) (f : ℕ → ℕ) → n ≤ m → take n (read_at p m f) ≡ read_at p n f
unfolding read_at
take-read_at zero m p f h = refl
take-read_at (suc n) zero p f h = absurd (omega arith)
take-read_at (suc n) (suc m) p f h = ap (◌∷◌ (f p)) (take-read_at n m (p + 1) f (omega arith))

pub drop-read_at :
    (n m p : ℕ) (f : ℕ → ℕ) → n ≤ m → drop n (read_at p m f) ≡ read_at (p + n) (m - n) f
unfolding read_at
drop-read_at zero m p f h =
    let stay : p + 0 ≡ p = omega arith in let all : m - 0 ≡ m = omega arith in rw (stay, all) refl
drop-read_at (suc n) zero p f h = absurd (omega arith)
drop-read_at (suc n) (suc m) p f h =
    let next : p + 1 + n ≡ p + suc n = omega arith in
    let left : m - n ≡ suc m - suc n = omega arith in
    drop-read_at n m (p + 1) f (omega arith) ∙ rw (next, left) refl

-- A range that a write does not meet reads as before.
pub read_at-outside :
    (p n q : ℕ) (bs : List ℕ) (f : ℕ → ℕ)
    → (p + n ≤ q) ⊎ (q + length bs ≤ p)
    → read_at p n (write_at q bs f) ≡ read_at p n f
read_at-outside p n q bs f (inl h) =
    read_at-eq p n (write_at q bs f) f (λ x lo hi. write_at-outside q bs f x (inl (omega arith)))
read_at-outside p n q bs f (inr h) =
    read_at-eq p n (write_at q bs f) f (λ x lo hi. write_at-outside q bs f x (inr (omega arith)))

-- A number that was written over a range reads back, whatever is written elsewhere later.
pub from_le-read_at :
    (p n v : ℕ) (f : ℕ → ℕ) → v < 256 ^ n → from_le (read_at p n (write_at p (to_le n v) f)) ≡ v
from_le-read_at p n v f h =
    let len = length-to_le n v in
    ap from_le (
      ap (λ m. read_at p m (write_at p (to_le n v) f)) (sym len) ∙ read_at-write_at p (to_le n v) f)
    ∙ from_le-to_le n v h
