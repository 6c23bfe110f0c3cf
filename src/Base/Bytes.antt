-- ===== src/Base/Bytes.antt =====
-- Big-endian numbers in bytes, and the bit operations on bytes as arithmetic.
use Prim.Native.Nat.{ℕ, zero, suc, ◌+◌, ◌*◌, ◌/◌, ◌%◌, ◌^◌, ◌≤◌, ◌<◌, bit_or, bit_xor, bit_and}
use mathlib.Core.Path.{◌≡◌, refl, ap, ◌∙◌}
use mathlib.Core.Bool.{Bool, true, false}
use mathlib.Core.Option.{Option, none, some}
use mathlib.Core.List.{List, [], ◌∷◌, ◌++◌}
use native.Mathlib.Omega.{arith}
use native.Mathlib.Nat.{pow-suc, mul-add-mod_self_right, mod-eq_of_lt, div-add-mod', mod-lt}
use mathlib.Core.Logic.{inl, inr}
use hyperliquid_cpp.Base.Tests.{Bool-cases, if◌then◌else◌, ◌==◌, ==_iff}
use hyperliquid_cpp.Base.Lists.{length, All}

abbrev pub IsByte : ℕ → Type 0
IsByte b = b < 256

-- The `k` low bytes of `v`, the highest first.
unfoldable pub be : ℕ → ℕ → List ℕ
be zero v = []
be (suc k) v = (v / 256 ^ k % 256) ∷ be k v

-- A number of `k` bytes read from the front, behind the value `acc`.
unfoldable pub read_be : ℕ → List ℕ → ℕ → Option (ℕ × List ℕ)
read_be zero bs acc = some (acc, bs)
read_be (suc k) [] acc = none
read_be (suc k) (b ∷ bs) acc = read_be k bs (acc * 256 + b)

pub pow_pos : (k : ℕ) → 0 < 256 ^ k
pow_pos zero = omega arith
pow_pos (suc k) = omega (arith, pow-suc 256 k, pow_pos k)

-- The last digits of a number in base `b`: one digit and the ones below it.
pub split_digit : (b p v : ℕ) → 0 < p → 0 < b → v % (p * b) ≡ v / p % b * p + v % p
split_digit b p v h hb =
    ap (λ (t : ℕ). t % (p * b)) whole
    ∙ mul-add-mod_self_right (v / p / b) (p * b) (v / p % b * p + v % p)
    ∙ mod-eq_of_lt small
  where
    r : v % p < p
    r = mod-lt v h

    whole : v ≡ v / p / b * (p * b) + (v / p % b * p + v % p)
    whole = grind (arith, div-add-mod' v p, ap (λ (t : ℕ). t * p) (div-add-mod' (v / p) b))

    digit_bound : (d q : ℕ) → d < b → d * q + q ≤ q * b
    digit_bound d q k = grind arith

    small : v / p % b * p + v % p < p * b
    small = grind (arith, r, mod-lt (v / p) hb, digit_bound (v / p % b) p)

-- Reading back what `be` wrote gives the number modulo its width.
pub read_be-be :
    (k v acc : ℕ) (rest : List ℕ)
    → read_be k (be k v ++ rest) acc ≡ some (acc * 256 ^ k + v % 256 ^ k, rest)
unfolding be read_be
read_be-be zero v acc rest = let e : acc * 256 ^ 0 + v % 256 ^ 0 ≡ acc = omega arith in rw e
read_be-be (suc k) v acc rest =
    read_be-be k v (acc * 256 + v / 256 ^ k % 256) rest
    ∙ ap (λ (t : ℕ). some (t, rest))
        (rw (pow-suc 256 k) (omega (arith, split_digit 256 (256 ^ k) v (pow_pos k) (omega arith))))

pub length-be : (k v : ℕ) → length (be k v) ≡ k
unfolding be
length-be zero v = refl
length-be (suc k) v = ap suc (length-be k v)

pub be-IsByte : (k v : ℕ) → All IsByte (be k v)
unfolding be
be-IsByte zero v = tt
be-IsByte (suc k) v = (omega arith, be-IsByte k v)

-- Two functions compared at the numbers below a bound, by evaluation.
module _ (f g : ℕ → ℕ) where
  unfoldable pub tabulated : ℕ → Bool
  tabulated zero = true
  tabulated (suc k) = if f k == g k then tabulated k else false

  pub from_table : {k x : ℕ} → x < k → tabulated k ≡ true → f x ≡ g x
  unfolding tabulated
  from_table {k = zero} {x = x} le t = absurd (omega arith)
  from_table {k = suc k} {x = x} le t = elim (Bool-cases (x == k)) [
    | inl last ↦ rw ((==_iff x k).0 last) (ground arith)
    | inr before ↦ from_table {k = k} {x = x} (ground arith) (ground arith)
  ]

pub bit_or_0x80 : (x : ℕ) → x < 128 → bit_or 0x80 x ≡ 128 + x
unfolding tabulated
bit_or_0x80 x h = from_table (bit_or 0x80) (λ y. 128 + y) h refl

pub bit_or_0x90 : (x : ℕ) → x < 16 → bit_or 0x90 x ≡ 144 + x
unfolding tabulated
bit_or_0x90 x h = from_table (bit_or 0x90) (λ y. 144 + y) h refl

pub bit_or_0xa0 : (x : ℕ) → x < 32 → bit_or 0xa0 x ≡ 160 + x
unfolding tabulated
bit_or_0xa0 x h = from_table (bit_or 0xa0) (λ y. 160 + y) h refl

-- The parts of a byte whose highest bit is set by `0x80 | x`.
pub flagged_low7 : (x : ℕ) → x < 128 → bit_and (bit_or 0x80 x % 256) 0x7f ≡ x
unfolding tabulated
flagged_low7 x h = from_table (λ y. bit_and (bit_or 0x80 y % 256) 0x7f) (λ y. y) h refl

pub flagged_low4 : (x : ℕ) → x < 16 → bit_and (bit_or 0x80 x % 256) 0x0f ≡ x
unfolding tabulated
flagged_low4 x h = from_table (λ y. bit_and (bit_or 0x80 y % 256) 0x0f) (λ y. y) h refl

pub flagged_high : (x : ℕ) → x < 128 → bit_and (bit_or 0x80 x % 256) 0x80 ≡ 128
unfolding tabulated
flagged_high x h = from_table (λ y. bit_and (bit_or 0x80 y % 256) 0x80) (λ y. 128) h refl

xor_twice_table : (n : ℕ) → n < 65536 → bit_xor (bit_xor (n / 256) (n % 256)) (n % 256) ≡ n / 256
unfolding tabulated
xor_twice_table n h =
    from_table (λ y. bit_xor (bit_xor (y / 256) (y % 256)) (y % 256)) (λ y. y / 256) h refl

-- Masking a byte twice with the same byte gives it back.
pub bit_xor_twice : (x m : ℕ) → x < 256 → m < 256 → bit_xor (bit_xor x m) m ≡ x
bit_xor_twice x m hx hm =
    let q : (x * 256 + m) / 256 ≡ x = omega arith in
    let r : (x * 256 + m) % 256 ≡ m = omega arith in
    rw (q, r) at (xor_twice_table (x * 256 + m) (omega arith))
