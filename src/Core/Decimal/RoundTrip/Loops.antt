-- ===== src/Core/Decimal/RoundTrip/Loops.antt =====
-- The loops of the parser read what the loops of the printer wrote.
use hyperliquid_cpp.Base.{
  ℕ, zero, suc, ◌+◌, ◌-◌, ◌*◌, ◌/◌, ◌%◌, ◌^◌, ◌≤◌, ◌<◌, ◌≡◌, refl, true, some, List, ◌∷◌, [], arith,
  pow-suc, Bool, ◌∙◌, ap, Bool-cases, ◌==◌, inl, inr, ==_iff,
}
use hyperliquid_cpp.Base.Int.{int64_max}
use hyperliquid_cpp.Core.Decimal.{int_loop, frac_loop, put_int, put_frac, trim_zeros, pad, scale}

-- Reading a written digit.
pub int_loop_digit :
    (d m : ℕ) (any : Bool) (buf : List ℕ)
    → d < 10
    → m * 10 + d ≤ int64_max
    → int_loop ((b'0' + d) ∷ buf) m any ≡ int_loop buf (m * 10 + d) true
unfolding int_loop
int_loop_digit d m any buf h k = ground arith

pub frac_loop_digit :
    (d m f : ℕ) (any : Bool) (buf : List ℕ)
    → d < 10
    → f < 8
    → m * 10 + d ≤ int64_max
    → frac_loop ((b'0' + d) ∷ buf) m f any ≡ frac_loop buf (m * 10 + d) (f + 1) true
unfolding frac_loop
frac_loop_digit d m f any buf h hf k = ground arith

-- The integer loop over what `put_int` wrote reads the number, and goes on with what follows.
pub int_loop-put_int :
    (fuel n : ℕ) (buf out : List ℕ) (any : Bool)
    → n ≤ int64_max
    → put_int fuel n buf ≡ some out
    → int_loop out 0 any ≡ int_loop buf n true
unfolding put_int
int_loop-put_int zero n buf out any h e = ground arith
int_loop-put_int (suc fuel) n buf out any h e = ground (
  arith,
  int_loop_digit (n % 10) 0 any buf,
  int_loop_digit (n % 10) (n / 10) true buf,
  int_loop-put_int fuel (n / 10) ((b'0' + n % 10) ∷ buf) out any,
)

pub put_int_total :
    (fuel n : ℕ) (buf : List ℕ)
    → n < 10 ^ suc fuel
    → (out : List ℕ) × (put_int (suc fuel) n buf ≡ some out)
unfolding put_int
put_int_total zero n buf h = ((b'0' + n % 10) ∷ buf, ground arith)
put_int_total (suc fuel) n buf h =
    let (out, e) =
      put_int_total fuel (n / 10) ((b'0' + n % 10) ∷ buf) (omega (arith, pow-suc 10 (suc fuel))) in
    elim (Bool-cases (n / 10 == 0)) [
      | inl done ↦ ((b'0' + n % 10) ∷ buf, rw done)
      | inr more ↦ (out, rw more e)
    ]

pub frac_loop-put_frac :
    (width frac m f : ℕ) (buf : List ℕ)
    → frac < 10 ^ width
    → f + width ≤ 8
    → m * 10 ^ width + frac ≤ int64_max
    → frac_loop (put_frac width frac buf) m f true
      ≡ frac_loop buf (m * 10 ^ width + frac) (f + width) true
unfolding put_frac
frac_loop-put_frac zero frac m f buf h k b =
    let e : m * 10 ^ 0 + frac ≡ m = omega arith in let e' : f + 0 ≡ f = omega arith in rw (e, e')
frac_loop-put_frac (suc w) frac m f buf h k b =
    let p : 10 ^ suc w ≡ 10 ^ w * 10 = pow-suc 10 w in
    let v : (m * 10 ^ w + frac / 10) * 10 + frac % 10 ≡ m * 10 ^ suc w + frac =
      rw p (omega arith) in
    let u : f + w + 1 ≡ f + suc w = omega arith in
    frac_loop-put_frac w (frac / 10) m f ((b'0' + frac % 10) ∷ buf) (omega (arith, p)) (omega arith)
      (omega (arith, v))
    ∙ frac_loop_digit (frac % 10) (m * 10 ^ w + frac / 10) (f + w) true buf (omega arith)
        (omega arith) (omega (arith, v))
    ∙ rw (v, u)

pub pow_step : (a b : ℕ) → b ≤ a → 10 ^ (suc a - b) ≡ 10 ^ (a - b) * 10
pow_step a b h = let e : suc a - b ≡ suc (a - b) = omega arith in rw e (pow-suc 10 (a - b))

-- What is left of a fraction when zeros are trimmed off its end.
pub record IsTrimmed (width frac : ℕ) (r : ℕ × ℕ) : Type 0 where
  pub narrower : r.0 ≤ width
  pub fits : r.1 < 10 ^ r.0
  pub scaled : r.1 * 10 ^ (width - r.0) ≡ frac

pub untrimmed : (width frac : ℕ) → frac * 10 ^ (width - width) ≡ frac
untrimmed width frac = let e : width - width ≡ 0 = omega arith in rw e (omega arith)

pub widen :
    (w frac : ℕ) (r : ℕ × ℕ) → frac % 10 ≡ 0 → IsTrimmed w (frac / 10) r → IsTrimmed (suc w) frac r
widen w frac r z t = record {
  narrower = omega arith;
  fits = t.fits;
  scaled = rw (pow_step w r.0 t.narrower) (omega (arith, t.scaled));
}

pub trim_zeros-IsTrimmed :
    (fuel width frac : ℕ)
    → 0 < frac
    → frac < 10 ^ width
    → IsTrimmed width frac (trim_zeros fuel width frac)
unfolding trim_zeros
trim_zeros-IsTrimmed zero width frac p h = record {
  narrower = omega arith;
  fits = h;
  scaled = untrimmed width frac;
}
trim_zeros-IsTrimmed (suc fuel) zero frac p h = absurd (omega arith)
trim_zeros-IsTrimmed (suc fuel) (suc w) frac p h = elim (Bool-cases (frac % 10 == 0)) [
  | inl z ↦
      let z' : frac % 10 ≡ 0 = (==_iff (frac % 10) 0).0 z in
      let e : suc w - 1 ≡ w = omega arith in
      let shorter : IsTrimmed w (frac / 10) (trim_zeros fuel w (frac / 10)) =
        trim_zeros-IsTrimmed fuel w (frac / 10) (omega arith) (omega (arith, pow-suc 10 w)) in
      rw (z, e) (widen w frac (trim_zeros fuel w (frac / 10)) z' shorter)
  | inr nz ↦ rw nz (record { narrower = omega arith; fits = h; scaled = untrimmed (suc w) frac })
]

pub frac_loop_end :
    (m f : ℕ) (any : Bool)
    → frac_loop [] m f any ≡ some (f, record { mantissa = m; any_digit = any; rest = [] })
unfolding frac_loop
frac_loop_end m f any = refl

pub le-mul-pow : (m k : ℕ) → m ≤ m * 10 ^ k
le-mul-pow m zero = omega arith
le-mul-pow m (suc k) = rw (pow-suc 10 k) (omega (arith, le-mul-pow m k))

pub pad_lem : (k m : ℕ) → m * 10 ^ k ≤ int64_max → pad k m ≡ some (m * 10 ^ k)
unfolding pad
pad_lem zero m h = let e : m * 10 ^ 0 ≡ m = omega arith in rw e
pad_lem (suc k) m h =
    let e : m * 10 ^ suc k ≡ m * 10 * 10 ^ k = rw (pow-suc 10 k) (omega arith) in
    rw e (ground (arith, e, le-mul-pow (m * 10) k, pad_lem k (m * 10)))

pub pow_split : (a b : ℕ) → b ≤ a → 10 ^ b * 10 ^ (a - b) ≡ 10 ^ a
pow_split a zero h = let e : a - 0 ≡ a = omega arith in rw e (omega arith)
pow_split zero (suc b) h = elim h [ ]
pow_split (suc a) (suc b) h =
    let e : suc a - suc b ≡ a - b = omega arith in
    rw (e, pow-suc 10 b, pow-suc 10 a) (omega (arith, pow_split a b (omega arith)))

-- A trimmed fraction behind the integer part `m` is scaled up to m * 10 ^ 8 + frac.
pub scaled_mantissa :
    (m frac w t : ℕ)
    → w ≤ 8
    → t * 10 ^ (8 - w) ≡ frac
    → (m * 10 ^ w + t) * 10 ^ (8 - w) ≡ m * scale + frac
scaled_mantissa m frac w t h e = omega (arith, e, ap (λ (x : ℕ). m * x) (pow_split 8 w h))
