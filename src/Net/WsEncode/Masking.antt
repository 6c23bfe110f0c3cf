-- ===== src/Net/WsEncode/Masking.antt =====
-- Masking by words is masking byte by byte, and a mask applied twice is undone.
use Prim.Native.Nat.{bit_xor}
use hyperliquid_cpp.Base.{
  ℕ, zero, suc, ◌+◌, ◌*◌, ◌/◌, ◌%◌, ◌≤◌, ◌≡◌, refl, ap, ◌∙◌, List, [], ◌∷◌, ◌++◌, length, take,
  drop, get_or, All, arith, length-take, length-drop, take-append-drop, sym, append_assoc,
  drop-drop,
}
use hyperliquid_cpp.Base.Bytes.{be, IsByte, bit_xor_twice}
use hyperliquid_cpp.Net.WsEncode.{mask_from, mask_words, mask_payload, xor_bytes}

pub length-mask_from :
    (key : List ℕ) (i : ℕ) (bs : List ℕ) → length (mask_from key i bs) ≡ length bs
unfolding mask_from
length-mask_from key i [] = refl
length-mask_from key i (b ∷ bs) = ap suc (length-mask_from key (i + 1) bs)

mask_from-append :
    (key : List ℕ) (i : ℕ) (xs ys : List ℕ)
    → mask_from key i (xs ++ ys) ≡ mask_from key i xs ++ mask_from key (i + length xs) ys
unfolding mask_from
mask_from-append key i [] ys = let e : i + 0 ≡ i = omega arith in rw e
mask_from-append key i (x ∷ xs) ys =
    let e : i + 1 + length xs ≡ i + suc (length xs) = omega arith in
    rw (mask_from-append key (i + 1) xs ys, e)

-- The index counts modulo four.
mask_from_period :
    (key : List ℕ) (i j : ℕ) (bs : List ℕ) → i % 4 ≡ j % 4 → mask_from key i bs ≡ mask_from key j bs
unfolding mask_from
mask_from_period key i j [] h = refl
mask_from_period key i j (b ∷ bs) h = rw (h, mask_from_period key (i + 1) (j + 1) bs (omega arith))

module _ (a b c d : ℕ) where
  key4 : List ℕ
  key4 = a ∷ b ∷ c ∷ d ∷ []

  key8 : List ℕ
  unfolding key4
  key8 = key4 ++ key4

  xor_bytes-key8 :
      (i : ℕ) (xs : List ℕ) → length xs + i ≤ 8 → xor_bytes xs (drop i key8) ≡ mask_from key4 i xs
  unfolding xor_bytes mask_from key4 key8
  xor_bytes-key8 i [] h = refl
  xor_bytes-key8 zero (x ∷ xs) h = ap (λ t. bit_xor x a ∷ t) (xor_bytes-key8 1 xs (omega arith))
  xor_bytes-key8 (suc zero) (x ∷ xs) h =
      ap (λ t. bit_xor x b ∷ t) (xor_bytes-key8 2 xs (omega arith))
  xor_bytes-key8 (suc (suc zero)) (x ∷ xs) h =
      ap (λ t. bit_xor x c ∷ t) (xor_bytes-key8 3 xs (omega arith))
  xor_bytes-key8 (suc (suc (suc zero))) (x ∷ xs) h =
      ap (λ t. bit_xor x d ∷ t) (xor_bytes-key8 4 xs (omega arith))
  xor_bytes-key8 (suc (suc (suc (suc zero)))) (x ∷ xs) h =
      ap (λ t. bit_xor x a ∷ t) (xor_bytes-key8 5 xs (omega arith))
  xor_bytes-key8 (suc (suc (suc (suc (suc zero))))) (x ∷ xs) h =
      ap (λ t. bit_xor x b ∷ t) (xor_bytes-key8 6 xs (omega arith))
  xor_bytes-key8 (suc (suc (suc (suc (suc (suc zero)))))) (x ∷ xs) h =
      ap (λ t. bit_xor x c ∷ t) (xor_bytes-key8 7 xs (omega arith))
  xor_bytes-key8 (suc (suc (suc (suc (suc (suc (suc zero))))))) (x ∷ xs) h =
      ap (λ t. bit_xor x d ∷ t) (xor_bytes-key8 8 xs (omega arith))
  xor_bytes-key8 (suc (suc (suc (suc (suc (suc (suc (suc i)))))))) (x ∷ xs) h = absurd (omega arith)

  mask_words-mask_from :
      (n i : ℕ) (src : List ℕ)
      → i % 4 ≡ 0
      → n * 8 ≤ length src
      → mask_words key8 n src ++ mask_from key4 (i + n * 8) (drop (n * 8) src)
        ≡ mask_from key4 i src
  unfolding mask_words
  mask_words-mask_from zero i src z h = let e : i + 0 ≡ i = omega arith in rw e
  mask_words-mask_from (suc n) i src z h =
      let size : i + length (take 8 src) ≡ i + 8 = omega (arith, length-take 8 src) in
      let e : i + suc n * 8 ≡ i + 8 + n * 8 = omega arith in
      let f : suc n * 8 ≡ 8 + n * 8 = omega arith in
      let rest =
        mask_words-mask_from n (i + 8) (drop 8 src) (omega arith)
          (omega (arith, length-drop 8 src)) in
      let word =
        xor_bytes-key8 0 (take 8 src) (omega (arith, length-take 8 src))
        ∙ mask_from_period key4 0 i (take 8 src) (omega arith) in
      let split =
        ap (mask_from key4 i) (sym (take-append-drop 8 src))
        ∙ mask_from-append key4 i (take 8 src) (drop 8 src) in
      let tail : mask_words key8 n (drop 8 src)
            ++ mask_from key4 (i + suc n * 8) (drop (suc n * 8) src)
          ≡ mask_from key4 (i + 8) (drop 8 src) =
        rw (e, f, sym (drop-drop (n * 8) 8 src)) rest in
      rw (split, size, word)
        (append_assoc (mask_from key4 i (take 8 src)) (mask_words key8 n (drop 8 src))
            (mask_from key4 (i + suc n * 8) (drop (suc n * 8) src))
          ∙ ap (λ (t : List ℕ). mask_from key4 i (take 8 src) ++ t) tail)

mask_payload-mask_from_bytes :
    (a b c d : ℕ) (src : List ℕ) → mask_payload (key4 a b c d) src ≡ mask_from (key4 a b c d) 0 src
unfolding mask_payload key4 key8
mask_payload-mask_from_bytes a b c d src =
    let e : 0 + length src / 8 * 8 ≡ length src / 8 * 8 = omega arith in
    rw e at (mask_words-mask_from a b c d (length src / 8) 0 src refl (omega arith))

-- The loop on words and the loop on the rest together xor byte `i` with byte `i % 4` of the mask.
pub mask_payload-mask_from :
    (key : ℕ) (src : List ℕ) → mask_payload (be 4 key) src ≡ mask_from (be 4 key) 0 src
unfolding be key4
mask_payload-mask_from key src = mask_payload-mask_from_bytes _ _ _ _ src

get_or-IsByte : (xs : List ℕ) (i : ℕ) → All IsByte xs → IsByte (get_or xs i 0)
get_or-IsByte [] i h = omega arith
get_or-IsByte (x ∷ xs) zero h = h.0
get_or-IsByte (x ∷ xs) (suc i) h = get_or-IsByte xs i h.1

-- A mask applied twice is undone.
pub mask_from_twice :
    (key : List ℕ) (i : ℕ) (bs : List ℕ)
    → All IsByte key
    → All IsByte bs
    → mask_from key i (mask_from key i bs) ≡ bs
unfolding mask_from
mask_from_twice key i [] k h = refl
mask_from_twice key i (b ∷ bs) k h = rw (
  bit_xor_twice b (get_or key (i % 4) 0) h.0 (get_or-IsByte key (i % 4) k),
  mask_from_twice key (i + 1) bs k h.1,
)
