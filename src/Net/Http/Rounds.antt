-- ===== src/Net/Http/Rounds.antt =====
-- A round on a body over many bytes is many rounds over one.
use mathlib.Core.Path.{subst}
use hyperliquid_cpp.Base.{
  ℕ, suc, ◌-◌, ◌≤◌, ◌<◌, min, ◌≡◌, refl, sym, ap, ◌∙◌, inl, inr, false, List, [], ◌∷◌, ◌++◌,
  append_assoc, append-nil, arith, ◌==◌, if◌then◌else◌, Bool-cases, length, take, drop, length-drop,
}
use hyperliquid_cpp.Net.Http.Head.{
  Phase, fixed_body, chunk_data, chunk_data_crlf, until_close, finished, HttpResponseParser, failed,
}
use hyperliquid_cpp.Net.Http.Feed.{
  Round, goes, fails, data_round, crlf_round, close_round, feed_round, is_finished, Fed, ended,
}
use hyperliquid_cpp.Net.Http.Bytes.{next_byte, feed_bytes, IsBetween}

-- A round on `c` and what follows does what the machine does, and goes on with fewer bytes.
unfoldable pub Follows : Fed → ℕ → Round → Type 0
Follows fed n (goes p left) =
    (fed ≡ feed_bytes p left) × ((length left ≤ n) × IsBetween p.phase p (length left))
Follows fed n (fails p) = fed ≡ (p, failed, [])

pub step-feed_bytes :
    (p : HttpResponseParser) (c : ℕ) (rest : List ℕ) (ph : Phase)
    → p.phase ≡ ph
    → is_finished ph ≡ false
    → feed_bytes p (c ∷ rest) ≡ next_byte (λ p'. feed_bytes p' rest) (feed_round ph p c [])
unfolding feed_bytes
step-feed_bytes p c rest ph e busy =
    ap
      (λ (t : Phase).
        if is_finished t
        then ended p (c ∷ rest)
        else next_byte (λ p'. feed_bytes p' rest) (feed_round t p c []))
      e
    ∙ rw busy refl

pub IsBetween-at :
    (p : HttpResponseParser) (n : ℕ) (ph : Phase)
    → p.phase ≡ ph
    → IsBetween ph p n
    → IsBetween p.phase p n
IsBetween-at p n ph e h = subst (λ (t : Phase). IsBetween t p n) (sym e) h

-- The parser after as much of `s` as remains of a body or of a chunk.
data_parser : Phase → ℕ → HttpResponseParser → List ℕ → HttpResponseParser
data_parser next remaining p s =
    let n = min p.remaining (length s) in
    let p' = record p {
      response = record p.response { body = p.response.body ++ take n s };
      remaining = p.remaining - n;
    } in
    if p'.remaining == 0 then record p' { phase = next; remaining = remaining } else p'

module _ (ph next : Phase) (again : ℕ)
    (round : (p : HttpResponseParser) (c : ℕ) (rest : List ℕ)
      → feed_round ph p c rest
        ≡ goes
            (data_parser next again p (c ∷ rest))
            (drop (min p.remaining (length (c ∷ rest))) (c ∷ rest)))
    (busy : is_finished ph ≡ false) where
  data_bytes :
      (s : List ℕ) (p : HttpResponseParser)
      → p.phase ≡ ph
      → 0 < p.remaining
      → feed_bytes p s
        ≡ feed_bytes (data_parser next again p s) (drop (min p.remaining (length s)) s)
  unfolding data_parser next_byte
  data_bytes [] p e pos =
      let a : min p.remaining 0 ≡ 0 = omega arith in
      let b : (p.remaining - 0 == 0) ≡ false = ground arith in
      let d : p.remaining - 0 ≡ p.remaining = omega arith in
      rw (a, b, d, append-nil p.response.body) refl
  data_bytes (c ∷ s) p e pos =
      step-feed_bytes p c s ph e busy
      ∙ ap (next_byte (λ p'. feed_bytes p' s)) (round p c [])
      ∙ elim (Bool-cases (p.remaining - 1 == 0)) [
        | inl last ↦
            let all : min p.remaining (suc (length s)) ≡ 1 = ground arith in
            rw (one, all, last) refl
        | inr more ↦
            let p' = record p {
              response = record p.response { body = p.response.body ++ (c ∷ []) };
              remaining = p.remaining - 1;
            } in
            let k = min (p.remaining - 1) (length s) in
            let all : min p.remaining (suc (length s)) ≡ suc k = ground arith in
            let left : p.remaining - suc k ≡ p.remaining - 1 - k = omega arith in
            let joined = append_assoc p.response.body (c ∷ []) (take k s) in
            rw (one, more, all, left) (data_bytes s p' e (ground arith) ∙ rw joined refl)
      ]
    where
      one : min p.remaining 1 ≡ 1
      one = omega arith

  -- A round on a body or a chunk.
  data-Follows :
      (p : HttpResponseParser) (c : ℕ) (rest : List ℕ)
      → p.phase ≡ ph
      → 0 < p.remaining
      → ((q : HttpResponseParser) (n : ℕ) → q.remaining ≡ again → IsBetween next q n)
      → ((q : HttpResponseParser) (n : ℕ) → 0 < q.remaining → IsBetween ph q n)
      → Follows (feed_bytes p (c ∷ rest)) (length rest) (feed_round ph p c rest)
  unfolding Follows data_parser
  data-Follows p c rest e pos after during = rw (round p c rest) (
    data_bytes (c ∷ rest) p e pos,
    (
      omega (arith, length-drop (min p.remaining (suc (length rest))) (c ∷ rest)),
      elim (Bool-cases (p.remaining - min p.remaining (suc (length rest)) == 0)) [
        | inl t ↦ rw t (after _ _ refl)
        | inr t ↦ rw t (IsBetween-at _ _ ph e (during _ _ (ground arith)))
      ],
    ),
  )

pub fixed_body-Follows :
    (p : HttpResponseParser) (c : ℕ) (rest : List ℕ)
    → p.phase ≡ fixed_body
    → 0 < p.remaining
    → Follows (feed_bytes p (c ∷ rest)) (length rest) (feed_round fixed_body p c rest)
unfolding feed_round data_round data_parser IsBetween is_finished
fixed_body-Follows p c rest e pos =
    data-Follows fixed_body finished 0 (λ p c rest. refl) refl p c rest e pos (λ q n h. tt)
      (λ q n h. h)

pub chunk_data-Follows :
    (p : HttpResponseParser) (c : ℕ) (rest : List ℕ)
    → p.phase ≡ chunk_data
    → 0 < p.remaining
    → Follows (feed_bytes p (c ∷ rest)) (length rest) (feed_round chunk_data p c rest)
unfolding feed_round data_round data_parser IsBetween is_finished
chunk_data-Follows p c rest e pos =
    data-Follows chunk_data chunk_data_crlf 2 (λ p c rest. refl) refl p c rest e pos
      (λ q n h. omega (arith, h)) (λ q n h. h)

pub crlf-Follows :
    (p : HttpResponseParser) (c : ℕ) (rest : List ℕ)
    → p.phase ≡ chunk_data_crlf
    → 0 < p.remaining
    → Follows (feed_bytes p (c ∷ rest)) (length rest) (feed_round chunk_data_crlf p c rest)
unfolding feed_round crlf_round IsBetween is_finished Follows next_byte
crlf-Follows p c rest e pos = (
  step-feed_bytes p c rest chunk_data_crlf e refl,
  (
    omega arith,
    elim (Bool-cases (p.remaining - 1 == 0)) [
      | inl t ↦ rw t tt
      | inr t ↦ rw t (IsBetween-at _ _ chunk_data_crlf e (ground arith))
    ],
  ),
)

close_bytes :
    (s : List ℕ) (p : HttpResponseParser)
    → p.phase ≡ until_close
    → feed_bytes p s
      ≡ ended (record p { response = record p.response { body = p.response.body ++ s } }) []
unfolding feed_bytes feed_round close_round next_byte is_finished
close_bytes [] p e = rw (append-nil p.response.body) refl
close_bytes (c ∷ s) p e =
    step-feed_bytes p c s until_close e refl
    ∙ close_bytes s
        (record p { response = record p.response { body = p.response.body ++ (c ∷ []) } }) e
    ∙ rw (append_assoc p.response.body (c ∷ []) s) refl

pub close-Follows :
    (p : HttpResponseParser) (c : ℕ) (rest : List ℕ)
    → p.phase ≡ until_close
    → Follows (feed_bytes p (c ∷ rest)) (length rest) (feed_round until_close p c rest)
unfolding feed_round close_round IsBetween Follows feed_bytes
close-Follows p c rest e =
    (close_bytes (c ∷ rest) p e, (omega arith, IsBetween-at _ _ until_close e tt))
