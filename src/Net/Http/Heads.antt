-- ===== src/Net/Http/Heads.antt =====
-- A round on a head over many bytes is many rounds over one.
use hyperliquid_cpp.Base.{
  ℕ, suc, ◌+◌, ◌-◌, ◌*◌, ◌≤◌, ◌≡◌, refl, sym, ap, ◌∙◌, inl, inr, Bool, true, false, ◌||◌, not,
  Option, none, some, List, [], ◌∷◌, ◌++◌, append_assoc, arith, ltb, ◌==◌, if◌then◌else◌,
  Bool-cases, length, take, drop, codes, length-append, Option-cases,
}
use hyperliquid_cpp.Base.{take-length-append}
use hyperliquid_cpp.Base.Int.{ℤ}
use hyperliquid_cpp.Net.Http.Text.{starts_with, find, from_chars_int}
use hyperliquid_cpp.Net.Http.Head.{
  in_head, HttpResponseParser, HttpStatus, need_more, complete, failed, crlf, Headers, fail,
  no_body, choose_body, after_headers, on_status_line, on_first_line, parse_head,
}
use hyperliquid_cpp.Net.Http.Feed.{
  Round, goes, fails, failing, blank_line, parsed, take_head, head_round, feed_round, is_finished,
  Fed,
}
use hyperliquid_cpp.Net.Http.Search.{
  shift_by, shift_by-none, shift_by-some, find-append_some, find-none-append, find-drop,
}
use hyperliquid_cpp.Net.Http.Bytes.{next_byte, feed_bytes, IsBetween}
use hyperliquid_cpp.Net.Http.Rounds.{Follows, step-feed_bytes, IsBetween-at}

if_cases : {A : Type 0} (P : A → Type 0) {x y : A} (b : Bool) → P x → P y → P (if b then x else y)
if_cases P true p q = p
if_cases P false p q = q

-- What a parsed head leads to.
IsParsed : HttpResponseParser × HttpStatus → Type 0
IsParsed (p, need_more) = (n : ℕ) → IsBetween p.phase p n
IsParsed (p, complete) = (n : ℕ) → IsBetween p.phase p n
IsParsed (p, failed) = Unit {0}

choose_body-IsBetween :
    (p : HttpResponseParser) (code : ℤ) (h : Headers) (n : ℕ)
    → IsBetween (choose_body p code h).phase (choose_body p code h) n
unfolding choose_body IsBetween
choose_body-IsBetween p code h n = if_cases P (no_body code) tt (
    if_cases P h.chunked tt (
      if_cases P h.have_length
        (elim (Bool-cases (h.content_length == 0)) [
          | inl t ↦ rw t tt
          | inr t ↦ rw t (ground arith)
        ])
        tt))
  where
    P : HttpResponseParser → Type 0
    P q = IsBetween q.phase q n

after_headers-IsParsed :
    (p : HttpResponseParser) (code : ℤ) (h : Headers) → IsParsed (after_headers p code h)
unfolding after_headers fail IsParsed
after_headers-IsParsed p code h = if_cases IsParsed h.bad tt (choose_body-IsBetween _ code h)

on_status_line-IsParsed :
    (p : HttpResponseParser) (s lines : List ℕ) (o : Option ℤ)
    → IsParsed (on_status_line p s lines o)
unfolding on_status_line fail IsParsed
on_status_line-IsParsed p s lines none = tt
on_status_line-IsParsed p s lines (some code) = after_headers-IsParsed p code _

on_first_line-IsParsed :
    (p : HttpResponseParser) (s lines : List ℕ) → IsParsed (on_first_line p s lines)
unfolding on_first_line fail IsParsed
on_first_line-IsParsed p s lines =
    if_cases IsParsed (not (starts_with s (codes "HTTP/1.")) || ltb (length s) 12) tt
      (on_status_line-IsParsed p s lines (from_chars_int (take 3 (drop 9 s))))

parse_head-IsParsed : (p : HttpResponseParser) → IsParsed (parse_head p)
unfolding parse_head
parse_head-IsParsed p =
    elim (find crlf p.head)
      as (λ (o : Option ℕ). IsParsed (elim o [
        | none ↦ on_first_line p p.head (drop 1 p.head)
        | some eol ↦ on_first_line p (take eol p.head) (drop (eol + 2) p.head)
      ])) [
        | none ↦ on_first_line-IsParsed p p.head (drop 1 p.head)
        | some eol ↦ on_first_line-IsParsed p (take eol p.head) (drop (eol + 2) p.head)
      ]

parsed-Follows :
    (rest : List ℕ) (r : HttpResponseParser × HttpStatus)
    → IsParsed r
    → Follows (next_byte (λ p'. feed_bytes p' rest) (parsed [] r)) (length rest) (parsed rest r)
unfolding parsed IsParsed Follows next_byte
parsed-Follows rest (p, need_more) h = (refl, (omega arith, h _))
parsed-Follows rest (p, complete) h = (refl, (omega arith, h _))
parsed-Follows rest (p, failed) h = refl

-- The search from three characters back finds what a search of the whole would find.
take_head_shift :
    (p : HttpResponseParser) (rest : List ℕ) (before k : ℕ) (o : Option ℕ)
    → take_head p rest before k o ≡ take_head p rest before 0 (shift_by k o)
unfolding take_head
take_head_shift p rest before k none = rw (shift_by-none k) refl
take_head_shift p rest before k (some i) =
    let e : 0 + (k + i) + 4 ≡ k + i + 4 = omega arith in rw (shift_by-some k i, e) refl

head_round_lem :
    (p : HttpResponseParser) (rest : List ℕ)
    → find blank_line p.head ≡ none
    → head_round p rest ≡ take_head p rest (length p.head) 0 (find blank_line (p.head ++ rest))
unfolding head_round
head_round_lem p rest h = elim (Bool-cases (ltb (length p.head) 3)) [
  | inl short ↦ let e : length p.head - 3 ≡ 0 = ground arith in rw e refl
  | inr long ↦
      take_head_shift p rest (length p.head) (length p.head - 3) _
      ∙ ap (take_head p rest (length p.head) 0) (
          sym (find-drop blank_line (length p.head - 3) p.head rest h (ground arith) (omega arith)))
]

-- A head that ends with the byte `c`.
found :
    (p : HttpResponseParser) (c : ℕ) (rest : List ℕ) (j : ℕ)
    → find blank_line p.head ≡ none
    → find blank_line (p.head ++ (c ∷ [])) ≡ some j
    → head_round p (c ∷ rest) ≡ parsed rest (parse_head (record p { head = p.head ++ (c ∷ []) }))
unfolding take_head
found p c rest j h e =
    let whole = append_assoc p.head (c ∷ []) rest in
    let here = find-append_some blank_line (p.head ++ (c ∷ [])) rest j (omega arith) e in
    let late = find-none-append blank_line p.head (c ∷ []) j (omega arith) h e in
    let size : 0 + j + 4 ≡ length (p.head ++ (c ∷ [])) =
      omega (arith, here.1, late, length-append p.head (c ∷ [])) in
    let left : length (p.head ++ (c ∷ [])) - length p.head ≡ 1 =
      omega (arith, length-append p.head (c ∷ [])) in
    head_round_lem p (c ∷ rest) h
    ∙ rw (sym whole, here.0, size, left, sym whole, take-length-append (p.head ++ (c ∷ [])) rest)
        refl

-- A head that goes on behind the byte `c`: the rounds from there give the same.
longer :
    (p : HttpResponseParser) (c d : ℕ) (rest : List ℕ)
    → find blank_line p.head ≡ none
    → find blank_line (p.head ++ (c ∷ [])) ≡ none
    → head_round p (c ∷ d ∷ rest) ≡ head_round (record p { head = p.head ++ (c ∷ []) }) (d ∷ rest)
unfolding take_head
longer p c d rest h e =
    let whole = append_assoc p.head (c ∷ []) (d ∷ rest) in
    head_round_lem p (c ∷ d ∷ rest) h
    ∙ rw (sym whole) (by_search (find blank_line (p.head ++ (c ∷ []) ++ (d ∷ rest))) refl)
    ∙ sym (head_round_lem (record p { head = p.head ++ (c ∷ []) }) (d ∷ rest) e)
  where
    by_search :
        (o : Option ℕ)
        → find blank_line (p.head ++ (c ∷ []) ++ (d ∷ rest)) ≡ o
        → take_head p (c ∷ d ∷ rest) (length p.head) 0 o
          ≡ take_head
              (record p { head = p.head ++ (c ∷ []) })
              (d ∷ rest)
              (length (p.head ++ (c ∷ [])))
              0
              o
    by_search none k = rw (append_assoc p.head (c ∷ []) (d ∷ rest)) refl
    by_search (some j) k =
        let late =
          find-none-append blank_line (p.head ++ (c ∷ [])) (d ∷ rest) j (omega arith) e k in
        let n = length-append p.head (c ∷ []) in
        let a : 0 + j + 4 - length p.head ≡ suc (0 + j + 4 - length (p.head ++ (c ∷ []))) =
          omega (arith, late, n) in
        rw (append_assoc p.head (c ∷ []) (d ∷ rest), a) refl

weaken : (fed : Fed) (n m : ℕ) (r : Round) → n ≤ m → Follows fed n r → Follows fed m r
unfolding Follows
weaken fed n m (goes p left) le h = (h.0, (omega (arith, le, h.1.0), h.1.1))
weaken fed n m (fails p) le h = h

not_found :
    (p : HttpResponseParser) (c : ℕ)
    → find blank_line p.head ≡ none
    → length p.head + 1 ≤ 64 * 1024
    → find blank_line (p.head ++ (c ∷ [])) ≡ none
    → head_round p (c ∷ []) ≡ goes (record p { head = p.head ++ (c ∷ []) }) []
unfolding take_head failing
not_found p c h room e =
    let fits : ltb (64 * 1024) (length (p.head ++ (c ∷ []))) ≡ false =
      ground (arith, length-append p.head (c ∷ [])) in
    head_round_lem p (c ∷ []) h ∙ rw (e, fits) refl

-- The blank line is complete at `c`.
complete-Follows :
    (rest : List ℕ) (p : HttpResponseParser) (c : ℕ) (j : ℕ)
    → p.phase ≡ in_head
    → find blank_line p.head ≡ none
    → find blank_line (p.head ++ (c ∷ [])) ≡ some j
    → Follows (feed_bytes p (c ∷ rest)) (length rest) (head_round p (c ∷ rest))
unfolding feed_round is_finished
complete-Follows rest p c j e b t =
    let q = record p { head = p.head ++ (c ∷ []) } in
    rw (step-feed_bytes p c rest in_head e refl, found p c [] j b t, found p c rest j b t)
      (parsed-Follows rest (parse_head q) (parse_head-IsParsed q))

pub head-Follows :
    (rest : List ℕ) (p : HttpResponseParser) (c : ℕ)
    → p.phase ≡ in_head
    → IsBetween in_head p (suc (length rest))
    → Follows (feed_bytes p (c ∷ rest)) (length rest) (feed_round in_head p c rest)
unfolding feed_round IsBetween is_finished next_byte Follows
head-Follows [] p c e b = elim (Option-cases (find blank_line (p.head ++ (c ∷ [])))) [
  | inr (j, t) ↦ complete-Follows [] p c j e b.0 t
  | inl t ↦
      rw (step-feed_bytes p c [] in_head e refl, not_found p c b.0 (omega (arith, b.1)) t)
        (
          refl,
          (
            omega arith,
            IsBetween-at _ _ in_head e (t, omega (arith, b.1, length-append p.head (c ∷ []))),
          ),
        )
]
head-Follows (d ∷ rest) p c e b = elim (Option-cases (find blank_line (p.head ++ (c ∷ [])))) [
  | inr (j, t) ↦ complete-Follows (d ∷ rest) p c j e b.0 t
  | inl t ↦
      let q = record p { head = p.head ++ (c ∷ []) } in
      let ih = head-Follows rest q d e (t, omega (arith, b.1, length-append p.head (c ∷ []))) in
      rw
        (
          step-feed_bytes p c (d ∷ rest) in_head e refl,
          not_found p c b.0 (omega (arith, b.1)) t,
          longer p c d rest b.0 t,
        )
        (weaken _ (length rest) _ _ (omega arith) ih)
]
