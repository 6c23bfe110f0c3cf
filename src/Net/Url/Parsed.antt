-- ===== src/Net/Url/Parsed.antt =====
-- What an accepted URL is.
use mathlib.Core.Path.{subst}
use hyperliquid_cpp.Base.{
  ℕ, suc, ◌+◌, ◌<◌, ◌≡◌, refl, ◌≢◌, inl, inr, true, ◌||◌, Option, none, some, List, [], ◌∷◌, arith,
  ltb, Bool, false, ◌⊎◌, ◌==◌, Bool-cases, if_cases, length, take, drop, codes,
}
use hyperliquid_cpp.Net.Http.Text.{find, starts_with, starts_by, shifted}
use hyperliquid_cpp.Base.Texts.{same_text, same_text_eq}
use hyperliquid_cpp.Net.Url.{
  Url, with_host, with_port, on_authority, on_rest, on_scheme, is_secure, is_plain, parse_from,
  parse_url,
}

-- The four schemes by their names, and which of them run over TLS.
abbrev pub HasScheme : List ℕ → Bool → Type 0
HasScheme scheme secure =
    (secure ≡ true × (scheme ≡ codes "https" ⊎ scheme ≡ codes "wss"))
    ⊎ (secure ≡ false × (scheme ≡ codes "http" ⊎ scheme ≡ codes "ws"))

either_text : (s a b : List ℕ) → (same_text s a || same_text s b) ≡ true → s ≡ a ⊎ s ≡ b
either_text s a b e = elim (Bool-cases (same_text s a)) [
  | inl t ↦ inl (same_text_eq s a t)
  | inr f ↦ inr (same_text_eq s b (ground arith))
]

secure_scheme : (s : List ℕ) → is_secure s ≡ true → HasScheme s true
unfolding is_secure
secure_scheme s e = inl (refl, either_text s (codes "https") (codes "wss") e)

plain_scheme : (s : List ℕ) → is_plain s ≡ true → HasScheme s false
unfolding is_plain
plain_scheme s e = inr (refl, either_text s (codes "http") (codes "ws") e)

-- A URL that the clients can connect to.
unfoldable pub IsUrl : Url → Type 0
IsUrl u =
    0 < u.port
    × u.port < 65536
    × ((rest : List ℕ) × (u.path ≡ b'/' ∷ rest))
    × HasScheme u.scheme u.secure

-- Any result satisfies it, and has a host.
Yields : Option Url → Type 0
Yields none = Unit
Yields (some u) = IsUrl u × (length u.host ≢ 0)

with_host-Yields : (u : Url) (authority : List ℕ) → IsUrl u → Yields (with_host u authority)
unfolding with_host Yields IsUrl
with_host-Yields u authority h =
    if_cases Yields (length authority == 0) (λ t. tt) (λ t. (h, λ e. absurd (ground (arith, t, e))))

with_port-Yields :
    (u : Url) (authority : List ℕ) (o : Option ℕ) → IsUrl u → Yields (with_port u authority o)
unfolding with_port Yields IsUrl
with_port-Yields u authority none h = tt
with_port-Yields u authority (some port) h =
    if_cases Yields ((port == 0) || ltb 65535 port) (λ t. tt)
      (λ t.
        with_host-Yields (record u { port = port }) authority
          (ground (arith, t), ground (arith, t), h.2, h.3))

on_authority-Yields :
    (u : Url) (authority : List ℕ) (o : Option ℕ) → IsUrl u → Yields (on_authority u authority o)
unfolding on_authority
on_authority-Yields u authority none h = with_host-Yields u authority h
on_authority-Yields u authority (some colon) h = with_port-Yields u (take colon authority) _ h

unshifted : (o : Option ℕ) (i : ℕ) → shifted o ≡ some i → (j : ℕ) × (o ≡ some j × i ≡ suc j)
unfolding shifted
unshifted none i e = absurd (cc e)
unshifted (some j) i e = (j, (refl, cc e))

-- What `find` finds is there.
found_here :
    (c : ℕ) (s : List ℕ) (i : ℕ)
    → find (c ∷ []) s ≡ some i
    → (rest : List ℕ) × (drop i s ≡ c ∷ rest)
unfolding find starts_with starts_by
found_here c [] i e = absurd (cc e)
found_here c (x ∷ s) i e = elim (Bool-cases (x == c)) [
  | inl t ↦
      let here : some 0 ≡ some i = rw t at e in
      let z : i ≡ 0 = cc here in let same : x ≡ c = ground (arith, t) in (s, rw (z, same) refl)
  | inr f ↦
      let later = unshifted (find (c ∷ []) s) i (rw f at e) in
      let there = found_here c s later.0 later.1.0 in (there.0, rw (later.1.1) there.1)
]

on_rest-Yields :
    (u : Url) (rest : List ℕ) (o : Option ℕ)
    → find (codes "/") rest ≡ o
    → IsUrl u
    → Yields (on_rest u rest o)
unfolding on_rest IsUrl
on_rest-Yields u rest none e h = on_authority-Yields u rest _ h
on_rest-Yields u rest (some slash) e h =
    on_authority-Yields (record u { path = drop slash rest }) (take slash rest) _
      (h.0, h.1, found_here b'/' rest slash e, h.3)

parse_from-Yields : (text : List ℕ) (o : Option ℕ) → Yields (parse_from text o)
unfolding parse_from on_scheme Yields IsUrl
parse_from-Yields text none = tt
parse_from-Yields text (some i) =
    if_cases Yields (is_secure (take i text))
      (λ t.
        on_rest-Yields _ (drop (i + 3) text) _ refl
          (omega arith, omega arith, ([], refl), secure_scheme (take i text) t))
      (λ f.
        if_cases Yields (is_plain (take i text))
          (λ t.
            on_rest-Yields _ (drop (i + 3) text) _ refl
              (omega arith, omega arith, ([], refl), plain_scheme (take i text) t))
          (λ t. tt))

-- A URL that is accepted has a host, a port of 16 bits other than zero, a path that starts with a
-- slash, and one of the schemes https and wss, when it is secure, or http and ws, when it is not.
pub parse_url-IsUrl :
    (text : List ℕ) (u : Url) → parse_url text ≡ some u → IsUrl u × (length u.host ≢ 0)
unfolding parse_url Yields
parse_url-IsUrl text u e = subst Yields e (parse_from-Yields text _)
