-- ===== src/Net/WsSession/Venue.antt =====
-- The subscriptions of which the venue has been told on a connection.
use mathlib.Core.Path.{subst}
use hyperliquid_cpp.Base.{
  ℕ, ◌≡◌, refl, sym, ap, ◌∙◌, Bool, false, ◌||◌, List, [], ◌∷◌, ◌++◌, map, append_assoc, append-nil,
  arith, if◌then◌else◌, if_cases,
}
use hyperliquid_cpp.Base.Texts.{same_text, same_text_refl, same_text_sym}
use hyperliquid_cpp.Net.WsSession.{Text, subscribe_text, unsubscribe_text, ping_text, raw_text}
use hyperliquid_cpp.Net.WsSession.Steps.{has, erase}

-- What the venue makes of one text, and of all texts on a connection: a second subscription to the
-- same thing is none.
unfoldable pub after_text : List (List ℕ) → Text → List (List ℕ)
after_text known (subscribe_text json) = if has json known then known else known ++ (json ∷ [])
after_text known (unsubscribe_text json) = erase json known
after_text known ping_text = known
after_text known (raw_text text) = known

unfoldable pub venue : List (List ℕ) → List Text → List (List ℕ)
venue known [] = known
venue known (t ∷ ts) = venue (after_text known t) ts

pub venue-append :
    (known : List (List ℕ)) (ts us : List Text) → venue known (ts ++ us) ≡ venue (venue known ts) us
unfolding venue
venue-append known [] us = refl
venue-append known (t ∷ ts) us = venue-append (after_text known t) ts us

-- No two entries are the same.
unfoldable pub IsDistinct : List (List ℕ) → Type 0
IsDistinct [] = Unit {0}
IsDistinct (x ∷ xs) = has x xs ≡ false × IsDistinct xs

has-append :
    (json : List ℕ) (xs ys : List (List ℕ)) → has json (xs ++ ys) ≡ (has json xs || has json ys)
unfolding has
has-append json [] ys = refl
has-append json (x ∷ xs) ys = rw (has-append json xs ys) (ground arith)

pub IsDistinct-append :
    (xs : List (List ℕ)) (json : List ℕ)
    → IsDistinct xs
    → has json xs ≡ false
    → IsDistinct (xs ++ (json ∷ []))
unfolding IsDistinct has
IsDistinct-append [] json d e = (refl, tt)
IsDistinct-append (x ∷ xs) json d e = (
  has-append x xs (json ∷ []) ∙ rw (d.0, same_text_sym json x) (ground (arith, e)),
  IsDistinct-append xs json d.1 (ground (arith, e)),
)

has-erase :
    (json other : List ℕ) (xs : List (List ℕ))
    → has json xs ≡ false
    → has json (erase other xs) ≡ false
unfolding has erase
has-erase json other [] e = refl
has-erase json other (x ∷ xs) e =
    if_cases (λ ys. has json ys ≡ false) (same_text x other) (λ t. ground (arith, e))
      (λ t. ground (arith, e, has-erase json other xs (ground (arith, e))))

pub IsDistinct-erase :
    (json : List ℕ) (xs : List (List ℕ)) → IsDistinct xs → IsDistinct (erase json xs)
unfolding IsDistinct erase
IsDistinct-erase json [] d = tt
IsDistinct-erase json (x ∷ xs) d =
    if_cases IsDistinct (same_text x json) (λ t. d.1)
      (λ t. (has-erase x json xs d.0, IsDistinct-erase json xs d.1))

has-middle :
    (known : List (List ℕ)) (x : List ℕ) (xs : List (List ℕ))
    → IsDistinct (known ++ (x ∷ xs))
    → has x known ≡ false
unfolding IsDistinct has
has-middle [] x xs d = refl
has-middle (y ∷ ys) x xs d =
    let apart : (has y ys || (same_text x y || has y xs)) ≡ false =
      sym (has-append y ys (x ∷ xs)) ∙ d.0 in
    ground (arith, apart, same_text_sym y x, has-middle ys x xs d.1)

-- On a new connection, the subscriptions are told one by one.
pub venue-subscribe :
    (known xs : List (List ℕ))
    → IsDistinct (known ++ xs)
    → venue known (map subscribe_text xs) ≡ known ++ xs
unfolding venue after_text
venue-subscribe known [] d = sym (append-nil known)
venue-subscribe known (x ∷ xs) d =
    ap (λ (b : Bool). venue (if b then known else known ++ (x ∷ [])) (map subscribe_text xs))
      (has-middle known x xs d)
    ∙ venue-subscribe (known ++ (x ∷ [])) xs
        (subst IsDistinct (sym (append_assoc known (x ∷ []) xs)) d)
    ∙ append_assoc known (x ∷ []) xs

-- All are taken back, the first one first.
pub venue-unsubscribe : (xs : List (List ℕ)) → venue xs (map unsubscribe_text xs) ≡ []
unfolding venue after_text erase
venue-unsubscribe [] = refl
venue-unsubscribe (x ∷ xs) =
    ap (λ (b : Bool). venue (if b then xs else x ∷ erase x xs) (map unsubscribe_text xs))
      (same_text_refl x)
    ∙ venue-unsubscribe xs
