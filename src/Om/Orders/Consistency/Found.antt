-- ===== src/Om/Orders/Consistency/Found.antt =====
-- src/om/ExchangeClient.cpp: what `find`, `findByOid` and the search for a message's order give.
use hyperliquid_cpp.Base.{ℕ, ◌≡◌, Option, none, some, ◌==◌, if_cases, option_cases}
use mathlib.Core.Path.{subst}
use mathlib.Core.Option.{some-injective}
use hyperliquid_cpp.Base.Assoc.{lookup}
use hyperliquid_cpp.Core.Hex.{Cloid}
use hyperliquid_cpp.Om.Orders.{Tracked, Client}
use hyperliquid_cpp.Om.Orders.Table.{same_oid, find, find_by_oid}
use hyperliquid_cpp.Om.Orders.Streams.{known_by_cloid, known}
use hyperliquid_cpp.Om.Orders.Consistency.{none_ne_some}

-- A property of the value of an option, where there is one.
unfoldable pub OnSome {ℓ} : {A : Type ℓ} → (A → Type 0) → Option A → Type ℓ
OnSome {A = A} P o = (a : A) → o ≡ some a → P a

pub OnSome-none {ℓ} : {A : Type ℓ} (P : A → Type 0) → OnSome P none
unfolding OnSome
OnSome-none P a e = absurd (none_ne_some e)

pub OnSome-some {ℓ} : {A : Type ℓ} (P : A → Type 0) (a : A) → P a → OnSome P (some a)
unfolding OnSome
OnSome-some P a h b e = subst P (some-injective _ _ e) h

-- What a search by oid or for a message gives stands in the table under its key.
abbrev pub IsStored : Client → Cloid × Tracked → Type 0
IsStored s kt = find s.orders kt.0 ≡ some kt.1

at_key-IsStored :
    (s : Client) (key : Cloid)
    → OnSome (IsStored s) (elim (find s.orders key) as (λ o. Option (Cloid × Tracked)) [
      | none ↦ none
      | some t ↦ some (key, t)
    ])
at_key-IsStored s key =
    option_cases (OnSome (IsStored s)) (find s.orders key) (λ e. OnSome-none _)
      (λ t e. OnSome-some (IsStored s) (key, t) e)

find_by_oid-IsStored :
    (s : Client) (oid : ℕ) → OnSome (IsStored s) (find_by_oid s.orders s.oid_index oid)
unfolding find_by_oid
find_by_oid-IsStored s oid =
    if_cases (OnSome (IsStored s)) (oid == 0) (λ e. OnSome-none _)
      (λ e.
        option_cases (OnSome (IsStored s)) (lookup same_oid s.oid_index oid) (λ e. OnSome-none _)
          (λ key e. at_key-IsStored s key))

known_by_cloid-IsStored :
    (s : Client) (cloid : Option Cloid) → OnSome (IsStored s) (known_by_cloid s cloid)
unfolding known_by_cloid
known_by_cloid-IsStored s none = OnSome-none _
known_by_cloid-IsStored s (some cloid) = at_key-IsStored s cloid

known-IsStored :
    (s : Client) (cloid : Option Cloid) (oid : ℕ) → OnSome (IsStored s) (known s cloid oid)
unfolding known
known-IsStored s cloid oid =
    option_cases (OnSome (IsStored s)) (known_by_cloid s cloid) (λ e. find_by_oid-IsStored s oid)
      (λ kt e. OnSome-some (IsStored s) kt (unfold OnSome in known_by_cloid-IsStored s cloid kt e))

pub find_by_oid-found :
    (s : Client) (oid : ℕ) (kt : Cloid × Tracked)
    → find_by_oid s.orders s.oid_index oid ≡ some kt
    → IsStored s kt
unfolding OnSome
find_by_oid-found s oid kt e = find_by_oid-IsStored s oid kt e

pub known-found :
    (s : Client) (cloid : Option Cloid) (oid : ℕ) (kt : Cloid × Tracked)
    → known s cloid oid ≡ some kt
    → IsStored s kt
unfolding OnSome
known-found s cloid oid kt e = known-IsStored s cloid oid kt e
