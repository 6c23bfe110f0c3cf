-- ===== src/Net/Url.antt =====
-- include/hl/net/Url.h and src/net/Url.cpp: `Url::parse`.
mod Parsed
mod Runs
use hyperliquid_cpp.Base.{
  ℕ, suc, ◌+◌, ◌^◌, Bool, true, false, ◌||◌, Option, none, some, List, [], ◌∷◌, ltb, ◌==◌,
  if◌then◌else◌, length, take, drop, codes,
}
use hyperliquid_cpp.Base.Texts.{same_text}
use hyperliquid_cpp.Net.Http.Text.{find, in_range, read_digits}

pub record Url : Type 0 where
  pub scheme : List ℕ
  pub host : List ℕ
  pub port : ℕ
  pub path : List ℕ
  pub secure : Bool

unfoldable pub after_head : Bool → Option ℕ → Option ℕ
after_head here (some i) = some (suc i)
after_head here none = if here then some 0 else none

-- `rfind` of one character: the index of the last occurrence.
unfoldable pub rfind : ℕ → List ℕ → Option ℕ
rfind c [] = none
rfind c (x ∷ s) = after_head (x == c) (rfind c s)

unfoldable pub with_host : Url → List ℕ → Option Url
with_host url authority =
    if length authority == 0 then none else some (record url { host = authority })

-- `from_chars` into an unsigned of 32 bits gives the port.
unfoldable pub with_port : Url → List ℕ → Option ℕ → Option Url
with_port url authority none = none
with_port url authority (some port) =
    if (port == 0) || ltb 65535 port then none else with_host (record url { port = port }) authority

unfoldable pub on_authority : Url → List ℕ → Option ℕ → Option Url
on_authority url authority none = with_host url authority
on_authority url authority (some colon) =
    with_port url (take colon authority)
      (in_range (2 ^ 32) (read_digits 10 (drop (colon + 1) authority) 0 false))

-- The authority and the path of what follows the scheme; `url` has the scheme's port.
unfoldable pub on_rest : Url → List ℕ → Option ℕ → Option Url
on_rest url rest none = on_authority url rest (rfind b':' rest)
on_rest url rest (some slash) =
    on_authority (record url { path = drop slash rest }) (take slash rest)
      (rfind b':' (take slash rest))

unfoldable pub on_scheme : List ℕ → Bool → ℕ → List ℕ → Option Url
on_scheme scheme secure default_port rest =
    on_rest
      (record {
        scheme = scheme;
        host = [];
        port = default_port;
        path = codes "/";
        secure = secure;
      })
      rest (find (codes "/") rest)

unfoldable pub is_secure : List ℕ → Bool
is_secure scheme = same_text scheme (codes "https") || same_text scheme (codes "wss")

unfoldable pub is_plain : List ℕ → Bool
is_plain scheme = same_text scheme (codes "http") || same_text scheme (codes "ws")

unfoldable pub parse_from : List ℕ → Option ℕ → Option Url
parse_from text none = none
parse_from text (some scheme_end) =
    let scheme = take scheme_end text in
    let rest = drop (scheme_end + 3) text in
    if is_secure scheme
    then on_scheme scheme true 443 rest
    else if is_plain scheme
    then on_scheme scheme false 80 rest
    else none

unfoldable pub parse_url : List ℕ → Option Url
parse_url text = parse_from text (find (codes "://") text)
