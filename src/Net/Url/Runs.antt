-- ===== src/Net/Url/Runs.antt =====
-- The URL of the exchange.
use hyperliquid_cpp.Base.{◌≡◌, refl, ◌≢◌, true, some, length, codes}
use hyperliquid_cpp.Net.Url.{
  Url, after_head, rfind, with_host, with_port, on_authority, on_rest, on_scheme, is_secure,
  parse_from, parse_url,
}
use hyperliquid_cpp.Net.Url.Parsed.{IsUrl, parse_url-IsUrl}
use hyperliquid_cpp.Net.Http.Text.{
  find, starts_with, starts_by, shifted, in_range, read_digits, digit_value,
}
use hyperliquid_cpp.Base.Texts.{same_text}

abbrev mainnet : Url
mainnet = record {
  scheme = codes "wss";
  host = codes "api.x";
  port = 8443;
  path = codes "/ws";
  secure = true;
}

parsed_mainnet : parse_url (codes "wss://api.x:8443/ws") ≡ some mainnet
unfolding parse_url parse_from on_scheme on_rest on_authority with_port with_host rfind after_head
    is_secure find starts_with starts_by shifted in_range read_digits digit_value same_text
parsed_mainnet = refl

parse_url-IsUrl_example : IsUrl mainnet × (length mainnet.host ≢ 0)
parse_url-IsUrl_example = parse_url-IsUrl (codes "wss://api.x:8443/ws") mainnet parsed_mainnet
