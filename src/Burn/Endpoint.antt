-- ===== src/Burn/Endpoint.antt =====
-- burn/src/http.hpp, ParseHostPort and ParseEndpoint, and the Endpoint of config.hpp. An exception is
-- the left side of a sum, with its text.
use loglite.Prelude.{
  Option, Text, [], codes, drop, find_char, if◌then◌else◌, inl, inr, is_empty, none, not, some,
  starts_with, suc, take, ℕ, ◌+◌, ◌==◌, ◌||◌, ◌∷◌, ◌⊎◌,
}

pub record Endpoint : Type 0 where
  pub host : Text
  pub port : Text

-- The port of a fresh `Endpoint`.
abbrev pub default_port : Text
default_port = codes "7788"

-- `s.rfind(c)`; `none` is npos.
unfoldable pub rfind_char : ℕ → Text → Option ℕ
rfind_char c [] = none
rfind_char c (d ∷ s) = elim (rfind_char c s) [
  | some k ↦ some (suc k)
  | none ↦ if c == d then some 0 else none
]

abbrev pub bad_host_port : Text
bad_host_port = codes "invalid endpoint host/port"

-- What stands behind the bracket that closes an address of IPv6.
unfoldable pub after_bracket : Text → Text → Text ⊎ Endpoint
after_bracket host [] = inr (record { host = host; port = default_port })
after_bracket host (c ∷ rest) =
    if c == b':' then inr (record { host = host; port = rest }) else inl bad_host_port

unfoldable pub parse_bracketed : Text → Text ⊎ Endpoint
unfolding after_bracket
parse_bracketed authority = elim (find_char b']' authority) [
  | none ↦ inl (codes "invalid IPv6 endpoint")
  | some close ↦ after_bracket (take (close + 1) authority) (drop (close + 1) authority)
]

abbrev pub checked_endpoint : Text → Text → Text ⊎ Endpoint
checked_endpoint host port =
    if is_empty host || is_empty port
    then inl bad_host_port
    else inr (record { host = host; port = port })

unfoldable pub parse_plain : Text → Text ⊎ Endpoint
unfolding rfind_char
parse_plain authority = elim (rfind_char b':' authority) [
  | none ↦ inr (record { host = authority; port = codes "80" })
  | some colon ↦ checked_endpoint (take colon authority) (drop (colon + 1) authority)
]

unfoldable pub parse_host_port : Text → Text ⊎ Endpoint
unfolding parse_bracketed parse_plain
parse_host_port authority =
    if starts_with (codes "[") authority then parse_bracketed authority else parse_plain authority

-- What stands in front of the first slash.
unfoldable pub authority_of : Text → Text
authority_of url = elim (find_char b'/' url) [ none ↦ url | some slash ↦ take slash url ]

abbrev pub http_prefix : Text
http_prefix = codes "http://"

unfoldable pub parse_endpoint : Text → Text ⊎ Endpoint
unfolding authority_of parse_host_port
parse_endpoint url =
    if not (starts_with http_prefix url)
    then inl (codes "endpoint must start with http://")
    else (let authority = authority_of (drop 7 url) in
        if is_empty authority
        then inl (codes "endpoint missing host")
        else parse_host_port authority)
