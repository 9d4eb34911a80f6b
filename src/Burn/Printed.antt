-- ===== src/Burn/Printed.antt =====
-- burn/src/http.hpp, ParseEndpoint: URLs that are written from a host and a port.
use loglite.Prelude.{
  All-append, NoByte, Text, [], ap, append-nil, append_assoc, arith, codes, drop_past, false,
  find_char-append, find_char-none, inl, inr, is_empty, length, length-append, none, refl, some,
  starts_with, take, take-length, ℕ, ◌++◌, ◌+◌, ◌∙◌, ◌∷◌, ◌≡◌, ◌⊎◌,
}
use loglite.Burn.Endpoint.{
  authority_of, http_prefix, parse_bracketed, parse_endpoint, parse_host_port, parse_plain,
  rfind_char,
}

-- A host with no slash, that either has no bracket at its head, or is an address of IPv6 in brackets.
abbrev pub IsHost : Text → Type 0
IsHost host =
    NoByte b'/' host
    × (((starts_with (codes "[") host ≡ false) × (is_empty host ≡ false))
        ⊎ ((inner : Text) × NoByte b']' inner × (host ≡ b'[' ∷ inner ++ b']' ∷ [])))

abbrev pub IsPort : Text → Type 0
IsPort port = NoByte b'/' port × NoByte b':' port × (is_empty port ≡ false)

-- Nothing, or a path.
abbrev pub IsPath : Text → Type 0
IsPath [] = Unit
IsPath (c ∷ path) = c ≡ b'/'

rfind_char-none : (c : ℕ) (s : Text) → NoByte c s → rfind_char c s ≡ none
unfolding rfind_char
rfind_char-none c [] h = refl
rfind_char-none c (d ∷ s) h = rw (rfind_char, rfind_char-none c s h.1, h.0) refl

rfind_char-append : (c : ℕ) (s t : Text) → NoByte c t → rfind_char c (s ++ c ∷ t) ≡ some (length s)
unfolding rfind_char
rfind_char-append c [] t h = rw (rfind_char, rfind_char-none c t h) (ground arith)
rfind_char-append c (d ∷ s) t h = rw (rfind_char, rfind_char-append c s t h) refl

authority_of_whole : (s : Text) → NoByte b'/' s → authority_of s ≡ s
unfolding authority_of
authority_of_whole s h = rw (authority_of, find_char-none b'/' s h) refl

authority_of_path : (s path : Text) → NoByte b'/' s → authority_of (s ++ b'/' ∷ path) ≡ s
unfolding authority_of
authority_of_path s path h =
    rw (authority_of, find_char-append b'/' s path h) (take-length s (b'/' ∷ path))

authority_of-append : (s path : Text) → NoByte b'/' s → IsPath path → authority_of (s ++ path) ≡ s
authority_of-append s [] h p = ap authority_of (append-nil s) ∙ authority_of_whole s h
authority_of-append s (c ∷ path) h p = rw p (authority_of_path s path h)

not_empty : (s : Text) (c : ℕ) (t : Text) → is_empty (s ++ c ∷ t) ≡ false
not_empty [] c t = refl
not_empty (d ∷ s) c t = refl

head_kept :
    (s : Text) (t : Text)
    → is_empty s ≡ false
    → starts_with (codes "[") (s ++ t) ≡ starts_with (codes "[") s
head_kept [] t h = cc
head_kept (c ∷ s) t h = refl

parse_plain-append :
    (host port : Text)
    → is_empty host ≡ false
    → IsPort port
    → parse_plain (host ++ b':' ∷ port) ≡ inr (record { host = host; port = port })
unfolding parse_plain
parse_plain-append host port h p =
    rw
      (
        parse_plain,
        rfind_char-append b':' host port p.1,
        take-length host (b':' ∷ port),
        drop_past b':' host port,
        h,
        p.2,
      )
      refl

take_past : (c : ℕ) (s t : Text) → take (length s + 1) (s ++ c ∷ t) ≡ s ++ c ∷ []
take_past c s t =
    let n : length s + 1 ≡ length (s ++ c ∷ []) = omega (arith, length-append s (c ∷ [])) in
    rw (n, ← append_assoc s (c ∷ []) t) (take-length (s ++ c ∷ []) t)

parse_bracketed-append :
    (inner port : Text)
    → NoByte b']' inner
    → parse_bracketed ((b'[' ∷ inner) ++ b']' ∷ b':' ∷ port)
      ≡ inr (record { host = b'[' ∷ inner ++ b']' ∷ []; port = port })
unfolding parse_bracketed
parse_bracketed-append inner port h =
    rw
      (
        parse_bracketed,
        find_char-append b']' (b'[' ∷ inner) (b':' ∷ port) (refl, h),
        take_past b']' (b'[' ∷ inner) (b':' ∷ port),
        drop_past b']' (b'[' ∷ inner) (b':' ∷ port),
      )
      refl

parse_host_port-append :
    (host port : Text)
    → IsHost host
    → IsPort port
    → parse_host_port (host ++ b':' ∷ port) ≡ inr (record { host = host; port = port })
unfolding parse_host_port
parse_host_port-append host port (h, inl (plain, some_host)) p =
    rw (parse_host_port, head_kept host (b':' ∷ port) some_host, plain)
      (parse_plain-append host port some_host p)
parse_host_port-append host port (h, inr (inner, inside, e)) p =
    rw (e, append_assoc inner (b']' ∷ []) (b':' ∷ port)) (parse_bracketed-append inner port inside)

-- The endpoint of a URL `http://host:port`, with or without a path behind it, is that host and that
-- port, when neither has a slash, the port is not empty and has no colon, and the host is an address
-- of IPv6 in brackets, or is not empty and begins with no bracket.
pub parse_endpoint-print :
    (host port path : Text)
    → IsHost host
    → IsPort port
    → IsPath path
    → parse_endpoint (http_prefix ++ (host ++ b':' ∷ port) ++ path)
      ≡ inr (record { host = host; port = port })
unfolding parse_endpoint
parse_endpoint-print host port path h p k =
    let authority =
      authority_of-append (host ++ b':' ∷ port) path
        (All-append _ host (b':' ∷ port) h.0 (refl, p.0)) k in
    rw (parse_endpoint, authority, not_empty host b':' port) (parse_host_port-append host port h p)
