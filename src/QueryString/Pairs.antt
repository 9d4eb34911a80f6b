-- ===== src/QueryString/Pairs.antt =====
-- common.hpp, SplitURLTarget and ParseQueryString, against the texts that they take apart.
use loglite.Prelude.{
  All, All-append, List, NoByte, Text, [], arith, drop_past, false, find_char-append,
  find_char-none, is_empty, length, length-append, map, refl, suc, take-length, zero, ℕ, ◌++◌, ◌<◌,
  ◌==◌, ◌∙◌, ◌∷◌, ◌≡◌,
}
use loglite.Utils.{url_decode}
use loglite.Utils.Decode.{}
use loglite.QueryString.{parse_pair, parse_pairs, parse_query_string, split_url_target}

-- A target is split at its first question mark, and one without has no query.
pub split_url_target-append :
    (path query : Text)
    → NoByte b'?' path
    → (split_url_target (path ++ b'?' ∷ query) ≡ (path, query))
      × (split_url_target path ≡ (path, []))
unfolding split_url_target
split_url_target-append path query h = (
  rw
      (
        find_char-append b'?' path query h,
        split_url_target,
        take-length path (b'?' ∷ query),
        drop_past b'?' path query,
      )
      refl,
  rw (find_char-none b'?' path h, split_url_target) refl,
)

-- The parameters as they stand in the text.
abbrev pub join_pairs : List (Text × Text) → Text
join_pairs [] = []
join_pairs ((k, v) ∷ []) = k ++ b'=' ∷ v
join_pairs ((k, v) ∷ p ∷ ps) = (k ++ b'=' ∷ v) ++ b'&' ∷ join_pairs (p ∷ ps)

abbrev pub Separable : Text × Text → Type 0
Separable p = NoByte b'=' p.0 × NoByte b'&' p.0 × NoByte b'&' p.1

abbrev pub decode_pair : Text × Text → Text × Text
decode_pair p = (url_decode p.0, url_decode p.1)

parse_pair-join :
    (k v : Text) → NoByte b'=' k → parse_pair (k ++ b'=' ∷ v) ≡ decode_pair (k, v) ∷ []
unfolding parse_pair
parse_pair-join k v h =
    rw (find_char-append b'=' k v h, parse_pair, take-length k (b'=' ∷ v), drop_past b'=' k v) refl

no_amp : (k v : Text) → NoByte b'&' k → NoByte b'&' v → NoByte b'&' (k ++ b'=' ∷ v)
no_amp k v hk hv = All-append (λ d. (b'&' == d) ≡ false) k (b'=' ∷ v) hk (refl, hv)

-- One round, on a text that is not empty.
parse_pairs-last :
    (fuel : ℕ) (pair : Text)
    → is_empty pair ≡ false
    → NoByte b'&' pair
    → parse_pairs (suc fuel) pair ≡ parse_pair pair
unfolding parse_pairs
parse_pairs-last fuel [] e h = cc
parse_pairs-last fuel (c ∷ pair) e h = rw (find_char-none b'&' (c ∷ pair) h, parse_pairs) refl

parse_pairs-more :
    (fuel : ℕ) (pair rest : Text)
    → is_empty pair ≡ false
    → NoByte b'&' pair
    → parse_pairs (suc fuel) (pair ++ b'&' ∷ rest) ≡ parse_pair pair ++ parse_pairs fuel rest
unfolding parse_pairs
parse_pairs-more fuel [] rest e h = cc
parse_pairs-more fuel (c ∷ pair) rest e h =
    rw
      (
        find_char-append b'&' (c ∷ pair) rest h,
        parse_pairs,
        take-length (c ∷ pair) (b'&' ∷ rest),
        drop_past b'&' (c ∷ pair) rest,
      )
      refl

pair_nonempty : (k v : Text) → is_empty (k ++ b'=' ∷ v) ≡ false
pair_nonempty [] v = refl
pair_nonempty (c ∷ k) v = refl

parse_pairs-join :
    (fuel : ℕ) (ps : List (Text × Text))
    → length (join_pairs ps) < fuel
    → All Separable ps
    → parse_pairs fuel (join_pairs ps) ≡ map decode_pair ps
parse_pairs-join zero ps le h = absurd (omega arith)
parse_pairs-join (suc fuel) [] le h = unfold parse_pairs in refl
parse_pairs-join (suc fuel) ((k, v) ∷ []) le h =
    parse_pairs-last fuel (k ++ b'=' ∷ v) (pair_nonempty k v) (no_amp k v h.0.1 h.0.2)
    ∙ parse_pair-join k v h.0.0
parse_pairs-join (suc fuel) ((k, v) ∷ p ∷ ps) le h =
    rw
      (
        parse_pairs-more fuel (k ++ b'=' ∷ v) (join_pairs (p ∷ ps)) (pair_nonempty k v)
            (no_amp k v h.0.1 h.0.2),
        parse_pair-join k v h.0.0,
        parse_pairs-join fuel (p ∷ ps)
            (omega (arith, length-append (k ++ b'=' ∷ v) (b'&' ∷ join_pairs (p ∷ ps)))) h.1,
      )
      refl

-- Parameters written `k1=v1&k2=v2…`, with no `=` in a key and no `&` in either, are all found, in
-- order, each with its key and its value decoded.
pub parse_query_string-join :
    (ps : List (Text × Text))
    → All Separable ps
    → parse_query_string (join_pairs ps) ≡ map decode_pair ps
unfolding parse_query_string
parse_query_string-join ps h = parse_pairs-join (suc (length (join_pairs ps))) ps (omega arith) h
