-- ===== src/Uri/Pieces.antt =====
-- src/uri.rs: each piece that `Display` writes for a URI, and the part of the parser for it.
use uri.Uri.Path.Delimiters.{strip_prefix-fmt_path, NotTwoEmpty}
use uri.Uri.Path.RoundTrip.{parse_path-fmt_path, IsPath}
use uri.CharacterClasses.Delimiters.{
  alpha-Subset, scheme_char, query-percent, query-Subset, query_or_fragment-percent, query-hash,
}
use uri.Codec.Output.{encode_element-Lacks}
use uri.Codec.{encode_element}
use uri.Codec.RoundTrip.{decode_element-encode_element, IsByte}
use uri.Error.{bind-eq-ok, ok, Context}
use uri.Text.Slices.Laws.{find-append, find-eq-none, Avoids}
use uri.Text.Slices.Until.{take_until-prefix, take-find_or_end, take_until, Begins}
use uri.Text.{lowercase, Bytes, Text}
use uri.Prelude.{
  inr, suc, inl, arith, ◌∙◌, List, Bool-cases, if◌then◌else◌, ap, drop-suc-length, take-length,
  refl, [], ◌∷◌, none, some, ◌||◌, append-nil, true, All, ◌==◌, ◌≡◌, ◌++◌, Bool, ℕ, Option,
}
use uri.CharacterClasses.{
  query_or_fragment_not_pct_encoded, query_not_pct_encoded_without_plus, alpha, scheme_not_first,
  hexdig,
}
use uri.Authority.RoundTrip.{IsOptionBytes}
use uri.Uri.Parse.{check_scheme, check_scheme_from, decode_query_or_fragment}
use uri.Uri.Cut.{cut_scheme, cut_query, cut_fragment, cut_authority_and_path}
use uri.Uri.Display.{fmt_path, fmt_query, fmt_fragment}

decode_query :
    (q : Bytes) (context : Context)
    → All IsByte q
    → decode_query_or_fragment (encode_element q query_not_pct_encoded_without_plus) context ≡ ok q
unfolding decode_query_or_fragment
decode_query q context h =
    decode_element-encode_element query_not_pct_encoded_without_plus
      query_or_fragment_not_pct_encoded context query-Subset query-percent q h

decode_fragment :
    (f : Bytes) (context : Context)
    → All IsByte f
    → decode_query_or_fragment (encode_element f query_or_fragment_not_pct_encoded) context ≡ ok f
unfolding decode_query_or_fragment
decode_fragment f context h =
    decode_element-encode_element query_or_fragment_not_pct_encoded
      query_or_fragment_not_pct_encoded context (λ c e. e) query_or_fragment-percent f h

pub cut_query-fmt_query : (q : Option Bytes) → IsOptionBytes q → cut_query (fmt_query q) ≡ ok q
unfolding cut_query fmt_query
cut_query-fmt_query none h = refl
cut_query-fmt_query (some q) h = rw (decode_query q Context.query h)

fmt_query-Avoids : (q : Option Bytes) → IsOptionBytes q → Avoids (λ c. c == b'#') (fmt_query q)
unfolding fmt_query
fmt_query-Avoids none h = tt
fmt_query-Avoids (some q) h = (
  refl,
  encode_element-Lacks query_not_pct_encoded_without_plus b'#' query-hash q refl
      (unfold hexdig in refl) h,
)

pub cut_fragment-fmt :
    (q f : Option Bytes)
    → IsOptionBytes q
    → IsOptionBytes f
    → cut_fragment (fmt_query q ++ fmt_fragment f) ≡ ok (f, fmt_query q)
unfolding cut_fragment fmt_fragment
cut_fragment-fmt q none hq hf =
    ap cut_fragment (append-nil (fmt_query q))
    ∙ rw (cut_fragment, find-eq-none (λ c. c == b'#') (fmt_query q) (fmt_query-Avoids q hq))
cut_fragment-fmt q (some f) hq hf =
    let text = encode_element f query_or_fragment_not_pct_encoded in
    let at = find-append (λ c. c == b'#') (fmt_query q) text b'#' (fmt_query-Avoids q hq) refl in
    rw (
      cut_fragment,
      at,
      take-length (fmt_query q) (b'#' ∷ text),
      drop-suc-length (fmt_query q) text b'#',
      decode_fragment f Context.fragment hf,
    )

-- What ends the path.
abbrev pub ends_path : ℕ → Bool
ends_path c = c == b'?' || c == b'#'

pub fmt_query-Begins : (q f : Option Bytes) → Begins ends_path (fmt_query q ++ fmt_fragment f)
unfolding fmt_query fmt_fragment
fmt_query-Begins none none = tt
fmt_query-Begins none (some f) = refl
fmt_query-Begins (some q) f = refl

-- A scheme that `check_scheme` accepts and that holds no upper-case letter.
pub record IsScheme (s : Text) : Type 0 where
  pub legal : check_scheme s ≡ ok s
  pub lower : lowercase s ≡ s

scheme_char_at :
    (i c : ℕ) → (if i == 0 then alpha c else scheme_not_first c) ≡ true → scheme_not_first c ≡ true
scheme_char_at i c h = ground (arith, alpha-Subset c)

check_scheme_from-chars :
    (i : ℕ) (s : Text) {u : Unit {0}}
    → check_scheme_from i s ≡ ok u
    → All (λ c. scheme_not_first c ≡ true) s
unfolding check_scheme_from
check_scheme_from-chars i [] h = tt
check_scheme_from-chars i (c ∷ s) h =
    elim (Bool-cases (if i == 0 then alpha c else scheme_not_first c)) [
      | inl e ↦
          (scheme_char_at i c e, check_scheme_from-chars (suc i) s (rw (check_scheme_from, e) at h))
      | inr e ↦ cc (rw (check_scheme_from, e) at h)
    ]

pub check_scheme-chars :
    (s : Text) {t : Text} → check_scheme s ≡ ok t → All (λ c. scheme_not_first c ≡ true) s
unfolding check_scheme
check_scheme-chars [] h = tt
check_scheme-chars (c ∷ s) h =
    let (u, e, _) = bind-eq-ok (check_scheme_from 0 (c ∷ s)) _ h in
    check_scheme_from-chars 0 (c ∷ s) e

scheme-Avoids :
    (s : Text)
    → All (λ c. scheme_not_first c ≡ true) s
    → Avoids (λ c. c == b'/') s × Avoids (λ c. c == b':') s
scheme-Avoids [] h = (tt, tt)
scheme-Avoids (c ∷ s) (h, hs) =
    let (slash, colon, _, _) = scheme_char c h in
    let (slashes, colons) = scheme-Avoids s hs in ((slash, slashes), (colon, colons))

pub cut_scheme-some :
    (s rest : Text) → IsScheme s → cut_scheme (s ++ b':' ∷ rest) ≡ ok (some s, rest)
unfolding cut_scheme
cut_scheme-some s rest h =
    let (slashes, colons) = scheme-Avoids s (check_scheme-chars s h.legal) in
    let front =
      take-find_or_end (λ c. c == b'/') (s ++ b':' ∷ rest)
      ∙ take_until-prefix (λ c. c == b'/') s (b':' ∷ rest) slashes in
    let at = find-append (λ c. c == b':') s (take_until (λ c. c == b'/') rest) b':' colons refl in
    rw (
      cut_scheme,
      front,
      at,
      take-length s (b':' ∷ rest),
      drop-suc-length s rest b':',
      h.legal,
      h.lower,
    )

pub cut_scheme-none :
    (rest : Text)
    → Avoids (λ c. c == b':') (take_until (λ c. c == b'/') rest)
    → cut_scheme rest ≡ ok (none, rest)
unfolding cut_scheme
cut_scheme-none rest h = rw (
  cut_scheme,
  take-find_or_end (λ c. c == b'/') rest,
  find-eq-none (λ c. c == b':') (take_until (λ c. c == b'/') rest) h,
)

-- The authority and the path.
pub split_authority-none :
    (path : List Bytes)
    → IsPath path
    → NotTwoEmpty path
    → cut_authority_and_path (fmt_path path) ≡ ok (none, path)
unfolding cut_authority_and_path
split_authority-none path h n =
    rw (cut_authority_and_path, strip_prefix-fmt_path path h.bytes n, parse_path-fmt_path path h)
