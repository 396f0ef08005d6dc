-- ===== src/Uri/Slices.antt =====
-- src/uri.rs: the slices of the parser do not panic, and cut where Uri/Cut does.
use uri.Uri.Cut.{cut_scheme, cut_fragment, cut_query, cut_authority_and_path, cut_rest, cut_uri}
use uri.Text.Slices.Until.{drop_until-Begins, drop-find_or_end, Begins}
use uri.Authority.{Authority}
use uri.Uri.Data.{Uri}
use uri.Error.{Context, ok, Error, Result, ◌>>=◌, bind_congr, bind_assoc}
use uri.Prelude.{
  Bool, zero, refl, arith, sym, ◌∙◌, ap, ◌+◌, ℕ, suc, drop, ◌≡◌, [], ◌∷◌, none, List, some, take,
  ◌||◌, ◌==◌, Option,
}
use uri.Text.{codes, Bytes, Text, lowercase}
use uri.Uri.Parse.{
  parse_rest, split_authority_from_path_and_parse_them, parse_query, parse_scheme, parse_fragment,
  decode_query_or_fragment, parse_path, parse_path_after_authority, check_scheme, parse,
}
use uri.Authority
use uri.Text.Str
use uri.Text.Str.Offsets.{
  slice_from-find_or_end, offset, slice_to-offset, find-none, find-some, slice_to-find_or_end,
  slice_from-suc, slice_from-one, offset-take, IsAsciiTest,
}
use uri.Text.Slices.Laws.{find-take}
use uri.Text.Str.{slice_from, slice_to}
use uri.Text.Slices.{find, find_or_end, strip_prefix}

pub parse_scheme-cut_scheme : (s : Text) → parse_scheme s ≡ cut_scheme s
unfolding parse_scheme cut_scheme
parse_scheme-cut_scheme s =
    rw (slice_to-find_or_end (λ c. c == b'/') s) (go (find (λ c. c == b':') (take m s)) refl)
  where
    m : ℕ
    m = find_or_end (λ c. c == b'/') s

    Parts : Type 0
    Parts = Result Error (Option Text × Text)

    bytes : Option ℕ → Parts
    bytes r = elim r [
      | some scheme_end ↦ do
        text ← slice_to scheme_end s
        scheme ← check_scheme text
        rest ← slice_from (scheme_end + 1) s
        ok (some (lowercase scheme), rest)
      | none ↦ ok (none, s)
    ]

    chars : Option ℕ → Parts
    chars r = elim r [
      | some scheme_end ↦ do
        scheme ← check_scheme (take scheme_end s)
        ok (some (lowercase scheme), drop (suc scheme_end) s)
      | none ↦ ok (none, s)
    ]

    go :
        (r : Option ℕ)
        → find (λ c. c == b':') (take m s) ≡ r
        → bytes (Str.find (λ c. c == b':') (take m s)) ≡ chars (find (λ c. c == b':') (take m s))
    go none e = ap bytes (find-none _ (take m s) e) ∙ sym (ap chars e)
    go (some n) e =
        let position = (find-some _ (take m s) n e).0 ∙ ap some (offset-take _ m s n e) in
        let colon : IsAsciiTest (λ c. c == b':') = λ c h. ground (arith, h) in
        let behind = slice_from-suc _ s n colon (find-take _ m s n e) in
        let same : bytes (some (offset n s)) ≡ chars (some n) =
          rw (slice_to-offset n s, behind) refl in
        ap bytes position ∙ same ∙ sym (ap chars e)

parse_fragment-cut_fragment : (s : Text) → parse_fragment s ≡ cut_fragment s
unfolding parse_fragment cut_fragment
parse_fragment-cut_fragment s = go (find (λ c. c == b'#') s) refl
  where
    Parts : Type 0
    Parts = Result Error (Option Bytes × Text)

    bytes : Option ℕ → Parts
    bytes r = elim r [
      | some fragment_delimiter ↦ do
        text ← slice_from (fragment_delimiter + 1) s
        fragment ← decode_query_or_fragment text Context.fragment
        possible_query ← slice_to fragment_delimiter s
        ok (some fragment, possible_query)
      | none ↦ ok (none, s)
    ]

    chars : Option ℕ → Parts
    chars r = elim r [
      | some fragment_delimiter ↦ do
        fragment ← decode_query_or_fragment (drop (suc fragment_delimiter) s) Context.fragment
        ok (some fragment, take fragment_delimiter s)
      | none ↦ ok (none, s)
    ]

    go :
        (r : Option ℕ)
        → find (λ c. c == b'#') s ≡ r
        → bytes (Str.find (λ c. c == b'#') s) ≡ chars (find (λ c. c == b'#') s)
    go none e = ap bytes (find-none _ s e) ∙ sym (ap chars e)
    go (some n) e =
        let hash : IsAsciiTest (λ c. c == b'#') = λ c h. ground (arith, h) in
        let same : bytes (some (offset n s)) ≡ chars (some n) =
          rw (slice_to-offset n s, slice_from-suc _ s n hash e) refl in
        ap bytes (find-some _ s n e).0 ∙ same ∙ sym (ap chars e)

split_authority_from_path_and_parse_them-cut_authority_and_path :
    (s : Text) → split_authority_from_path_and_parse_them s ≡ cut_authority_and_path s
unfolding split_authority_from_path_and_parse_them cut_authority_and_path
split_authority_from_path_and_parse_them-cut_authority_and_path s = go (strip_prefix (codes "//") s)
  where
    bytes : Option Text → Result Error (Option Authority × List Bytes)
    bytes r = elim r [
      | some rest ↦
          let authority_end = Str.find_or_end (λ c. c == b'/') rest in
          do
            authority_string ← slice_to authority_end rest
            path_string ← slice_from authority_end rest
            authority ← Authority.parse authority_string
            path ← parse_path_after_authority path_string
            ok (some authority, path)
      | none ↦ do path ← parse_path s; ok (none, path)
    ]

    chars : Option Text → Result Error (Option Authority × List Bytes)
    chars r = elim r [
      | some rest ↦
          let authority_end = find_or_end (λ c. c == b'/') rest in
          do
            authority ← Authority.parse (take authority_end rest)
            path ← parse_path_after_authority (drop authority_end rest)
            ok (some authority, path)
      | none ↦ do path ← parse_path s; ok (none, path)
    ]

    go : (r : Option Text) → bytes r ≡ chars r
    go none = refl
    go (some rest) =
        rw
          (slice_to-find_or_end (λ c. c == b'/') rest, slice_from-find_or_end (λ c. c == b'/') rest)
          refl

-- What is left for the query is empty or begins with a delimiter of one byte.
IsTail : Text → Type 0
IsTail = Begins (λ c. c == b'?' || c == b'#')

parse_query-cut_query : (s : Text) → IsTail s → parse_query s ≡ cut_query s
unfolding parse_query cut_query IsTail
parse_query-cut_query [] h = refl
parse_query-cut_query (c ∷ s) h =
    let tail : slice_from 1 (c ∷ s) ≡ ok s = slice_from-one s c (ground (arith, h)) in rw tail refl

take-IsTail : (n : ℕ) (s : Text) → IsTail s → IsTail (take n s)
unfolding IsTail
take-IsTail zero [] h = tt
take-IsTail zero (c ∷ s) h = tt
take-IsTail (suc n) [] h = tt
take-IsTail (suc n) (c ∷ s) h = h

cut_fragment-IsTail :
    (s : Text)
    → IsTail s
    → (f g : Option Bytes × Text → Result Error Uri)
    → ((u : Option Bytes) (t : Text) → IsTail t → f (u, t) ≡ g (u, t))
    → (cut_fragment s >>= f) ≡ (cut_fragment s >>= g)
unfolding cut_fragment
cut_fragment-IsTail s h f g same = go (find (λ c. c == b'#') s)
  where
    chars : Option ℕ → Result Error (Option Bytes × Text)
    chars r = elim r [
      | some fragment_delimiter ↦ do
        fragment ← decode_query_or_fragment (drop (suc fragment_delimiter) s) Context.fragment
        ok (some fragment, take fragment_delimiter s)
      | none ↦ ok (none, s)
    ]

    go : (r : Option ℕ) → (chars r >>= f) ≡ (chars r >>= g)
    go none = same none s h
    go (some n) =
        let part = decode_query_or_fragment (drop (suc n) s) Context.fragment in
        bind_assoc part _ f
        ∙ bind_congr part _ _ (λ b. same (some b) (take n s) (take-IsTail n s h))
        ∙ sym (bind_assoc part _ g)

parse_rest-cut_rest :
    (scheme : Option Text) (rest : Text) → parse_rest scheme rest ≡ cut_rest scheme rest
unfolding IsTail
parse_rest-cut_rest scheme rest =
    let path_end = find_or_end ends rest in
    let tail : Begins ends (drop path_end rest) =
      rw (drop-find_or_end ends rest) (drop_until-Begins ends rest) in
    let parts =
      split_authority_from_path_and_parse_them-cut_authority_and_path (take path_end rest) in
    rw
      (
        slice_to-find_or_end ends rest,
        slice_from-find_or_end ends rest,
        parts,
        parse_fragment-cut_fragment (drop path_end rest),
      )
      (bind_congr (cut_authority_and_path (take path_end rest)) _ _ (λ r.
        cut_fragment-IsTail (drop path_end rest) tail _ _
          (λ u t h. rw (parse_query-cut_query t h) refl)))
  where
    ends : ℕ → Bool
    ends = λ c. c == b'?' || c == b'#'

-- No slice of the parser panics: cutting at characters gives the same, on every text.
pub parse-cut_uri : (s : Text) → parse s ≡ cut_uri s
unfolding parse cut_uri
parse-cut_uri s =
    rw (parse_scheme-cut_scheme s)
      (bind_congr (cut_scheme s) _ _ (λ r. parse_rest-cut_rest r.0 r.1))
