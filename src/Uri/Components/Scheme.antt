-- ===== src/Uri/Components/Scheme.antt =====
-- src/uri.rs: the end of the scheme, as the parser and as RFC 3986 find it.
use uri.Uri.Pieces.{cut_scheme-none}
use mathlib.Core.Path.{fun_ext}
use uri.Prelude.{
  drop-suc-length, take-length, ap, Option, ◌∙◌, is_empty, refl, inr, arith, false, true, [], inl,
  ◌≢◌, none, Bool-cases, ◌⊎◌, ◌∷◌, some, not, ◌++◌, ◌==◌, ◌≡◌,
}
use uri.Text.Slices.Laws.{find-append, Avoids}
use uri.Text.Slices.Until.{
  take_until-prefix, take_until-append, drop_until-append, take-find_or_end, drop_until, take_until,
  Begins,
}
use uri.Text.{lowercase, Text}
use uri.Uri.Components.{behind_scheme, components, assemble, split_scheme, traverse, ends_scheme}
use uri.Uri.Components.Parsed.{cut_rest-assemble}
use uri.Uri.Parse.{check_scheme, parse}
use uri.Uri.Cut.{cut_uri, cut_scheme}
use uri.Uri.Slices.{parse-cut_uri}
use uri.Error.{bind_assoc, ◌>>=◌, Error, Result, ok, err, panic}

-- A text that begins with a scheme's characters and a colon.
pub record Prefixed (s : Text) : Type 0 where
  pub scheme : Text
  pub rest : Text
  pub spells : s ≡ scheme ++ (b':' ∷ rest)
  pub clear : Avoids ends_scheme scheme
  pub ne_nil : scheme ≢ []

-- No colon stands in front of the first slash, or the first one stands behind some characters with no
-- question mark and no number sign among them.
abbrev pub IsClear : Text → Type 0
IsClear s = Avoids (λ c. c == b':') (take_until (λ c. c == b'/') s) ⊎ Prefixed s

abbrev check_lower : Text → Result Error Text
check_lower s = check_scheme s >>= λ t. ok (lowercase t)

no_colon-Begins :
    (s : Text)
    → Avoids (λ c. c == b':') (take_until (λ c. c == b'/') s)
    → Begins (λ c. not (c == b':')) (drop_until ends_scheme s)
no_colon-Begins [] h = tt
no_colon-Begins (c ∷ s) h = elim (Bool-cases (c == b'/')) [
  | inl e ↦
      let stop : ends_scheme c ≡ true = ground arith in
      let colon : (c == b':') ≡ false = ground arith in rw stop (rw colon refl)
  | inr e ↦
      let (first, later) = rw e at h in
      elim (Bool-cases (ends_scheme c)) [
        | inl k ↦ rw k (rw first refl)
        | inr k ↦ rw k (no_colon-Begins s later)
      ]
]

split_scheme-none :
    (s : Text)
    → Begins (λ c. not (c == b':')) (drop_until ends_scheme s)
    → split_scheme s ≡ (none, s)
split_scheme-none s h = go (drop_until ends_scheme s) h
  where
    go : (t : Text) → Begins (λ c. not (c == b':')) t → behind_scheme s t ≡ (none, s)
    go [] h = refl
    go (c ∷ t) h = let colon : (c == b':') ≡ false = ground arith in rw colon refl

scheme-Avoids :
    (s : Text) → Avoids ends_scheme s → Avoids (λ c. c == b'/') s × Avoids (λ c. c == b':') s
scheme-Avoids [] h = (tt, tt)
scheme-Avoids (c ∷ s) (h, hs) =
    let (slashes, colons) = scheme-Avoids s hs in ((ground arith, slashes), (ground arith, colons))

is_empty-false : (s : Text) → s ≢ [] → is_empty s ≡ false
is_empty-false [] h = absurd (h refl)
is_empty-false (c ∷ s) h = refl

split_scheme-append :
    (s rest : Text)
    → Avoids ends_scheme s
    → s ≢ []
    → split_scheme (s ++ (b':' ∷ rest)) ≡ (some s, rest)
split_scheme-append s rest h ne =
    rw
      (
        drop_until-append ends_scheme s (b':' ∷ rest) h refl,
        take_until-append ends_scheme s (b':' ∷ rest) h refl,
        is_empty-false s ne,
      )
      refl

cut_scheme-append :
    (s rest : Text)
    → Avoids ends_scheme s
    → cut_scheme (s ++ (b':' ∷ rest)) ≡ (check_scheme s >>= λ t. ok (some (lowercase t), rest))
unfolding cut_scheme
cut_scheme-append s rest h =
    let (slashes, colons) = scheme-Avoids s h in
    let front =
      take-find_or_end (λ c. c == b'/') (s ++ b':' ∷ rest)
      ∙ take_until-prefix (λ c. c == b'/') s (b':' ∷ rest) slashes in
    let at = find-append (λ c. c == b':') s (take_until (λ c. c == b'/') rest) b':' colons refl in
    rw (cut_scheme, front, at, take-length s (b':' ∷ rest), drop-suc-length s rest b':') refl

-- The scheme of a clear text.
cut_scheme-split_scheme :
    (s : Text)
    → IsClear s
    → cut_scheme s
      ≡ (traverse check_lower (split_scheme s).0 >>= λ scheme. ok (scheme, (split_scheme s).1))
cut_scheme-split_scheme s (inl h) =
    cut_scheme-none s h ∙ rw (split_scheme-none s (no_colon-Begins s h)) refl
cut_scheme-split_scheme s (inr p) =
    let split = ap split_scheme p.spells ∙ split_scheme-append p.scheme p.rest p.clear p.ne_nil in
    ap cut_scheme p.spells
    ∙ cut_scheme-append p.scheme p.rest p.clear
    ∙ rw split (flatten (check_scheme p.scheme) p.rest)
  where
    flatten :
        (m : Result Error Text) (rest : Text)
        → ◌≡◌ {A = Result Error (Option Text × Text)}
            (m >>= λ t. ok (some (lowercase t), rest))
            (((m >>= λ t. ok (lowercase t)) >>= λ b. ok (some b)) >>= λ scheme. ok (scheme, rest))
    flatten (ok t) rest = refl
    flatten (err e) rest = refl
    flatten panic rest = refl

-- Where no question mark and no number sign stand in front of the colon that ends the scheme, parsing
-- is splitting the text as RFC 3986 does (appendix B), and then checking and decoding each component
-- by itself, errors included.
pub parse-assemble : (s : Text) → IsClear s → parse s ≡ assemble (components s)
unfolding cut_uri
parse-assemble s h =
    parse-cut_uri s
    ∙ rw (cut_scheme-split_scheme s h) (
        bind_assoc (traverse check_lower (split_scheme s).0) _ _
        ∙ ap (λ k. traverse check_lower (split_scheme s).0 >>= k)
            (fun_ext (λ scheme. cut_rest-assemble scheme (split_scheme s).1)))
