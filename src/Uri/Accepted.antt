-- ===== src/Uri/Accepted.antt =====
-- src/uri.rs: the texts that `Uri::parse` accepts, and the URI of each.
use uri.Codec.{decode_element}
use uri.Uri.Data.{Uri}
use uri.Text.Slices.{split}
use uri.CharacterClasses.{pchar_not_pct_encoded, query_or_fragment_not_pct_encoded}
use uri.Uri.Schemes.{check_scheme-cases}
use uri.Codec.Grammar.{decode_element-Decodes, Decodes}
use uri.Prelude.{
  sym, ◌∙◌, ◌∷◌, [], none, refl, inr, is_empty, inl, some, Bool-cases, ◌↔◌, ◌≡◌, List, Option,
}
use uri.Error.{bind-eq-ok, ◌>>=◌, ok, Error, Result, Context}
use uri.Text.{codes, equal, lowercase, Bytes, Text}
use uri.Uri.Grammar.{Segments, IsPathText, IsPathBehind, IsSchemeOf, IsReference, traverse-Optional}
use uri.Uri.Components.{Components, components, assemble, assemble_path, traverse, decode_part}
use uri.Uri.Components.Scheme.{IsClear, parse-assemble}
use uri.Uri.Components.Total.{parse-Components, cut_scheme-IsClear}
use uri.Authority.Grammar.{IsAuthority, parse_authority-IsAuthority}
use uri.Uri.Parse.{parse, parse_path, decode_segments, check_scheme}
use uri.Uri.Cut.{cut_uri, cut_scheme}
use uri.Uri.Slices.{parse-cut_uri}
use uri.Authority

paths-eq : {p q : List Bytes} → ◌≡◌ {A = Result Error (List Bytes)} (ok p) (ok q) → q ≡ p
paths-eq e = cc

decode_segments_sound :
    (texts : List Text) (path : List Bytes) → decode_segments texts ≡ ok path → Segments texts path
unfolding decode_segments
decode_segments_sound [] [] e = tt
decode_segments_sound [] (b ∷ path) e = let bad : ⊥ = cc (e) in bad
decode_segments_sound (s ∷ texts) path e =
    let (b, first, later) = bind-eq-ok (decode_element s pchar_not_pct_encoded Context.path) _ e in
    let (bs, second, last) = bind-eq-ok (decode_segments texts) _ later in
    let same : path ≡ b ∷ bs = paths-eq last in
    rw same (
      (decode_element-Decodes s pchar_not_pct_encoded Context.path b).0 first,
      decode_segments_sound texts bs second,
    )

decode_segments_complete :
    (texts : List Text) (path : List Bytes) → Segments texts path → decode_segments texts ≡ ok path
unfolding decode_segments
decode_segments_complete [] [] h = refl
decode_segments_complete [] (b ∷ path) h = absurd h
decode_segments_complete (s ∷ texts) [] h = absurd h
decode_segments_complete (s ∷ texts) (b ∷ path) (h, hs) =
    rw
      (
        (decode_element-Decodes s pchar_not_pct_encoded Context.path b).1 h,
        decode_segments_complete texts path hs,
      )
      refl

-- A path.
parse_path-IsPathText :
    (s : Text) (path : List Bytes) → (parse_path s ≡ ok path) ↔ IsPathText s path
unfolding parse_path
parse_path-IsPathText s path = elim (Bool-cases (equal s (codes "/"))) [
  | inl k ↦ rw k (paths-eq, λ e. rw e refl)
  | inr k ↦ elim (Bool-cases (is_empty s)) [
    | inl m ↦ rw (k, m) (paths-eq, λ e. rw e refl)
    | inr m ↦
        rw (k, m)
          (decode_segments_sound (split b'/' s) path, decode_segments_complete (split b'/' s) path)
  ]
]

assemble_path-IsPathBehind :
    (a : Option Text) (s : Text) (path : List Bytes)
    → (assemble_path a s ≡ ok path) ↔ IsPathBehind a s path
assemble_path-IsPathBehind none s path = parse_path-IsPathText s path
assemble_path-IsPathBehind (some a) [] path = (paths-eq, λ e. rw e refl)
assemble_path-IsPathBehind (some a) (c ∷ s) path = parse_path-IsPathText (c ∷ s) path

-- A scheme.
abbrev scheme_of : Text → Result Error Text
scheme_of s = check_scheme s >>= λ t. ok (lowercase t)

scheme_of-IsSchemeOf : (s t : Text) → (scheme_of s ≡ ok t) ↔ IsSchemeOf s t
scheme_of-IsSchemeOf s t = elim (check_scheme-cases s) [
  | inl (h, q) ↦ rw q (λ e. (h, cc), λ (_, e). rw e refl)
  | inr (n, x, q) ↦ rw q (λ e. cc, λ (h, _). absurd (n h))
]

decode_part-Decodes :
    (context : Context) (s : Text) (bs : Bytes)
    → (decode_part context s ≡ ok bs) ↔ Decodes query_or_fragment_not_pct_encoded s bs
decode_part-Decodes context s bs =
    decode_element-Decodes s query_or_fragment_not_pct_encoded context bs

-- What is assembled is what the components stand for.
module _ (c : Components) (u : Uri) where
  IsReference-sound : assemble c ≡ ok u → IsReference c u
  IsReference-sound e =
      let (scheme, d1, e1) = bind-eq-ok (traverse scheme_of c.scheme) _ e in
      let (authority, d2, e2) = bind-eq-ok (traverse Authority.parse c.authority) _ e1 in
      let (path, d3, e3) = bind-eq-ok (assemble_path c.authority c.path) _ e2 in
      let (fragment, d4, e4) =
        bind-eq-ok (traverse (decode_part Context.fragment) c.fragment) _ e3 in
      let (query, d5, e5) = bind-eq-ok (traverse (decode_part Context.query) c.query) _ e4 in
      let same : u ≡ record {
        scheme = scheme;
        authority = authority;
        path = path;
        query = query;
        fragment = fragment;
      } =
        cc (e5) in
      rw same (record {
        scheme_part =
            (traverse-Optional IsSchemeOf scheme_of scheme_of-IsSchemeOf c.scheme scheme).0 d1;
        authority_part =
            (traverse-Optional IsAuthority Authority.parse parse_authority-IsAuthority c.authority
                authority).0
              d2;
        path_part = (assemble_path-IsPathBehind c.authority c.path path).0 d3;
        query_part =
            (traverse-Optional _ (decode_part Context.query) (decode_part-Decodes Context.query)
                c.query query).0
              d5;
        fragment_part =
            (traverse-Optional _ (decode_part Context.fragment)
                (decode_part-Decodes Context.fragment) c.fragment fragment).0
              d4;
      })

  IsReference-complete : IsReference c u → assemble c ≡ ok u
  IsReference-complete h =
      rw
        (
          (traverse-Optional IsSchemeOf scheme_of scheme_of-IsSchemeOf c.scheme u.scheme).1
              h.scheme_part,
          (traverse-Optional IsAuthority Authority.parse parse_authority-IsAuthority c.authority
                u.authority).1
              h.authority_part,
          (assemble_path-IsPathBehind c.authority c.path u.path).1 h.path_part,
          (traverse-Optional _ (decode_part Context.fragment) (decode_part-Decodes Context.fragment)
                c.fragment u.fragment).1
              h.fragment_part,
          (traverse-Optional _ (decode_part Context.query) (decode_part-Decodes Context.query)
                c.query u.query).1
              h.query_part,
        )
        refl

parse-IsClear : (s : Text) (u : Uri) → parse s ≡ ok u → IsClear s
unfolding cut_uri
parse-IsClear s u h =
    let (r, e, _) = bind-eq-ok (cut_scheme s) _ (sym (parse-cut_uri s) ∙ h) in
    cut_scheme-IsClear s r e

-- A text is parsed to a URI exactly if each component that RFC 3986 splits it into (appendix B) stands
-- for that of the URI, and no colon stands in front of the first slash, or the first one stands behind
-- some characters with no slash, question mark and number sign among them.
pub parse-IsReference :
    (s : Text) (u : Uri) → (parse s ≡ ok u) ↔ (IsClear s × IsReference (components s) u)
parse-IsReference s u = (
  λ h. (parse-IsClear s u h, IsReference-sound (components s) u (parse-Components s u h)),
  λ (clear, h). parse-assemble s clear ∙ IsReference-complete (components s) u h,
)
