-- ===== src/Uri/Resolve/WellFormed.antt =====
-- src/uri.rs: URIs with the properties of parsed ones, under `resolve` and `normalize`.
use uri.Uri.Schemes.{IsOptionScheme}
use uri.Authority.RoundTrip.{IsOptionBytes}
use uri.Uri.Path.Absolute.{is_path_absolute-normalize_path}
use uri.Codec.RoundTrip.{IsByte}
use uri.Uri.Path.RoundTrip.{IsPathBytes}
use uri.Text.{Text, codes, equal, Bytes}
use uri.Uri.Parsed.{IsOptionAuthority, Follows, IsParsed}
use uri.Prelude.{
  inr, inl, ◌∙◌, length, none, [], false, ltb, get_last?, Bool-cases, arith, Option-cases, some,
  All-append, true, ◌∷◌, if◌then◌else◌, drop_last, ◌≡◌, All, List, Bool, Option,
}
use uri.Uri.Path.{
  Normalizing, normalize, is_path_absolute, normalize_segments, normalize_path, close_path,
  normalize_segment,
}
use uri.Authority.{Authority}
use uri.Uri.Data.{Uri}
use uri.Uri.Resolve.{resolve_path, resolve, merge}

All-drop_last : (path : List Bytes) → IsPathBytes path → IsPathBytes (drop_last path)
All-drop_last [] h = tt
All-drop_last (a ∷ []) h = tt
All-drop_last (a ∷ b ∷ path) (h, hs) = (h, All-drop_last (b ∷ path) hs)

if_IsPathBytes :
    (b : Bool) (x y : List Bytes) → IsPathBytes x → IsPathBytes y → IsPathBytes (if b then x else y)
if_IsPathBytes true x y hx hy = hx
if_IsPathBytes false x y hx hy = hy

normalize_segment-IsPathBytes :
    (st : Normalizing) (segment : Bytes)
    → All IsByte segment
    → IsPathBytes st.normalized_path
    → IsPathBytes (normalize_segment st segment).normalized_path
unfolding normalize_segment
normalize_segment-IsPathBytes st segment h hs = elim (Bool-cases (equal segment (codes "."))) [
  | inl d ↦ rw d hs
  | inr d ↦ elim (Bool-cases (equal segment (codes ".."))) [
    | inl dd ↦ rw (d, dd) (if_IsPathBytes _ _ _ (All-drop_last st.normalized_path hs) hs)
    | inr dd ↦
        rw (d, dd)
          (if_IsPathBytes _ _ _ (All-append _ st.normalized_path (segment ∷ []) hs (h, tt)) hs)
  ]
]

normalize_segments-IsPathBytes :
    (path : List Bytes) (st : Normalizing)
    → IsPathBytes path
    → IsPathBytes st.normalized_path
    → IsPathBytes (normalize_segments st path).normalized_path
unfolding normalize_segments
normalize_segments-IsPathBytes [] st h hs = hs
normalize_segments-IsPathBytes (a ∷ path) st (h, hs) ht =
    normalize_segments-IsPathBytes path (normalize_segment st a) hs
      (normalize_segment-IsPathBytes st a h ht)

close_path-IsPathBytes :
    (st : Normalizing) → IsPathBytes st.normalized_path → IsPathBytes (close_path st)
unfolding close_path
close_path-IsPathBytes st h = elim (Option-cases (get_last? st.normalized_path)) [
  | inl e ↦ rw (close_path, e) h
  | inr (segment, e) ↦
      rw (close_path, e)
        (if_IsPathBytes _ _ _ (All-append _ st.normalized_path ([] ∷ []) h (tt, tt)) h)
]

normalize_path-IsPathBytes :
    (path : List Bytes) → IsPathBytes path → IsPathBytes (normalize_path path)
unfolding normalize_path
normalize_path-IsPathBytes path h =
    close_path-IsPathBytes _ (normalize_segments-IsPathBytes path _ h tt)

merge-IsPathBytes :
    (base path : List Bytes) → IsPathBytes base → IsPathBytes path → IsPathBytes (merge base path)
unfolding merge
merge-IsPathBytes base path hb hp =
    All-append _ (if ltb 1 (length base) then drop_last base else base) path
      (if_IsPathBytes (ltb 1 (length base)) _ _ (All-drop_last base hb) hb) hp

merge-is_path_absolute :
    (base path : List Bytes)
    → is_path_absolute base ≡ true
    → is_path_absolute (merge base path) ≡ true
unfolding merge is_path_absolute
merge-is_path_absolute [] path h = cc
merge-is_path_absolute (a ∷ []) path h = h
merge-is_path_absolute (a ∷ b ∷ base) path h = ground (arith, h)

normalize_path-Follows :
    (a : Option Authority) (path : List Bytes) → Follows a path → Follows a (normalize_path path)
normalize_path-Follows none path h = tt
normalize_path-Follows (some a) path h = is_path_absolute-normalize_path path ∙ h

merge-Follows :
    (a : Option Authority) (base path : List Bytes) → Follows a base → Follows a (merge base path)
merge-Follows none base path h = tt
merge-Follows (some a) base path h = merge-is_path_absolute base path h

absolute-Follows :
    (a : Option Authority) (path : List Bytes) → is_path_absolute path ≡ true → Follows a path
absolute-Follows none path h = tt
absolute-Follows (some a) path h = h

-- Normalizing a well-formed URI gives one.
pub normalize-IsParsed : (u : Uri) → IsParsed u → IsParsed (normalize u)
unfolding normalize
normalize-IsParsed u h = record {
  legal_scheme = h.legal_scheme;
  parsed_authority = h.parsed_authority;
  path_bytes = normalize_path-IsPathBytes u.path h.path_bytes;
  path_follows = normalize_path-Follows u.authority u.path h.path_follows;
  query_bytes = h.query_bytes;
  fragment_bytes = h.fragment_bytes;
}

abbrev reference : Option Text → Option Authority → List Bytes → Option Bytes → Option Bytes → Uri
reference scheme authority path query fragment = record {
  scheme = scheme;
  authority = authority;
  path = path;
  query = query;
  fragment = fragment;
}

module _ (base : Uri) (hb : IsParsed base) (fragment : Option Bytes)
    (hf : IsOptionBytes fragment) where
  -- With the scheme and the authority of the base.
  on_base :
      (path : List Bytes) (query : Option Bytes)
      → IsPathBytes path
      → Follows base.authority path
      → IsOptionBytes query
      → IsParsed (reference base.scheme base.authority path query fragment)
  on_base path query hp hw hq = record {
    legal_scheme = hb.legal_scheme;
    parsed_authority = hb.parsed_authority;
    path_bytes = hp;
    path_follows = hw;
    query_bytes = hq;
    fragment_bytes = hf;
  }

  -- A reference without scheme and authority.
  relative-IsParsed :
      (path : List Bytes) (query : Option Bytes)
      → IsPathBytes path
      → IsOptionBytes query
      → IsParsed (resolve base (reference none none path query fragment))
  unfolding resolve resolve_path
  relative-IsParsed [] none hp hq =
      on_base base.path base.query hb.path_bytes hb.path_follows hb.query_bytes
  relative-IsParsed [] (some q) hp hq = on_base base.path (some q) hb.path_bytes hb.path_follows hq
  relative-IsParsed (b ∷ path) query hp hq = elim (Bool-cases (is_path_absolute (b ∷ path))) [
    | inl e ↦ rw e (on_base (b ∷ path) query hp (absolute-Follows base.authority (b ∷ path) e) hq)
    | inr e ↦
        let merged = merge base.path (b ∷ path) in
        rw e (
          on_base (normalize_path merged) query
            (normalize_path-IsPathBytes merged
              (merge-IsPathBytes base.path (b ∷ path) hb.path_bytes hp))
            (normalize_path-Follows base.authority merged
              (merge-Follows base.authority base.path (b ∷ path) hb.path_follows))
            hq)
  ]

-- Resolving a well-formed reference against a well-formed base gives a well-formed URI: a legal
-- scheme in lower case or none, parts of bytes, a port of 16 bits, and an absolute path behind an
-- authority.
pub resolve-IsParsed : (base r : Uri) → IsParsed base → IsParsed r → IsParsed (resolve base r)
unfolding resolve
resolve-IsParsed base r hb hr =
    go r.scheme r.authority hr.legal_scheme hr.parsed_authority hr.path_follows
  where
    go :
        (scheme : Option Text) (authority : Option Authority)
        → IsOptionScheme scheme
        → IsOptionAuthority authority
        → Follows authority r.path
        → IsParsed (resolve base (reference scheme authority r.path r.query r.fragment))
    go (some s) authority hs ha hw = record {
      legal_scheme = hs;
      parsed_authority = ha;
      path_bytes = normalize_path-IsPathBytes r.path hr.path_bytes;
      path_follows = normalize_path-Follows authority r.path hw;
      query_bytes = hr.query_bytes;
      fragment_bytes = hr.fragment_bytes;
    }
    go none (some a) hs ha hw = record {
      legal_scheme = hb.legal_scheme;
      parsed_authority = ha;
      path_bytes = normalize_path-IsPathBytes r.path hr.path_bytes;
      path_follows = normalize_path-Follows (some a) r.path hw;
      query_bytes = hr.query_bytes;
      fragment_bytes = hr.fragment_bytes;
    }
    go none none hs ha hw =
        relative-IsParsed base hb r.fragment hr.fragment_bytes r.path r.query hr.path_bytes
          hr.query_bytes
