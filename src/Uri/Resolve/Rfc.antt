-- ===== src/Uri/Resolve/Rfc.antt =====
-- The resolution of a reference as RFC 3986 states it in 5.2.2 and 5.2.3, and how `resolve` of
-- src/uri.rs implements it.
use uri.Uri.Path.Normal.{normalize_path-of_IsNormal, IsNormal}
use uri.Uri.Parsed.{Follows}
use uri.Uri.Path.{normalize_path, is_path_absolute}
use uri.Text.{Text, Bytes}
use uri.Prelude.{
  inr, inl, Bool-cases, refl, arith, some, ◌++◌, drop_last, ◌∷◌, [], not, is_empty, ◌&&◌, ◌||◌,
  Option, true, is_some, if◌then◌else◌, none, List, ◌≡◌,
}
use uri.Uri.Resolve.{resolve_path, resolve, merge}
use uri.Authority.{Authority}
use uri.Uri.Data.{Uri}

-- A path as the segments of its text: the parser gives `[""]` for `/`, which are two segments.
abbrev pub text_segments : List Bytes → List Bytes
text_segments ([] ∷ []) = [] ∷ [] ∷ []
text_segments path = path

-- 5.2.3: a base with an authority and an empty path gives a path below the root; otherwise all but
-- the last segment of the base path stands in front.
abbrev pub merge_paths : Uri → List Bytes → List Bytes
merge_paths base path =
    if is_some base.authority && is_empty base.path
    then [] ∷ path
    else drop_last (text_segments base.path) ++ path

-- 5.2.2, with the path of the target computed first. Here `remove_dot_segments` is a parameter.
module _ (remove_dot_segments : List Bytes → List Bytes) where
  abbrev pub target_path : Uri → Uri → List Bytes
  target_path base r =
      if is_some r.scheme || is_some r.authority
      then remove_dot_segments r.path
      else if is_empty r.path
      then base.path
      else if is_path_absolute r.path
      then remove_dot_segments r.path
      else remove_dot_segments (merge_paths base r.path)

  abbrev pub transform : Uri → Uri → Uri
  transform base r = record {
    scheme = if is_some r.scheme then r.scheme else base.scheme;
    authority = if is_some r.scheme || is_some r.authority then r.authority else base.authority;
    path = target_path base r;
    query =
        if is_some r.scheme || is_some r.authority || not (is_empty r.path) || is_some r.query
        then r.query
        else base.query;
    fragment = r.fragment;
  }

-- No path of a single segment with text, such as that of `urn:a`.
abbrev pub NoSingle : List Bytes → Type 0
NoSingle ((c ∷ s) ∷ []) = ⊥
NoSingle _ = Unit

-- The reference's path, where it stands alone and is absolute.
abbrev pub IsReference : Uri → Type 0
IsReference r =
    r.scheme ≡ none → r.authority ≡ none → is_path_absolute r.path ≡ true → IsNormal r.path

merge-merge_paths :
    (base : Uri) (path : List Bytes)
    → Follows base.authority base.path
    → NoSingle base.path
    → merge base.path path ≡ merge_paths base path
unfolding merge is_path_absolute
merge-merge_paths base path h n = go base.authority base.path h n
  where
    go :
        (a : Option Authority) (segments : List Bytes)
        → Follows a segments
        → NoSingle segments
        → merge segments path ≡ (
            if is_some a && is_empty segments
            then [] ∷ path
            else drop_last (text_segments segments) ++ path)
    go none [] h n = refl
    go (some a) [] h n = ground (arith, h)
    go none ([] ∷ []) h n = refl
    go (some a) ([] ∷ []) h n = refl
    go a ((c ∷ s) ∷ []) h n = absurd n
    go none ([] ∷ b ∷ rest) h n = ground arith
    go none ((c ∷ s) ∷ b ∷ rest) h n = ground arith
    go (some a) ([] ∷ b ∷ rest) h n = ground arith
    go (some a) ((c ∷ s) ∷ b ∷ rest) h n = ground arith

-- `resolve` is the algorithm of RFC 3986 5.2.2, with `normalize_path` as `remove_dot_segments`, for a
-- base whose path is absolute behind an authority and is no single segment with text, and for a
-- reference whose path, if it stands without scheme and authority and is absolute, is in normal form.
pub resolve-transform :
    (base r : Uri)
    → Follows base.authority base.path
    → NoSingle base.path
    → IsReference r
    → resolve base r ≡ transform normalize_path base r
unfolding resolve resolve_path
resolve-transform base r hf hn hr = go r.scheme r.authority r.query r.path r.fragment hr
  where
    go :
        (scheme : Option Text) (authority : Option Authority) (query : Option Bytes)
        (path : List Bytes) (fragment : Option Bytes)
        → IsReference (record {
          scheme = scheme;
          authority = authority;
          path = path;
          query = query;
          fragment = fragment;
        })
        → (let r : Uri = record {
          scheme = scheme;
          authority = authority;
          path = path;
          query = query;
          fragment = fragment;
        } in
            resolve base r ≡ transform normalize_path base r)
    go (some s) authority query path fragment h = refl
    go none (some a) query path fragment h = refl
    go none none none [] fragment h = refl
    go none none (some q) [] fragment h = refl
    go none none query (a ∷ path) fragment h = elim (Bool-cases (is_path_absolute (a ∷ path))) [
      | inl e ↦ rw (e, normalize_path-of_IsNormal (a ∷ path) (h refl refl e))
      | inr e ↦ rw (e, merge-merge_paths base (a ∷ path) hf hn)
    ]
