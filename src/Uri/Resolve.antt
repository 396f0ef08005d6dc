-- ===== src/Uri/Resolve.antt =====
-- src/uri.rs: the resolution of a relative reference against a base URI.
pub mod Rfc
pub mod WellFormed
use uri.Prelude.{List, ◌++◌, Option, none, some, ltb, if◌then◌else◌, is_empty, drop_last, length}
use uri.Text.{Text, Bytes}
use uri.Authority.{Authority}
use uri.Uri.Data.{Uri}
use uri.Uri.Path.{is_path_absolute, normalize_path}

-- The base path without its last segment, but for a path of one segment.
unfoldable pub merge : List Bytes → List Bytes → List Bytes
merge base path = (if ltb 1 (length base) then drop_last base else base) ++ path

-- The part for a reference with neither scheme nor authority: path and query.
unfoldable pub resolve_path : Uri → Uri → List Bytes × Option Bytes
unfolding merge
resolve_path base r =
    if is_empty r.path
    then (base.path, elim r.query [ none ↦ base.query | some q ↦ some q ])
    else if is_path_absolute r.path
    then (r.path, r.query)
    else (normalize_path (merge base.path r.path), r.query)

abbrev with_path : Uri → Uri → List Bytes × Option Bytes → Uri
with_path base r (path, query) = record {
  scheme = base.scheme;
  authority = base.authority;
  path = path;
  query = query;
  fragment = r.fragment;
}

abbrev resolve_relative : Uri → Uri → Option Authority → Uri
resolve_relative base r none = with_path base r (resolve_path base r)
resolve_relative base r (some authority) = record {
  scheme = base.scheme;
  authority = some authority;
  path = normalize_path r.path;
  query = r.query;
  fragment = r.fragment;
}

abbrev resolve_reference : Uri → Uri → Option Text → Uri
resolve_reference base r none = resolve_relative base r r.authority
resolve_reference base r (some scheme) = record {
  scheme = some scheme;
  authority = r.authority;
  path = normalize_path r.path;
  query = r.query;
  fragment = r.fragment;
}

unfoldable pub resolve : Uri → Uri → Uri
unfolding resolve_path
resolve base r = resolve_reference base r r.scheme
