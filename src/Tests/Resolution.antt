-- ===== src/Tests/Resolution.antt =====
-- The resolution of a reference, at a concrete base.
use uri.Tests.Strings.{page-IsParsed}
use uri.Uri.Resolve.WellFormed.{resolve-IsParsed}
use uri.Uri.Parsed.{IsParsed}
use uri.Uri.Path.Dots.{normalize_path-remove_dot_segments, remove_dot_segments}
use uri.Text.{codes}
use uri.Uri.Resolve.{resolve}
use uri.Uri.Resolve.Rfc.{text_segments, resolve-transform, transform, IsReference}
use uri.Prelude.{refl, some, [], ◌≡◌, arith, ◌∷◌, none}
use uri.Uri.Path.{normalize_path, is_path_absolute}
use uri.Uri.Data.{Uri}
use uri.Tests.{page}

abbrev reference : Uri
reference = record {
  scheme = none;
  authority = none;
  path = codes ".." ∷ codes "g" ∷ [];
  query = none;
  fragment = some (codes "s");
}

relative : IsReference reference
unfolding is_path_absolute
relative _ _ e = ground (arith, e)

resolve-transform_example : resolve page reference ≡ transform normalize_path page reference
unfolding is_path_absolute
resolve-transform_example = resolve-transform page reference refl tt relative

normalize_path-remove_dot_segments_example :
    text_segments (normalize_path ([] ∷ codes "a" ∷ codes ".." ∷ codes "b" ∷ codes "." ∷ []))
    ≡ [] ∷ remove_dot_segments [] (codes "a" ∷ codes ".." ∷ codes "b" ∷ codes "." ∷ [])
normalize_path-remove_dot_segments_example =
    normalize_path-remove_dot_segments (codes "a") (codes ".." ∷ codes "b" ∷ codes "." ∷ [])
      (refl, (refl, (refl, tt)))

reference-IsParsed : IsParsed reference
reference-IsParsed = record {
  legal_scheme = tt;
  parsed_authority = tt;
  path_bytes = omega arith;
  path_follows = tt;
  query_bytes = tt;
  fragment_bytes = omega arith;
}

resolve-IsParsed_example : IsParsed (resolve page reference)
resolve-IsParsed_example = resolve-IsParsed page reference page-IsParsed reference-IsParsed
