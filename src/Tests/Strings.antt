-- ===== src/Tests/Strings.antt =====
-- The printed text of a URI and the string of its path, at concrete inputs.
use uri.Uri.Path.Strings.{path_to_string-set_path_from_str}
use uri.Error.{ok}
use uri.Prelude.{arith, inl, ◌≡◌}
use uri.Text.{codes}
use uri.Uri.Characters.{fmt-IsUriText, IsUriText}
use uri.Uri.Path.{set_path_from_str, path_to_string}
use uri.Uri.Display
use uri.Uri.Parsed.{IsParsed}
use uri.Tests.{server-IsRegName, server-IsCanonical, page-IsCanonical, page}

pub page-IsParsed : IsParsed page
page-IsParsed = record {
  legal_scheme = page-IsCanonical.fits_scheme;
  parsed_authority = record {
    userinfo_bytes = server-IsCanonical.userinfo_bytes;
    host_bytes = server-IsRegName.bytes;
    port_range = server-IsCanonical.u16_port;
  };
  path_bytes = page-IsCanonical.canonical_path.bytes;
  path_follows = page-IsCanonical.fits_path.1;
  query_bytes = page-IsCanonical.query_bytes;
  fragment_bytes = page-IsCanonical.fragment_bytes;
}

fmt-IsUriText_example : IsUriText (Display.fmt page)
fmt-IsUriText_example = fmt-IsUriText page page-IsParsed

path_to_string-set_path_from_str_example :
    path_to_string (set_path_from_str page (codes "/é€")) ≡ ok (codes "/é€")
path_to_string-set_path_from_str_example =
    path_to_string-set_path_from_str page (codes "/é€")
      (inl (omega arith), (inl (omega arith), (inl (omega arith), tt)))
