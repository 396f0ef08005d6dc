-- ===== src/Uri/Display.antt =====
-- src/uri.rs: `Display` for a URI. What is written to a `String` never fails.
use uri.Prelude.{
  ℕ, suc, ◌+◌, ◌∷◌, [], List, ◌++◌, ◌&&◌, Option, none, some, ltb, ◌==◌, if◌then◌else◌, length,
}
use uri.Text.{Text, Bytes, codes}
use uri.CharacterClasses.{
  pchar_not_pct_encoded, query_not_pct_encoded_without_plus, query_or_fragment_not_pct_encoded,
}
use uri.Codec.{encode_element}
use uri.Authority
use uri.Authority.{Authority}
use uri.Uri.Data.{Uri}
use uri.Uri.Path.{is_path_absolute}

unfoldable pub fmt_scheme : Option Text → Text
fmt_scheme none = []
fmt_scheme (some scheme) = scheme ++ codes ":"

unfoldable pub fmt_authority : Option Authority → Text
fmt_authority none = []
fmt_authority (some authority) = codes "//" ++ Authority.fmt authority

-- The loop over the segments from position `i`, of `n` in all.
unfoldable pub fmt_segments : ℕ → ℕ → List Bytes → Text
fmt_segments n i [] = []
fmt_segments n i (segment ∷ path) =
    encode_element segment pchar_not_pct_encoded
    ++ ((if ltb (i + 1) n then codes "/" else []) ++ fmt_segments n (suc i) path)

-- An absolute but otherwise empty path is one slash.
unfoldable pub fmt_path : List Bytes → Text
unfolding fmt_segments
fmt_path path =
    (if is_path_absolute path && length path == 1 then codes "/" else [])
    ++ fmt_segments (length path) 0 path

unfoldable pub fmt_query : Option Bytes → Text
fmt_query none = []
fmt_query (some query) = codes "?" ++ encode_element query query_not_pct_encoded_without_plus

unfoldable pub fmt_fragment : Option Bytes → Text
fmt_fragment none = []
fmt_fragment (some fragment) =
    codes "#" ++ encode_element fragment query_or_fragment_not_pct_encoded

unfoldable pub fmt : Uri → Text
unfolding fmt_scheme fmt_authority fmt_path fmt_query fmt_fragment
fmt u =
    fmt_scheme u.scheme
    ++ (fmt_authority u.authority
        ++ (fmt_path u.path ++ (fmt_query u.query ++ fmt_fragment u.fragment)))
