-- ===== src/Uri/Path.antt =====
-- src/uri.rs: the path of a URI, its normalization, and its conversions from and to strings.
pub mod RoundTrip
pub mod Normal
pub mod Absolute
pub mod Delimiters
pub mod Strings
pub mod Dots
use uri.Prelude.{
  ◌∷◌, [], List, ◌++◌, Bool, true, false, ◌&&◌, ◌||◌, not, none, some, ltb, if◌then◌else◌, is_empty,
  get_last?, drop_last, length, map,
}
use uri.Text.{Text, Bytes, codes, equal}
use uri.Text.Slices.{split}
use uri.Text.Utf8.{as_bytes}
use uri.Error.{Error, Result, ok}
use uri.Uri.Data.{Uri, set_path, to_string}

unfoldable pub can_navigate_path_up_one_level : List Bytes → Bool
can_navigate_path_up_one_level [] = false
can_navigate_path_up_one_level (segment ∷ path) =
    if is_empty segment then ltb 1 (length (segment ∷ path)) else true

unfoldable pub is_path_absolute : List Bytes → Bool
is_path_absolute [] = false
is_path_absolute (segment ∷ path) = is_empty segment

unfoldable pub contains_relative_path : Uri → Bool
unfolding is_path_absolute
contains_relative_path u = not (is_path_absolute u.path)

-- The variables of the loop of `normalize_path`.
pub record Normalizing : Type 0 where
  pub at_directory_level : Bool
  pub normalized_path : List Bytes

-- One round of the loop.
unfoldable pub normalize_segment : Normalizing → Bytes → Normalizing
normalize_segment st segment =
    if equal segment (codes ".")
    then record st { at_directory_level = true }
    else if equal segment (codes "..")
    then record {
      at_directory_level = true;
      normalized_path =
          if not (is_empty st.normalized_path) && can_navigate_path_up_one_level st.normalized_path
          then drop_last st.normalized_path
          else st.normalized_path;
    }
    else record {
      at_directory_level = is_empty segment;
      normalized_path =
          if not st.at_directory_level || not (is_empty segment)
          then st.normalized_path ++ segment ∷ []
          else st.normalized_path;
    }

unfoldable pub normalize_segments : Normalizing → List Bytes → Normalizing
normalize_segments st [] = st
normalize_segments st (segment ∷ path) = normalize_segments (normalize_segment st segment) path

-- The `match` behind the loop.
unfoldable pub close_path : Normalizing → List Bytes
close_path st = elim (get_last? st.normalized_path) [
  | some segment ↦
      if st.at_directory_level && not (is_empty segment)
      then st.normalized_path ++ [] ∷ []
      else st.normalized_path
  | none ↦ st.normalized_path
]

unfoldable pub normalize_path : List Bytes → List Bytes
unfolding normalize_segments close_path
normalize_path path =
    close_path
      (normalize_segments (record { at_directory_level = false; normalized_path = [] }) path)

unfoldable pub normalize : Uri → Uri
normalize u = record u { path = normalize_path u.path }

-- `path.join(&b"/"[..])`
unfoldable pub join : List Bytes → Bytes
join [] = []
join (segment ∷ []) = segment
join (segment ∷ next ∷ path) = segment ++ (b'/' ∷ join (next ∷ path))

abbrev pub is_root : List Bytes → Bool
is_root ([] ∷ []) = true
is_root _ = false

unfoldable pub path_to_string : Uri → Result Error Text
unfolding join to_string
path_to_string u = if is_root u.path then ok (codes "/") else to_string (join u.path)

unfoldable pub set_path_from_str : Uri → Text → Uri
unfolding set_path split as_bytes
set_path_from_str u path =
    if is_empty path then set_path u [] else set_path u (map as_bytes (split b'/' path))
