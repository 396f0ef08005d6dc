-- ===== src/Uri/Path/Absolute.antt =====
-- src/uri.rs: absolute and relative paths under `normalize_path`.
use uri.Prelude.{
  inr, inl, get_last?, Option-cases, ◌∙◌, is_empty, false, ℕ, refl, [], arith, ◌∷◌, List, true, ◌≡◌,
}
use uri.Text.{equal, Bytes}
use uri.Uri.Path.{
  normalize_segments, close_path, normalize_path, Normalizing, normalize_segment,
  can_navigate_path_up_one_level, is_path_absolute,
}

-- The loop keeps the empty first segment of an absolute path.
normalize_segment-absolute :
    (st : Normalizing) (segment : Bytes)
    → is_path_absolute st.normalized_path ≡ true
    → is_path_absolute (normalize_segment st segment).normalized_path ≡ true
unfolding normalize_segment is_path_absolute can_navigate_path_up_one_level
normalize_segment-absolute st segment h = go st.normalized_path refl
  where
    go :
        (path : List Bytes)
        → st.normalized_path ≡ path
        → is_path_absolute (normalize_segment st segment).normalized_path ≡ true
    go [] e = cc (rw e at h)
    go (a ∷ []) e = ground (arith, e)
    go (a ∷ b ∷ path) e = ground (arith, e)

-- Behind its first segment a relative path gains no empty first segment.
record IsRelative (st : Normalizing) : Type 0 where
  relative : is_path_absolute st.normalized_path ≡ false
  level : is_empty st.normalized_path ≡ true → st.at_directory_level ≡ true

normalize_segment-IsRelative :
    (st : Normalizing) (segment : Bytes) → IsRelative st → IsRelative (normalize_segment st segment)
unfolding normalize_segment is_path_absolute can_navigate_path_up_one_level
normalize_segment-IsRelative st segment v = go st.normalized_path refl
  where
    go : (path : List Bytes) → st.normalized_path ≡ path → IsRelative (normalize_segment st segment)
    go [] e = ground (arith, e)
    go (a ∷ []) e = ground (arith, e)
    go (a ∷ b ∷ path) e = ground (arith, e)

normalize_segments-absolute :
    (st : Normalizing) (path : List Bytes)
    → is_path_absolute st.normalized_path ≡ true
    → is_path_absolute (normalize_segments st path).normalized_path ≡ true
unfolding normalize_segments
normalize_segments-absolute st [] h = h
normalize_segments-absolute st (a ∷ path) h =
    normalize_segments-absolute (normalize_segment st a) path (normalize_segment-absolute st a h)

normalize_segments-IsRelative :
    (st : Normalizing) (path : List Bytes) → IsRelative st → IsRelative (normalize_segments st path)
unfolding normalize_segments
normalize_segments-IsRelative st [] h = h
normalize_segments-IsRelative st (a ∷ path) h =
    normalize_segments-IsRelative (normalize_segment st a) path
      (normalize_segment-IsRelative st a h)

-- An empty segment at the end does not change how a path begins.
close_path-is_path_absolute :
    (st : Normalizing) → is_path_absolute (close_path st) ≡ is_path_absolute st.normalized_path
unfolding close_path is_path_absolute
close_path-is_path_absolute st = go st.normalized_path refl
  where
    go :
        (path : List Bytes)
        → st.normalized_path ≡ path
        → is_path_absolute (close_path st) ≡ is_path_absolute st.normalized_path
    go [] e = ground (arith, e)
    go (a ∷ path) e = elim (Option-cases (get_last? (a ∷ path))) [
      | inl l ↦ ground (arith, e, l)
      | inr (segment, l) ↦ ground (arith, e, l)
    ]

abbrev initial : Normalizing
initial = record { at_directory_level = false; normalized_path = [] }

first-IsRelative : (x : ℕ) (a : Bytes) → IsRelative (normalize_segment initial (x ∷ a))
unfolding normalize_segment is_path_absolute
first-IsRelative x a = ground arith

first-absolute : is_path_absolute (normalize_segment initial []).normalized_path ≡ true
unfolding normalize_segment is_path_absolute equal
first-absolute = refl

-- A path is absolute after normalization exactly if it was before.
pub is_path_absolute-normalize_path :
    (path : List Bytes) → is_path_absolute (normalize_path path) ≡ is_path_absolute path
unfolding normalize_path
is_path_absolute-normalize_path path =
    close_path-is_path_absolute (normalize_segments initial path) ∙ go path
  where
    go :
        (path : List Bytes)
        → is_path_absolute (normalize_segments initial path).normalized_path ≡ is_path_absolute path
    go [] = unfold normalize_segments in refl
    go ([] ∷ path) =
        unfold normalize_segments is_path_absolute in
        normalize_segments-absolute (normalize_segment initial []) path first-absolute
    go ((x ∷ a) ∷ path) =
        unfold normalize_segments is_path_absolute in
        (normalize_segments-IsRelative (normalize_segment initial (x ∷ a)) path
          (first-IsRelative x a)).relative
