-- ===== src/Uri/Path/Dots.antt =====
-- `remove_dot_segments` of RFC 3986, 5.2.4, on the segments behind the root, and how
use uri.Prelude.{All-append, inr, inl, length, suc, ◌∙◌, some, Bool-cases, get_last?, ltb, ap, refl}
-- `normalize_path` implements it.
use uri.Prelude.{
  arith, false, ◌++◌, [], All, true, if◌then◌else◌, ◌≡◌, drop_last, ◌∷◌, is_empty, List, Bool,
}
use uri.Uri.Path.{
  normalize_path, normalize_segments, Normalizing, can_navigate_path_up_one_level, close_path,
  normalize_segment,
}
use uri.Text.{Bytes, codes, equal}
use uri.Uri.Resolve.Rfc.{text_segments}

-- The output after one more segment; a dot segment at the end leaves an empty one.
abbrev pub put : Bytes → Bool → List Bytes → List Bytes
put segment is_final out =
    if equal segment (codes ".")
    then (if is_final then out ++ [] ∷ [] else out)
    else if equal segment (codes "..")
    then (if is_final then drop_last out ++ [] ∷ [] else drop_last out)
    else out ++ segment ∷ []

abbrev pub remove_dot_segments : List Bytes → List Bytes → List Bytes
remove_dot_segments out [] = out
remove_dot_segments out (segment ∷ path) =
    remove_dot_segments (put segment (is_empty path) out) path

-- No segment but the last one is empty.
abbrev pub EmptyOnlyLast : List Bytes → Type 0
EmptyOnlyLast [] = Unit
EmptyOnlyLast (segment ∷ []) = Unit
EmptyOnlyLast (segment ∷ next ∷ path) = (is_empty segment ≡ false) × EmptyOnlyLast (next ∷ path)

abbrev Full : List Bytes → Type 0
Full = All (λ segment. is_empty segment ≡ false)

abbrev at : Bool → List Bytes → Normalizing
at level out = record { at_directory_level = level; normalized_path = [] ∷ out }

get_last-concat :
    (a : Bytes) (out : List Bytes) (segment : Bytes)
    → get_last? (a ∷ (out ++ segment ∷ [])) ≡ some segment
get_last-concat a [] segment = refl
get_last-concat a (b ∷ out) segment = get_last-concat b out segment

get_last-Full :
    (a : Bytes) (out : List Bytes)
    → Full (a ∷ out)
    → (segment : Bytes) × (get_last? (a ∷ out) ≡ some segment) × (is_empty segment ≡ false)
get_last-Full a [] (h, _) = (a, refl, h)
get_last-Full a (b ∷ out) (_, hs) = get_last-Full b out hs

text_segments-concat :
    (out : List Bytes) (segment : Bytes)
    → text_segments ([] ∷ (out ++ segment ∷ [])) ≡ [] ∷ (out ++ segment ∷ [])
text_segments-concat [] segment = refl
text_segments-concat (a ∷ out) segment = refl

-- The end of the loop, at a directory level or behind a segment.
close-level :
    (out : List Bytes) → Full out → text_segments (close_path (at true out)) ≡ [] ∷ (out ++ [] ∷ [])
unfolding close_path
close-level [] h = refl
close-level (a ∷ out) h = let (segment, e, full) = get_last-Full a out h in rw (close_path, e, full)

close-segment :
    (out : List Bytes) (segment : Bytes)
    → text_segments (close_path (at (is_empty segment) (out ++ segment ∷ [])))
      ≡ [] ∷ (out ++ segment ∷ [])
unfolding close_path
close-segment out [] = rw (close_path, get_last-concat [] out []) (text_segments-concat out [])
close-segment out (c ∷ s) =
    rw (close_path, get_last-concat [] out (c ∷ s)) (text_segments-concat out (c ∷ s))

Full-drop_last : (out : List Bytes) → Full out → Full (drop_last out)
Full-drop_last [] h = tt
Full-drop_last (a ∷ []) h = tt
Full-drop_last (a ∷ b ∷ out) (h, hs) = (h, Full-drop_last (b ∷ out) hs)

-- One round of the loop below the root.
round-dot :
    (level : Bool) (out : List Bytes) (segment : Bytes)
    → equal segment (codes ".") ≡ true
    → normalize_segment (at level out) segment ≡ at true out
unfolding normalize_segment
round-dot level out segment h = rw h

round-dot_dot :
    (level : Bool) (out : List Bytes) (segment : Bytes)
    → equal segment (codes ".") ≡ false
    → equal segment (codes "..") ≡ true
    → normalize_segment (at level out) segment ≡ at true (drop_last out)
unfolding normalize_segment can_navigate_path_up_one_level
round-dot_dot level [] segment h k = rw (h, k)
round-dot_dot level (a ∷ out) segment h k =
    let deep : ltb 1 (suc (suc (length out))) ≡ true = ground arith in rw (h, k, deep)

round-full :
    (level : Bool) (out : List Bytes) (segment : Bytes)
    → equal segment (codes ".") ≡ false
    → equal segment (codes "..") ≡ false
    → is_empty segment ≡ false
    → normalize_segment (at level out) segment ≡ at false (out ++ segment ∷ [])
unfolding normalize_segment
round-full level out segment h k e = ground (arith, h, k, e)

round-empty :
    (out : List Bytes) (segment : Bytes)
    → is_empty segment ≡ true
    → normalize_segment (at true out) segment ≡ at true out
unfolding normalize_segment equal
round-empty out [] e = refl
round-empty out (c ∷ s) e = cc

abbrev finish : Normalizing → List Bytes
finish st = text_segments (close_path st)

-- The last segment, which may be empty.
close-last :
    (level : Bool) (out : List Bytes) (segment : Bytes)
    → Full out
    → equal segment (codes ".") ≡ false
    → equal segment (codes "..") ≡ false
    → finish (normalize_segment (at level out) segment) ≡ [] ∷ (out ++ segment ∷ [])
unfolding normalize_segment equal
close-last true out [] h d dd = ap finish (round-empty out [] refl) ∙ close-level out h
close-last false out [] h d dd = close-segment out []
close-last level out (c ∷ s) h d dd =
    ap finish (round-full level out (c ∷ s) d dd refl) ∙ close-segment out (c ∷ s)

-- The loop below the root, from a segment on.
loop :
    (level : Bool) (out : List Bytes) (segment : Bytes) (path : List Bytes)
    → Full out
    → EmptyOnlyLast (segment ∷ path)
    → finish (normalize_segments (at level out) (segment ∷ path))
      ≡ [] ∷ remove_dot_segments out (segment ∷ path)
unfolding normalize_segments
loop level out segment [] h e = elim (Bool-cases (equal segment (codes "."))) [
  | inl d ↦ ap finish (round-dot level out segment d) ∙ close-level out h ∙ rw d
  | inr d ↦ elim (Bool-cases (equal segment (codes ".."))) [
    | inl dd ↦
        ap finish (round-dot_dot level out segment d dd)
        ∙ close-level (drop_last out) (Full-drop_last out h)
        ∙ rw (d, dd)
    | inr dd ↦ close-last level out segment h d dd ∙ rw (d, dd)
  ]
]
loop level out segment (next ∷ path) h (e, es) = elim (Bool-cases (equal segment (codes "."))) [
  | inl d ↦
      ap (λ st. finish (normalize_segments st (next ∷ path))) (round-dot level out segment d)
      ∙ loop true out next path h es
      ∙ rw d
  | inr d ↦ elim (Bool-cases (equal segment (codes ".."))) [
    | inl dd ↦
        ap (λ st. finish (normalize_segments st (next ∷ path)))
          (round-dot_dot level out segment d dd)
        ∙ loop true (drop_last out) next path (Full-drop_last out h) es
        ∙ rw (d, dd)
    | inr dd ↦
        ap (λ st. finish (normalize_segments st (next ∷ path)))
          (round-full level out segment d dd e)
        ∙ loop false (out ++ segment ∷ []) next path (All-append _ out (segment ∷ []) h (e, tt)) es
        ∙ rw (d, dd)
  ]
]

-- For an absolute path whose segments behind the root are not empty, but for the last one,
-- `normalize_path` gives what `remove_dot_segments` of RFC 3986 5.2.4 gives, where the root is `[""]`
-- in the one and `["", ""]` in the other.
pub normalize_path-remove_dot_segments :
    (segment : Bytes) (path : List Bytes)
    → EmptyOnlyLast (segment ∷ path)
    → text_segments (normalize_path ([] ∷ segment ∷ path))
      ≡ [] ∷ remove_dot_segments [] (segment ∷ path)
unfolding normalize_path normalize_segments normalize_segment equal
normalize_path-remove_dot_segments segment path h = loop true [] segment path tt h
