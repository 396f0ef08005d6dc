-- ===== src/Uri/Path/Normal.antt =====
-- src/uri.rs: what `normalize_path` produces, and what it leaves alone.
use mathlib.Core.Path.{subst}
use uri.Text.{codes, equal, Bytes}
use uri.Prelude.{
  append_assoc, append-nil, ◌↔◌, ◌∙◌, arith, ◌||◌, true, some, Option-cases, not, if◌then◌else◌,
  get_last?, inr, refl, ◌&&◌, inl, is_empty, [], ◌++◌, drop_last, Bool-cases, ◌∷◌, false, ◌≡◌, List,
  Bool,
}
use uri.Uri.Path.{
  Normalizing, normalize_segment, normalize_segments, close_path, normalize_path,
  can_navigate_path_up_one_level,
}

-- From a directory level, or not: no segment is `.` or `..`, and no empty segment stands where a
-- directory level begins already.
abbrev pub Normal : Bool → List Bytes → Type 0
Normal level [] = Unit
Normal level (segment ∷ path) =
    (equal segment (codes ".") ≡ false)
    × (equal segment (codes "..") ≡ false)
    × (level && is_empty segment ≡ false)
    × Normal (is_empty segment) path

abbrev pub IsNormal : List Bytes → Type 0
IsNormal = Normal false

-- Whether a path ends at a directory level.
abbrev final_level : Bool → List Bytes → Bool
final_level level [] = level
final_level level (segment ∷ path) = final_level (is_empty segment) path

Normal-drop_last :
    (level : Bool) (path : List Bytes) → Normal level path → Normal level (drop_last path)
Normal-drop_last level [] h = tt
Normal-drop_last level (a ∷ []) h = tt
Normal-drop_last level (a ∷ b ∷ path) (d, dd, e, h) =
    (d, dd, e, Normal-drop_last (is_empty a) (b ∷ path) h)

Normal-concat :
    (level : Bool) (path : List Bytes) (segment : Bytes)
    → Normal level path
    → equal segment (codes ".") ≡ false
    → equal segment (codes "..") ≡ false
    → final_level level path && is_empty segment ≡ false
    → Normal level (path ++ segment ∷ [])
Normal-concat level [] segment h d dd e = (d, dd, e, tt)
Normal-concat level (a ∷ path) segment (ad, add, ae, h) d dd e =
    (ad, add, ae, Normal-concat (is_empty a) path segment h d dd e)

final_level-concat :
    (level : Bool) (path : List Bytes) (segment : Bytes)
    → final_level level (path ++ segment ∷ []) ≡ is_empty segment
final_level-concat level [] segment = refl
final_level-concat level (a ∷ path) segment = final_level-concat (is_empty a) path segment

-- What the loop keeps.
record Inv (st : Normalizing) : Type 0 where
  normal : IsNormal st.normalized_path
  level : st.at_directory_level ≡ false → final_level false st.normalized_path ≡ false

if_keeps {ℓ κ} :
    {A : Type ℓ} (P : A → Type κ) (b : Bool) (x y : A) → P x → P y → P (if b then x else y)
if_keeps P true x y px py = px
if_keeps P false x y px py = py

-- A segment is pushed where it is not empty or no directory level begins.
may_push :
    (level empty final : Bool)
    → (not level || not empty) ≡ true
    → (level ≡ false → final ≡ false)
    → (final && empty) ≡ false
may_push true true final h k = cc
may_push true false final h k = ground arith
may_push false empty final h k = ground (arith, k refl)

not_pushed : (level empty : Bool) → (not level || not empty) ≡ false → empty ≡ true
not_pushed level empty h = ground arith

push-Inv :
    (st : Normalizing) (segment : Bytes)
    → Inv st
    → equal segment (codes ".") ≡ false
    → equal segment (codes "..") ≡ false
    → (pushes : Bool) → (not st.at_directory_level || not (is_empty segment)) ≡ pushes
    → Inv (record {
      at_directory_level = is_empty segment;
      normalized_path = if pushes then st.normalized_path ++ segment ∷ [] else st.normalized_path;
    })
push-Inv st segment v d dd true h = record {
  normal =
      Normal-concat false st.normalized_path segment v.normal d dd
        (may_push st.at_directory_level (is_empty segment) _ h v.level);
  level = λ e. final_level-concat false st.normalized_path segment ∙ e;
}
push-Inv st segment v d dd false h = record {
  normal = v.normal;
  level = λ e. cc (not_pushed st.at_directory_level (is_empty segment) h);
}

normalize_segment-Inv :
    (st : Normalizing) (segment : Bytes) → Inv st → Inv (normalize_segment st segment)
unfolding normalize_segment
normalize_segment-Inv st segment v = elim (Bool-cases (equal segment (codes "."))) [
  | inl d ↦ rw d (record { normal = v.normal; level = λ e. cc })
  | inr d ↦ elim (Bool-cases (equal segment (codes ".."))) [
    | inl dd ↦
        rw (d, dd)
          (record {
            normal =
                if_keeps IsNormal
                  (not (is_empty st.normalized_path)
                    && can_navigate_path_up_one_level st.normalized_path)
                  _ _ (Normal-drop_last false st.normalized_path v.normal) v.normal;
            level = λ e. cc;
          })
    | inr dd ↦ rw (d, dd) (push-Inv st segment v d dd _ refl)
  ]
]

normalize_segments-Inv :
    (st : Normalizing) (path : List Bytes) → Inv st → Inv (normalize_segments st path)
unfolding normalize_segments
normalize_segments-Inv st [] v = v
normalize_segments-Inv st (a ∷ path) v =
    normalize_segments-Inv (normalize_segment st a) path (normalize_segment-Inv st a v)

-- The level at the end is that of the last segment.
final_level-get_last? :
    (level : Bool) (path : List Bytes) (segment : Bytes)
    → get_last? path ≡ some segment
    → final_level level path ≡ is_empty segment
final_level-get_last? level [] segment h = cc
final_level-get_last? level (a ∷ []) segment h = cc
final_level-get_last? level (a ∷ b ∷ path) segment h =
    final_level-get_last? (is_empty a) (b ∷ path) segment h

close_path-IsNormal : (st : Normalizing) → Inv st → IsNormal (close_path st)
unfolding close_path
close_path-IsNormal st v = elim (Option-cases (get_last? st.normalized_path)) [
  | inl e ↦ rw (close_path, e) v.normal
  | inr (segment, e) ↦ elim (Bool-cases (is_empty segment)) [
    | inl empty ↦
        rw (close_path, e)
          (let no_push : (st.at_directory_level && not (is_empty segment)) ≡ false = ground arith in
            rw no_push v.normal)
    | inr full ↦
        rw (close_path, e)
          (if_keeps IsNormal (st.at_directory_level && not (is_empty segment)) _ _
            (Normal-concat false st.normalized_path [] v.normal (unfold equal in refl)
              (unfold equal in refl)
              (rw (final_level-get_last? false st.normalized_path segment e, full) refl))
            v.normal)
  ]
]

-- What `normalize_path` returns is normal.
pub normalize_path-IsNormal : (path : List Bytes) → IsNormal (normalize_path path)
unfolding normalize_path
normalize_path-IsNormal path =
    close_path-IsNormal _
      (normalize_segments-Inv _ path (record { normal = tt; level = λ e. refl }))

-- On a normal path the loop pushes every segment.
normalize_segments-Normal :
    (level : Bool) (done path : List Bytes)
    → Normal level path
    → normalize_segments (record { at_directory_level = level; normalized_path = done }) path
      ≡ record { at_directory_level = final_level level path; normalized_path = done ++ path }
unfolding normalize_segments normalize_segment
normalize_segments-Normal level done [] h = rw append-nil
normalize_segments-Normal level done (a ∷ path) (d, dd, e, h) =
    let pushes : (not level || not (is_empty a)) ≡ true = ground arith in
    rw (d, dd, pushes)
      (normalize_segments-Normal (is_empty a) (done ++ a ∷ []) path h ∙ rw append_assoc)

not_both : (b : Bool) → (b && not b) ≡ false
not_both true = refl
not_both false = refl

close_path-level :
    (path : List Bytes)
    → close_path (record { at_directory_level = final_level false path; normalized_path = path })
      ≡ path
unfolding close_path
close_path-level path = elim (Option-cases (get_last? path)) [
  | inl e ↦ rw (close_path, e)
  | inr (segment, e) ↦
      let no_push : (final_level false path && not (is_empty segment)) ≡ false =
        rw (final_level-get_last? false path segment e) (not_both (is_empty segment)) in
      rw (close_path, e, no_push)
]

-- A normal path is left as it is.
pub normalize_path-of_IsNormal : (path : List Bytes) → IsNormal path → normalize_path path ≡ path
unfolding normalize_path
normalize_path-of_IsNormal path h =
    rw (normalize_segments-Normal false [] path h) (close_path-level path)

-- Normalizing a path twice is normalizing it once, and the paths that are left as they are, are
-- those without `.` and `..` segments and without an empty segment behind another.
pub normalize_path_idem :
    (path : List Bytes)
    → (normalize_path (normalize_path path) ≡ normalize_path path)
      × ((normalize_path path ≡ path) ↔ IsNormal path)
normalize_path_idem path = (
  normalize_path-of_IsNormal (normalize_path path) (normalize_path-IsNormal path),
  (λ e. subst IsNormal e (normalize_path-IsNormal path), normalize_path-of_IsNormal path),
)
