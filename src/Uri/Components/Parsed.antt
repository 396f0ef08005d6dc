-- ===== src/Uri/Components/Parsed.antt =====
-- src/uri.rs: the parser against the components.
use mathlib.Core.Path.{fun_ext}
use uri.CharacterClasses.{eq-false}
use uri.Uri.Components.Splits.{
  drop_until_both, take_until_both, take-find, drop-find, found-cons, take_until-Avoids,
  drop_until-Avoids, Avoids-find,
}
use uri.Text.Slices.Until.{
  drop-find_or_end, take-find_or_end, drop_until, take_until, Begins, drop_until-Begins,
}
use uri.Text.{Bytes, codes, Text}
use uri.Prelude.{
  take, true, arith, List, sym, none, ap, ◌∙◌, suc, drop, some, refl, [], inr, inl, Bool-cases, ◌∷◌,
  Option, ◌==◌, false, ◌≡◌, Bool, ℕ,
}
use uri.Text.Slices.{find_or_end, find, strip_prefix}
use uri.Authority
use uri.Authority.{Authority}
use uri.Uri.Components.{
  split_authority, split_query, split_fragment, traverse, decode_part, assemble_path,
  ends_authority, ends_hier_part,
}
use uri.Uri.Data.{Uri}
use uri.Uri.Parse.{decode_query_or_fragment}
use uri.Uri.Cut.{cut_authority_and_path, cut_query, cut_fragment, cut_rest}
use uri.Error.{bind_assoc, Context, Error, Result, ok, err, panic, ◌>>=◌}

abbrev pub uri_of : Option Text → Option Authority → List Bytes → Option Bytes → Option Bytes → Uri
uri_of scheme authority path query fragment = record {
  scheme = scheme;
  authority = authority;
  path = path;
  query = query;
  fragment = fragment;
}

cut_query-split_query :
    (t : Text)
    → Begins ends_hier_part t
    → cut_query (take_until (λ c. c == b'#') t)
      ≡ traverse (decode_part Context.query) (split_query t)
unfolding cut_query decode_query_or_fragment
cut_query-split_query [] h = refl
cut_query-split_query (c ∷ s) h = elim (Bool-cases (c == b'#')) [
  | inl e ↦ let none_left : (c == b'?') ≡ false = ground arith in rw (e, none_left) refl
  | inr e ↦ let query : (c == b'?') ≡ true = ground arith in rw (e, query) refl
]

-- The fragment, and what is left for the query.
cut_fragment-split_fragment :
    (t : Text)
    → cut_fragment t ≡ (
        traverse (decode_part Context.fragment) (split_fragment (drop_until (λ c. c == b'#') t))
        >>= λ f. ok (f, take_until (λ c. c == b'#') t))
unfolding cut_fragment decode_query_or_fragment
cut_fragment-split_fragment t = go (find (λ c. c == b'#') t) refl
  where
    go :
        (r : Option ℕ)
        → find (λ c. c == b'#') t ≡ r
        → cut_fragment t ≡ (
            traverse (decode_part Context.fragment) (split_fragment (drop_until (λ c. c == b'#') t))
            >>= λ f. ok (f, take_until (λ c. c == b'#') t))
    go none e =
        let avoids = Avoids-find (λ c. c == b'#') t e in
        rw (
          e,
          cut_fragment,
          drop_until-Avoids (λ c. c == b'#') t avoids,
          take_until-Avoids (λ c. c == b'#') t avoids,
        )
    go (some n) e =
        let (c, r, d, h) = found-cons (λ c. c == b'#') t n e in
        let behind : drop (suc n) t ≡ r = drop-find (λ c. c == b'#') t n e ∙ ap (drop 1) d in
        rw (e, cut_fragment, take-find (λ c. c == b'#') t n e, behind, d)
          (sym (bind_assoc (decode_part Context.fragment r) _ _))

strip_slashes :
    (q : ℕ → Bool) (s : Text)
    → q b'/' ≡ false
    → strip_prefix (codes "//") (take_until q s)
      ≡ (elim (strip_prefix (codes "//") s) as (λ _. Option Text) [
        | none ↦ none
        | some r ↦ some (take_until q r)
      ])
unfolding strip_prefix
strip_slashes q [] h = refl
strip_slashes q (a ∷ []) h = elim (Bool-cases (q a)) [
  | inl e ↦ rw (e, eq-false q b'/' h a e) refl
  | inr e ↦ elim (Bool-cases (a == b'/')) [ inl d ↦ rw (e, d) refl | inr d ↦ rw (e, d) refl ]
]
strip_slashes q (a ∷ b ∷ s) h = elim (Bool-cases (q a)) [
  | inl e ↦ rw (e, eq-false q b'/' h a e) refl
  | inr e ↦ elim (Bool-cases (a == b'/')) [
    | inr d ↦ rw (e, d) refl
    | inl d ↦ elim (Bool-cases (q b)) [
      | inl f ↦ rw (e, d, f, eq-false q b'/' h b f) refl
      | inr f ↦ elim (Bool-cases (b == b'/')) [
        | inl g ↦ rw (e, d, f, g) refl
        | inr g ↦ rw (e, d, f, g) refl
      ]
    ]
  ]
]

-- Authority and path.
split_authority-strip :
    (rest : Text)
    → split_authority rest ≡ (elim (strip_prefix (codes "//") rest) as (λ _. Option Text × Text) [
      | none ↦ (none, take_until ends_hier_part rest)
      | some s ↦ (
        some (take_until ends_authority s),
        take_until ends_hier_part (drop_until ends_authority s),
      )
    ])
unfolding strip_prefix
split_authority-strip [] = refl
split_authority-strip (a ∷ []) = elim (Bool-cases (a == b'/')) [
  | inl d ↦ rw d refl
  | inr d ↦ rw d refl
]
split_authority-strip (a ∷ b ∷ s) = elim (Bool-cases (a == b'/')) [
  | inr d ↦ rw d refl
  | inl d ↦ elim (Bool-cases (b == b'/')) [ inl g ↦ rw (d, g) refl | inr g ↦ rw (d, g) refl ]
]

abbrev pub assemble_front : Option Text × Text → Result Error (Option Authority × List Bytes)
assemble_front (a, path) =
    traverse Authority.parse a >>= λ authority. assemble_path a path >>= λ p. ok (authority, p)

split_authority-assemble :
    (rest : Text)
    → cut_authority_and_path (take_until ends_hier_part rest)
      ≡ assemble_front (split_authority rest)
unfolding cut_authority_and_path
split_authority-assemble rest = go (strip_prefix (codes "//") rest) refl
  where
    go :
        (r : Option Text)
        → strip_prefix (codes "//") rest ≡ r
        → cut_authority_and_path (take_until ends_hier_part rest)
          ≡ assemble_front (split_authority rest)
    go none e =
        let stripped : strip_prefix (codes "//") (take_until ends_hier_part rest) ≡ none =
          strip_slashes ends_hier_part rest refl ∙ rw e in
        let split : split_authority rest ≡ (none, take_until ends_hier_part rest) =
          split_authority-strip rest ∙ rw e in
        rw (stripped, cut_authority_and_path, split, assemble_front) refl
    go (some s) e =
        let hier = take_until ends_hier_part s in
        let slash = λ (c : ℕ). c == b'/' in
        let stripped : strip_prefix (codes "//") (take_until ends_hier_part rest) ≡ some hier =
          strip_slashes ends_hier_part rest refl ∙ rw e in
        let split : split_authority rest ≡ (
          some (take_until ends_authority s),
          take_until ends_hier_part (drop_until ends_authority s),
        ) =
          split_authority-strip rest ∙ rw e in
        let text : take (find_or_end slash hier) hier ≡ take_until ends_authority s =
          take-find_or_end slash hier
          ∙ take_until_both slash ends_hier_part ends_authority (λ c. refl) s in
        let path : drop (find_or_end slash hier) hier
            ≡ take_until ends_hier_part (drop_until ends_authority s) =
          drop-find_or_end slash hier
          ∙ drop_until_both slash ends_hier_part ends_authority (λ c. refl) s in
        rw (stripped, cut_authority_and_path, split, assemble_front, text, path)
          (sym (bind_assoc (Authority.parse (take_until ends_authority s)) _ _))

bind_pair :
    {A B C : Type 0} (m : Result Error A) (n : Result Error B) (k : A × B → Result Error C)
    → ((m >>= λ a. n >>= λ b. ok (a, b)) >>= k) ≡ (m >>= λ a. n >>= λ b. k (a, b))
bind_pair (ok a) (ok b) k = refl
bind_pair (ok a) (err e) k = refl
bind_pair (ok a) panic k = refl
bind_pair (err e) n k = refl
bind_pair panic n k = refl

-- Query and fragment.
tail-assemble :
    (t : Text) (k : Option Bytes → Option Bytes → Uri)
    → Begins ends_hier_part t
    → (cut_fragment t >>= λ r. cut_query r.1 >>= λ query. ok (k r.0 query)) ≡ (
        traverse (decode_part Context.fragment) (split_fragment (drop_until (λ c. c == b'#') t))
        >>= λ fragment.
            traverse (decode_part Context.query) (split_query t) >>= λ query. ok (k fragment query))
tail-assemble t k h = rw (cut_fragment-split_fragment t) (
    bind_assoc
      (traverse (decode_part Context.fragment) (split_fragment (drop_until (λ c. c == b'#') t))) _ _
    ∙ rw (cut_query-split_query t h))

-- The components behind the scheme, put together.
abbrev pub assemble_behind : Option Text → Text → Result Error Uri
assemble_behind scheme rest =
    let tail = drop_until ends_hier_part rest in
    let hier_part = split_authority rest in
    do
      authority ← traverse Authority.parse hier_part.0
      path ← assemble_path hier_part.0 hier_part.1
      fragment ←
          traverse (decode_part Context.fragment)
            (split_fragment (drop_until (λ c. c == b'#') tail))
      query ← traverse (decode_part Context.query) (split_query tail)
      ok (uri_of scheme authority path query fragment)

-- Everything behind the scheme.
pub cut_rest-assemble :
    (scheme : Option Text) (rest : Text) → cut_rest scheme rest ≡ assemble_behind scheme rest
cut_rest-assemble scheme rest =
    let hier = take-find_or_end ends_hier_part rest in
    let tail = drop-find_or_end ends_hier_part rest in
    rw (hier, tail, split_authority-assemble rest)
      (ap (λ k. assemble_front (split_authority rest) >>= k)
          (fun_ext (λ x.
            tail-assemble (drop_until ends_hier_part rest)
              (λ fragment query. uri_of scheme x.0 x.1 query fragment)
              (drop_until-Begins ends_hier_part rest)))
        ∙ bind_pair (traverse Authority.parse (split_authority rest).0)
            (assemble_path (split_authority rest).0 (split_authority rest).1) _)
