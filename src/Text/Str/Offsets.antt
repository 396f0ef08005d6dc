-- ===== src/Text/Str/Offsets.antt =====
-- Positions that count bytes against positions that count characters: no slice at a position that
-- `find` gives panics.
use uri.Error.{ok}
use uri.Prelude.{
  ◌++◌, ◌≤◌, All, sym, ◌∙◌, ap, length, refl, [], zero, inr, ltb, arith, inl, ◌-◌, Bool-cases,
  false, Option, ◌+◌, ◌∷◌, drop, ◌<◌, suc, true, none, some, take, ◌==◌, ◌≡◌, Bool, List, ℕ,
}
use uri.Text.Str
use uri.Text.Str.{len_utf8, byte_len, slice_from, slice_to}
use uri.Text.Slices.{find, find_or_end}

-- The bytes of the first `n` characters.
abbrev pub offset : ℕ → List ℕ → ℕ
offset n s = byte_len (take n s)

pub slice_from-offset : (n : ℕ) (s : List ℕ) → slice_from (offset n s) s ≡ ok (drop n s)
unfolding slice_from byte_len
slice_from-offset zero [] = refl
slice_from-offset zero (c ∷ s) = refl
slice_from-offset (suc n) [] = refl
slice_from-offset (suc n) (c ∷ s) =
    let less : len_utf8 c + byte_len (take n s) - len_utf8 c ≡ byte_len (take n s) = omega arith in
    let first : (len_utf8 c + byte_len (take n s) == 0) ≡ false = ground arith in
    let second : ltb (len_utf8 c + byte_len (take n s)) (len_utf8 c) ≡ false = ground arith in
    rw (first, second, less) (slice_from-offset n s)

pub slice_to-offset : (n : ℕ) (s : List ℕ) → slice_to (offset n s) s ≡ ok (take n s)
unfolding slice_to byte_len
slice_to-offset zero [] = refl
slice_to-offset zero (c ∷ s) = refl
slice_to-offset (suc n) [] = refl
slice_to-offset (suc n) (c ∷ s) =
    let less : len_utf8 c + byte_len (take n s) - len_utf8 c ≡ byte_len (take n s) = omega arith in
    let first : (len_utf8 c + byte_len (take n s) == 0) ≡ false = ground arith in
    let second : ltb (len_utf8 c + byte_len (take n s)) (len_utf8 c) ≡ false = ground arith in
    rw (first, second, less, slice_to-offset n s) refl

-- A test that ASCII characters alone pass.
abbrev pub IsAsciiTest : (ℕ → Bool) → Type 0
IsAsciiTest p = (c : ℕ) → p c ≡ true → c < 128

module _ (p : ℕ → Bool) where
  pub find-none : (s : List ℕ) → find p s ≡ none → Str.find p s ≡ none
  unfolding find Str.find
  find-none [] e = refl
  find-none (c ∷ s) e = elim (Bool-cases (p c)) [
    | inl h ↦ let bad : ⊥ = cc (rw h at e) in absurd bad
    | inr h ↦ rw (h, find-none s (behind (find p s) (rw h at e))) refl
  ]
    where
      behind :
          (r : Option ℕ)
          → (elim r as (λ _. Option ℕ) [ none ↦ none | some i ↦ some (suc i) ]) ≡ none
          → r ≡ none
      behind none e = refl
      behind (some i) e = let bad : ⊥ = cc in absurd bad

  -- What is found, and the character there.
  pub find-some :
      (s : List ℕ) (n : ℕ)
      → find p s ≡ some n
      → (Str.find p s ≡ some (offset n s))
        × ((c : ℕ) × (p c ≡ true) × (offset (suc n) s ≡ offset n s + len_utf8 c))
  unfolding find Str.find byte_len
  find-some [] n e = let bad : ⊥ = cc in absurd bad
  find-some (c ∷ s) n e = elim (Bool-cases (p c)) [
    | inl h ↦ let zeroth : n ≡ 0 = cc (rw h at e) in rw zeroth (rw h refl, (c, h, omega arith))
    | inr h ↦ go (find p s) refl (find-some s) (rw h at e) h
  ]
    where
      go :
          (r : Option ℕ)
          → find p s ≡ r
          → ((m : ℕ)
              → find p s ≡ some m
              → (Str.find p s ≡ some (offset m s))
                × ((d : ℕ) × (p d ≡ true) × (offset (suc m) s ≡ offset m s + len_utf8 d)))
          → (elim r as (λ _. Option ℕ) [ none ↦ none | some i ↦ some (suc i) ]) ≡ some n
          → p c ≡ false
          → (Str.find p (c ∷ s) ≡ some (offset n (c ∷ s)))
            × ((d : ℕ) × (p d ≡ true) × (offset (suc n) (c ∷ s) ≡ offset n (c ∷ s) + len_utf8 d))
      go none d ih e h = let bad : ⊥ = cc in absurd bad
      go (some i) d ih e h =
          let next_one : n ≡ suc i = cc (e) in
          let (found, (x, passes, step)) = ih i d in
          rw next_one (rw (h, found) refl, (x, passes, omega (arith, step)))

take_length_lem : (s : List ℕ) → take (length s) s ≡ s
take_length_lem [] = refl
take_length_lem (c ∷ s) = ap (◌∷◌ c) (take_length_lem s)

Str_find_or_end-offset :
    (p : ℕ → Bool) (s : List ℕ) → Str.find_or_end p s ≡ offset (find_or_end p s) s
Str_find_or_end-offset p s = go (find p s) refl
  where
    bytes : Option ℕ → ℕ
    bytes r = elim r [ some i ↦ i | none ↦ byte_len s ]

    chars : Option ℕ → ℕ
    chars r = elim r [ some i ↦ i | none ↦ length s ]

    go : (r : Option ℕ) → find p s ≡ r → bytes (Str.find p s) ≡ offset (chars (find p s)) s
    go none e =
        ap bytes (find-none p s e)
        ∙ ap byte_len (sym (take_length_lem s))
        ∙ ap (λ r. offset (chars r) s) (sym e)
    go (some n) e = ap bytes (find-some p s n e).0 ∙ ap (λ r. offset (chars r) s) (sym e)

pub slice_to-find_or_end :
    (p : ℕ → Bool) (s : List ℕ) → slice_to (Str.find_or_end p s) s ≡ ok (take (find_or_end p s) s)
slice_to-find_or_end p s = rw (Str_find_or_end-offset p s) (slice_to-offset (find_or_end p s) s)

pub slice_from-find_or_end :
    (p : ℕ → Bool) (s : List ℕ) → slice_from (Str.find_or_end p s) s ≡ ok (drop (find_or_end p s) s)
slice_from-find_or_end p s = rw (Str_find_or_end-offset p s) (slice_from-offset (find_or_end p s) s)

-- Behind an ASCII character that was found.
pub slice_from-suc :
    (p : ℕ → Bool) (s : List ℕ) (n : ℕ)
    → IsAsciiTest p
    → find p s ≡ some n
    → slice_from (offset n s + 1) s ≡ ok (drop (suc n) s)
slice_from-suc p s n ascii e =
    let (_, (c, passes, step)) = find-some p s n e in
    let low : c < 128 = ascii c passes in
    let one : len_utf8 c ≡ 1 = ground (arith, low) in
    let position : offset n s + 1 ≡ offset (suc n) s = omega (arith, step, one) in
    rw position (slice_from-offset (suc n) s)

take-take :
    (p : ℕ → Bool) (m : ℕ) (s : List ℕ) (n : ℕ)
    → find p (take m s) ≡ some n
    → take n (take m s) ≡ take n s
unfolding find
take-take p zero [] n e = let bad : ⊥ = cc in absurd bad
take-take p zero (c ∷ s) n e = let bad : ⊥ = cc in absurd bad
take-take p (suc m) [] n e = let bad : ⊥ = cc in absurd bad
take-take p (suc m) (c ∷ s) n e = elim (Bool-cases (p c)) [
  | inl h ↦ let zeroth : n ≡ 0 = cc (rw h at e) in rw zeroth refl
  | inr h ↦ go (find p (take m s)) refl (take-take p m s) (rw h at e)
]
  where
    go :
        (r : Option ℕ)
        → find p (take m s) ≡ r
        → ((k : ℕ) → find p (take m s) ≡ some k → take k (take m s) ≡ take k s)
        → (elim r as (λ _. Option ℕ) [ none ↦ none | some i ↦ some (suc i) ]) ≡ some n
        → take n (take (suc m) (c ∷ s)) ≡ take n (c ∷ s)
    go none d ih e = let bad : ⊥ = cc in absurd bad
    go (some i) d ih e = let next_one : n ≡ suc i = cc (e) in rw next_one (ap (◌∷◌ c) (ih i d))

pub offset-take :
    (p : ℕ → Bool) (m : ℕ) (s : List ℕ) (n : ℕ)
    → find p (take m s) ≡ some n
    → offset n (take m s) ≡ offset n s
offset-take p m s n e = ap byte_len (take-take p m s n e)

pub slice_from-one : (s : List ℕ) (c : ℕ) → c < 128 → slice_from 1 (c ∷ s) ≡ ok s
unfolding slice_from byte_len
slice_from-one s c low =
    let one : len_utf8 c ≡ 1 = ground (arith, low) in rw (one, slice_from-offset 0 s) refl

-- At a position in front of which only ASCII characters stand.
offset-ascii :
    (n : ℕ) (read unread : List ℕ)
    → All (λ c. c < 128) read
    → n ≤ length read
    → offset n (read ++ unread) ≡ n
unfolding byte_len
offset-ascii zero [] [] a h = refl
offset-ascii zero [] (c ∷ s) a h = refl
offset-ascii zero (d ∷ r) s a h = refl
offset-ascii (suc n) [] s a h = absurd (omega arith)
offset-ascii (suc n) (d ∷ r) s (low, a) h =
    let one : len_utf8 d ≡ 1 = ground (arith, low) in
    let rest = offset-ascii n r s a (omega arith) in omega (arith, one, rest)

pub slice_from-ascii :
    (n : ℕ) (read unread : List ℕ)
    → All (λ c. c < 128) read
    → n ≤ length read
    → slice_from n (read ++ unread) ≡ ok (drop n (read ++ unread))
slice_from-ascii n read unread a h =
    ap (λ m. slice_from m (read ++ unread)) (sym (offset-ascii n read unread a h))
    ∙ slice_from-offset n (read ++ unread)
