-- ===== src/ValidateIpv6Address/Tails.antt =====
-- What may follow inside a group, behind its first `k` digits.
use mathlib.Core.Path.{subst}
use uri.ValidateIpv4Address.Grammar.{IsDottedQuad}
use uri.Prelude.{
  ◌≢◌, ◌≤◌, length, ◌+◌, ap, All, inr, refl, inl, true, false, arith, ◌++◌, [], ◌≡◌, ◌∷◌, ◌⊎◌, ℕ,
  Bool,
}
use mathlib.Core.List.{cons-ne-nil}
use uri.Text.{Text}
use uri.ValidateIpv6Address.Grammar.{hex_char, dec_char}
use uri.ValidateIpv6Address.Reads.{
  Reads, before, behind, gap, a_group, a_quad, done, colon, double_colon, Counts,
}

pub record GroupTail (b : Bool) (n k : ℕ) (s : Text) : Type 0 where
  pub digits : Text
  pub rest : Text
  pub spells : s ≡ digits ++ rest
  pub all_hex : All (λ c. hex_char c ≡ true) digits
  pub at_most_four : k + length digits ≤ 4
  pub later : Reads behind b (n + 1) rest

-- The same for an IPv4 address `t`, of which `k` digits are read.
pub record QuadTail (b : Bool) (n k : ℕ) (t s : Text) : Type 0 where
  pub quad : IsDottedQuad t
  pub digits : Text
  pub rest : Text
  pub spells : s ≡ digits ++ (b'.' ∷ rest)
  pub all_digits : All (λ c. dec_char c ≡ true) digits
  pub at_most_four : k + length digits ≤ 4
  pub counts : Counts b (n + 2)

-- Behind a colon: a group, or a second colon.
abbrev pub BehindColon : Bool → ℕ → Text → Type 0
BehindColon b n s =
    Reads before b n s ⊎ ((b ≡ false) × (r : Text) × (s ≡ b':' ∷ r) × Reads gap true n r)

pub digit-hex : (c : ℕ) → dec_char c ≡ true → hex_char c ≡ true
digit-hex c h = ground arith

pub nil-ne-dot : (first rest : Text) → [] ≢ first ++ (b'.' ∷ rest)
nil-ne-dot [] rest e = cc
nil-ne-dot (c ∷ first) rest e = cc

pub cons-eq : {c x : ℕ} {s t : Text} → c ∷ s ≡ x ∷ t → (c ≡ x) × (s ≡ t)
cons-eq e = (cc, cc)

module _ {b : Bool} {n : ℕ} where
  pub behind-nil : Reads behind b n [] → Counts b n
  behind-nil (done e c) = c
  behind-nil (colon r e d) = cc
  behind-nil (double_colon r f e d) = cc

  pub behind-cons : {c : ℕ} {s : Text} → Reads behind b n (c ∷ s) → (c ≡ b':') × BehindColon b n s
  behind-cons (done e c) = cc
  behind-cons {c} {s} (colon r e d) =
      (ground (arith, e), inl (subst (Reads before b n) (ground (arith, e)) d))
  behind-cons {c} {s} (double_colon r f e d) = (ground (arith, e), inr (f, r, ground (arith, e), d))

  pub cons-behind : {s : Text} → BehindColon b n s → Reads behind b n (b':' ∷ s)
  cons-behind (inl d) = colon _ refl d
  cons-behind (inr (f, r, e, d)) = double_colon r f (ap (◌∷◌ b':') e) d

  pub before-nil : Reads before b n [] → ⊥
  before-nil (a_group [] r e h d) = h.some_digit refl
  before-nil (a_group (c ∷ g) r e h d) = cc
  before-nil (a_quad q c) = nil-ne-dot q.first q.rest q.spells

  -- The first digit of a group.
  pub before-cons :
      {c : ℕ} {s : Text}
      → Reads before b n (c ∷ s)
      → (hex_char c ≡ true) × (GroupTail b n 1 s ⊎ ((dec_char c ≡ true) × QuadTail b n 1 (c ∷ s) s))
  before-cons (a_group [] r e h d) = absurd (h.some_digit refl)
  before-cons {c} {s} (a_group (x ∷ g) r e h d) =
      let (same, e') = cons-eq e in
      (
        rw same h.all_hex.0,
        inl (record {
          digits = g;
          rest = r;
          spells = e';
          all_hex = h.all_hex.1;
          at_most_four = omega (arith, h.at_most_four);
          later = d;
        }),
      )
  before-cons {c} {s} (a_quad q counts) =
      let (is_digit, tail) =
        first_digit q.first q.spells q.some_digit q.all_digits q.at_most_four in
      (digit-hex c is_digit, inr (is_digit, tail))
    where
      first_digit :
          (first : Text)
          → c ∷ s ≡ first ++ (b'.' ∷ q.rest)
          → first ≢ []
          → All (λ c. dec_char c ≡ true) first
          → length first ≤ 4
          → (dec_char c ≡ true) × QuadTail b n 1 (c ∷ s) s
      first_digit [] e ne h l = absurd (ne refl)
      first_digit (x ∷ g) e ne (h, hs) l =
          let (same, e') = cons-eq e in
          (
            rw same h,
            record {
              quad = q.quad;
              digits = g;
              rest = q.rest;
              spells = e';
              all_digits = hs;
              at_most_four = omega (arith, l);
              counts = counts;
            },
          )

  pub group-before :
      {c : ℕ} {s : Text} → hex_char c ≡ true → GroupTail b n 1 s → Reads before b n (c ∷ s)
  group-before {c} {s} h g =
      a_group (c ∷ g.digits) g.rest (ap (◌∷◌ c) g.spells)
        (record {
          all_hex = (h, g.all_hex);
          some_digit = cons-ne-nil c g.digits;
          at_most_four = omega (arith, g.at_most_four);
        })
        g.later

  pub quad-before :
      {c : ℕ} {s : Text} → dec_char c ≡ true → QuadTail b n 1 (c ∷ s) s → Reads before b n (c ∷ s)
  quad-before {c} {s} h q =
      a_quad
        (record {
          quad = q.quad;
          first = c ∷ q.digits;
          rest = q.rest;
          spells = ap (◌∷◌ c) q.spells;
          all_digits = (h, q.all_digits);
          some_digit = cons-ne-nil c q.digits;
          at_most_four = omega (arith, q.at_most_four);
        })
        q.counts
