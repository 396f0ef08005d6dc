-- ===== src/ValidateIpv6Address/Inside.antt =====
-- What may follow inside a group, one character further.
use mathlib.Core.Path.{subst}
use uri.ValidateIpv4Address.Grammar.{IsDottedQuad}
use uri.Prelude.{
  sym, ◌≤◌, length, ◌+◌, ap, All, inr, refl, inl, true, arith, ◌++◌, [], ◌≡◌, ◌∷◌, ◌⊎◌, ℕ, Bool,
}
use uri.Text.{Text}
use uri.ValidateIpv6Address.Grammar.{hex_char, dec_char}
use uri.ValidateIpv6Address.Reads.{Reads, behind, Counts}
use uri.ValidateIpv6Address.Tails.{nil-ne-dot, GroupTail, QuadTail, cons-eq}

-- One character further inside a group.
module _ {b : Bool} {n k : ℕ} where
  pub group-nil : GroupTail b n k [] → Reads behind b (n + 1) []
  group-nil g = go g.digits g.spells g.later
    where
      go :
          (digits : Text) {rest : Text}
          → [] ≡ digits ++ rest
          → Reads behind b (n + 1) rest
          → Reads behind b (n + 1) []
      go [] e d = subst (Reads behind b (n + 1)) (sym e) d
      go (c ∷ digits) e d = cc

  pub group-cons :
      {c : ℕ} {s : Text}
      → GroupTail b n k (c ∷ s)
      → ((hex_char c ≡ true) × (k + 1 ≤ 4) × GroupTail b n (k + 1) s)
        ⊎ Reads behind b (n + 1) (c ∷ s)
  group-cons {c} {s} g = go g.digits g.spells g.all_hex g.at_most_four
    where
      go :
          (digits : Text)
          → c ∷ s ≡ digits ++ g.rest
          → All (λ c. hex_char c ≡ true) digits
          → k + length digits ≤ 4
          → ((hex_char c ≡ true) × (k + 1 ≤ 4) × GroupTail b n (k + 1) s)
            ⊎ Reads behind b (n + 1) (c ∷ s)
      go [] e h l = inr (subst (Reads behind b (n + 1)) (sym e) g.later)
      go (x ∷ digits) e (h, hs) l =
          let (same, e') = cons-eq e in
          inl (
            rw same h,
            omega (arith, l),
            record {
              digits = digits;
              rest = g.rest;
              spells = e';
              all_hex = hs;
              at_most_four = omega (arith, l);
              later = g.later;
            },
          )

  pub behind-group : {s : Text} → k ≤ 4 → Reads behind b (n + 1) s → GroupTail b n k s
  behind-group {s} l d = record {
    digits = [];
    rest = s;
    spells = refl;
    all_hex = tt;
    at_most_four = omega (arith, l);
    later = d;
  }

  pub cons-group :
      {c : ℕ} {s : Text} → hex_char c ≡ true → GroupTail b n (k + 1) s → GroupTail b n k (c ∷ s)
  cons-group {c} h g = record {
    digits = c ∷ g.digits;
    rest = g.rest;
    spells = ap (◌∷◌ c) g.spells;
    all_hex = (h, g.all_hex);
    at_most_four = omega (arith, g.at_most_four);
    later = g.later;
  }

  -- The same in an IPv4 address.
  pub quad-nil : {t : Text} → QuadTail b n k t [] → ⊥
  quad-nil q = nil-ne-dot q.digits q.rest q.spells

  pub quad-cons :
      {c : ℕ} {s t : Text}
      → QuadTail b n k t (c ∷ s)
      → ((dec_char c ≡ true) × (k + 1 ≤ 4) × QuadTail b n (k + 1) t s)
        ⊎ ((c ≡ b'.') × IsDottedQuad t × Counts b (n + 2))
  quad-cons {c} {s} {t} q = go q.digits q.spells q.all_digits q.at_most_four
    where
      go :
          (digits : Text)
          → c ∷ s ≡ digits ++ (b'.' ∷ q.rest)
          → All (λ c. dec_char c ≡ true) digits
          → k + length digits ≤ 4
          → ((dec_char c ≡ true) × (k + 1 ≤ 4) × QuadTail b n (k + 1) t s)
            ⊎ ((c ≡ b'.') × IsDottedQuad t × Counts b (n + 2))
      go [] e h l = inr ((cons-eq e).0, q.quad, q.counts)
      go (x ∷ digits) e (h, hs) l =
          let (same, e') = cons-eq e in
          inl (
            rw same h,
            omega (arith, l),
            record {
              quad = q.quad;
              digits = digits;
              rest = q.rest;
              spells = e';
              all_digits = hs;
              at_most_four = omega (arith, l);
              counts = q.counts;
            },
          )

  pub dot-quad :
      {s t : Text} → k ≤ 4 → IsDottedQuad t → Counts b (n + 2) → QuadTail b n k t (b'.' ∷ s)
  dot-quad {s} l q c = record {
    quad = q;
    digits = [];
    rest = s;
    spells = refl;
    all_digits = tt;
    at_most_four = omega (arith, l);
    counts = c;
  }

  pub cons-quad :
      {c : ℕ} {s t : Text} → dec_char c ≡ true → QuadTail b n (k + 1) t s → QuadTail b n k t (c ∷ s)
  cons-quad {c} h q = record {
    quad = q.quad;
    digits = c ∷ q.digits;
    rest = q.rest;
    spells = ap (◌∷◌ c) q.spells;
    all_digits = (h, q.all_digits);
    at_most_four = omega (arith, q.at_most_four);
    counts = q.counts;
  }
