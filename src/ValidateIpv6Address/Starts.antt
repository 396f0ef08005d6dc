-- ===== src/ValidateIpv6Address/Starts.antt =====
-- src/validate_ipv6_address.rs: the steps of the machine outside a group.
use mathlib.Core.Path.{ap₂}
use mathlib.Core.Path.{subst}
use uri.CharacterClasses.{hexdig, digit}
use uri.Prelude.{
  ltb, ◌∙◌, inr, ==_iff, ap, sym, inl, ◌==◌, refl, Bool, Bool-cases, arith, ◌+◌, ◌↔◌, ◌⊎◌, true,
  ◌∷◌, ◌≡◌, ℕ, drop, false,
}
use uri.Text.{Text}
use uri.ValidateIpv6Address.{
  Shared, next, no_groups_yet, colon_but_no_groups_yet, after_double_colon, colon_after_group,
}
use uri.ValidateIpv6Address.Reads.{gap_group, gap_done, Reads, before, gap}
use uri.ValidateIpv6Address.Tails.{
  quad-before, digit-hex, group-before, before-cons, cons-eq, GroupTail, QuadTail,
}
use uri.ValidateIpv6Address.Machine.{
  Rest, Inv, After, digit_lem, hexdig_lem, not-hexdig-hex, colon-before, iff_trans, left_only,
}

-- At the first digit of a group, by the kind of the digit.
module _ {b : Bool} {n : ℕ} (c : ℕ) (s : Text) where
  begin_digit :
      (k : ℕ) (t : Text)
      → k ≡ 1
      → t ≡ c ∷ s
      → digit c ≡ true
      → Reads before b n (c ∷ s) ↔ (GroupTail b n k s ⊎ QuadTail b n k t s)
  begin_digit k t one whole h =
      let dec = sym (digit_lem c) ∙ h in
      rw (one, whole)
        (
          λ d. elim (before-cons d).1 [ inl g ↦ inl g | inr (e, q) ↦ inr q ],
          λ d. elim d [ inl g ↦ group-before (digit-hex c dec) g | inr q ↦ quad-before dec q ],
        )

  begin_hex :
      (k : ℕ)
      → k ≡ 1
      → digit c ≡ false
      → hexdig c ≡ true
      → Reads before b n (c ∷ s) ↔ GroupTail b n k s
  begin_hex k one no_digit h = rw one (
    λ d. elim (before-cons d).1 [ inl g ↦ g | inr (e, q) ↦ absurd (cc (digit_lem c, e, no_digit)) ],
    group-before (sym (hexdig_lem c) ∙ h),
  )

  begin_none : hexdig c ≡ false → Reads before b n (c ∷ s) → ⊥
  begin_none h d = not-hexdig-hex c h (before-cons d).0

  gap_before : b ≡ true → Reads gap true n (c ∷ s) ↔ Reads before b n (c ∷ s)
  gap_before e = rw e (λ d. go d, gap_group)
    where
      go : {b' : Bool} → Reads gap b' n (c ∷ s) → Reads before true n (c ∷ s)
      go (gap_done z h) = cc
      go (gap_group d) = d

module _ (sh : Shared) (i c : ℕ) (s : Text) where
  pub colon_but_no_groups_yet-Rest :
      Rest (colon_but_no_groups_yet sh) (c ∷ s) ↔ After (next (colon_but_no_groups_yet sh) i c) s
  unfolding next
  colon_but_no_groups_yet-Rest = elim (Bool-cases (c == b':')) [
    | inl e ↦ rw e (
      λ (r, q, d). subst (Reads gap true sh.num_groups) (sym (cons-eq q).1) d,
      λ d. (s, ap (λ x. x ∷ s) ((==_iff c b':').0 e), d),
    )
    | inr e ↦ rw e (λ (r, q, d). cc (e, (==_iff c b':').1 (cons-eq q).0), λ h. absurd h)
  ]

  pub after_double_colon-Rest :
      Inv i (after_double_colon sh) (c ∷ s)
      → Rest (after_double_colon sh) (c ∷ s) ↔ After (next (after_double_colon sh) i c) s
  unfolding next
  after_double_colon-Rest v =
      let one : sh.num_digits + 1 ≡ 1 = omega (arith, v.counters.0) in
      let fits : ltb 4 (sh.num_digits + 1) ≡ false = ground (arith, v.counters.0) in
      let group =
        gap_before {b = sh.double_colon_encountered} {n = sh.num_groups} c s v.counters.1 in
      elim (Bool-cases (digit c)) [
        | inl d ↦
            rw (fits, d)
              (iff_trans group
                (begin_digit c s (sh.num_digits + 1) (drop i sh.address) one v.left d))
        | inr d ↦ elim (Bool-cases (hexdig c)) [
          | inl h ↦ rw (fits, d, h) (iff_trans group (begin_hex c s (sh.num_digits + 1) one d h))
          | inr h ↦ rw (fits, d, h) (λ r. begin_none c s h (group.0 r), λ z. absurd z)
        ]
      ]

  pub no_groups_yet-Rest :
      Inv i (no_groups_yet sh) (c ∷ s)
      → Rest (no_groups_yet sh) (c ∷ s) ↔ After (next (no_groups_yet sh) i c) s
  unfolding next
  no_groups_yet-Rest v = elim (Bool-cases (c == b':')) [
    | inl e ↦ rw e (
      λ r. elim r [
        | inl d ↦ absurd (colon-before c e (before-cons d).0)
        | inr (r, q, d) ↦ (r, (cons-eq q).1, d)
      ],
      λ (r, q, d). inr (r, ap₂ ◌∷◌ ((==_iff c b':').0 e) q, d),
    )
    | inr e ↦
        let no_gap : (r : Text) × (c ∷ s ≡ b':' ∷ b':' ∷ r) × Reads gap true sh.num_groups r → ⊥ =
          λ (r, q, d). cc (e, (==_iff c b':').1 (cons-eq q).0) in
        elim (Bool-cases (digit c)) [
          | inl d ↦
              rw (e, d)
                (iff_trans (left_only no_gap) (begin_digit c s 1 (drop i sh.address) refl v.left d))
          | inr d ↦ elim (Bool-cases (hexdig c)) [
            | inl h ↦ rw (e, d, h) (iff_trans (left_only no_gap) (begin_hex c s 1 refl d h))
            | inr h ↦ rw (e, d, h) (λ r. begin_none c s h ((left_only no_gap).0 r), λ z. absurd z)
          ]
        ]
  ]

  pub colon_after_group-Rest :
      Inv i (colon_after_group sh) (c ∷ s)
      → Rest (colon_after_group sh) (c ∷ s) ↔ After (next (colon_after_group sh) i c) s
  unfolding next
  colon_after_group-Rest v = elim (Bool-cases (c == b':')) [
    | inl e ↦ elim (Bool-cases sh.double_colon_encountered) [
      | inl b ↦
          rw (e, b)
            (
              λ r. elim r [ inl d ↦ colon-before c e (before-cons d).0 | inr (f, r, q, d) ↦ cc f ],
              λ z. absurd z,
            )
      | inr b ↦
          rw (e, b)
            (
              λ r. elim r [
                | inl d ↦ absurd (colon-before c e (before-cons d).0)
                | inr (f, r, q, d) ↦ subst (Reads gap true sh.num_groups) (sym (cons-eq q).1) d
              ],
              λ d. inr (refl, s, ap (λ x. x ∷ s) ((==_iff c b':').0 e), d),
            )
    ]
    | inr e ↦
        let one : sh.num_digits + 1 ≡ 1 = omega (arith, v.counters) in
        let no_gap : (sh.double_colon_encountered ≡ false)
              × (r : Text) × (c ∷ s ≡ b':' ∷ r)
              × Reads gap true sh.num_groups r
            → ⊥ =
          λ (f, r, q, d). cc (e, (==_iff c b':').1 (cons-eq q).0) in
        elim (Bool-cases (digit c)) [
          | inl d ↦
              rw (e, d)
                (iff_trans (left_only no_gap)
                  (begin_digit c s (sh.num_digits + 1) (drop i sh.address) one v.left d))
          | inr d ↦ elim (Bool-cases (hexdig c)) [
            | inl h ↦
                rw (e, d, h)
                  (iff_trans (left_only no_gap) (begin_hex c s (sh.num_digits + 1) one d h))
            | inr h ↦ rw (e, d, h) (λ r. begin_none c s h ((left_only no_gap).0 r), λ z. absurd z)
          ]
        ]
  ]
