-- ===== src/ValidateIpv6Address/InGroup.antt =====
-- src/validate_ipv6_address.rs: the two states inside a group, against what may follow in an address.
use uri.ValidateIpv6Address.Grammar.{dec_char, hex_char}
use uri.CharacterClasses.{digit, hexdig}
use uri.ValidateIpv6Address.Machine.{
  hexdig_lem, left_only, candidate, iff_trans, digit_lem, not-hexdig-hex, colon-before, After, Inv,
  Rest,
}
use uri.Prelude.{
  ltb, arith, ◌∙◌, ◌≢◌, inr, Bool-cases, sym, ==_iff, inl, ◌≤◌, false, ◌↔◌, true, ◌≡◌, ◌∷◌, ◌+◌,
  ◌==◌, ℕ, Bool,
}
use uri.Text.{Text}
use uri.ValidateIpv6Address.{in_group_ipv4, Shared, next, in_group_not_ipv4, in_group_could_be_ipv4}
use uri.ValidateIpv6Address.Tails.{
  cons-behind, digit-hex, behind-cons, GroupTail, QuadTail, BehindColon,
}
use uri.ValidateIpv6Address.Inside.{
  cons-quad, cons-group, dot-quad, behind-group, group-cons, quad-cons,
}

dot-not-hex : (c : ℕ) → (c == b'.') ≡ true → hex_char c ≢ true
dot-not-hex c d h = ground arith

module _ {b : Bool} {n k : ℕ} {c : ℕ} {s : Text} where
  -- A digit, where the group does not end.
  group_step :
      (c == b':') ≡ false
      → GroupTail b n k (c ∷ s)
      → (hex_char c ≡ true) × (k + 1 ≤ 4) × GroupTail b n (k + 1) s
  group_step e g = elim (group-cons g) [
    | inl r ↦ r
    | inr d ↦ cc (e, (==_iff c b':').1 (behind-cons d).0)
  ]

  quad_step :
      {t : Text}
      → (c == b'.') ≡ false
      → QuadTail b n k t (c ∷ s)
      → (dec_char c ≡ true) × (k + 1 ≤ 4) × QuadTail b n (k + 1) t s
  quad_step e q = elim (quad-cons q) [ inl r ↦ r | inr (d, _, _) ↦ cc (e, (==_iff c b'.').1 d) ]

  -- The colon behind a group.
  group_colon : (c == b':') ≡ true → k ≤ 4 → GroupTail b n k (c ∷ s) ↔ BehindColon b (n + 1) s
  group_colon e l =
      let same : c ≡ b':' = (==_iff c b':').0 e in
      (
        λ g. elim (group-cons g) [
          | inl r ↦ absurd (colon-before c e r.0)
          | inr d ↦ (behind-cons d).1
        ],
        λ d. rw same (behind-group l (cons-behind d)),
      )

  no_quad_colon : {t : Text} → (c == b':') ≡ true → QuadTail b n k t (c ∷ s) → ⊥
  no_quad_colon e q = elim (quad-cons q) [
    | inl r ↦ colon-before c e (digit-hex c r.0)
    | inr (d, _, _) ↦ ground arith
  ]

module _ (sh : Shared) (i c : ℕ) (s : Text) where
  pub in_group_not_ipv4-Rest :
      Inv i (in_group_not_ipv4 sh) (c ∷ s)
      → Rest (in_group_not_ipv4 sh) (c ∷ s) ↔ After (next (in_group_not_ipv4 sh) i c) s
  unfolding next
  in_group_not_ipv4-Rest v = elim (Bool-cases (c == b':')) [
    | inl e ↦ rw e (group_colon e v.counters)
    | inr e ↦ elim (Bool-cases (hexdig c)) [
      | inl h ↦ elim (Bool-cases (ltb 4 (sh.num_digits + 1))) [
        | inl l ↦ rw (e, h, l) (λ g. ground (arith, l, (group_step e g).1), λ z. absurd z)
        | inr l ↦ rw (e, h, l) (λ g. (group_step e g).2, cons-group (sym (hexdig_lem c) ∙ h))
      ]
      | inr h ↦ rw (e, h) (λ g. not-hexdig-hex c h (group_step e g).0, λ z. absurd z)
    ]
  ]

  -- Inside a group of decimal digits alone, which may begin an IPv4 address.
  abbrev Now : Type 0
  Now = Rest (in_group_could_be_ipv4 sh) (c ∷ s)

  abbrev further : Shared
  further = record sh { num_digits = sh.num_digits + 1 }

  at_dot :
      (c == b':') ≡ false → (c == b'.') ≡ true → sh.num_digits ≤ 4 → Now ↔ Rest (in_group_ipv4 sh) s
  at_dot e d l =
      let same : c ≡ b'.' = (==_iff c b'.').0 d in
      (
        λ r. elim r [
          | inl g ↦ absurd (dot-not-hex c d (group_step e g).0)
          | inr q ↦ elim (quad-cons q) [
            | inl (g, _, _) ↦ absurd (dot-not-hex c d (digit-hex c g))
            | inr (m, quad, counts) ↦ (quad, counts)
          ]
        ],
        λ (quad, counts). inr (rw same (dot-quad l quad counts)),
      )

  at_digit :
      (c == b':') ≡ false
      → (c == b'.') ≡ false
      → digit c ≡ true
      → Now ↔ Rest (in_group_could_be_ipv4 further) s
  at_digit e d g =
      let dec = sym (digit_lem c) ∙ g in
      (
        λ r. elim r [ inl t ↦ inl (group_step e t).2 | inr q ↦ inr (quad_step d q).2 ],
        λ r. elim r [
          | inl t ↦ inl (cons-group (digit-hex c dec) t)
          | inr q ↦ inr (cons-quad dec q)
        ],
      )

  no_digit-quad :
      (c == b'.') ≡ false
      → digit c ≡ false
      → (t : Text) → QuadTail sh.double_colon_encountered sh.num_groups sh.num_digits t (c ∷ s)
      → ⊥
  no_digit-quad d g t q = cc (digit_lem c, g, (quad_step d q).0)

  at_hex :
      (c == b':') ≡ false
      → (c == b'.') ≡ false
      → digit c ≡ false
      → hexdig c ≡ true
      → Now ↔ Rest (in_group_not_ipv4 further) s
  at_hex e d g h = (
    λ r. elim r [
      | inl t ↦ (group_step e t).2
      | inr q ↦ absurd (no_digit-quad d g (candidate sh) q)
    ],
    λ t. inl (cons-group (sym (hexdig_lem c) ∙ h) t),
  )

  at_other : (c == b':') ≡ false → (c == b'.') ≡ false → hexdig c ≡ false → Now → ⊥
  at_other e d h (inl g) = not-hexdig-hex c h (group_step e g).0
  at_other e d h (inr q) = not-hexdig-hex c h (digit-hex c (quad_step d q).0)

  pub in_group_could_be_ipv4-Rest :
      Inv i (in_group_could_be_ipv4 sh) (c ∷ s)
      → Rest (in_group_could_be_ipv4 sh) (c ∷ s) ↔ After (next (in_group_could_be_ipv4 sh) i c) s
  unfolding next
  in_group_could_be_ipv4-Rest v = elim (Bool-cases (c == b':')) [
    | inl e ↦ rw e (iff_trans (left_only (no_quad_colon e)) (group_colon e v.counters))
    | inr e ↦ elim (Bool-cases (c == b'.')) [
      | inl d ↦ rw (e, d) (at_dot e d v.counters)
      | inr d ↦ elim (Bool-cases (ltb 4 (sh.num_digits + 1))) [
        | inl l ↦
            rw (e, d, l)
              (
                λ r. elim r [
                  | inl g ↦ ground (arith, l, (group_step e g).1)
                  | inr q ↦ ground (arith, l, (quad_step d q).1)
                ],
                λ z. absurd z,
              )
        | inr l ↦ elim (Bool-cases (digit c)) [
          | inl g ↦ rw (e, d, l, g) (at_digit e d g)
          | inr g ↦ elim (Bool-cases (hexdig c)) [
            | inl h ↦ rw (e, d, l, g, h) (at_hex e d g h)
            | inr h ↦ rw (e, d, l, g, h) (λ r. at_other e d h r, λ z. absurd z)
          ]
        ]
      ]
    ]
  ]
