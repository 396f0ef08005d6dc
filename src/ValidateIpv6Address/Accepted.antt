-- ===== src/ValidateIpv6Address/Accepted.antt =====
-- src/validate_ipv6_address.rs: which texts are accepted.
use uri.ValidateIpv4Address.{validate_ipv4_address}
use mathlib.Core.Path.{subst}
use uri.ValidateIpv4Address.Grammar.{validate_ipv4_address-IsDottedQuad}
use uri.ValidateIpv6Address.InGroup.{in_group_could_be_ipv4-Rest, in_group_not_ipv4-Rest}
use uri.ValidateIpv6Address.Grammar.{IsIpv6Address}
use uri.ValidateIpv6Address.Machine.{candidate, next-Inv, After, iff_trans, Rest, Inv}
use uri.ValidateIpv6Address.Starts.{
  colon_after_group-Rest, after_double_colon-Rest, colon_but_no_groups_yet-Rest, no_groups_yet-Rest,
}
use uri.ValidateIpv6Address.Tails.{behind-nil, before-nil, BehindColon}
use uri.ValidateIpv6Address.Inside.{quad-nil, group-nil, behind-group}
use uri.Prelude.{◌+◌, sym, refl, inr, false, true, suc, ◌∷◌, inl, ◌≤◌, arith, [], ◌↔◌, Bool, ℕ, ◌≡◌}
use uri.Text.{Text}
use uri.ValidateIpv6Address.Cut.{cut_run, cut_finalize}
use uri.ValidateIpv6Address.Slices.{validate_ipv6_address-cut}
use uri.ValidateIpv6Address.{
  State, Shared, next, recover, new, validate_ipv6_address, check_groups, error, ipv4_trailer,
  no_groups_yet, colon_but_no_groups_yet, after_double_colon, in_group_not_ipv4,
  in_group_could_be_ipv4, in_group_ipv4, colon_after_group, MachineExitStatus,
}
use uri.ValidateIpv6Address.Reads.{
  Reads-IsIpv6Address, IsIpv6Address-Reads, Reads, gap, Counts, gap_done, gap_group, done,
}
use uri.Error.{bind-eq-ok, ◌>>=◌, Result, ok, err, panic}

check_groups-Counts : (b : Bool) (n : ℕ) → (check_groups b n ≡ ok tt) ↔ Counts b n
unfolding check_groups
check_groups-Counts true n = (λ h. ground arith, λ h. ground arith)
check_groups-Counts false n = (λ h. ground arith, λ h. ground arith)

next-Rest :
    (st : State) (i c : ℕ) (s : Text) → Inv i st (c ∷ s) → Rest st (c ∷ s) ↔ After (next st i c) s
next-Rest (no_groups_yet sh) i c s v = no_groups_yet-Rest sh i c s v
next-Rest (colon_but_no_groups_yet sh) i c s v = colon_but_no_groups_yet-Rest sh i c s
next-Rest (after_double_colon sh) i c s v = after_double_colon-Rest sh i c s v
next-Rest (in_group_not_ipv4 sh) i c s v = in_group_not_ipv4-Rest sh i c s v
next-Rest (in_group_could_be_ipv4 sh) i c s v = in_group_could_be_ipv4-Rest sh i c s v
next-Rest (in_group_ipv4 sh) i c s v = absurd v.counters
next-Rest (colon_after_group sh) i c s v = colon_after_group-Rest sh i c s v

gap-nil : {b : Bool} {n : ℕ} → Reads gap b n [] → n ≤ 7
gap-nil (gap_done e c) = c
gap-nil (gap_group d) = absurd (before-nil d)

BehindColon-nil : {b : Bool} {n : ℕ} → BehindColon b n [] → ⊥
BehindColon-nil (inl d) = before-nil d
BehindColon-nil (inr (f, r, e, d)) = cc

no_groups-Counts : (b : Bool) (n : ℕ) → n ≡ 0 → b ≡ false → Counts b n → ⊥
no_groups-Counts true n z f c = cc
no_groups-Counts false n z f c = omega arith

-- At the end of the text.
cut_finalize-Rest : (st : State) (i : ℕ) → Inv i st [] → (cut_finalize st ≡ ok tt) ↔ Rest st []
unfolding cut_finalize
cut_finalize-Rest (no_groups_yet sh) i v =
    let counted = check_groups-Counts sh.double_colon_encountered sh.num_groups in
    (
      λ h. absurd (no_groups-Counts _ _ v.counters.0 v.counters.1 (counted.0 h)),
      λ r. elim r [ inl d ↦ absurd (before-nil d) | inr (t, e, d) ↦ cc ],
    )
cut_finalize-Rest (colon_but_no_groups_yet sh) i v = (λ e. cc, λ (r, q, d). cc)
cut_finalize-Rest (after_double_colon sh) i v =
    let seen = v.counters.1 in
    iff_trans (check_groups-Counts sh.double_colon_encountered sh.num_groups) (
      λ c. gap_done refl (subst (λ b. Counts b sh.num_groups) seen c),
      λ r. subst (λ b. Counts b sh.num_groups) (sym seen) (gap-nil r),
    )
cut_finalize-Rest (in_group_not_ipv4 sh) i v =
    iff_trans (check_groups-Counts _ _)
      (λ c. behind-group v.counters (done refl c), λ g. behind-nil (group-nil g))
cut_finalize-Rest (in_group_could_be_ipv4 sh) i v = iff_trans (check_groups-Counts _ _) (
  λ c. inl (behind-group v.counters (done refl c)),
  λ r. elim r [ inl g ↦ behind-nil (group-nil g) | inr q ↦ absurd (quad-nil q) ],
)
cut_finalize-Rest (in_group_ipv4 sh) i v = absurd v.counters
cut_finalize-Rest (colon_after_group sh) i v = (λ e. cc, λ d. absurd (BehindColon-nil d))

finalize_quad :
    (sh : Shared) (s : Text) → (cut_finalize (in_group_ipv4 sh) ≡ ok tt) ↔ Rest (in_group_ipv4 sh) s
unfolding cut_finalize
finalize_quad sh s =
    let valid = validate_ipv4_address-IsDottedQuad (candidate sh) in
    let counted = check_groups-Counts sh.double_colon_encountered (sh.num_groups + 2) in
    (
      λ h.
          let (u, first, second) = bind-eq-ok (validate_ipv4_address (candidate sh)) _ h in
          (valid.0 first, counted.0 second),
      λ (quad, counts). rw (valid.1 quad) (counted.1 counts),
    )

-- From any state, on any text that is left of the address.
cut_run-Rest :
    (s : Text) (st : State) (i : ℕ)
    → Inv i st s
    → ((recover (cut_run st i s) >>= cut_finalize) ≡ ok tt) ↔ Rest st s
unfolding cut_run
cut_run-Rest [] st i v = cut_finalize-Rest st i v
cut_run-Rest (c ∷ s) st i v =
    iff_trans (go (next st i c) refl (λ st'. cut_run-Rest s st' (suc i)))
      ((next-Rest st i c s v).1, (next-Rest st i c s v).0)
  where
    go :
        (r : Result MachineExitStatus State)
        → next st i c ≡ r
        → ((st' : State)
            → Inv (suc i) st' s
            → ((recover (cut_run st' (suc i) s) >>= cut_finalize) ≡ ok tt) ↔ Rest st' s)
        → ((recover (r >>= λ st'. cut_run st' (suc i) s) >>= cut_finalize) ≡ ok tt) ↔ After r s
    go (ok st') e ih = ih st' (next-Inv i c st s v e)
    go (err (error x)) e ih = (λ h. cc, λ h. absurd h)
    go (err (ipv4_trailer sh)) e ih = finalize_quad sh s
    go panic e ih = (λ h. cc, λ h. absurd h)

-- A text is accepted exactly if it is an IPv6 address: eight groups of one to four hexadecimal digits
-- with a colon between two of them, where an IPv4 address may stand for the last two, or the same with
-- a double colon, on whose two sides stand at most seven groups, none among them.
pub validate_ipv6_address-IsIpv6Address :
    (s : Text) → (validate_ipv6_address s ≡ ok tt) ↔ IsIpv6Address s
validate_ipv6_address-IsIpv6Address s = rw (validate_ipv6_address-cut s) (
    iff_trans (cut_run-Rest s (new s) 0 (record { left = refl; counters = (refl, refl, refl) }))
      (IsIpv6Address-Reads s, Reads-IsIpv6Address s))
