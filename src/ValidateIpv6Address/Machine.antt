-- ===== src/ValidateIpv6Address/Machine.antt =====
-- src/validate_ipv6_address.rs: the machine, state by state, against what may follow in an address.
use uri.CharacterClasses.{hexdig, digit}
use uri.ValidateIpv4Address.Grammar.{IsDottedQuad}
use uri.Prelude.{
  ◌∙◌, ◌≢◌, inr, ap, inl, ◌==◌, refl, [], zero, arith, ◌+◌, suc, ◌↔◌, ◌≤◌, ◌⊎◌, true, ◌∷◌, ◌≡◌, ℕ,
  drop, false,
}
use uri.ValidateIpv6Address.Loop.{shared}
use uri.Text.{Text}
use uri.ValidateIpv6Address.{
  State, Shared, next, error, ipv4_trailer, no_groups_yet, colon_but_no_groups_yet,
  after_double_colon, in_group_not_ipv4, in_group_could_be_ipv4, in_group_ipv4, colon_after_group,
  MachineExitStatus,
}
use uri.ValidateIpv6Address.Grammar.{hex_char, dec_char}
use uri.ValidateIpv6Address.Reads.{Reads, before, gap, Counts}
use uri.ValidateIpv6Address.Tails.{GroupTail, QuadTail, BehindColon}
use uri.Error.{Result, ok, err, panic}

-- The address from where an IPv4 address may begin.
abbrev pub candidate : Shared → Text
candidate sh = drop sh.potential_ipv4_address_start sh.address

-- What may follow in each state.
abbrev pub Rest : State → Text → Type 0
Rest (no_groups_yet sh) s =
    Reads before sh.double_colon_encountered sh.num_groups s
    ⊎ ((r : Text) × (s ≡ b':' ∷ b':' ∷ r) × Reads gap true sh.num_groups r)
Rest (colon_but_no_groups_yet sh) s = (r : Text) × (s ≡ b':' ∷ r) × Reads gap true sh.num_groups r
Rest (after_double_colon sh) s = Reads gap true sh.num_groups s
Rest (in_group_not_ipv4 sh) s = GroupTail sh.double_colon_encountered sh.num_groups sh.num_digits s
Rest (in_group_could_be_ipv4 sh) s =
    GroupTail sh.double_colon_encountered sh.num_groups sh.num_digits s
    ⊎ QuadTail sh.double_colon_encountered sh.num_groups sh.num_digits (candidate sh) s
Rest (in_group_ipv4 sh) s =
    IsDottedQuad (candidate sh) × Counts sh.double_colon_encountered (sh.num_groups + 2)
Rest (colon_after_group sh) s = BehindColon sh.double_colon_encountered sh.num_groups s

abbrev pub Counters : State → Type 0
Counters (no_groups_yet sh) =
    (sh.num_groups ≡ 0) × (sh.double_colon_encountered ≡ false) × (sh.num_digits ≡ 0)
Counters (colon_but_no_groups_yet sh) = (sh.num_groups ≡ 0) × (sh.num_digits ≡ 0)
Counters (after_double_colon sh) = (sh.num_digits ≡ 0) × (sh.double_colon_encountered ≡ true)
Counters (in_group_not_ipv4 sh) = sh.num_digits ≤ 4
Counters (in_group_could_be_ipv4 sh) = sh.num_digits ≤ 4
Counters (in_group_ipv4 sh) = ⊥
Counters (colon_after_group sh) = sh.num_digits ≡ 0

-- What holds of the counters in each state, and of the address that is left.
pub record Inv (i : ℕ) (st : State) (s : Text) : Type 0 where
  pub left : drop i (shared st).address ≡ s
  pub counters : Counters st

drop-suc : (i : ℕ) (a : Text) {c : ℕ} {s : Text} → drop i a ≡ c ∷ s → drop (suc i) a ≡ s
drop-suc zero [] e = cc
drop-suc zero (x ∷ a) e = cc
drop-suc (suc i) [] e = cc
drop-suc (suc i) (x ∷ a) e = drop-suc i a e

next-address :
    (st : State) (i c : ℕ) {st' : State}
    → next st i c ≡ ok st'
    → (shared st').address ≡ (shared st).address
unfolding next
next-address (no_groups_yet sh) i c e = ground arith
next-address _ i c e = ground arith

next-Counters :
    (st : State) (i c : ℕ) {st' : State} → Counters st → next st i c ≡ ok st' → Counters st'
unfolding next
next-Counters (no_groups_yet sh) i c v e = ground arith
next-Counters (colon_but_no_groups_yet sh) i c v e = ground arith
next-Counters (after_double_colon sh) i c v e = ground arith
next-Counters (in_group_not_ipv4 sh) i c v e = ground arith
next-Counters (in_group_could_be_ipv4 sh) i c v e = ground arith
next-Counters (in_group_ipv4 sh) i c v e = absurd v
next-Counters (colon_after_group sh) i c v e = ground arith

-- A step keeps that.
pub next-Inv :
    (i c : ℕ) (st : State) (s : Text) {st' : State}
    → Inv i st (c ∷ s)
    → next st i c ≡ ok st'
    → Inv (suc i) st' s
next-Inv i c st s v e = record {
  left = ap (drop (suc i)) (next-address st i c e) ∙ drop-suc i (shared st).address v.left;
  counters = next-Counters st i c v.counters e;
}

-- What has to follow behind one character.
abbrev pub After : Result MachineExitStatus State → Text → Type 0
After (ok st) s = Rest st s
After (err (ipv4_trailer sh)) s = Rest (in_group_ipv4 sh) s
After (err (error e)) s = ⊥
After panic s = ⊥

pub digit_lem : (c : ℕ) → digit c ≡ dec_char c
unfolding digit
digit_lem c = refl

pub hexdig_lem : (c : ℕ) → hexdig c ≡ hex_char c
unfolding hexdig digit
hexdig_lem c = refl

pub hex-ne-colon : (c : ℕ) → hexdig c ≡ true → (c == b':') ≡ false
unfolding hexdig
hex-ne-colon c h = ground arith

pub digit-ne-dot : (c : ℕ) → digit c ≡ true → (c == b'.') ≡ false
unfolding digit
digit-ne-dot c h = ground arith

pub not-hexdig-hex : (c : ℕ) → hexdig c ≡ false → hex_char c ≢ true
not-hexdig-hex c h e = cc (hexdig_lem c)

-- At a colon no group begins.
pub colon-before : (c : ℕ) → (c == b':') ≡ true → hex_char c ≢ true
colon-before c h e = ground arith

abbrev pub iff_trans : {A B C : Type 0} → A ↔ B → B ↔ C → A ↔ C
iff_trans f g = (λ a. g.0 (f.0 a), λ c. f.1 (g.1 c))

abbrev pub left_only : {A B : Type 0} → (B → ⊥) → (A ⊎ B) ↔ A
left_only f = (λ d. elim d [ inl a ↦ a | inr b ↦ absurd (f b) ], inl)
