-- ===== src/ValidateIpv6Address/Bounds.antt =====
-- src/validate_ipv6_address.rs: the counters and the position that the machine keeps.
use uri.Error.Ensures.{Ensures}
use uri.ValidateIpv6Address.Loop.{shared}
use uri.Error.{panic, err, ok, Error, Result}
use uri.Text.{Text}
use uri.Prelude.{suc, ◌≡◌, ◌*◌, ◌+◌, ◌≤◌, ℕ}
use uri.ValidateIpv6Address.{
  colon_after_group, in_group_ipv4, in_group_could_be_ipv4, in_group_not_ipv4, ipv4_trailer,
  after_double_colon, colon_but_no_groups_yet, MachineExitStatus, no_groups_yet, State, Shared,
  error,
}

-- In front of position `i`: a group has one to four digits, and a counted group took a digit and a
-- colon at least.
abbrev InBounds : ℕ → State → Type 0
InBounds i (no_groups_yet sh) =
    (sh.num_digits ≡ 0) × (sh.num_groups ≡ 0) × (sh.potential_ipv4_address_start ≡ 0)
InBounds i (colon_but_no_groups_yet sh) =
    (sh.num_digits ≡ 0) × (sh.num_groups ≡ 0) × (sh.potential_ipv4_address_start ≡ 0)
InBounds i (after_double_colon sh) =
    (sh.num_digits ≡ 0) × (sh.num_groups * 2 ≤ i) × (sh.potential_ipv4_address_start ≤ i)
InBounds i (in_group_not_ipv4 sh) =
    (sh.num_digits ≤ 4)
    × (1 ≤ sh.num_digits)
    × (sh.num_groups * 2 + sh.num_digits ≤ i)
    × (sh.potential_ipv4_address_start ≤ i)
InBounds i (in_group_could_be_ipv4 sh) =
    (sh.num_digits ≤ 4)
    × (1 ≤ sh.num_digits)
    × (sh.num_groups * 2 + sh.num_digits ≤ i)
    × (sh.potential_ipv4_address_start + sh.num_digits ≡ i)
InBounds i (in_group_ipv4 sh) = ⊥
InBounds i (colon_after_group sh) =
    (sh.num_digits ≡ 0) × (sh.num_groups * 2 ≤ i) × (sh.potential_ipv4_address_start ≤ i)

-- What a step keeps, and what holds where an IPv4 address is found.
abbrev StepBounds : Shared → ℕ → Result MachineExitStatus State → Type 0
StepBounds sh i (ok st) = InBounds (suc i) st × ((shared st).address ≡ sh.address)
StepBounds sh i (err (ipv4_trailer sh')) =
    InBounds i (in_group_could_be_ipv4 sh') × (sh'.address ≡ sh.address)
StepBounds sh i (err (error e)) = Unit
StepBounds sh i panic = ⊥

-- The counters behind the loop over a text of length `n`: a group has four digits at most, the groups
-- take two characters each at least, and the IPv4 address begins inside the text.
pub record IsBounded (n : ℕ) (sh : Shared) : Type 0 where
  pub digits : sh.num_digits ≤ 4
  pub groups : sh.num_groups * 2 ≤ n
  pub start : sh.potential_ipv4_address_start ≤ n

abbrev RunBounds : ℕ → Text → Result Error State → Type 0
RunBounds n whole = Ensures (λ st. IsBounded n (shared st) × ((shared st).address ≡ whole))
