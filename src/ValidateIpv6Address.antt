-- ===== src/ValidateIpv6Address.antt =====
-- src/validate_ipv6_address.rs: the machine that reads an IPv6 address.
pub mod Cut
pub mod Loop
pub mod Slices
pub mod Characters
pub mod Grammar
pub mod Reads
pub mod Tails
pub mod Inside
pub mod Machine
pub mod Starts
pub mod InGroup
pub mod Accepted
pub mod Bounds
use uri.Prelude.{ℕ, ◌+◌, [], ◌∷◌, ◌==◌, ltb, leb, if◌then◌else◌, Bool, true, false}
use uri.Text.{Text}
use uri.Text.Str.{len_utf8, slice_from}
use uri.Error.{
  Context, Error, illegal_character, truncated_host, too_few_address_parts, too_many_address_parts,
  too_many_digits, too_many_double_colons, Result, ok, err, panic, ◌>>=◌, ◌>>◌,
}
use uri.CharacterClasses.{digit, hexdig}
use uri.ValidateIpv4Address.{validate_ipv4_address}

pub record Shared : Type 0 where
  pub address : Text
  pub num_groups : ℕ
  pub num_digits : ℕ
  pub double_colon_encountered : Bool
  pub potential_ipv4_address_start : ℕ

pub data MachineExitStatus : Type 0 where
  error : Error → MachineExitStatus
  ipv4_trailer : Shared → MachineExitStatus

pub data State : Type 0 where
  no_groups_yet : Shared → State
  colon_but_no_groups_yet : Shared → State
  after_double_colon : Shared → State
  in_group_not_ipv4 : Shared → State
  in_group_could_be_ipv4 : Shared → State
  in_group_ipv4 : Shared → State
  colon_after_group : Shared → State

-- The last `match` of `finalize`.
check_groups : Bool → ℕ → Result Error (Unit {0})
check_groups true n = if leb n 7 then ok tt else err too_many_address_parts
check_groups false n =
    if n == 8
    then ok tt
    else if ltb n 8
    then err too_few_address_parts
    else err too_many_address_parts

unfoldable pub check_shared : Shared → Result Error (Unit {0})
unfolding check_groups
check_shared st = check_groups st.double_colon_encountered st.num_groups

unfoldable pub add_groups : ℕ → Shared → Shared
add_groups n st = record st { num_groups = st.num_groups + n }

unfoldable pub finalize : State → Result Error (Unit {0})
unfolding check_shared add_groups
finalize (no_groups_yet st) = check_shared st
finalize (colon_but_no_groups_yet _) = err truncated_host
finalize (after_double_colon st) = check_shared st
finalize (in_group_not_ipv4 st) = check_shared (add_groups 1 st)
finalize (in_group_could_be_ipv4 st) = check_shared (add_groups 1 st)
finalize (in_group_ipv4 st) =
    (slice_from st.potential_ipv4_address_start st.address >>= λ text. validate_ipv4_address text)
    >> check_shared (add_groups 2 st)
finalize (colon_after_group _) = err truncated_host

abbrev pub new : Text → State
new address = no_groups_yet (record {
  address = address;
  num_groups = 0;
  num_digits = 0;
  double_colon_encountered = false;
  potential_ipv4_address_start = 0;
})

abbrev illegal : Result MachineExitStatus State
illegal = err (error (illegal_character Context.ipv6_address))

next_no_groups_yet : Shared → ℕ → ℕ → Result MachineExitStatus State
next_no_groups_yet st i c =
    if c == b':'
    then ok (colon_but_no_groups_yet st)
    else if digit c
    then ok
        (in_group_could_be_ipv4 (record st { potential_ipv4_address_start = i; num_digits = 1 }))
    else if hexdig c
    then ok (in_group_not_ipv4 (record st { num_digits = 1 }))
    else illegal

next_colon_but_no_groups_yet : Shared → ℕ → Result MachineExitStatus State
next_colon_but_no_groups_yet st c =
    if c == b':'
    then ok (after_double_colon (record st { double_colon_encountered = true }))
    else illegal

next_after_double_colon : Shared → ℕ → ℕ → Result MachineExitStatus State
next_after_double_colon st i c =
    if ltb 4 (st.num_digits + 1)
    then err (error too_many_digits)
    else if digit c
    then ok (
        in_group_could_be_ipv4
          (record st { num_digits = st.num_digits + 1; potential_ipv4_address_start = i }))
    else if hexdig c
    then ok (in_group_not_ipv4 (record st { num_digits = st.num_digits + 1 }))
    else illegal

next_in_group_not_ipv4 : Shared → ℕ → Result MachineExitStatus State
next_in_group_not_ipv4 st c =
    if c == b':'
    then ok (colon_after_group (record st { num_digits = 0; num_groups = st.num_groups + 1 }))
    else if hexdig c
    then (if ltb 4 (st.num_digits + 1)
        then err (error too_many_digits)
        else ok (in_group_not_ipv4 (record st { num_digits = st.num_digits + 1 })))
    else illegal

next_in_group_could_be_ipv4 : Shared → ℕ → Result MachineExitStatus State
next_in_group_could_be_ipv4 st c =
    if c == b':'
    then ok (colon_after_group (record st { num_digits = 0; num_groups = st.num_groups + 1 }))
    else if c == b'.'
    then err (ipv4_trailer st)
    else if ltb 4 (st.num_digits + 1)
    then err (error too_many_digits)
    else if digit c
    then ok (in_group_could_be_ipv4 (record st { num_digits = st.num_digits + 1 }))
    else if hexdig c
    then ok (in_group_not_ipv4 (record st { num_digits = st.num_digits + 1 }))
    else illegal

next_colon_after_group : Shared → ℕ → ℕ → Result MachineExitStatus State
next_colon_after_group st i c =
    if c == b':'
    then (if st.double_colon_encountered
        then err (error too_many_double_colons)
        else ok (after_double_colon (record st { double_colon_encountered = true })))
    else if digit c
    then ok (
        in_group_could_be_ipv4
          (record st { potential_ipv4_address_start = i; num_digits = st.num_digits + 1 }))
    else if hexdig c
    then ok (in_group_not_ipv4 (record st { num_digits = st.num_digits + 1 }))
    else illegal

unfoldable pub next : State → ℕ → ℕ → Result MachineExitStatus State
unfolding next_no_groups_yet next_colon_but_no_groups_yet next_after_double_colon
    next_in_group_not_ipv4 next_in_group_could_be_ipv4 next_colon_after_group
next (no_groups_yet st) i c = next_no_groups_yet st i c
next (colon_but_no_groups_yet st) i c = next_colon_but_no_groups_yet st c
next (after_double_colon st) i c = next_after_double_colon st i c
next (in_group_not_ipv4 st) i c = next_in_group_not_ipv4 st c
next (in_group_could_be_ipv4 st) i c = next_in_group_could_be_ipv4 st c
next (in_group_ipv4 st) i c = ok (in_group_ipv4 st)
next (colon_after_group st) i c = next_colon_after_group st i c

-- `try_fold` over `char_indices`, from position `i`, which counts bytes.
unfoldable pub run : State → ℕ → Text → Result MachineExitStatus State
unfolding next
run st i [] = ok st
run st i (c ∷ s) = next st i c >>= λ st'. run st' (i + len_utf8 c) s

-- The closure of `or_else`.
abbrev pub recover : Result MachineExitStatus State → Result Error State
recover (ok st) = ok st
recover (err (ipv4_trailer st)) = ok (in_group_ipv4 st)
recover (err (error e)) = err e
recover panic = panic

unfoldable pub validate_ipv6_address : Text → Result Error (Unit {0})
unfolding finalize run
validate_ipv6_address address = do st ← recover (run (new address) 0 address); finalize st
