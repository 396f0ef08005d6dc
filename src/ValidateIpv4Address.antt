-- ===== src/ValidateIpv4Address.antt =====
-- src/validate_ipv4_address.rs: the machine that reads a dotted IPv4 address.
pub mod Characters
pub mod Grammar
use uri.Prelude.{ℕ, ◌+◌, [], ◌∷◌, ◌++◌, ◌==◌, ltb, if◌then◌else◌, Bool, true, false}
use uri.Text.{Text}
use uri.Text.Numbers.{parse_uint, u8_max, parsed, not_parsed}
use uri.Error.{
  Context, Error, illegal_character, truncated_host, invalid_decimal_octet, too_few_address_parts,
  too_many_address_parts, Result, ok, err, ◌>>=◌, try_fold,
}
use uri.CharacterClasses.{digit}

pub record Shared : Type 0 where
  pub num_groups : ℕ
  pub octet_buffer : Text

pub data State : Type 0 where
  not_in_octet : Shared → State
  expect_digit_or_dot : Shared → State

-- `octet_buffer.parse::<u8>().is_err()`
unfoldable pub is_octet : Text → Bool
is_octet s = elim (parse_uint u8_max s) [ parsed n ↦ true | not_parsed e ↦ false ]

-- The last `match` of `finalize_expect_digit_or_dot`.
check_groups : ℕ → Result Error (Unit {0})
check_groups n =
    if n == 4
    then ok tt
    else if ltb n 4
    then err too_few_address_parts
    else err too_many_address_parts

finalize_octet : ℕ → Text → Result Error (Unit {0})
unfolding check_groups
finalize_octet n [] = check_groups n
finalize_octet n (c ∷ s) =
    if is_octet (c ∷ s) then check_groups (n + 1) else err invalid_decimal_octet

finalize_expect_digit_or_dot : Shared → Result Error (Unit {0})
unfolding finalize_octet
finalize_expect_digit_or_dot st = finalize_octet st.num_groups st.octet_buffer

pub finalize : State → Result Error (Unit {0})
unfolding finalize_expect_digit_or_dot
finalize (not_in_octet _) = err truncated_host
finalize (expect_digit_or_dot st) = finalize_expect_digit_or_dot st

abbrev pub new : State
new = not_in_octet (record { num_groups = 0; octet_buffer = [] })

next_not_in_octet : Shared → ℕ → Result Error State
next_not_in_octet st c =
    if digit c
    then ok (expect_digit_or_dot (record st { octet_buffer = st.octet_buffer ++ c ∷ [] }))
    else err (illegal_character Context.ipv4_address)

next_expect_digit_or_dot : Shared → ℕ → Result Error State
next_expect_digit_or_dot st c =
    if c == b'.'
    then (if ltb 4 (st.num_groups + 1)
        then err too_many_address_parts
        else if is_octet st.octet_buffer
        then ok (not_in_octet (record st { num_groups = st.num_groups + 1; octet_buffer = [] }))
        else err invalid_decimal_octet)
    else if digit c
    then ok (expect_digit_or_dot (record st { octet_buffer = st.octet_buffer ++ c ∷ [] }))
    else err (illegal_character Context.ipv4_address)

unfoldable pub next : State → ℕ → Result Error State
unfolding next_not_in_octet next_expect_digit_or_dot
next (not_in_octet st) c = next_not_in_octet st c
next (expect_digit_or_dot st) c = next_expect_digit_or_dot st c

unfoldable pub validate_ipv4_address : Text → Result Error (Unit {0})
unfolding finalize next
validate_ipv4_address address = do st ← try_fold next new address; finalize st
