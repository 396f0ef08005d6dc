-- ===== src/Tests/Source/Addresses.antt =====
-- src/validate_ipv4_address.rs, src/validate_ipv6_address.rs and
-- src/percent_encoded_character_decoder.rs: the unit tests.
use uri.Text.Str.{slice_from}
use uri.Error.{
  too_many_digits, invalid_decimal_octet, truncated_host, too_few_address_parts,
  too_many_address_parts, Context, too_many_double_colons, illegal_character, err, ok, Error,
}
use uri.Text.{codes, Text}
use uri.CharacterClasses.{digit, hexdig}
use uri.ValidateIpv6Address.{validate_ipv6_address}
use uri.Prelude.{refl, some, none, [], ◌≡◌, ◌∷◌, ℕ, All}
use uri.Text.Numbers.{parse_uint, to_hex_digit}
use uri.ValidateIpv4Address.{is_octet, validate_ipv4_address}
use uri.Tests.Source.{Refused}
use uri.PercentEncodedCharacterDecoder as Pec

abbrev Ipv4GoodTest : Type 0
Ipv4GoodTest =
    All (λ (s : Text). validate_ipv4_address s ≡ ok tt)
      (codes "0.0.0.0"
        ∷ codes "1.2.3.0"
        ∷ codes "1.2.3.4"
        ∷ codes "1.2.3.255"
        ∷ codes "1.2.255.4"
        ∷ codes "1.255.3.4"
        ∷ codes "255.2.3.4"
        ∷ codes "255.255.255.255"
        ∷ [])

Ipv4GoodTest_holds : Ipv4GoodTest
unfolding validate_ipv4_address digit is_octet parse_uint
Ipv4GoodTest_holds = (refl, (refl, (refl, (refl, (refl, (refl, (refl, (refl, tt))))))))

abbrev Ipv4BadTest : Type 0
Ipv4BadTest =
    All (λ (r : Text × Error). validate_ipv4_address r.0 ≡ err r.1)
      ((codes "1.2.x.4", illegal_character Context.ipv4_address)
        ∷ (codes "1.2.3.4.8", too_many_address_parts)
        ∷ (codes "1.2.3", too_few_address_parts)
        ∷ (codes "1.2.3.", truncated_host)
        ∷ (codes "1.2.3.256", invalid_decimal_octet)
        ∷ (codes "1.2.3.-4", illegal_character Context.ipv4_address)
        ∷ (codes "1.2.3. 4", illegal_character Context.ipv4_address)
        ∷ (codes "1.2.3.4 ", illegal_character Context.ipv4_address)
        ∷ [])

Ipv4BadTest_holds : Ipv4BadTest
unfolding validate_ipv4_address digit is_octet parse_uint
Ipv4BadTest_holds = (refl, (refl, (refl, (refl, (refl, (refl, (refl, (refl, tt))))))))

abbrev Ipv6GoodTest : Type 0
Ipv6GoodTest =
    All (λ (s : Text). validate_ipv6_address s ≡ ok tt)
      (codes "::1"
        ∷ codes "::ffff:1.2.3.4"
        ∷ codes "2001:db8:85a3:8d3:1319:8a2e:370:7348"
        ∷ codes "2001:db8:85a3:8d3:1319:8a2e:370::"
        ∷ codes "2001:db8:85a3:8d3:1319:8a2e::1"
        ∷ codes "fFfF::1"
        ∷ codes "1234::1"
        ∷ codes "fFfF:1:2:3:4:5:6:a"
        ∷ codes "2001:db8:85a3::8a2e:0"
        ∷ codes "2001:db8:85a3:8a2e::"
        ∷ [])

Ipv6GoodTest_holds : Ipv6GoodTest
unfolding validate_ipv6_address hexdig digit validate_ipv4_address is_octet parse_uint slice_from
Ipv6GoodTest_holds =
    (refl, (refl, (refl, (refl, (refl, (refl, (refl, (refl, (refl, (refl, tt))))))))))

abbrev Ipv6BadTest : Type 0
Ipv6BadTest =
    All (λ (r : Text × Error). validate_ipv6_address r.0 ≡ err r.1)
      ((codes "::fFfF::1", too_many_double_colons)
        ∷ (codes "::ffff:1.2.x.4", illegal_character Context.ipv4_address)
        ∷ (codes "::ffff:1.2.3.4.8", too_many_address_parts)
        ∷ (codes "::ffff:1.2.3", too_few_address_parts)
        ∷ (codes "::ffff:1.2.3.", truncated_host)
        ∷ (codes "::ffff:1.2.3.256", invalid_decimal_octet)
        ∷ (codes "::fxff:1.2.3.4", illegal_character Context.ipv6_address)
        ∷ (codes "::ffff:1.2.3.-4", illegal_character Context.ipv4_address)
        ∷ (codes "::ffff:1.2.3. 4", illegal_character Context.ipv4_address)
        ∷ (codes "::ffff:1.2.3.4 ", illegal_character Context.ipv4_address)
        ∷ (codes "2001:db8:85a3:8d3:1319:8a2e:370:7348:0000", too_many_address_parts)
        ∷ (codes "2001:db8:85a3:8d3:1319:8a2e:370:7348::1", too_many_address_parts)
        ∷ (codes "2001:db8:85a3:8d3:1319:8a2e:370::1", too_many_address_parts)
        ∷ (codes "2001:db8:85a3::8a2e:0:", truncated_host)
        ∷ (codes "2001:db8:85a3::8a2e::", too_many_double_colons)
        ∷ (codes "20001:db8:85a3::1", too_many_digits)
        ∷ ([], too_few_address_parts)
        ∷ [])

Ipv6BadTest_holds : Ipv6BadTest
unfolding validate_ipv6_address hexdig digit validate_ipv4_address is_octet parse_uint slice_from
Ipv6BadTest_holds = (
  refl,
  (
    refl,
    (
      refl,
      (
        refl,
        (
          refl,
          (
            refl,
            (
              refl,
              (refl, (refl, (refl, (refl, (refl, (refl, (refl, (refl, (refl, (refl, tt)))))))))),
            ),
          ),
        ),
      ),
    ),
  ),
)

abbrev GoodSequencesTest : Type 0
GoodSequencesTest =
    All
      (λ (r : ℕ × ℕ × ℕ).
        ((Pec.next Pec.new r.0).1 ≡ ok none)
        × ((Pec.next (Pec.next Pec.new r.0).0 r.1).1 ≡ ok (some r.2)))
      ((b'4', b'1', b'A')
        ∷ (b'5', b'A', b'Z')
        ∷ (b'6', b'e', b'n')
        ∷ (b'e', b'1', 0xE1)
        ∷ (b'C', b'A', 0xCA)
        ∷ [])

GoodSequencesTest_holds : GoodSequencesTest
unfolding Pec.next to_hex_digit
GoodSequencesTest_holds =
    ((refl, refl), ((refl, refl), ((refl, refl), ((refl, refl), ((refl, refl), tt)))))

abbrev BadSequencesTest : Type 0
BadSequencesTest =
    All (λ (c : ℕ). Refused (Pec.next Pec.new c).1)
      (b'G' ∷ b'g' ∷ b'.' ∷ b'z' ∷ b'-' ∷ b' ' ∷ b'V' ∷ [])

BadSequencesTest_holds : BadSequencesTest
unfolding Pec.next to_hex_digit
BadSequencesTest_holds = (tt, (tt, (tt, (tt, (tt, (tt, (tt, tt)))))))
