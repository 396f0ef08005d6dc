-- ===== src/Lib.antt =====
-- A model of the Rust crate `rhymuri` (src/*.rs), which parses, prints, normalizes and resolves
-- URIs after RFC 3986, and the theorems that make it correct.
--
-- Parts. A `Uri` (src/uri.rs, module Uri) holds a scheme, an `Authority` (src/authority.rs, module
-- Authority), a path, a query and a fragment. `Uri::parse` cuts its text at delimiters and hands
-- the pieces on: the authority's userinfo, the path's segments, the query and the fragment go to
-- `decode_element` (src/codec.rs, module Codec), which runs the decoder of percent-encoded
-- characters (src/percent_encoded_character_decoder.rs, module PercentEncodedCharacterDecoder);
-- host and port go to a state machine (src/parse_host_port.rs, module ParseHostPort), which uses
-- that decoder too and validates an IPv6 address (src/validate_ipv6_address.rs, module
-- ValidateIpv6Address), whose trailing IPv4 address is validated by src/validate_ipv4_address.rs
-- (module ValidateIpv4Address). `Display` encodes each piece with `encode_element` and a set of
-- characters (src/character_classes.rs, module CharacterClasses). Errors are those of src/error.rs
-- and src/context.rs (module Error).
--
-- How code is modelled. A function or method has the name that it has in the source, in a module
-- named for its file; a method on `&mut self` returns the new value, an `enum` of states is a data
-- type and `next` its step. `try_fold` is a recursion on the text, so no fuel is needed anywhere
-- but in the decimal print of a number, whose fuel is one more than the number. A `char` is its
-- code point and a `str` the list of its characters (module Text). The positions of `find` and
-- `char_indices` count bytes, and a slice at one of them panics behind the end of the text and
-- inside a character (module Text/Str). Uri/Cut, Authority/Cut and ValidateIpv6Address/Cut have the
-- same functions with cuts that count characters and cannot fail, which the other proofs go on
-- with; Uri/Slices, Authority/Cut and ValidateIpv6Address/Slices compare the two. A `u8` is a
-- number with the overflow written out. `Result` has a third case for a panic: a slice out of
-- range, an `unwrap` on an error, or an arithmetic overflow in a build that checks for it. The
-- parts of the standard library that the crate calls (`find`, slices, `split`, `strip_prefix`,
-- `parse` and `Display` of integers, `to_digit`, UTF-8) are modelled in Text.
--
-- Proofs. They stand below the module that they are about: X/RoundTrip (printing and reading back),
-- X/Parsed and Codec/Decoded (what a parser returns, whatever it is given), Uri/Path (Normal,
-- Absolute, Dots for the normalization, Strings for the conversions), Uri/Resolve/Rfc (resolution),
-- Uri/Schemes, Uri/Characters (the printed characters). The grammars are data types or records that
-- do not mention the crate's parsers; they share with them the sets of characters, the lower-casing
-- and, for a port, the standard library's `str::parse::<u16>`, which takes a sign too:
-- ValidateIpv4Address/Grammar; ValidateIpv6Address/Grammar, with the reads that the machine is to
-- make of a text (Reads, Tails, Inside), the run of the machine over a text (Loop, Machine, Starts,
-- InGroup) and the equivalence (Accepted); Codec/Grammar for the texts that decode, Codec/Failures
-- for those that do not; ParseHostPort/Grammar, with the runs of the machine (Names, RegNames,
-- Literals, Futures) and the equivalence (Accepted); Authority/Grammar; and Uri/Grammar with
-- Uri/Accepted, which put them together to the set of all texts that are parsed. Uri/Components is
-- the decomposition of RFC 3986 appendix B; its modules compare it with the positions that the code
-- cuts at (Splits, Parsed), with the end of the scheme (Scheme, Clear) and with the whole parser
-- (Total). X/Stable is about what was parsed, printed and parsed again, and
-- ValidateIpv6Address/Characters and Bounds about the state of that machine. Error/Ensures has the
-- predicate for "no panic, and a property of the value", and Tests has the theorems at concrete
-- inputs, in Tests/Source the unit tests of the crate, each function as one definition that the
-- model passes, and in Tests/Divergences runs in which the code differs from the RFC.
--
-- Not modelled. `HashSet` and `Lazy` (a set is its membership test), the C++ implementation, which
-- is another program, `Clone`, `Debug` and the error source chain. `str::to_lowercase` is only
-- called on a checked scheme, which is ASCII, and is modelled there as ASCII lower-casing.
pub mod Prelude
pub mod Text
pub mod Error
pub mod CharacterClasses
pub mod PercentEncodedCharacterDecoder
pub mod Codec
pub mod ValidateIpv4Address
pub mod ValidateIpv6Address
pub mod ParseHostPort
pub mod Authority
pub mod Uri
mod Tests
