-- ===== src/Authority/Cut.antt =====
-- src/authority.rs: `parse_userinfo` with its text cut at positions that count characters, where no
-- cut can fail, and that it is `parse_userinfo`: no slice of it panics.
use uri.CharacterClasses.{user_info_not_pct_encoded}
use uri.Codec.{decode_element}
use uri.Text.{Bytes, Text}
use uri.Prelude.{refl, arith, none, suc, ◌+◌, drop, take, some, ℕ, ◌==◌, ◌≡◌, Option, ap, sym, ◌∙◌}
use uri.Text.Slices.{find}
use uri.Text.Str.Offsets.{
  find-some, slice_from-suc, slice_to-offset, find-none, offset, IsAsciiTest,
}
use uri.Text.Str
use uri.Text.Str.{slice_from, slice_to}
use uri.Error.{Context, Error, Result, ok, ◌>>=◌}
use uri.Authority.{parse_userinfo}

unfoldable pub cut_userinfo : Text → Result Error (Option Bytes × Text)
cut_userinfo s = elim (find (λ c. c == b'@') s) [
  | some delimiter ↦ do
    userinfo ← decode_element (take delimiter s) user_info_not_pct_encoded Context.userinfo
    ok (some userinfo, drop (suc delimiter) s)
  | none ↦ ok (none, s)
]

pub parse_userinfo-cut_userinfo : (s : Text) → parse_userinfo s ≡ cut_userinfo s
unfolding parse_userinfo cut_userinfo
parse_userinfo-cut_userinfo s = go (find (λ c. c == b'@') s) refl
  where
    Parts : Type 0
    Parts = Result Error (Option Bytes × Text)

    bytes : Option ℕ → Parts
    bytes r = elim r [
      | some delimiter ↦ do
        text ← slice_to delimiter s
        userinfo ← decode_element text user_info_not_pct_encoded Context.userinfo
        host_port_string ← slice_from (delimiter + 1) s
        ok (some userinfo, host_port_string)
      | none ↦ ok (none, s)
    ]

    chars : Option ℕ → Parts
    chars r = elim r [
      | some delimiter ↦ do
        userinfo ← decode_element (take delimiter s) user_info_not_pct_encoded Context.userinfo
        ok (some userinfo, drop (suc delimiter) s)
      | none ↦ ok (none, s)
    ]

    go :
        (r : Option ℕ)
        → find (λ c. c == b'@') s ≡ r
        → bytes (Str.find (λ c. c == b'@') s) ≡ chars (find (λ c. c == b'@') s)
    go none e = ap bytes (find-none _ s e) ∙ sym (ap chars e)
    go (some n) e =
        let at : IsAsciiTest (λ c. c == b'@') = λ c h. ground (arith, h) in
        let same : bytes (some (offset n s)) ≡ chars (some n) =
          rw (slice_to-offset n s, slice_from-suc _ s n at e) refl in
        ap bytes (find-some _ s n e).0 ∙ same ∙ sym (ap chars e)
