-- ===== src/CharacterClasses.antt =====
-- src/character_classes.rs: the sets of characters, each by its membership test.
pub mod Delimiters
use uri.Prelude.{true, false, ◌≡◌, ap, ◌==◌, ==_iff, Bool-cases, inl, inr, ℕ, Bool, ◌||◌, within}
use uri.Text.{codes, one_of}

abbrev pub CharSet : Type 0
CharSet = ℕ → Bool

unfoldable pub alpha : CharSet
alpha c = within b'a' b'z' c || within b'A' b'Z' c

unfoldable pub digit : CharSet
digit c = within b'0' b'9' c

unfoldable pub hexdig : CharSet
unfolding digit
hexdig c = digit c || within b'A' b'F' c || within b'a' b'f' c

unfoldable pub unreserved : CharSet
unfolding alpha digit
unreserved c = alpha c || digit c || one_of (codes "-._~") c

unfoldable pub sub_delims : CharSet
sub_delims = one_of (codes "!$&'()*+,;=")

unfoldable pub scheme_not_first : CharSet
unfolding alpha digit
scheme_not_first c = alpha c || digit c || one_of (codes "+-.") c

unfoldable pub pchar_not_pct_encoded : CharSet
unfolding unreserved sub_delims
pchar_not_pct_encoded c = unreserved c || sub_delims c || one_of (codes ":@") c

unfoldable pub query_or_fragment_not_pct_encoded : CharSet
unfolding pchar_not_pct_encoded
query_or_fragment_not_pct_encoded c = pchar_not_pct_encoded c || one_of (codes "/?") c

unfoldable pub query_not_pct_encoded_without_plus : CharSet
unfolding unreserved
query_not_pct_encoded_without_plus c = unreserved c || one_of (codes "!$&'()*,;=:@/?") c

unfoldable pub user_info_not_pct_encoded : CharSet
unfolding unreserved sub_delims
user_info_not_pct_encoded c = unreserved c || sub_delims c || one_of (codes ":") c

unfoldable pub reg_name_not_pct_encoded : CharSet
unfolding unreserved sub_delims
reg_name_not_pct_encoded c = unreserved c || sub_delims c

unfoldable pub ipv_future_last_part : CharSet
unfolding unreserved sub_delims
ipv_future_last_part c = unreserved c || sub_delims c || one_of (codes ":") c

-- A character of a set differs from any that is not in it.
pub eq-false : (set : CharSet) (d : ℕ) → set d ≡ false → (c : ℕ) → set c ≡ true → (c == d) ≡ false
eq-false set d out c e = elim (Bool-cases (c == d)) [
  | inl same ↦ cc (ap set ((==_iff c d).0 same))
  | inr differs ↦ differs
]
