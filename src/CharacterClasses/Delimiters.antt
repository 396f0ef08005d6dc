-- ===== src/CharacterClasses/Delimiters.antt =====
-- The delimiters that are in none of the sets of a component's characters, and how the sets nest.
use uri.Prelude.{◌<◌, refl, ◌==◌, false, true, arith, ◌≡◌, ℕ}
use uri.CharacterClasses.{
  hexdig, ipv_future_last_part, CharSet, pchar_not_pct_encoded, reg_name_not_pct_encoded,
  user_info_not_pct_encoded, query_or_fragment_not_pct_encoded, query_not_pct_encoded_without_plus,
  scheme_not_first, alpha,
}

abbrev pub Subset : CharSet → CharSet → Type 0
Subset p q = (c : ℕ) → p c ≡ true → q c ≡ true

-- `%`, and what ends a component in front of the path, the path itself and the query.
pub record Excludes (set : CharSet) : Type 0 where
  pub percent : set b'%' ≡ false
  pub slash : set b'/' ≡ false
  pub question : set b'?' ≡ false
  pub hash : set b'#' ≡ false

pub pchar-Excludes : Excludes pchar_not_pct_encoded
unfolding pchar_not_pct_encoded
pchar-Excludes = record { percent = refl; slash = refl; question = refl; hash = refl }

pub reg_name-Excludes : Excludes reg_name_not_pct_encoded
unfolding reg_name_not_pct_encoded
reg_name-Excludes = record { percent = refl; slash = refl; question = refl; hash = refl }

pub user_info-Excludes : Excludes user_info_not_pct_encoded
unfolding user_info_not_pct_encoded
user_info-Excludes = record { percent = refl; slash = refl; question = refl; hash = refl }

pub reg_name-colon : reg_name_not_pct_encoded b':' ≡ false
unfolding reg_name_not_pct_encoded
reg_name-colon = refl

pub reg_name-at : reg_name_not_pct_encoded b'@' ≡ false
unfolding reg_name_not_pct_encoded
reg_name-at = refl

pub reg_name-bracket : reg_name_not_pct_encoded b'[' ≡ false
unfolding reg_name_not_pct_encoded
reg_name-bracket = refl

pub user_info-at : user_info_not_pct_encoded b'@' ≡ false
unfolding user_info_not_pct_encoded
user_info-at = refl

pub query-percent : query_not_pct_encoded_without_plus b'%' ≡ false
unfolding query_not_pct_encoded_without_plus
query-percent = refl

pub query-hash : query_not_pct_encoded_without_plus b'#' ≡ false
unfolding query_not_pct_encoded_without_plus
query-hash = refl

pub query_or_fragment-percent : query_or_fragment_not_pct_encoded b'%' ≡ false
unfolding query_or_fragment_not_pct_encoded
query_or_fragment-percent = refl

-- What is written in a query may be read in one.
pub query-Subset : Subset query_not_pct_encoded_without_plus query_or_fragment_not_pct_encoded
unfolding query_not_pct_encoded_without_plus query_or_fragment_not_pct_encoded
query-Subset c h = ground arith

-- Letters, and the characters of a scheme behind the first, are none of `/`, `:`, `?` and `#`.
pub scheme_char :
    (c : ℕ)
    → scheme_not_first c ≡ true
    → ((c == b'/') ≡ false) × ((c == b':') ≡ false) × ((c == b'?') ≡ false) × ((c == b'#') ≡ false)
unfolding scheme_not_first
scheme_char c h = ground arith

pub alpha-Subset : Subset alpha scheme_not_first
unfolding scheme_not_first
alpha-Subset c h = ground arith

-- The characters of a host are bytes.
pub reg_name-lt : (c : ℕ) → reg_name_not_pct_encoded c ≡ true → c < 256
unfolding reg_name_not_pct_encoded
reg_name-lt c h = ground arith

pub ipv_future-lt : (c : ℕ) → ipv_future_last_part c ≡ true → c < 256
unfolding ipv_future_last_part
ipv_future-lt c h = ground arith

pub hexdig-lt : (c : ℕ) → hexdig c ≡ true → c < 256
unfolding hexdig
hexdig-lt c h = ground arith
