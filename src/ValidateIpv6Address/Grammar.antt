-- ===== src/ValidateIpv6Address/Grammar.antt =====
-- The grammar of IPv6 addresses (RFC 3986, 3.2.2), by the number of 16-bit groups that a text stands
-- for.
use uri.ValidateIpv4Address.Grammar.{IsDottedQuad}
use uri.Prelude.{
  ◌≤◌, length, ◌+◌, suc, ◌||◌, ◌≢◌, ◌∷◌, within, ◌++◌, true, [], ◌≡◌, Bool, All, ℕ, ◌⊎◌,
}
use uri.Text.{Text}

abbrev pub hex_char : ℕ → Bool
hex_char c = within b'0' b'9' c || within b'A' b'F' c || within b'a' b'f' c

abbrev pub dec_char : ℕ → Bool
dec_char = within b'0' b'9'

-- `h16`
pub record IsGroup (g : Text) : Type 0 where
  pub all_hex : All (λ c. hex_char c ≡ true) g
  pub some_digit : g ≢ []
  pub at_most_four : length g ≤ 4

-- The IPv4 address at the end; in front of its first dot stand at most four digits.
pub record IsQuad (t : Text) : Type 0 where
  pub quad : IsDottedQuad t
  pub first : Text
  pub rest : Text
  pub spells : t ≡ first ++ (b'.' ∷ rest)
  pub all_digits : All (λ c. dec_char c ≡ true) first
  pub some_digit : first ≢ []
  pub at_most_four : length first ≤ 4

-- Groups with a colon between two of them, the last of which may be an IPv4 address.
pub data Pieces : ℕ → Text → Type 0 where
  group : {g : Text} → IsGroup g → Pieces 1 g
  quad : {t : Text} → IsQuad t → Pieces 2 t
  more :
      {n : ℕ} {s t : Text} (g : Text)
      → IsGroup g
      → Pieces n s
      → t ≡ g ++ (b':' ∷ s)
      → Pieces (suc n) t

-- Groups alone.
pub data Groups : ℕ → Text → Type 0 where
  group : {g : Text} → IsGroup g → Groups 1 g
  more :
      {n : ℕ} {s t : Text} (g : Text)
      → IsGroup g
      → Groups n s
      → t ≡ g ++ (b':' ∷ s)
      → Groups (suc n) t

-- What may stand on the two sides of a double colon.
abbrev pub Left : ℕ → Text → Type 0
Left n s = ((n ≡ 0) × (s ≡ [])) ⊎ Groups n s

abbrev pub Right : ℕ → Text → Type 0
Right n s = ((n ≡ 0) × (s ≡ [])) ⊎ Pieces n s

-- A double colon stands for one group at least.
pub record IsCompressed (s : Text) : Type 0 where
  pub left : Text
  pub right : Text
  pub left_groups : ℕ
  pub right_groups : ℕ
  pub spells : s ≡ left ++ (b':' ∷ b':' ∷ right)
  pub is_left : Left left_groups left
  pub is_right : Right right_groups right
  pub at_most_seven : left_groups + right_groups ≤ 7

abbrev pub IsIpv6Address : Text → Type 0
IsIpv6Address s = Pieces 8 s ⊎ IsCompressed s
