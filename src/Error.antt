-- ===== src/Error.antt =====
-- src/context.rs and src/error.rs: the errors of the crate with their `Display` texts, and what a
-- fallible call returns.
pub mod Ensures
use uri.Prelude.{sym, ◌∙◌, ◌++◌, [], ◌∷◌, ℕ, ◌≡◌, refl}
use uri.Text.{Text, Bytes, codes}
use uri.Text.Numbers.{ParseIntError}

pub data Context : Type 0 where
  fragment host ipv4_address ipv6_address ipv_future path query scheme userinfo : Context

-- `impl Display for Context`
pub context_fmt : Context → Text
context_fmt Context.fragment = codes "fragment"
context_fmt Context.host = codes "host"
context_fmt Context.ipv4_address = codes "IPv4 address"
context_fmt Context.ipv6_address = codes "IPv6 address"
context_fmt Context.ipv_future = codes "IPvFuture"
context_fmt Context.path = codes "path"
context_fmt Context.query = codes "query"
context_fmt Context.scheme = codes "scheme"
context_fmt Context.userinfo = codes "user info"

-- `FromUtf8Error` is determined by the bytes that it carries.
pub data Error : Type 0 where
  cannot_express_as_utf8 : Bytes → Error
  empty_scheme : Error
  illegal_character : Context → Error
  illegal_percent_encoding : Error
  illegal_port_number : ParseIntError → Error
  invalid_decimal_octet : Error
  too_few_address_parts : Error
  too_many_address_parts : Error
  too_many_digits : Error
  too_many_double_colons : Error
  truncated_host : Error

-- The `#[error]` texts.
pub error_fmt : Error → Text
unfolding context_fmt
error_fmt (cannot_express_as_utf8 _) = codes "URI contains non-UTF8 sequences"
error_fmt empty_scheme = codes "scheme expected but missing"
error_fmt (illegal_character c) = codes "illegal character in " ++ context_fmt c
error_fmt illegal_percent_encoding = codes "illegal percent encoding"
error_fmt (illegal_port_number _) = codes "illegal port number"
error_fmt invalid_decimal_octet = codes "octet group expected"
error_fmt too_few_address_parts = codes "too few address parts"
error_fmt too_many_address_parts = codes "too many address parts"
error_fmt too_many_digits = codes "too many digits in IPv6 address part"
error_fmt too_many_double_colons = codes "too many double-colons in IPv6 address"
error_fmt truncated_host = codes "truncated host"

-- `Result<A, E>`, with one more case for a call that panics (an `unwrap` on an error, or an
-- arithmetic overflow in a build that checks for it).
pub data Result {ℓ κ} (E : Type ℓ) (A : Type κ) : Type (ℓ ⊔ κ) where
  ok : A → Result E A
  err : E → Result E A
  panic : Result E A

infixl 5 ◌>>=◌ ◌>>◌
abbrev pub ◌>>=◌ {ℓ κ μ} :
    {E : Type ℓ} {A : Type κ} {B : Type μ} → Result E A → (A → Result E B) → Result E B
ok a >>= f = f a
err e >>= f = err e
panic >>= f = panic

abbrev pub ◌>>◌ {ℓ κ} : {E : Type ℓ} {B : Type κ} → Result E (Unit {0}) → Result E B → Result E B
m >> k = m >>= λ _. k

-- `try_fold` over the characters of a text.
abbrev pub try_fold {ℓ κ} : {E : Type ℓ} {S : Type κ} → (S → ℕ → Result E S) → S → Text → Result E S
try_fold next st [] = ok st
try_fold next st (c ∷ s) = next st c >>= λ st'. try_fold next st' s

-- A successful bind, for proofs where the parts stay shut.
pub bind-eq-ok {ℓ κ μ} :
    {E : Type ℓ} {A : Type κ} {B : Type μ} (m : Result E A) (f : A → Result E B) {b : B}
    → (m >>= f) ≡ ok b
    → (a : A) × (m ≡ ok a) × (f a ≡ ok b)
bind-eq-ok (ok a) f h = (a, refl, h)
bind-eq-ok (err _) f h = cc
bind-eq-ok panic f h = cc

pub bind_assoc {ℓ κ μ ν} :
    {E : Type ℓ} {A : Type κ} {B : Type μ} {C : Type ν} (m : Result E A) (f : A → Result E B)
    (g : B → Result E C)
    → ((m >>= f) >>= g) ≡ (m >>= λ a. f a >>= g)
bind_assoc (ok a) f g = refl
bind_assoc (err _) f g = refl
bind_assoc panic f g = refl

pub bind_congr {ℓ κ μ} :
    {E : Type ℓ} {A : Type κ} {B : Type μ} (m : Result E A) (f g : A → Result E B)
    → ((a : A) → f a ≡ g a)
    → (m >>= f) ≡ (m >>= g)
bind_congr (ok a) f g h = h a
bind_congr (err _) f g h = refl
bind_congr panic f g h = refl

-- Folding over two texts is folding over the first and then over the second.
pub try_fold-append {ℓ κ} :
    {E : Type ℓ} {S : Type κ} (next : S → ℕ → Result E S) (s t : Text) (st : S)
    → try_fold next st (s ++ t) ≡ (try_fold next st s >>= λ st'. try_fold next st' t)
try_fold-append next [] t st = refl
try_fold-append next (c ∷ s) t st =
    bind_congr (next st c) _ _ (λ st'. try_fold-append next s t st')
    ∙ sym (bind_assoc (next st c) (λ st'. try_fold next st' s) (λ st'. try_fold next st' t))
