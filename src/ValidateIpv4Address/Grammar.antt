-- ===== src/ValidateIpv4Address/Grammar.antt =====
-- src/validate_ipv4_address.rs: the grammar of dotted addresses, and the texts that are accepted.
use uri.Text.Numbers.{u8_max}
use uri.Text.Numbers.Value.{is_parsed-parse_uint, value, IsDigits}
use native.Mathlib.Nat.{le_refl}
use mathlib.Core.List.{concat-ne-nil, cons-ne-nil}
use uri.Text.{Text}
use uri.Prelude.{
  within, ◌↔◌, zero, suc, inr, All-append, inl, ◌∙◌, append_assoc, append-nil, sym, ap, ◌≤◌, refl,
  ◌≢◌, ◌⊎◌, arith, length, true, ◌+◌, [], ◌∷◌, ◌≡◌, ◌++◌, All, ℕ, List,
}
use uri.Error.{bind_assoc, Error, Result, bind-eq-ok, ok, ◌>>=◌, try_fold}
use uri.CharacterClasses.{digit}
use uri.ValidateIpv4Address.{
  validate_ipv4_address, State, not_in_octet, expect_digit_or_dot, is_octet, next, finalize,
}

-- One or more decimal digits, and no sign, that spell a number which a `u8` can hold.
pub record IsOctet (s : Text) : Type 0 where
  pub all_digits : IsDigits s
  pub ne_nil : s ≢ []
  pub small : value 0 s ≤ 255

-- The octets with dots between them.
abbrev pub dotted : List Text → Text
dotted [] = []
dotted (a ∷ []) = a
dotted (a ∷ b ∷ parts) = a ++ (b'.' ∷ dotted (b ∷ parts))

pub record IsDottedQuad (s : Text) : Type 0 where
  pub parts : List Text
  pub spells : s ≡ dotted parts
  pub octets : All IsOctet parts
  pub four : length parts ≡ 4

is_octet-value : (s : Text) → IsDigits s → s ≢ [] → (is_octet s ≡ true) ↔ (value 0 s ≤ 255)
unfolding is_octet
is_octet-value s d ne = is_parsed-parse_uint u8_max s d ne

IsOctet-is_octet : {s : Text} → IsOctet s → is_octet s ≡ true
IsOctet-is_octet {s} o = (is_octet-value s o.all_digits o.ne_nil).1 o.small

abbrev in_octet : ℕ → Text → State
in_octet n buf = expect_digit_or_dot (record { num_groups = n; octet_buffer = buf })

abbrev behind_dot : ℕ → State
behind_dot n = not_in_octet (record { num_groups = n; octet_buffer = [] })

-- What is still to come, from inside an octet that begins with `buf`.
record Tail (n : ℕ) (buf s : Text) : Type 0 where
  parts : List Text
  spells : buf ++ s ≡ dotted parts
  octets : All IsOctet parts
  four : n + length parts ≡ 4
  some_part : parts ≢ []

finalize-Tail :
    (n : ℕ) (buf : Text) {u : Unit {0}}
    → IsDigits buf
    → buf ≢ []
    → finalize (in_octet n buf) ≡ ok u
    → (is_octet buf ≡ true) × (n + 1 ≡ 4)
unfolding finalize
finalize-Tail n [] d ne h = absurd (ne refl)
finalize-Tail n (c ∷ buf) d ne h = ground arith

-- One character inside an octet.
next-in_octet :
    (n : ℕ) (buf : Text) (c : ℕ) {st : State}
    → next (in_octet n buf) c ≡ ok st
    → ((within b'0' b'9' c ≡ true) × (st ≡ in_octet n (buf ++ c ∷ [])))
      ⊎ ((c ≡ b'.') × (is_octet buf ≡ true) × (st ≡ behind_dot (n + 1)) × (n + 1 ≤ 4))
unfolding next digit
next-in_octet n buf c h = ground arith

next-behind_dot :
    (n c : ℕ) {st : State}
    → next (behind_dot n) c ≡ ok st
    → (within b'0' b'9' c ≡ true) × (st ≡ in_octet n (c ∷ []))
unfolding next digit
next-behind_dot n c h = ground arith

abbrev runs : State → Text → Result Error (Unit {0})
runs st s = try_fold next st s >>= finalize

dotted-cons :
    (a : Text) (parts : List Text) → parts ≢ [] → dotted (a ∷ parts) ≡ a ++ (b'.' ∷ dotted parts)
dotted-cons a [] h = absurd (h refl)
dotted-cons a (b ∷ parts) h = refl

Tail-end :
    (n : ℕ) (buf : Text)
    → IsDigits buf
    → buf ≢ []
    → runs (in_octet n buf) [] ≡ ok tt
    → Tail n buf []
Tail-end n buf d ne h =
    let (octet, last) = finalize-Tail n buf d ne h in
    record {
      parts = buf ∷ [];
      spells = append-nil buf;
      octets =
          (record { all_digits = d; ne_nil = ne; small = (is_octet-value buf d ne).0 octet }, tt);
      four = last;
      some_part = cons-ne-nil buf [];
    }

Tail-digit : (n : ℕ) (buf s : Text) (c : ℕ) → Tail n (buf ++ c ∷ []) s → Tail n buf (c ∷ s)
Tail-digit n buf s c t = record {
  parts = t.parts;
  spells = sym (append_assoc buf (c ∷ []) s) ∙ t.spells;
  octets = t.octets;
  four = t.four;
  some_part = t.some_part;
}

Tail-dot :
    (n : ℕ) (buf s : Text) (d : ℕ)
    → IsOctet buf
    → Tail (n + 1) (d ∷ []) s
    → Tail n buf (b'.' ∷ d ∷ s)
Tail-dot n buf s d o t = record {
  parts = buf ∷ t.parts;
  spells =
      ap (λ (x : Text). buf ++ (b'.' ∷ x)) t.spells ∙ sym (dotted-cons buf t.parts t.some_part);
  octets = (o, t.octets);
  four = omega (arith, t.four);
  some_part = cons-ne-nil buf t.parts;
}

runs-cons :
    (st : State) (c : ℕ) (s : Text)
    → runs st (c ∷ s) ≡ ok tt
    → (st' : State) × (next st c ≡ ok st') × (runs st' s ≡ ok tt)
runs-cons st c s h =
    bind-eq-ok (next st c) (λ st'. runs st' s)
      (sym (bind_assoc (next st c) (λ st'. try_fold next st' s) finalize) ∙ h)

-- Behind a dot there is a digit.
runs-behind_dot :
    (n : ℕ) (s : Text)
    → runs (behind_dot n) s ≡ ok tt
    → (d : ℕ) × (rest : Text) × (s ≡ d ∷ rest)
      × (within b'0' b'9' d ≡ true)
      × (runs (in_octet n (d ∷ [])) rest ≡ ok tt)
unfolding finalize
runs-behind_dot n [] h = cc
runs-behind_dot n (d ∷ rest) h =
    let (st, first, later) = runs-cons (behind_dot n) d rest h in
    let (is_digit, e) = next-behind_dot n d first in (d, rest, refl, is_digit, rw e at later)

-- The machine from inside an octet, on a text of at most `k` characters.
runs-Tail :
    (k : ℕ) (s : Text) (n : ℕ) (buf : Text)
    → length s ≤ k
    → IsDigits buf
    → buf ≢ []
    → runs (in_octet n buf) s ≡ ok tt
    → Tail n buf s
runs-Tail k [] n buf le d ne h = Tail-end n buf d ne h
runs-Tail zero (c ∷ s) n buf le d ne h = absurd (omega arith)
runs-Tail (suc k) (c ∷ s) n buf le d ne h =
    let (st, first, later) = runs-cons (in_octet n buf) c s h in
    elim (next-in_octet n buf c first) [
      | inl (dc, e) ↦ Tail-digit n buf s c (
          runs-Tail k s n (buf ++ c ∷ []) (omega arith) (All-append _ buf (c ∷ []) d (dc, tt))
            (concat-ne-nil c buf) (rw e at later))
      | inr (dot, o, e, le') ↦
          let (x, rest, e', dx, later') = runs-behind_dot (n + 1) s (rw e at later) in
          rw (dot, e')
            (Tail-dot n buf rest x
              (record { all_digits = d; ne_nil = ne; small = (is_octet-value buf d ne).0 o })
              (runs-Tail k rest (n + 1) (x ∷ []) (omega (arith, ap length e')) (dx, tt)
                (cons-ne-nil x []) later'))
    ]

-- Digits join the octet that is read.
runs-digits :
    (n : ℕ) (a buf rest : Text)
    → IsDigits a
    → runs (in_octet n buf) (a ++ rest) ≡ runs (in_octet n (buf ++ a)) rest
unfolding next digit
runs-digits n [] buf rest h = rw append-nil
runs-digits n (c ∷ a) buf rest (h, hs) =
    ground (arith, runs-digits n a (buf ++ c ∷ []) rest hs, append_assoc buf (c ∷ []) a)

next_digit_behind_dot :
    (n c : ℕ) → within b'0' b'9' c ≡ true → next (behind_dot n) c ≡ ok (in_octet n (c ∷ []))
unfolding next digit
next_digit_behind_dot n c h = ground arith

next_dot :
    (n : ℕ) (buf : Text)
    → is_octet buf ≡ true
    → n + 1 ≤ 4
    → next (in_octet n buf) b'.' ≡ ok (behind_dot (n + 1))
unfolding next
next_dot n buf h le = ground arith

finalize_octet_lem :
    (n : ℕ) (buf : Text) → IsOctet buf → n + 1 ≡ 4 → finalize (in_octet n buf) ≡ ok tt
unfolding finalize
finalize_octet_lem n [] o h = absurd (o.ne_nil refl)
finalize_octet_lem n (c ∷ buf) o h = ground (arith, IsOctet-is_octet o)

-- An octet behind a dot.
runs-octet :
    (n : ℕ) (a rest : Text) → IsOctet a → runs (behind_dot n) (a ++ rest) ≡ runs (in_octet n a) rest
runs-octet n [] rest o = absurd (o.ne_nil refl)
runs-octet n (c ∷ a) rest o =
    rw (next_digit_behind_dot n c o.all_digits.0) (runs-digits n a (c ∷ []) rest o.all_digits.1)

runs-dotted :
    (n : ℕ) (parts : List Text)
    → All IsOctet parts
    → parts ≢ []
    → n + length parts ≡ 4
    → runs (behind_dot n) (dotted parts) ≡ ok tt
runs-dotted n [] o ne h = absurd (ne refl)
runs-dotted n (a ∷ []) (o, _) ne h =
    ap (runs (behind_dot n)) (sym (append-nil a))
    ∙ runs-octet n a [] o
    ∙ finalize_octet_lem n a o (omega arith)
runs-dotted n (a ∷ b ∷ parts) (o, os) ne h =
    runs-octet n a _ o
    ∙ rw (next_dot n a (IsOctet-is_octet o) (omega arith))
        (runs-dotted (n + 1) (b ∷ parts) os (cons-ne-nil b parts) (omega arith))

-- An address is accepted exactly if it is four octets, each a number that a `u8` holds written in
-- decimal digits, with a dot between two of them.
pub validate_ipv4_address-IsDottedQuad :
    (s : Text) → (validate_ipv4_address s ≡ ok tt) ↔ IsDottedQuad s
unfolding validate_ipv4_address
validate_ipv4_address-IsDottedQuad s = (
  λ h.
      let (d, rest, e, is_digit, later) = runs-behind_dot 0 s h in
      let tail =
        runs-Tail (length rest) rest 0 (d ∷ []) (le_refl (length rest)) (is_digit, tt)
          (cons-ne-nil d []) later in
      record {
        parts = tail.parts;
        spells = e ∙ tail.spells;
        octets = tail.octets;
        four = omega (arith, tail.four);
      },
  λ q. rw q.spells (
      runs-dotted 0 q.parts q.octets
        (λ (e : q.parts ≡ []). absurd (omega (arith, ap length e, q.four)))
        (omega (arith, q.four))),
)
