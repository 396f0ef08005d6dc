-- ===== src/Text/Utf8/Ascii.antt =====
-- UTF-8 on ASCII: the bytes and the text are the same list.
use uri.Prelude.{
  true, false, ◌==◌, ltb, ◌⊎◌, ◌∙◌, sym, inr, ◌-◌, inl, zero, within, ◌+◌, Bool-cases, none, ◌*◌,
  suc, ◌≤◌, Option, refl, [], arith, ◌∷◌, some, ◌≡◌, ◌<◌, All, List, ℕ,
}
use uri.Text.Utf8.{lead_byte, inside, emit, from_utf8, decode_utf8, start, as_bytes}

abbrev pub IsAscii : List ℕ → Type 0
IsAscii = All (λ c. c < 128)

decode_ascii :
    (b : ℕ) (bs : List ℕ)
    → b < 128
    → decode_utf8 start bs ≡ some bs
    → decode_utf8 start (b ∷ bs) ≡ some (b ∷ bs)
unfolding decode_utf8
decode_ascii b bs h ih = ground arith

pub from_utf8-ascii : (bs : List ℕ) → IsAscii bs → from_utf8 bs ≡ some bs
unfolding from_utf8
from_utf8-ascii [] _ = refl
from_utf8-ascii (b ∷ bs) (h, hs) = decode_ascii b bs h (from_utf8-ascii bs hs)

pub as_bytes-ascii : (s : List ℕ) → IsAscii s → as_bytes s ≡ s
unfolding as_bytes
as_bytes-ascii [] _ = refl
as_bytes-ascii (c ∷ s) (h, hs) = ground (arith, as_bytes-ascii s hs)

pub emit-none : (r : Option (List ℕ)) → emit none r ≡ r
emit-none none = refl
emit-none (some s) = refl

-- The character that a sequence of several bytes stands for is no ASCII one.
not_ascii :
    (c : ℕ) (r : Option (List ℕ)) (s : List ℕ) → 128 ≤ c → emit (some c) r ≡ some s → IsAscii s → ⊥
not_ascii c none s h e a = cc
not_ascii c (some t) [] h e a = cc
not_ascii c (some t) (d ∷ s) h e (lt, _) = let same : c ≡ d = cc in omega (arith, h, lt, same)

abbrev Large : ℕ → ℕ → ℕ → Type 0
Large zero lo acc = 2 ≤ acc
Large (suc more) lo acc = 0x82 ≤ acc * 64 + lo

inside-not_ascii :
    (more lo hi acc : ℕ) (bs s : List ℕ)
    → 0x80 ≤ lo
    → Large more lo acc
    → decode_utf8 (inside more lo hi acc) bs ≡ some s
    → IsAscii s
    → ⊥
unfolding decode_utf8
inside-not_ascii more lo hi acc [] s h large e a = cc
inside-not_ascii zero lo hi acc (b ∷ bs) s h large e a = elim (Bool-cases (within lo hi b)) [
  | inl w ↦
      not_ascii (acc * 64 + (b - 0x80)) (decode_utf8 start bs) s (omega (arith, large))
        (rw (decode_utf8, w) at e) a
  | inr w ↦ cc (rw (decode_utf8, w) at e)
]
inside-not_ascii (suc more) lo hi acc (b ∷ bs) s h large e a = elim (Bool-cases (within lo hi b)) [
  | inl w ↦
      let low : lo ≤ b = ground (arith, w) in
      let acc' = acc * 64 + (b - 0x80) in
      let later : Large more 0x80 acc' = at_least more acc' (omega (arith, large, low)) in
      inside-not_ascii more 0x80 0xBF acc' bs s (omega arith) later
        (sym (emit-none (decode_utf8 (inside more 0x80 0xBF acc') bs)) ∙ rw (decode_utf8, w) at e) a
  | inr w ↦ cc (rw (decode_utf8, w) at e)
]
  where
    at_least : (more acc : ℕ) → 2 ≤ acc → Large more 0x80 acc
    at_least zero acc h = h
    at_least (suc more) acc h = omega (arith, h)

-- What a first byte may be.
record Opens (b : ℕ) : Type 0 where
  more : ℕ
  lo : ℕ
  hi : ℕ
  acc : ℕ
  opens : lead_byte b ≡ some (inside more lo hi acc, none)
  low : 0x80 ≤ lo
  large : Large more lo acc

opening :
    (b more lo hi acc : ℕ)
    → lead_byte b ≡ some (inside more lo hi acc, none)
    → 0x80 ≤ lo
    → Large more lo acc
    → Opens b
opening b more lo hi acc e low large = record {
  more = more;
  lo = lo;
  hi = hi;
  acc = acc;
  opens = e;
  low = low;
  large = large;
}

several_bytes : (b : ℕ) → ltb b 0x80 ≡ false → (lead_byte b ≡ none) ⊎ Opens b
unfolding lead_byte
several_bytes b e = elim (Bool-cases (within 0xC2 0xDF b)) [
  | inl e0 ↦ inr (opening b 0 0x80 0xBF (b - 0xC0) (ground arith) (omega arith) (ground arith))
  | inr e0 ↦ elim (Bool-cases (b == 0xE0)) [
    | inl e1 ↦ inr (opening b 1 0xA0 0xBF (0) (ground arith) (omega arith) (ground arith))
    | inr e1 ↦ elim (Bool-cases (b == 0xED)) [
      | inl e2 ↦ inr (opening b 1 0x80 0x9F (0xD) (ground arith) (omega arith) (ground arith))
      | inr e2 ↦ elim (Bool-cases (within 0xE1 0xEF b)) [
        | inl e3 ↦
            inr (opening b 1 0x80 0xBF (b - 0xE0) (ground arith) (omega arith) (ground arith))
        | inr e3 ↦ elim (Bool-cases (b == 0xF0)) [
          | inl e4 ↦ inr (opening b 2 0x90 0xBF (0) (ground arith) (omega arith) (ground arith))
          | inr e4 ↦ elim (Bool-cases (within 0xF1 0xF3 b)) [
            | inl e5 ↦
                inr (opening b 2 0x80 0xBF (b - 0xF0) (ground arith) (omega arith) (ground arith))
            | inr e5 ↦ elim (Bool-cases (b == 0xF4)) [
              | inl e6 ↦ inr (opening b 2 0x80 0x8F (4) (ground arith) (omega arith) (ground arith))
              | inr e6 ↦ inl (ground arith)
            ]
          ]
        ]
      ]
    ]
  ]
]

one_byte : (b : ℕ) → ltb b 0x80 ≡ true → lead_byte b ≡ some (start, some b)
unfolding lead_byte
one_byte b e = ground (arith, e)

decoded-IsAscii : (bs s : List ℕ) → decode_utf8 start bs ≡ some s → IsAscii s → bs ≡ s
unfolding decode_utf8
decoded-IsAscii [] s e a = cc
decoded-IsAscii (b ∷ bs) s e a = elim (Bool-cases (ltb b 0x80)) [
  | inl k ↦
      let h = one_byte b k in
      first (decode_utf8 start bs) refl s (decoded-IsAscii bs) (rw (decode_utf8, h) at e) a
  | inr k ↦ elim (several_bytes b k) [
    | inl h ↦ absurd (let bad : ⊥ = cc (rw (decode_utf8, h) at e) in bad)
    | inr o ↦ absurd (
        inside-not_ascii o.more o.lo o.hi o.acc bs s o.low o.large
          (sym (emit-none (decode_utf8 (inside o.more o.lo o.hi o.acc) bs))
            ∙ rw (decode_utf8, o.opens) at e)
          a)
  ]
]
  where
    first :
        (r : Option (List ℕ))
        → decode_utf8 start bs ≡ r
        → (s : List ℕ) → ((t : List ℕ) → decode_utf8 start bs ≡ some t → IsAscii t → bs ≡ t)
        → emit (some b) r ≡ some s
        → IsAscii s
        → b ∷ bs ≡ s
    first none d s ih e a = absurd (let bad : ⊥ = cc in bad)
    first (some t) d [] ih e a = absurd (let bad : ⊥ = cc in bad)
    first (some t) d (c ∷ s) ih e (_, a) =
        let head : b ≡ c = cc in let tail : t ≡ s = cc in rw (head, ih s (rw tail at d) a) refl

-- Bytes that read as ASCII characters are these characters.
pub from_utf8-IsAscii : (bs s : List ℕ) → from_utf8 bs ≡ some s → IsAscii s → bs ≡ s
unfolding from_utf8
from_utf8-IsAscii = decoded-IsAscii
