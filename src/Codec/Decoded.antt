-- ===== src/Codec/Decoded.antt =====
-- src/codec.rs: what `decode_element` returns, whatever it is given.
use uri.Codec.RoundTrip.{IsByte}
use uri.Error.Ensures.{bind-Ensures, Ensures}
use uri.Text.{Bytes, Text}
use uri.Prelude.{arith, [], ◌==◌, ◌∷◌, inr, none, inl, All, some, Bool-cases, ℕ, Option}
use uri.CharacterClasses.{CharSet}
use uri.PercentEncodedCharacterDecoder as Pec
use uri.PercentEncodedCharacterDecoder.Digits.{IsReady, Sound, next-Sound, new-IsReady}
use uri.Error.{Context, Result, Error, ok, err, panic}
use uri.Codec.{Decoding, decode_char, decode_from, decode_element, collect_item, finish_pec}

abbrev GoodItem : Decoding × Option (Result Error ℕ) → Type 0
GoodItem (st, none) = IsReady st.pec_decoder
GoodItem (st, some r) = IsReady st.pec_decoder × Ensures IsByte r

finish_pec-GoodItem :
    (r : Pec.PercentEncodedCharacterDecoder × Result Error (Option ℕ))
    → Sound r
    → GoodItem (finish_pec r)
finish_pec-GoodItem (d, ok none) h = h
finish_pec-GoodItem (d, ok (some b)) (e, h) = (rw e new-IsReady, h)
finish_pec-GoodItem (d, err x) (e, _) = (rw e new-IsReady, tt)
finish_pec-GoodItem (d, panic) h = absurd h

decode_char-GoodItem :
    (allowed : CharSet) (context : Context) (st : Decoding) (c : ℕ)
    → IsReady st.pec_decoder
    → GoodItem (decode_char allowed context st c)
unfolding decode_char
decode_char-GoodItem allowed context st c h = elim (Bool-cases st.decoding_pec) [
  | inl e ↦ rw e (finish_pec-GoodItem (Pec.next st.pec_decoder c) (next-Sound st.pec_decoder c h))
  | inr e ↦ rw e (elim (Bool-cases (c == b'%')) [
    | inl p ↦ rw p h
    | inr p ↦
        rw p
          (elim (Bool-cases (allowed c)) [ inl a ↦ rw a (h, omega arith) | inr a ↦ rw a (h, tt) ])
  ])
]

collect_item-Ensures :
    (item : Option (Result Error ℕ)) (rest : Result Error Bytes) (st : Decoding)
    → GoodItem (st, item)
    → Ensures (All IsByte) rest
    → Ensures (All IsByte) (collect_item item rest)
collect_item-Ensures none rest st g h = h
collect_item-Ensures (some item) rest st g h =
    bind-Ensures IsByte (All IsByte) item _ g.1
      (λ b hb. bind-Ensures (All IsByte) (All IsByte) rest _ h (λ bs hs. (hb, hs)))

item-IsReady : (r : Decoding × Option (Result Error ℕ)) → GoodItem r → IsReady r.0.pec_decoder
item-IsReady (st, none) h = h
item-IsReady (st, some r) h = h.0

decode_from-Ensures :
    (allowed : CharSet) (context : Context) (s : Text) (st : Decoding)
    → IsReady st.pec_decoder
    → Ensures (All IsByte) (decode_from allowed context st s)
unfolding decode_from
decode_from-Ensures allowed context [] st h = tt
decode_from-Ensures allowed context (c ∷ s) st h =
    let step = decode_char allowed context st c in
    let good = decode_char-GoodItem allowed context st c h in
    collect_item-Ensures step.1 (decode_from allowed context step.0 s) step.0 good
      (decode_from-Ensures allowed context s step.0 (item-IsReady step good))

-- Decoding never panics, and what it returns is bytes.
pub decode_element-Ensures :
    (element : Text) (allowed : CharSet) (context : Context)
    → Ensures (All IsByte) (decode_element element allowed context)
unfolding decode_element
decode_element-Ensures element allowed context =
    decode_from-Ensures allowed context element _ new-IsReady
