-- ===== src/Codec.antt =====
-- src/codec.rs: percent-decoding and percent-encoding of one element of a URI.
pub mod RoundTrip
pub mod Decoded
pub mod Output
pub mod Grammar
pub mod Failures
use uri.Prelude.{ℕ, ◌%◌, Bool, true, false, [], ◌∷◌, ◌++◌, Option, none, some, ◌==◌, if◌then◌else◌}
use uri.Text.{Text, Bytes}
use uri.Text.Numbers.{upper_hex}
use uri.Error.{Context, Error, illegal_character, Result, ok, err, panic, ◌>>=◌}
use uri.CharacterClasses.{CharSet}
use uri.PercentEncodedCharacterDecoder as Pec
use uri.PercentEncodedCharacterDecoder.{PercentEncodedCharacterDecoder}

-- The variables that the closure of `decode_element` captures.
pub record Decoding : Type 0 where
  pub decoding_pec : Bool
  pub pec_decoder : PercentEncodedCharacterDecoder

-- `transpose`, and the closure that clears `decoding_pec` where there is an item.
abbrev pub finish_pec :
    PercentEncodedCharacterDecoder × Result Error (Option ℕ) → Decoding × Option (Result Error ℕ)
finish_pec (d, ok none) = (record { decoding_pec = true; pec_decoder = d }, none)
finish_pec (d, ok (some b)) = (record { decoding_pec = false; pec_decoder = d }, some (ok b))
finish_pec (d, err e) = (record { decoding_pec = false; pec_decoder = d }, some (err e))
finish_pec (d, panic) = (record { decoding_pec = true; pec_decoder = d }, some panic)

-- The closure that `filter_map` calls on each character.
unfoldable pub decode_char : CharSet → Context → Decoding → ℕ → Decoding × Option (Result Error ℕ)
decode_char allowed context st c =
    if st.decoding_pec
    then finish_pec (Pec.next st.pec_decoder c)
    else if c == b'%'
    then (record st { decoding_pec = true }, none)
    else if allowed c
    then (st, some (ok (c % 256)))
    else (st, some (err (illegal_character context)))

-- An item in front of what `collect` makes of the others.
abbrev pub collect_item : Option (Result Error ℕ) → Result Error Bytes → Result Error Bytes
collect_item none rest = rest
collect_item (some item) rest = do b ← item; bs ← rest; ok (b ∷ bs)

-- `filter_map` and `collect`, which stops at the first error.
unfoldable pub decode_from : CharSet → Context → Decoding → Text → Result Error Bytes
unfolding decode_char
decode_from allowed context st [] = ok []
decode_from allowed context st (c ∷ s) =
    let (st', item) = decode_char allowed context st c in
    collect_item item (decode_from allowed context st' s)

abbrev pub not_decoding : Decoding
not_decoding = record { decoding_pec = false; pec_decoder = Pec.new }

unfoldable pub decode_element : Text → CharSet → Context → Result Error Bytes
unfolding decode_from
decode_element element allowed context = decode_from allowed context not_decoding element

-- One round of the loop of `encode_element`; every byte is a `char`.
unfoldable pub encode_byte : CharSet → ℕ → Text
encode_byte allowed b = if allowed b then b ∷ [] else b'%' ∷ upper_hex b

unfoldable pub encode_element : Bytes → CharSet → Text
unfolding encode_byte
encode_element [] allowed = []
encode_element (b ∷ bs) allowed = encode_byte allowed b ++ encode_element bs allowed
