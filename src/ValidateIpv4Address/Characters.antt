-- ===== src/ValidateIpv4Address/Characters.antt =====
-- src/validate_ipv4_address.rs: the characters of an accepted address, and the results of the machine.
use uri.Error.Ensures.{try_fold-Ensures, bind-Ensures, Ensures}
use uri.CharacterClasses.{digit}
use uri.Prelude.{[], arith, ◌∷◌, ◌==◌, ◌||◌, All, true, within, ◌≡◌, Bool, ℕ}
use uri.Text.{Text}
use uri.Error.{ok, bind-eq-ok, try_fold}
use uri.ValidateIpv4Address.{State, next, new, finalize, validate_ipv4_address}

abbrev pub ipv4_char : ℕ → Bool
ipv4_char c = within b'0' b'9' c || c == b'.'

next_char : (st : State) (c : ℕ) {st' : State} → next st c ≡ ok st' → ipv4_char c ≡ true
unfolding next digit
next_char (State.not_in_octet sh) c h = ground arith
next_char (State.expect_digit_or_dot sh) c h = ground arith

pub try_fold_chars :
    (s : Text) (st : State) {st' : State}
    → try_fold next st s ≡ ok st'
    → All (λ c. ipv4_char c ≡ true) s
try_fold_chars [] st h = tt
try_fold_chars (c ∷ s) st h =
    let (st1, first, rest) = bind-eq-ok (next st c) (λ st1. try_fold next st1 s) h in
    (next_char st c first, try_fold_chars s st1 rest)

-- An accepted address holds digits and dots alone.
pub validate_ipv4_address_chars :
    (s : Text) {u : Unit {0}} → validate_ipv4_address s ≡ ok u → All (λ c. ipv4_char c ≡ true) s
unfolding validate_ipv4_address
validate_ipv4_address_chars s h =
    let (st, run, _) = bind-eq-ok (try_fold next new s) finalize h in try_fold_chars s new run

next-Ensures : (st : State) (c : ℕ) → Ensures (λ _. Unit {0}) (next st c)
unfolding next
next-Ensures (State.not_in_octet sh) c = ground arith
next-Ensures (State.expect_digit_or_dot sh) c = ground arith

finalize_octet-Ensures :
    (n : ℕ) (s : Text)
    → Ensures
        (λ _. Unit {0})
        (finalize (State.expect_digit_or_dot (record { num_groups = n; octet_buffer = s })))
unfolding finalize
finalize_octet-Ensures n [] = ground arith
finalize_octet-Ensures n (c ∷ s) = ground arith

finalize-Ensures : (st : State) → Ensures (λ _. Unit {0}) (finalize st)
finalize-Ensures (State.not_in_octet sh) = unfold finalize in tt
finalize-Ensures (State.expect_digit_or_dot sh) =
    finalize_octet-Ensures sh.num_groups sh.octet_buffer

-- The machine never panics.
pub validate_ipv4_address-Ensures : (s : Text) → Ensures (λ _. Unit {0}) (validate_ipv4_address s)
unfolding validate_ipv4_address
validate_ipv4_address-Ensures s =
    bind-Ensures (λ _. Unit {0}) (λ _. Unit {0}) (try_fold next new s) finalize
      (try_fold-Ensures (λ _. Unit {0}) next (λ st c _. next-Ensures st c) s new tt)
      (λ st _. finalize-Ensures st)
