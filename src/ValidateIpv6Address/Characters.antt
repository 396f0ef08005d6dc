-- ===== src/ValidateIpv6Address/Characters.antt =====
-- src/validate_ipv6_address.rs: the characters of an accepted address, and the results of the machine.
use uri.ValidateIpv6Address.Cut.{cut_finalize, cut_run}
use uri.ValidateIpv6Address.Slices.{validate_ipv6_address-cut}
use uri.ValidateIpv6Address.Loop.{ipv6_char, IsIpv6Text, At, Stops, cut_run-new-Stops}
use uri.Error.Ensures.{bind-Ensures, Ensures}
use uri.ValidateIpv4Address.{validate_ipv4_address}
use uri.ValidateIpv4Address.Characters.{
  validate_ipv4_address-Ensures, validate_ipv4_address_chars, ipv4_char,
}
use mathlib.Core.Path.{subst}
use uri.Text.{Text}
use uri.Prelude.{
  ap, All-append, sym, zero, drop, ◌∙◌, refl, [], suc, ◌∷◌, length, ◌++◌, arith, ◌≡◌, ◌≤◌, true,
  All, ℕ, Bool,
}
use uri.Error.{bind-eq-ok, ◌>>=◌, panic, err, ok, Result}
use uri.ValidateIpv6Address.{
  recover, new, validate_ipv6_address, State, Shared, error, ipv4_trailer, MachineExitStatus,
  no_groups_yet, in_group_ipv4,
}

drop-append : (n : ℕ) (xs ys : Text) → n ≤ length xs → drop n (xs ++ ys) ≡ drop n xs ++ ys
drop-append zero xs ys h = refl
drop-append (suc n) [] ys h = absurd (omega arith)
drop-append (suc n) (x ∷ xs) ys h = drop-append n xs ys (omega arith)

All-drop :
    (p : ℕ → Bool) (xs ys : Text) → All (λ c. p c ≡ true) (xs ++ ys) → All (λ c. p c ≡ true) ys
All-drop p [] ys h = h
All-drop p (x ∷ xs) ys h = All-drop p xs ys h.1

ipv4-ipv6_chars : (s : Text) → All (λ c. ipv4_char c ≡ true) s → IsIpv6Text s
ipv4-ipv6_chars [] h = tt
ipv4-ipv6_chars (c ∷ s) (h, hs) = (ground arith, ipv4-ipv6_chars s hs)

finalize_trailer :
    (sh : Shared) {u : Unit {0}}
    → cut_finalize (in_group_ipv4 sh) ≡ ok u
    → validate_ipv4_address (drop sh.potential_ipv4_address_start sh.address) ≡ ok tt
unfolding cut_finalize
finalize_trailer sh h =
    let (v, first, _) =
      bind-eq-ok (validate_ipv4_address (drop sh.potential_ipv4_address_start sh.address)) _ h in
    first

trailer_chars :
    {read unread : Text} {i : ℕ} (sh : Shared)
    → At sh i read unread
    → validate_ipv4_address (drop sh.potential_ipv4_address_start sh.address) ≡ ok tt
    → IsIpv6Text (read ++ unread)
trailer_chars {read} {unread} sh at h =
    let start = sh.potential_ipv4_address_start in
    let cut =
      ap (drop start) at.address_is
      ∙ drop-append start read unread (omega (arith, at.start_le, at.position)) in
    let quad = ipv4-ipv6_chars _ (validate_ipv4_address_chars _ (rw cut at h)) in
    All-append _ read unread at.chars (All-drop ipv6_char (drop start read) unread quad)

Stops-chars :
    (s : Text) (r : Result MachineExitStatus State) {u : Unit {0}}
    → Stops s r
    → (recover r >>= cut_finalize) ≡ ok u
    → IsIpv6Text s
Stops-chars s (ok st) stops h = stops.0
Stops-chars s (err (error e)) stops h = cc
Stops-chars s (err (ipv4_trailer sh)) (read, unread, at, e) h =
    subst IsIpv6Text (sym at.address_is ∙ e) (trailer_chars sh at (finalize_trailer sh h))
Stops-chars s panic stops h = absurd stops

-- An accepted address holds hexadecimal digits, colons and dots alone.
pub validate_ipv6_address_chars :
    (s : Text) {u : Unit {0}} → validate_ipv6_address s ≡ ok u → IsIpv6Text s
validate_ipv6_address_chars s h =
    Stops-chars s (cut_run (new s) 0 s) (cut_run-new-Stops s)
      (sym (validate_ipv6_address-cut s) ∙ h)

cut_finalize-Ensures : (st : State) → Ensures (λ _. Unit {0}) (cut_finalize st)
unfolding cut_finalize
cut_finalize-Ensures (in_group_ipv4 sh) =
    bind-Ensures (λ _. Unit {0}) (λ _. Unit {0})
      (validate_ipv4_address (drop sh.potential_ipv4_address_start sh.address)) _
      (validate_ipv4_address-Ensures (drop sh.potential_ipv4_address_start sh.address))
      (λ _ _. ground arith)
cut_finalize-Ensures (no_groups_yet sh) = ground arith
cut_finalize-Ensures _ = ground arith

Stops-Ensures :
    (s : Text) (r : Result MachineExitStatus State)
    → Stops s r
    → Ensures (λ _. Unit {0}) (recover r >>= cut_finalize)
Stops-Ensures s (ok st) h = cut_finalize-Ensures st
Stops-Ensures s (err (error e)) h = tt
Stops-Ensures s (err (ipv4_trailer sh)) h = cut_finalize-Ensures (in_group_ipv4 sh)
Stops-Ensures s panic h = absurd h

-- The machine never panics: no slice of the address is behind its end or inside a character.
pub validate_ipv6_address-Ensures : (s : Text) → Ensures (λ _. Unit {0}) (validate_ipv6_address s)
validate_ipv6_address-Ensures s =
    rw (validate_ipv6_address-cut s) (Stops-Ensures s (cut_run (new s) 0 s) (cut_run-new-Stops s))
