-- ===== src/ValidateIpv6Address/Slices.antt =====
-- src/validate_ipv6_address.rs: the positions of the machine count bytes, and its slice does not panic:
-- only ASCII characters are read in front of it.
use uri.CharacterClasses.{hexdig, digit}
use uri.Prelude.{true, ◌<◌, drop, ℕ, All, ◌≡◌, length, suc, ◌+◌, ◌∷◌, [], refl, arith, false}
use uri.Text.{Text}
use uri.Text.Str.{len_utf8, slice_from}
use uri.Text.Str.Offsets.{slice_from-ascii}
use uri.Error.{Result, ok, err, panic, ◌>>=◌}
use uri.ValidateIpv6Address.Cut.{cut_finalize, cut_run}
use uri.ValidateIpv6Address.Loop.{
  ipv6_char, IsIpv6Text, At, Stops, cut_run-new-Stops, next_char, in_trailer,
}
use uri.ValidateIpv6Address.{
  new, run, recover, finalize, validate_ipv6_address, State, Shared, next, error, ipv4_trailer,
  MachineExitStatus, no_groups_yet, colon_but_no_groups_yet, after_double_colon, in_group_not_ipv4,
  in_group_could_be_ipv4, in_group_ipv4, colon_after_group,
}

ipv6_char-ascii : (c : ℕ) → ipv6_char c ≡ true → c < 128
ipv6_char-ascii c h = ground arith

IsIpv6Text-ascii : (s : Text) → IsIpv6Text s → All (λ c. c < 128) s
IsIpv6Text-ascii [] h = tt
IsIpv6Text-ascii (c ∷ s) (h, hs) = (ipv6_char-ascii c h, IsIpv6Text-ascii s hs)

next-in_trailer :
    (st : State) (i c : ℕ) {st' : State}
    → in_trailer st ≡ false
    → next st i c ≡ ok st'
    → in_trailer st' ≡ false
unfolding next digit hexdig
next-in_trailer (no_groups_yet sh) i c t h = ground arith
next-in_trailer _ i c t h = ground arith

pub run-cut_run :
    (s : Text) (st : State) (i : ℕ) → in_trailer st ≡ false → run st i s ≡ cut_run st i s
unfolding run cut_run
run-cut_run [] st i t = refl
run-cut_run (c ∷ s) st i t = go (next st i c) refl (λ st'. run-cut_run s st' (suc i))
  where
    go :
        (r : Result MachineExitStatus State)
        → next st i c ≡ r
        → ((st' : State) → in_trailer st' ≡ false → run st' (suc i) s ≡ cut_run st' (suc i) s)
        → (r >>= λ st'. run st' (i + len_utf8 c) s) ≡ (r >>= λ st'. cut_run st' (suc i) s)
    go (ok st') e ih =
        let low : c < 128 = ipv6_char-ascii c (next_char st i c t e) in
        let one : i + len_utf8 c ≡ suc i = ground (arith, low) in
        rw one (ih st' (next-in_trailer st i c t e))
    go (err e) h ih = refl
    go panic h ih = refl

finalize-cut_finalize : (st : State) → in_trailer st ≡ false → finalize st ≡ cut_finalize st
unfolding finalize cut_finalize
finalize-cut_finalize (no_groups_yet sh) t = refl
finalize-cut_finalize (colon_but_no_groups_yet sh) t = refl
finalize-cut_finalize (after_double_colon sh) t = refl
finalize-cut_finalize (in_group_not_ipv4 sh) t = refl
finalize-cut_finalize (in_group_could_be_ipv4 sh) t = refl
finalize-cut_finalize (in_group_ipv4 sh) t = let bad : ⊥ = cc in absurd bad
finalize-cut_finalize (colon_after_group sh) t = refl

trailer-slice :
    {read unread : Text} (sh : Shared)
    → At sh (length read) read unread
    → finalize (in_group_ipv4 sh) ≡ cut_finalize (in_group_ipv4 sh)
unfolding finalize cut_finalize
trailer-slice {read} {unread} sh at =
    let start = sh.potential_ipv4_address_start in
    let slice : slice_from start sh.address ≡ ok (drop start sh.address) =
      rw (at.address_is)
        (slice_from-ascii start read unread (IsIpv6Text-ascii read at.chars) at.start_le) in
    rw slice refl

-- The machine is the one whose positions count characters, on every text.
pub validate_ipv6_address-cut :
    (s : Text) → validate_ipv6_address s ≡ (recover (cut_run (new s) 0 s) >>= cut_finalize)
unfolding validate_ipv6_address
validate_ipv6_address-cut s =
    rw (run-cut_run s (new s) 0 refl) (go (cut_run (new s) 0 s) (cut_run-new-Stops s))
  where
    go :
        (r : Result MachineExitStatus State)
        → Stops s r
        → (recover r >>= finalize) ≡ (recover r >>= cut_finalize)
    go (ok st) (chars, t) = finalize-cut_finalize st t
    go (err (ipv4_trailer sh)) (read, unread, at, e) = trailer-slice sh at
    go (err (error e)) h = refl
    go panic h = refl
