-- ===== src/ValidateIpv6Address/Loop.antt =====
-- src/validate_ipv6_address.rs: where the loop over an address stands and how it stops.
use uri.ValidateIpv6Address.Cut.{cut_run}
use mathlib.Core.Path.{subst}
use uri.Text.{Text}
use uri.CharacterClasses.{hexdig, digit}
use uri.Prelude.{
  All-append, length-append, append_assoc, sym, ◌∙◌, refl, [], suc, ◌∷◌, append-nil, length, ◌++◌,
  arith, ◌==◌, ◌||◌, ◌≡◌, false, ◌≤◌, true, within, All, ℕ, Bool,
}
use uri.Error.{◌>>=◌, panic, err, ok, Result}
use uri.ValidateIpv6Address.{
  new, State, Shared, next, error, ipv4_trailer, MachineExitStatus, no_groups_yet,
  colon_but_no_groups_yet, after_double_colon, in_group_not_ipv4, in_group_could_be_ipv4,
  in_group_ipv4, colon_after_group,
}

abbrev pub ipv6_char : ℕ → Bool
ipv6_char c =
    within b'0' b'9' c || within b'A' b'F' c || within b'a' b'f' c || c == b':' || c == b'.'

abbrev pub IsIpv6Text : Text → Type 0
IsIpv6Text = All (λ c. ipv6_char c ≡ true)

abbrev pub shared : State → Shared
shared (no_groups_yet sh) = sh
shared (colon_but_no_groups_yet sh) = sh
shared (after_double_colon sh) = sh
shared (in_group_not_ipv4 sh) = sh
shared (in_group_could_be_ipv4 sh) = sh
shared (in_group_ipv4 sh) = sh
shared (colon_after_group sh) = sh

abbrev pub in_trailer : State → Bool
in_trailer (in_group_ipv4 _) = true
in_trailer _ = false

-- What one step keeps, before position `i`.
abbrev Keeps : Shared → ℕ → Result MachineExitStatus State → Type 0
Keeps sh i (ok st) =
    ((shared st).address ≡ sh.address)
    × ((shared st).potential_ipv4_address_start ≤ i)
    × (in_trailer st ≡ false)
Keeps sh i (err (ipv4_trailer sh')) = sh' ≡ sh
Keeps sh i (err (error e)) = Unit
Keeps sh i panic = ⊥

-- One step: an accepted character is one of an address, and the address stays.
next-Keeps :
    (st : State) (i c : ℕ)
    → (shared st).potential_ipv4_address_start ≤ i
    → in_trailer st ≡ false
    → Keeps (shared st) i (next st i c)
unfolding next digit hexdig
next-Keeps (no_groups_yet sh) i c h t = ground arith
next-Keeps _ i c h t = ground arith

pub next_char :
    (st : State) (i c : ℕ) {st' : State}
    → in_trailer st ≡ false
    → next st i c ≡ ok st'
    → ipv6_char c ≡ true
unfolding next digit hexdig
next_char (no_groups_yet sh) i c t h = ground arith
next_char _ i c t h = ground arith

-- Where the loop stands: what is read is made of address characters.
pub record At (sh : Shared) (i : ℕ) (read unread : Text) : Type 0 where
  pub address_is : sh.address ≡ read ++ unread
  pub position : i ≡ length read
  pub chars : IsIpv6Text read
  pub start_le : sh.potential_ipv4_address_start ≤ i

-- How the loop may stop.
abbrev pub Stops : Text → Result MachineExitStatus State → Type 0
Stops whole (ok st) = IsIpv6Text whole × (in_trailer st ≡ false)
Stops whole (err (ipv4_trailer sh)) =
    (read : Text) × (unread : Text) × At sh (length read) read unread × (sh.address ≡ whole)
Stops whole (err (error e)) = Unit
Stops whole panic = ⊥

-- One accepted character further.
At-next :
    {read s : Text} {i : ℕ} (st : State) (c : ℕ) {st' : State}
    → At (shared st) i read (c ∷ s)
    → in_trailer st ≡ false
    → next st i c ≡ ok st'
    → At (shared st') (suc i) (read ++ c ∷ []) s × (in_trailer st' ≡ false)
At-next {read} {s} {i} st c {st'} at t e =
    let kept : Keeps (shared st) i (ok st') = rw e at (next-Keeps st i c at.start_le t) in
    (
      record {
        address_is = kept.0 ∙ at.address_is ∙ sym (append_assoc read (c ∷ []) s);
        position = omega (arith, at.position, length-append {0} read (c ∷ []));
        chars = All-append _ read (c ∷ []) at.chars (next_char st i c t e, tt);
        start_le = omega (arith, kept.1);
      },
      kept.2,
    )

cut_run-Stops :
    (unread read : Text) (st : State) (i : ℕ)
    → At (shared st) i read unread
    → in_trailer st ≡ false
    → Stops (read ++ unread) (cut_run st i unread)
unfolding cut_run
cut_run-Stops [] read st i at t = (rw append-nil at.chars, t)
cut_run-Stops (c ∷ s) read st i at t =
    go (next st i c) refl (λ st'. cut_run-Stops s (read ++ c ∷ []) st' (suc i))
  where
    go :
        (r : Result MachineExitStatus State)
        → next st i c ≡ r
        → ((st' : State)
            → At (shared st') (suc i) (read ++ c ∷ []) s
            → in_trailer st' ≡ false
            → Stops ((read ++ c ∷ []) ++ s) (cut_run st' (suc i) s))
        → Stops (read ++ c ∷ s) (r >>= λ st'. cut_run st' (suc i) s)
    go (ok st') e ih =
        let (at', t') = At-next st c at t e in
        subst (λ w. Stops w (cut_run st' (suc i) s)) (append_assoc read (c ∷ []) s) (ih st' at' t')
    go (err (error x)) e ih = tt
    go (err (ipv4_trailer sh)) e ih =
        let same : sh ≡ shared st = rw e at (next-Keeps st i c at.start_le t) in
        (read, c ∷ s, rw (same, ← at.position) at, rw same at.address_is)
    go panic e ih = rw e at (next-Keeps st i c at.start_le t)

pub cut_run-new-Stops : (s : Text) → Stops s (cut_run (new s) 0 s)
cut_run-new-Stops s =
    cut_run-Stops s [] (new s) 0
      (record { address_is = refl; position = refl; chars = tt; start_le = omega arith }) refl
