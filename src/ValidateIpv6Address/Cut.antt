-- ===== src/ValidateIpv6Address/Cut.antt =====
-- src/validate_ipv6_address.rs: the loop and the end of the machine with positions that count
-- characters and a cut that cannot fail.
use uri.Prelude.{ℕ, suc, [], ◌∷◌, drop}
use uri.Text.{Text}
use uri.Error.{Error, truncated_host, Result, ok, err, ◌>>=◌, ◌>>◌}
use uri.ValidateIpv4Address.{validate_ipv4_address}
use uri.ValidateIpv6Address.{
  State, MachineExitStatus, next, check_shared, add_groups, no_groups_yet, colon_but_no_groups_yet,
  after_double_colon, in_group_not_ipv4, in_group_could_be_ipv4, in_group_ipv4, colon_after_group,
}

unfoldable pub cut_finalize : State → Result Error (Unit {0})
unfolding check_shared add_groups
cut_finalize (no_groups_yet st) = check_shared st
cut_finalize (colon_but_no_groups_yet _) = err truncated_host
cut_finalize (after_double_colon st) = check_shared st
cut_finalize (in_group_not_ipv4 st) = check_shared (add_groups 1 st)
cut_finalize (in_group_could_be_ipv4 st) = check_shared (add_groups 1 st)
cut_finalize (in_group_ipv4 st) =
    validate_ipv4_address (drop st.potential_ipv4_address_start st.address)
    >> check_shared (add_groups 2 st)
cut_finalize (colon_after_group _) = err truncated_host

-- `try_fold` over `char_indices`, from position `i`, which counts characters.
unfoldable pub cut_run : State → ℕ → Text → Result MachineExitStatus State
unfolding next
cut_run st i [] = ok st
cut_run st i (c ∷ s) = next st i c >>= λ st'. cut_run st' (suc i) s
