-- ===== src/ParseHostPort/Ports.antt =====
-- The end of a run: a port, or no port.
use uri.Text.Numbers.Laws.{parse_uint-decimal}
use uri.Text.{Text}
use uri.Error.{ok}
use uri.Text.Numbers.{parsed, empty, not_parsed, parse_uint, decimal, u16_max}
use uri.Prelude.{Option, refl, ◌∙◌, some, ◌∷◌, none, ◌++◌, [], ◌≤◌, ℕ, ◌≡◌}
use uri.ParseHostPort.{
  Shared, not_ip_literal, garbage_check, port, next, finalize, finalize_host, finalize_port,
}
use uri.ParseHostPort.Steps.{runs, runs-port}

-- `u16` or nothing.
abbrev pub IsPort : Option ℕ → Type 0
IsPort none = Unit
IsPort (some n) = n ≤ u16_max

pub finalize_port-decimal : (n : ℕ) → n ≤ u16_max → finalize_port (decimal n) ≡ ok (some n)
unfolding finalize_port
finalize_port-decimal n h = go (decimal n) (parse_uint-decimal u16_max n h)
  where
    parse_empty : parse_uint u16_max [] ≡ not_parsed empty
    parse_empty = unfold parse_uint in refl

    go : (s : Text) → parse_uint u16_max s ≡ parsed n → finalize_port s ≡ ok (some n)
    go [] e = cc (parse_empty)
    go (c ∷ s) e = rw (e, finalize_port)

module _ (sh : Shared) (empty_port : sh.port_string ≡ []) where
  -- Behind a host or a bracketed address the text may end.
  pub runs_end :
      (runs (not_ip_literal sh) [] ≡ ok (finalize_host sh, none))
      × (runs (garbage_check sh) [] ≡ ok (finalize_host sh, none))
  unfolding finalize finalize_port
  runs_end = (rw empty_port, rw empty_port)

  finalize-decimal :
      (n : ℕ)
      → n ≤ u16_max
      → finalize (port (record sh { port_string = sh.port_string ++ decimal n }))
        ≡ ok (finalize_host sh, some n)
  unfolding finalize
  finalize-decimal n h = rw (empty_port, finalize_port-decimal n h)

  -- Or a colon and a port follow.
  pub runs_colon :
      (n : ℕ)
      → n ≤ u16_max
      → (runs (not_ip_literal sh) (b':' ∷ decimal n) ≡ ok (finalize_host sh, some n))
        × (runs (garbage_check sh) (b':' ∷ decimal n) ≡ ok (finalize_host sh, some n))
  unfolding next
  runs_colon n h = let done = runs-port (decimal n) sh ∙ finalize-decimal n h in (done, done)
