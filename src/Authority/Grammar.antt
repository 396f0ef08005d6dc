-- ===== src/Authority/Grammar.antt =====
-- The grammar of an authority (RFC 3986, 3.2), and what the parser of src/authority.rs accepts.
use uri.Authority.Cut.{parse_userinfo-cut_userinfo, cut_userinfo}
use uri.Codec.{decode_element}
use uri.CharacterClasses.{user_info_not_pct_encoded}
use uri.ParseHostPort.{parse_host_port}
use uri.Text.Slices.Laws.{find-append, find-eq-none, Avoids}
use uri.Text.Slices.{find}
use uri.Error.{◌>>=◌, Context, Error, Result, bind-eq-ok, ok}
use uri.Prelude.{
  sym, ap, drop-suc-length, ◌∙◌, take-length, ==_iff, suc, drop, ◌⊎◌, inr, take, none, ◌∷◌, some,
  ◌↔◌, ◌++◌, inl, refl, ◌==◌, ◌≡◌, ℕ, Option,
}
use uri.Text.{Bytes, Text}
use uri.ParseHostPort.Grammar.{IsHostPort}
use uri.ParseHostPort.Accepted.{parse_host_port-IsHostPort}
use uri.Codec.Grammar.{Decodes, decode_element-Decodes}
use uri.Uri.Components.Splits.{
  take_until-drop_until, take-find, found-cons, drop-find, Avoids-take_until, Avoids-find,
}
use uri.Authority.{parse, parse_userinfo, Authority}

-- A userinfo, decoded, stands in front of the first `@`.
pub record HasUserinfo (s : Text) (userinfo : Option Bytes) (rest : Text) : Type 0 where
  pub text : Text
  pub bytes : Bytes
  pub spells : s ≡ text ++ (b'@' ∷ rest)
  pub first : Avoids (λ c. c == b'@') text
  pub decodes : Decodes user_info_not_pct_encoded text bytes
  pub userinfo_is : userinfo ≡ some bytes

abbrev pub IsUserinfo : Text → Option Bytes → Text → Type 0
IsUserinfo s userinfo rest =
    (Avoids (λ c. c == b'@') s × (userinfo ≡ none) × (rest ≡ s)) ⊎ HasUserinfo s userinfo rest

-- `[ userinfo "@" ] host [ ":" port ]`
pub record IsAuthority (s : Text) (a : Authority) : Type 0 where
  pub rest : Text
  pub userinfo_part : IsUserinfo s a.userinfo rest
  pub host_port : IsHostPort rest a.host a.port

at_sign :
    (s : Text) (n : ℕ)
    → find (λ c. c == b'@') s ≡ some n
    → (s ≡ take n s ++ (b'@' ∷ drop (suc n) s)) × Avoids (λ c. c == b'@') (take n s)
at_sign s n e =
    let (c, r, behind, is_at) = found-cons (λ c. c == b'@') s n e in
    let sign : c ≡ b'@' = (==_iff c b'@').0 is_at in
    let front = take-find (λ c. c == b'@') s n e in
    let back : drop (suc n) s ≡ r = drop-find (λ c. c == b'@') s n e ∙ ap (drop 1) behind in
    (
      sym (take_until-drop_until (λ c. c == b'@') s) ∙ rw (behind, sign, front, back) refl,
      rw front (Avoids-take_until (λ c. c == b'@') s),
    )

IsUserinfo-sound :
    (s : Text) (u : Option Bytes) (rest : Text)
    → parse_userinfo s ≡ ok (u, rest)
    → IsUserinfo s u rest
unfolding cut_userinfo
IsUserinfo-sound s u rest h =
    go (find (λ c. c == b'@') s) refl (sym (parse_userinfo-cut_userinfo s) ∙ h)
  where
    go :
        (r : Option ℕ)
        → find (λ c. c == b'@') s ≡ r
        → (elim r as (λ _. Result Error (Option Bytes × Text)) [
          | some n ↦
              decode_element (take n s) user_info_not_pct_encoded Context.userinfo >>= λ userinfo.
              ok (some userinfo, drop (suc n) s)
          | none ↦ ok (none, s)
        ])
          ≡ ok (u, rest)
        → IsUserinfo s u rest
    go none e h = inl (Avoids-find (λ c. c == b'@') s e, cc, cc)
    go (some n) e h =
        let (bs, d, q) = bind-eq-ok (decode_element (take n s) user_info_not_pct_encoded _) _ h in
        let (spells, first) = at_sign s n e in
        let same : rest ≡ drop (suc n) s = cc (q) in
        inr (record {
          text = take n s;
          bytes = bs;
          spells = rw same spells;
          first = first;
          decodes = (decode_element-Decodes (take n s) user_info_not_pct_encoded _ bs).0 d;
          userinfo_is = cc;
        })

parse_userinfo-append :
    (text rest : Text) (bytes : Bytes)
    → Avoids (λ c. c == b'@') text
    → Decodes user_info_not_pct_encoded text bytes
    → parse_userinfo (text ++ (b'@' ∷ rest)) ≡ ok (some bytes, rest)
unfolding cut_userinfo
parse_userinfo-append text rest bytes first decodes =
    let at = find-append (λ c. c == b'@') text rest b'@' first refl in
    let decoded =
      (decode_element-Decodes text user_info_not_pct_encoded Context.userinfo bytes).1 decodes in
    rw
      (
        parse_userinfo-cut_userinfo,
        cut_userinfo,
        at,
        take-length text (b'@' ∷ rest),
        drop-suc-length text rest b'@',
        decoded,
      )
      refl

IsUserinfo-complete :
    (s : Text) (u : Option Bytes) (rest : Text)
    → IsUserinfo s u rest
    → parse_userinfo s ≡ ok (u, rest)
unfolding cut_userinfo
IsUserinfo-complete s u rest (inl (avoids, none_is, rest_is)) =
    rw
      (
        parse_userinfo-cut_userinfo,
        cut_userinfo,
        find-eq-none (λ c. c == b'@') s avoids,
        none_is,
        rest_is,
      )
      refl
IsUserinfo-complete s u rest (inr h) =
    ap parse_userinfo h.spells
    ∙ parse_userinfo-append h.text rest h.bytes h.first h.decodes
    ∙ ap (λ (o : Option Bytes). ok (o, rest)) (sym h.userinfo_is)

IsAuthority-sound : (s : Text) (a : Authority) → parse s ≡ ok a → IsAuthority s a
unfolding parse
IsAuthority-sound s a h =
    let ((u, rest), first, later) = bind-eq-ok (parse_userinfo s) _ h in
    let ((host, p), second, last) = bind-eq-ok (parse_host_port rest) _ later in
    let same : a ≡ record { userinfo = u; host = host; port = p } = cc (last) in
    rw same (record {
      rest = rest;
      userinfo_part = IsUserinfo-sound s u rest first;
      host_port = (parse_host_port-IsHostPort rest host p).0 second;
    })

IsAuthority-complete : (s : Text) (a : Authority) → IsAuthority s a → parse s ≡ ok a
unfolding parse
IsAuthority-complete s a h =
    rw
      (
        IsUserinfo-complete s a.userinfo h.rest h.userinfo_part,
        (parse_host_port-IsHostPort h.rest a.host a.port).1 h.host_port,
      )
      refl

-- A text is parsed to an authority exactly if the grammar gives it this one: a userinfo, decoded, in
-- front of the first `@`, where there is one, and a host with a port or none behind it.
pub parse_authority-IsAuthority : (s : Text) (a : Authority) → (parse s ≡ ok a) ↔ IsAuthority s a
parse_authority-IsAuthority s a = (IsAuthority-sound s a, IsAuthority-complete s a)
