-- ===== src/ValidateIpv6Address/Reads.antt =====
-- The grammar of IPv6 addresses, read from left to right: how a text may go on behind `n` groups,
use mathlib.Core.Path.{subst}
use uri.ValidateIpv6Address.Grammar.{group, quad, more}
-- with a double colon in front or none.
use uri.Prelude.{
  append_assoc, ap, refl, ◌∙◌, append-nil, inr, arith, inl, sym, [], suc, ◌++◌, ◌∷◌, ◌≤◌, ◌⊎◌, ◌+◌,
  ◌≡◌, true, false, ℕ, Bool,
}
use uri.Text.{Text}
use uri.ValidateIpv6Address.Grammar.{IsGroup, IsQuad, Pieces, Groups, Left, Right, IsIpv6Address}

-- Where a group begins, behind a group, and behind the double colon.
pub data Place : Type 0 where
  before behind gap : Place

-- The numbers of groups with which an address may end.
abbrev pub Counts : Bool → ℕ → Type 0
Counts true n = n ≤ 7
Counts false n = n ≡ 8

pub data Reads : Place → Bool → ℕ → Text → Type 0 where
  a_group :
      {b : Bool} {n : ℕ} {s : Text} (g r : Text)
      → s ≡ g ++ r
      → IsGroup g
      → Reads behind b (n + 1) r
      → Reads before b n s
  a_quad : {b : Bool} {n : ℕ} {s : Text} → IsQuad s → Counts b (n + 2) → Reads before b n s
  done : {b : Bool} {n : ℕ} {s : Text} → s ≡ [] → Counts b n → Reads behind b n s
  colon :
      {b : Bool} {n : ℕ} {s : Text} (r : Text)
      → s ≡ b':' ∷ r
      → Reads before b n r
      → Reads behind b n s
  double_colon :
      {b : Bool} {n : ℕ} {s : Text} (r : Text)
      → b ≡ false
      → s ≡ b':' ∷ b':' ∷ r
      → Reads gap true n r
      → Reads behind b n s
  gap_done : {b : Bool} {n : ℕ} {s : Text} → s ≡ [] → Counts true n → Reads gap b n s
  gap_group : {b : Bool} {n : ℕ} {s : Text} → Reads before true n s → Reads gap b n s

-- The whole text.
abbrev pub ReadsAddress : Text → Type 0
ReadsAddress s = Reads before false 0 s ⊎ ((r : Text) × (s ≡ b':' ∷ b':' ∷ r) × Reads gap true 0 r)

Reads-Pieces :
    {k : ℕ} {s : Text} (n : ℕ) (b : Bool) → Pieces k s → Counts b (n + k) → Reads before b n s
Reads-Pieces {s} n b (group h) c =
    a_group s [] (sym (append-nil s)) h (done refl (subst (Counts b) (omega arith) c))
Reads-Pieces n b (quad q) c = a_quad q c
Reads-Pieces n b (more {s} g h p e) c =
    a_group g (b':' ∷ s) e h
      (colon s refl (Reads-Pieces (n + 1) b p (subst (Counts b) (omega arith) c)))

Reads-Right : {k : ℕ} {s : Text} (n : ℕ) → Right k s → n + k ≤ 7 → Reads gap true n s
Reads-Right n (inl (z, e)) h = gap_done e (omega arith)
Reads-Right n (inr p) h = gap_group (Reads-Pieces n true p h)

Reads-Groups :
    {k : ℕ} {l : Text} (n : ℕ) (r : Text)
    → Groups k l
    → Reads gap true (n + k) r
    → Reads before false n (l ++ (b':' ∷ b':' ∷ r))
Reads-Groups {l} n r (group h) d =
    a_group l _ refl h (double_colon r refl refl (subst (λ m. Reads gap true m r) (omega arith) d))
Reads-Groups n r (more {s} g h p e) d =
    a_group g (b':' ∷ (s ++ (b':' ∷ b':' ∷ r)))
      (ap (λ t. t ++ (b':' ∷ b':' ∷ r)) e ∙ append_assoc g _ _) h
      (colon _ refl (Reads-Groups (n + 1) r p (subst (λ m. Reads gap true m r) (omega arith) d)))

pub Reads-IsIpv6Address : (s : Text) → IsIpv6Address s → ReadsAddress s
Reads-IsIpv6Address s (inl p) = inl (Reads-Pieces 0 false p refl)
Reads-IsIpv6Address s (inr c) = go c.is_left
  where
    go : Left c.left_groups c.left → ReadsAddress s
    go (inl (z, e)) = inr (
      c.right,
      c.spells ∙ ap (λ l. l ++ (b':' ∷ b':' ∷ c.right)) e,
      Reads-Right 0 c.is_right (omega (arith, c.at_most_seven)),
    )
    go (inr g) = inl (
        subst (Reads before false 0) (sym c.spells)
          (Reads-Groups 0 c.right g (Reads-Right _ c.is_right (omega (arith, c.at_most_seven)))))

-- What stands behind a double colon.
Pieces-Reads : {n : ℕ} {s : Text} → Reads before true n s → (k : ℕ) × Pieces k s × (n + k ≤ 7)
Pieces-Reads (a_quad q c) = (2, quad q, c)
Pieces-Reads (a_group g r e h (done z c)) =
    (1, subst (Pieces 1) (sym (e ∙ ap (◌++◌ g) z ∙ append-nil g)) (group h), omega arith)
Pieces-Reads (a_group g r e h (colon t z d)) =
    let (k, p, c) = Pieces-Reads d in (suc k, more g h p (e ∙ ap (◌++◌ g) z), omega arith)
Pieces-Reads (a_group g r e h (double_colon t once z d)) = cc

Right-Reads : {n : ℕ} {s : Text} {b : Bool} → Reads gap b n s → (k : ℕ) × Right k s × (n + k ≤ 7)
Right-Reads (gap_done e c) = (0, inl (refl, e), omega arith)
Right-Reads (gap_group d) = let (k, p, c) = Pieces-Reads d in (k, inr p, c)

-- The parts of an address with a double colon behind its first group.
record Split (n : ℕ) (s : Text) : Type 0 where
  left : Text
  right : Text
  left_groups : ℕ
  right_groups : ℕ
  spells : s ≡ left ++ (b':' ∷ b':' ∷ right)
  is_left : Groups left_groups left
  is_right : Right right_groups right
  at_most_seven : n + left_groups + right_groups ≤ 7

Split-Reads :
    {n : ℕ} {s : Text} → Reads before false n s → ((k : ℕ) × Pieces k s × (n + k ≡ 8)) ⊎ Split n s
Split-Reads (a_quad q c) = inl (2, quad q, c)
Split-Reads (a_group g r e h (done z c)) =
    inl (1, subst (Pieces 1) (sym (e ∙ ap (◌++◌ g) z ∙ append-nil g)) (group h), omega arith)
Split-Reads (a_group g r e h (double_colon t once z d)) =
    let (k, p, c) = Right-Reads d in
    inr (record {
      left = g;
      right = t;
      left_groups = 1;
      right_groups = k;
      spells = e ∙ ap (◌++◌ g) z;
      is_left = group h;
      is_right = p;
      at_most_seven = omega arith;
    })
Split-Reads (a_group g r e h (colon t z d)) = elim (Split-Reads d) [
  | inl (k, p, c) ↦ inl (suc k, more g h p (e ∙ ap (◌++◌ g) z), omega arith)
  | inr sp ↦ inr (record {
    left = g ++ (b':' ∷ sp.left);
    right = sp.right;
    left_groups = suc sp.left_groups;
    right_groups = sp.right_groups;
    spells =
        e ∙ ap (◌++◌ g) (z ∙ ap (◌∷◌ b':') sp.spells) ∙ sym (append_assoc g (b':' ∷ sp.left) _);
    is_left = more g h sp.is_left refl;
    is_right = sp.is_right;
    at_most_seven = omega (arith, sp.at_most_seven);
  })
]

pub IsIpv6Address-Reads : (s : Text) → ReadsAddress s → IsIpv6Address s
IsIpv6Address-Reads s (inl d) = elim (Split-Reads d) [
  | inl (k, p, c) ↦ inl (subst (λ m. Pieces m s) (omega (arith, c)) p)
  | inr sp ↦ inr (record {
    left = sp.left;
    right = sp.right;
    left_groups = sp.left_groups;
    right_groups = sp.right_groups;
    spells = sp.spells;
    is_left = inr sp.is_left;
    is_right = sp.is_right;
    at_most_seven = omega (arith, sp.at_most_seven);
  })
]
IsIpv6Address-Reads s (inr (r, e, d)) =
    let (k, p, c) = Right-Reads d in
    inr (record {
      left = [];
      right = r;
      left_groups = 0;
      right_groups = k;
      spells = e;
      is_left = inl (refl, refl);
      is_right = p;
      at_most_seven = c;
    })
