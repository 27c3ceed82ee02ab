-- ===== src/Prelude/Text/Parts.antt =====
-- What `str.strip()` takes off, and what it leaves.
use Prim.Native.Nat.{ℕ}
use mathlib.Core.Path.{◌≡◌, refl, sym, ap, ◌∙◌, subst}
use mathlib.Core.Logic.{◌⊎◌, inl, inr}
use mathlib.Core.Bool.{true, false}
use mathlib.Core.List.{[], ◌∷◌, ◌++◌}
use aucnotif.Prelude.Tests.{Bool-cases}
use aucnotif.Prelude.Lists.{All}
use aucnotif.Prelude.Text.{Text, is_space, lstrip, rstrip, drop_space, strip}

abbrev pub IsSpace : ℕ → Type 0
IsSpace c = is_space c ≡ true

-- The first character, and the last one, is not white space.
abbrev pub StartsBare : Text → Type 0
StartsBare [] = ⊥
StartsBare (c ∷ s) = is_space c ≡ false

abbrev pub EndsBare : Text → Type 0
EndsBare [] = ⊥
EndsBare (c ∷ []) = is_space c ≡ false
EndsBare (c ∷ d ∷ s) = EndsBare (d ∷ s)

-- What is left, with white space that went behind it.
abbrev Right : Text → Text → Type 0
Right s r = (after : Text) × ((s ≡ r ++ after) × (All IsSpace after × ((r ≡ []) ⊎ EndsBare r)))

drop_space-Right : (c : ℕ) (s r : Text) → Right s r → Right (c ∷ s) (drop_space c r)
drop_space-Right c s [] (after, (e, (sp, k))) = elim (Bool-cases (is_space c)) [
  | inl h ↦ rw h (c ∷ after, (ap (λ t. c ∷ t) e, ((h, sp), inl refl)))
  | inr h ↦ rw h (after, (ap (λ t. c ∷ t) e, (sp, inr h)))
]
drop_space-Right c s (d ∷ r) (after, (e, (sp, inl k))) = absurd (cc)
drop_space-Right c s (d ∷ r) (after, (e, (sp, inr k))) = (after, (ap (λ t. c ∷ t) e, (sp, inr k)))

rstrip-Right : (s : Text) → Right s (rstrip s)
unfolding rstrip
rstrip-Right [] = ([], (refl, (tt, inl refl)))
rstrip-Right (c ∷ s) = drop_space-Right c s (rstrip s) (rstrip-Right s)

-- What is left, with white space that went before it.
abbrev Left : Text → Text → Type 0
Left s r =
    (before : Text) × ((s ≡ before ++ r) × (All IsSpace before × (StartsBare r × EndsBare r)))

lstrip-Left : (s : Text) → EndsBare s → Left s (lstrip s)
unfolding lstrip
lstrip-Left [] h = absurd h
lstrip-Left (c ∷ []) h = rw h ([], (refl, (tt, (h, h))))
lstrip-Left (c ∷ d ∷ s) h = elim (Bool-cases (is_space c)) [
  | inl e ↦
      let (before, (p, (sp, ends))) = lstrip-Left (d ∷ s) h in
      rw e (c ∷ before, (ap (λ t. c ∷ t) p, ((e, sp), ends)))
  | inr e ↦ rw e ([], (refl, (tt, (e, h))))
]

append_assoc : (r s t : Text) → (r ++ s) ++ t ≡ r ++ (s ++ t)
append_assoc [] s t = refl
append_assoc (c ∷ r) s t = ap (λ u. c ∷ u) (append_assoc r s t)

-- A text is white space alone, or white space, what is left, and white space.
abbrev pub Parts : Text → Text → Type 0
Parts s r =
    ((r ≡ []) × All IsSpace s)
    ⊎ ((before : Text) × (after : Text) × ((s ≡ before ++ (r ++ after))
          × ((All IsSpace before × All IsSpace after) × (StartsBare r × EndsBare r))))

pub strip-Parts : (s : Text) → Parts s (strip s)
unfolding strip
strip-Parts s = go (rstrip s) (rstrip-Right s)
  where
    go : (r : Text) → Right s r → Parts s (lstrip r)
    go r (after, (e, (sp, inl k))) = inl (
      ap lstrip k ∙ (unfold lstrip in refl),
      subst (All IsSpace) (sym (e ∙ ap (λ t. t ++ after) k)) sp,
    )
    go r (after, (e, (sp, inr k))) =
        let (before, (p, (sp', ends))) = lstrip-Left r k in
        inr (
          before,
          after,
          (e ∙ ap (λ t. t ++ after) p ∙ append_assoc before (lstrip r) after, ((sp', sp), ends)),
        )
