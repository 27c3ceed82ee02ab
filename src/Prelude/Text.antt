-- ===== src/Prelude/Text.antt =====
-- Python's `str`: a sequence of code points. A literal of the source is `codes` of it.
pub mod Parts
use Prim.Native.Char.{code}
use Prim.Native.Nat.{ℕ}
use Prim.Native.String.{String}
use mathlib.Core.Path.{◌≡◌, refl}
use mathlib.Core.Logic.{◌↔◌}
use mathlib.Core.Bool.{Bool, true, false, ◌&&◌, ◌||◌}
use mathlib.Core.List.{List, [], ◌∷◌, ◌++◌}
use native.Mathlib.Omega.{arith}
use aucnotif.Prelude.Tests.{leb, ◌==◌, if◌then◌else◌}

abbrev pub Text : Type 0
Text = List ℕ

abbrev pub codes : String → Text
codes String.[] = []
codes (String.◌∷◌ c s) = code c ∷ codes s

abbrev pub text_eq : Text → Text → Bool
text_eq [] [] = true
text_eq (a ∷ s) (b ∷ t) = a == b && text_eq s t
text_eq _ _ = false

pub text_eq_iff : (s t : Text) → (text_eq s t ≡ true) ↔ (s ≡ t)
text_eq_iff [] [] = ground arith
text_eq_iff [] (b ∷ t) = ground arith
text_eq_iff (a ∷ s) [] = ground arith
text_eq_iff (a ∷ s) (b ∷ t) = ground (arith, text_eq_iff s t)

-- The code points that `str.strip()` takes off.
abbrev pub is_space : ℕ → Bool
is_space c =
    leb 9 c && leb c 13
    || (leb 28 c && leb c 32
        || (c == 133
            || (c == 160
                || (c == 5760
                    || (leb 8192 c && leb c 8202
                        || (leb 8232 c && leb c 8233
                            || (c == 8239 || (c == 8287 || c == 12288))))))))

lstrip : Text → Text
lstrip [] = []
lstrip (c ∷ s) = if is_space c then lstrip s else c ∷ s

abbrev drop_space : ℕ → Text → Text
drop_space c [] = if is_space c then [] else c ∷ []
drop_space c s = c ∷ s

rstrip : Text → Text
rstrip [] = []
rstrip (c ∷ s) = drop_space c (rstrip s)

unfoldable pub strip : Text → Text
unfolding lstrip rstrip
strip s = lstrip (rstrip s)

abbrev pub NoSpace : Text → Type 0
NoSpace [] = Unit
NoSpace (c ∷ s) = (is_space c ≡ false) × NoSpace s

rstrip_lem : (s : Text) → NoSpace s → rstrip s ≡ s
unfolding rstrip
rstrip_lem [] h = refl
rstrip_lem (c ∷ []) h = rw h.0
rstrip_lem (c ∷ d ∷ s) h = rw (rstrip_lem (d ∷ s) h.1)

lstrip_lem : (s : Text) → NoSpace s → lstrip s ≡ s
unfolding lstrip
lstrip_lem [] h = refl
lstrip_lem (c ∷ s) h = rw h.0

-- A text without white space is stripped to itself.
pub strip_lem : (s : Text) → NoSpace s → strip s ≡ s
unfolding strip
strip_lem s h = rw (rstrip_lem s h, lstrip_lem s h)

rstrip_end : (s : Text) (d : ℕ) → is_space d ≡ false → rstrip (s ++ d ∷ []) ≡ s ++ d ∷ []
unfolding rstrip
rstrip_end [] d h = rw h
rstrip_end (c ∷ []) d h = rw (rstrip_end [] d h)
rstrip_end (c ∷ b ∷ s) d h = rw (rstrip_end (b ∷ s) d h)

-- Nor is a text with white space within only.
pub strip_ends :
    (c : ℕ) (s : Text) (d : ℕ)
    → is_space c ≡ false
    → is_space d ≡ false
    → strip (c ∷ (s ++ d ∷ [])) ≡ c ∷ (s ++ d ∷ [])
unfolding strip lstrip
strip_ends c s d hc hd = rw (rstrip_end (c ∷ s) d hd) (rw hc refl)
