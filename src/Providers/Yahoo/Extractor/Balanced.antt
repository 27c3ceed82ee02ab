-- ===== src/Providers/Yahoo/Extractor/Balanced.antt =====
-- The scanner against a grammar of balanced texts.
use aucnotif.Prelude.{
  ℕ, suc, ◌-◌, ◌≤◌, ◌≡◌, refl, sym, ap, ◌∙◌, true, false, Option, none, some, [], ◌∷◌, ◌++◌, arith,
  ltb, ◌==◌,
}
use mathlib.Core.List.{append_assoc}
use aucnotif.Prelude.Lists.{length}
use aucnotif.Prelude.Tables.{map_option}
use aucnotif.Prelude.Text.{Text}
use aucnotif.Providers.Yahoo.Extractor.{
  Scan, next, closes, scan, extract_balanced_object, max_object_len,
}

-- What stands between the quotes of a string literal.
pub data Quoted : Text → Type 0 where
  empty : Quoted []
  char : (c : ℕ) (s : Text) → (c == b'\\') ≡ false → (c == b'"') ≡ false → Quoted s → Quoted (c ∷ s)
  escape : (c : ℕ) (s : Text) → Quoted s → Quoted (b'\\' ∷ c ∷ s)

-- What stands between the braces of an object: literals, objects, and all other characters.
pub data Inside : Text → Type 0 where
  nothing : Inside []
  plain :
      (c : ℕ) (s : Text)
      → (c == b'"') ≡ false
      → (c == b'{') ≡ false
      → (c == b'}') ≡ false
      → Inside s
      → Inside (c ∷ s)
  literal : (q s : Text) → Quoted q → Inside s → Inside (b'"' ∷ q ++ b'"' ∷ s)
  nested : (inner s : Text) → Inside inner → Inside s → Inside (b'{' ∷ inner ++ b'}' ∷ s)

abbrev outside : ℕ → Scan
outside d = record { depth = d; in_string = false; escaped = false }

abbrev within : ℕ → Scan
within d = record { depth = d; in_string = true; escaped = false }

abbrev prepend : Text → Option Text → Option Text
prepend s none = none
prepend s (some r) = some (s ++ r)

prepend-prepend : (s t : Text) (o : Option Text) → prepend s (prepend t o) ≡ prepend (s ++ t) o
prepend-prepend s t none = refl
prepend-prepend s t (some r) = ap some (sym (append_assoc s t r))

cons-prepend : (c : ℕ) (o : Option Text) → map_option (λ r. c ∷ r) o ≡ prepend (c ∷ []) o
cons-prepend c none = refl
cons-prepend c (some r) = refl

scan-quoted :
    (d : ℕ) (q : Text) (t : Text)
    → Quoted q
    → scan (within d) (q ++ b'"' ∷ t) ≡ prepend (q ++ b'"' ∷ []) (scan (outside d) t)
unfolding scan next closes
scan-quoted d _ t empty = cons-prepend b'"' _
scan-quoted d _ t (char c s a b h) = rw a (
    rw b (
      cons-prepend c _
      ∙ (ap (prepend (c ∷ [])) (scan-quoted d s t h)
          ∙ prepend-prepend (c ∷ []) (s ++ b'"' ∷ []) _)))
scan-quoted d _ t (escape c s h) =
    cons-prepend b'\\' _
    ∙ (ap (prepend (b'\\' ∷ [])) (
          cons-prepend c _
          ∙ (ap (prepend (c ∷ [])) (scan-quoted d s t h)
              ∙ prepend-prepend (c ∷ []) (s ++ b'"' ∷ []) _))
        ∙ prepend-prepend (b'\\' ∷ []) (c ∷ s ++ b'"' ∷ []) _)

prepend_nil : (o : Option Text) → o ≡ prepend [] o
prepend_nil none = refl
prepend_nil (some r) = refl

sub_one : (d : ℕ) → suc d - 1 ≡ d
sub_one d = omega arith

not_zero : (d : ℕ) → (suc d == 0) ≡ false
not_zero d = ground arith

-- A closing brace that is not the last one.
scan-brace :
    (d : ℕ) (t : Text)
    → scan (outside (suc (suc d))) (b'}' ∷ t) ≡ prepend (b'}' ∷ []) (scan (outside (suc d)) t)
unfolding scan next closes
scan-brace d t = rw (sub_one (suc d), not_zero d) (cons-prepend b'}' _)

scan-Inside :
    (d : ℕ) (s t : Text)
    → Inside s
    → scan (outside (suc d)) (s ++ t) ≡ prepend s (scan (outside (suc d)) t)
unfolding scan next closes
scan-Inside d _ t nothing = prepend_nil _
scan-Inside d _ t (plain c s q o e h) = rw q (
    rw o (
      rw e (
        cons-prepend c _
        ∙ (ap (prepend (c ∷ [])) (scan-Inside d s t h) ∙ prepend-prepend (c ∷ []) s _))))
scan-Inside d _ t (literal q s hq hs) =
    cons-prepend b'"' _
    ∙ (ap (λ text. prepend (b'"' ∷ []) (scan (within (suc d)) text)) (append_assoc q (b'"' ∷ s) t)
        ∙ (ap (prepend (b'"' ∷ [])) (
              scan-quoted (suc d) q (s ++ t) hq
              ∙ (ap (prepend (q ++ b'"' ∷ [])) (scan-Inside d s t hs)
                  ∙ (prepend-prepend (q ++ b'"' ∷ []) s _
                      ∙ ap (λ w. prepend w (scan (outside (suc d)) t))
                          (append_assoc q (b'"' ∷ []) s))))
            ∙ prepend-prepend (b'"' ∷ []) (q ++ b'"' ∷ s) _))
scan-Inside d _ t (nested inner s hi hs) =
    cons-prepend b'{' _
    ∙ (ap (λ text. prepend (b'{' ∷ []) (scan (outside (suc (suc d))) text))
          (append_assoc inner (b'}' ∷ s) t)
        ∙ (ap (prepend (b'{' ∷ [])) (
              scan-Inside (suc d) inner (b'}' ∷ s ++ t) hi
              ∙ (ap (prepend inner) (
                    scan-brace d (s ++ t)
                    ∙ (ap (prepend (b'}' ∷ [])) (scan-Inside d s t hs)
                        ∙ prepend-prepend (b'}' ∷ []) s _))
                  ∙ prepend-prepend inner (b'}' ∷ s) _))
            ∙ prepend-prepend (b'{' ∷ []) (inner ++ b'}' ∷ s) _))

scan-last : (t : Text) → scan (outside 1) (b'}' ∷ t) ≡ some (b'}' ∷ [])
unfolding scan closes
scan-last t = refl

scan-object :
    (s t : Text) → Inside s → scan (outside 0) (b'{' ∷ s ++ b'}' ∷ t) ≡ some (b'{' ∷ s ++ b'}' ∷ [])
unfolding scan next closes
scan-object s t h =
    cons-prepend b'{' _
    ∙ ap (prepend (b'{' ∷ [])) (scan-Inside 0 s (b'}' ∷ t) h ∙ ap (prepend s) (scan-last t))

-- A page that goes on with an object, whose text nests braces and holds string literals (in which braces
-- and escaped quotes stand for themselves) and whose length the limit allows, yields exactly the
-- object's text, whatever follows it.
pub extract-balanced :
    (s rest : Text)
    → Inside s
    → length (s ++ b'}' ∷ []) ≤ max_object_len
    → extract_balanced_object (b'{' ∷ s ++ b'}' ∷ rest) ≡ some (b'{' ∷ s ++ b'}' ∷ [])
unfolding extract_balanced_object
extract-balanced s rest h short =
    rw (scan-object s rest h)
      (rw (sub_one (length (s ++ b'}' ∷ []))) (rw (not_longer (length (s ++ b'}' ∷ [])) short)))
  where
    not_longer : (n : ℕ) → n ≤ max_object_len → ltb max_object_len n ≡ false
    not_longer n h = ground arith
