-- ===== src/Prelude/Cuts.antt =====
-- Laws of strings.Cut: what it gives joins to the text, and the text before the first separator.
use Prim.Native.Char.{Char, code}
use Prim.Native.Nat.{ℕ}
use Prim.Native.String.{String, [] as empty, ◌∷◌ as cons_char, ◌++◌ as str_append}
use mathlib.Core.Path.{◌≡◌, refl, sym, ap, ◌∙◌}
use mathlib.Core.Logic.{◌≢◌, inl, inr}
use mathlib.Core.Bool.{false}
use mathlib.Core.Option.{Option, none, some}
use native.Mathlib.Omega.{arith}
use text.Mathlib.TextEquality.{Char-path}
use text.Mathlib.TextLemmas.{cons-append, nil-append}
use intact.Prelude.Tests.{◌==◌, Bool-cases, Option-cases, ==_iff}
use intact.Prelude.Text.{cut_code}
use intact.Prelude.Decimal.{AllDigits}

abbrev rejoined : Char → Option (String × String) → String
rejoined sep none = ""
rejoined sep (some (b, rest)) = str_append b (cons_char sep rest)

pub cut_code_rejoins :
    (sep : Char) (s b rest : String)
    → cut_code (code sep) s ≡ some (b, rest)
    → str_append b (cons_char sep rest) ≡ s
unfolding cut_code
cut_code_rejoins sep empty b rest h = cc
cut_code_rejoins sep (cons_char c s) b rest h = elim (Bool-cases (code c == code sep)) [
  | inl is_sep ↦
      ap (rejoined sep) (sym (rw is_sep at h))
      ∙ nil-append (cons_char sep s)
      ∙ ap (λ d. cons_char d s) (sym (Char-path c sep ((==_iff (code c) (code sep)).0 is_sep)))
  | inr other ↦ elim (Option-cases (cut_code (code sep) s)) [
    | inl uncut ↦ cc (rw (other, uncut) at h)
    | inr (cut, found) ↦
        ap (rejoined sep) (sym (rw (other, found) at h))
        ∙ cons-append c cut.0 (cons_char sep cut.1)
        ∙ ap (cons_char c) (cut_code_rejoins sep s cut.0 cut.1 found)
  ]
]

-- No character of the text has the code.
unfoldable pub Without : ℕ → String → Type 0
Without sep empty = Unit
Without sep (cons_char c s) = (code c ≢ sep) × Without sep s

pub cut_code-append :
    (sep : Char) (s rest : String)
    → Without (code sep) s
    → cut_code (code sep) (str_append s (cons_char sep rest)) ≡ some (s, rest)
unfolding cut_code Without
cut_code-append sep empty rest w =
    ap (cut_code (code sep)) (nil-append (cons_char sep rest))
    ∙ rw ((==_iff (code sep) (code sep)).1 refl) refl
cut_code-append sep (cons_char c s) rest w =
    let other : (code c == code sep) ≡ false = ground arith in
    ap (cut_code (code sep)) (cons-append c s (cons_char sep rest))
    ∙ rw (other, cut_code-append sep s rest w.1) refl

-- Digits hold no dot.
pub AllDigits-Without : (s : String) → AllDigits s → Without 46 s
unfolding AllDigits Without
AllDigits-Without empty a = tt
AllDigits-Without (cons_char c s) a = (ground arith, AllDigits-Without s a.2)
