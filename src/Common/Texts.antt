-- ===== src/Common/Texts.antt =====
-- Texts that begin differently are different, whatever follows.
use Prim.Native.Char.{Char, code}
use Prim.Native.String.{String, ◌++◌}
use mathlib.Core.Path.{◌≡◌, sym, ap, ◌∙◌}
use mathlib.Core.Bool.{Bool, true, false, not, ◌||◌}
use mathlib.Core.Logic.{◌≢◌, inl, inr}
use native.Mathlib.Omega.{arith}
use text.Mathlib.TextLemmas.{cons-append, head-eq_of_cons-eq, tail-eq_of_cons-eq}
use quick_bite_order_service.Common.Tests.{Bool-cases, nat_beq, ◌==◌, string_eq}

-- The two differ at a character that both have.
abbrev pub diverges : String → String → Bool
diverges String.[] t = false
diverges (String.◌∷◌ a s) String.[] = false
diverges (String.◌∷◌ a s) (String.◌∷◌ b t) =
    let rest = diverges s t in not (nat_beq (code a) (code b)) || rest

code_ne : (a b : Char) → nat_beq (code a) (code b) ≡ false → a ≢ b
code_ne a b h e = ground (arith, ap code e)

diverges-append : (s t p q : String) → diverges s t ≡ true → s ++ p ≢ t ++ q
diverges-append String.[] t p q h e = cc
diverges-append (String.◌∷◌ a s) String.[] p q h e = cc
diverges-append (String.◌∷◌ a s) (String.◌∷◌ b t) p q h e =
    let conses = sym (cons-append a s p) ∙ e ∙ cons-append b t q in
    let rests = diverges-append s t p q in
    elim (Bool-cases (nat_beq (code a) (code b))) [
      | inl same ↦ rests (ground (arith, same)) (tail-eq_of_cons-eq conses)
      | inr other ↦ code_ne a b other (head-eq_of_cons-eq conses)
    ]

-- In the form that a look-up by key wants.
pub diverges_beq : (s t p q : String) → diverges s t ≡ true → (s ++ p == t ++ q) ≡ false
diverges_beq s t p q h =
    ground (arith, diverges-append s t p q h, string_eq.test_iff (s ++ p) (t ++ q))
