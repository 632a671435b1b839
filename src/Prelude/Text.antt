-- ===== src/Prelude/Text.antt =====
-- A QString as the list of its UTF-16 code units, and the lists of them.
use marupop.Prelude.{
  ◌++◌, ℕ, ◌≡◌, refl, Bool, true, false, ◌&&◌, List, [], ◌∷◌, ◌==◌, if◌then◌else◌, arith,
}
use Prim.Native.String.{String}
use Prim.Native.Char.{code}

abbrev pub Text : Type 0
Text = List ℕ

-- The code points of a literal, which are its code units up to U+FFFF.
abbrev pub codes : String → Text
codes String.[] = []
codes (String.◌∷◌ c s) = code c ∷ codes s

-- QString's operator==.
abbrev pub text_eq : Text → Text → Bool
text_eq [] [] = true
text_eq [] (d ∷ ds) = false
text_eq (c ∷ cs) [] = false
text_eq (c ∷ cs) (d ∷ ds) = (c == d) && text_eq cs ds

-- QList<QString>::contains().
abbrev pub contains : List Text → Text → Bool
contains [] t = false
contains (u ∷ us) t = if text_eq u t then true else contains us t

pub text_eq_sym : (t u : Text) → text_eq t u ≡ text_eq u t
text_eq_sym [] [] = refl
text_eq_sym [] (d ∷ ds) = refl
text_eq_sym (c ∷ cs) [] = refl
text_eq_sym (c ∷ cs) (d ∷ ds) = ground (arith, text_eq_sym cs ds)

pub text_eq_eq : (t u : Text) → text_eq t u ≡ true → t ≡ u
text_eq_eq [] [] h = refl
text_eq_eq [] (d ∷ ds) h = cc
text_eq_eq (c ∷ cs) [] h = cc
text_eq_eq (c ∷ cs) (d ∷ ds) h = ground (arith, text_eq_eq cs ds)

pub text_eq_self : (t : Text) → text_eq t t ≡ true
text_eq_self [] = refl
text_eq_self (c ∷ cs) = ground (arith, text_eq_self cs)

-- Each text behind a separator.
unfoldable pub after_each : Text → List Text → Text
after_each sep [] = []
after_each sep (t ∷ ts) = sep ++ (t ++ after_each sep ts)

unfoldable pub join : Text → List Text → Text
join sep [] = []
join sep (t ∷ ts) = t ++ after_each sep ts
