-- ===== src/Base/Sets.antt =====
-- `HashSet<String>` as a list of texts in which the order and the number of copies mean nothing:
-- a program reads it by `contains` alone. Models no code of its own.
use Prim.Native.String.{String}
use mathlib.Core.Path.{◌≡◌, refl}
use mathlib.Core.List.{List, [], ◌∷◌, map}
use mathlib.Core.Bool.{Bool, true, false, not, ◌&&◌, ◌||◌}
use native.Mathlib.Omega.{arith}
use text.Mathlib.Text.{◌==◌ as str_eq}
use text.Mathlib.TextEquality.{eq_iff}
use wavvon_server.Base.Tests.{if◌then◌else◌}
use wavvon_server.Base.Lists.{any, retain, All}

abbrev pub contains : List String → String → Bool
contains [] p = false
contains (q ∷ s) p = str_eq q p || contains s p

unfoldable pub insert : String → List String → List String
insert p s = if contains s p then s else p ∷ s

unfoldable pub remove : String → List String → List String
remove p s = retain (λ q. not (str_eq q p)) s

pub contains-retain :
    (f : String → Bool) (s : List String) (p : String)
    → contains (retain f s) p ≡ (f p && contains s p)
contains-retain f [] p = ground arith
contains-retain f (q ∷ s) p = ground (arith, eq_iff q p, contains-retain f s p)

pub contains-insert :
    (p : String) (s : List String) (q : String)
    → contains (insert p s) q ≡ (str_eq p q || contains s q)
unfolding insert
contains-insert p s q = ground (arith, eq_iff p q)

pub contains-remove :
    (p : String) (s : List String) (q : String)
    → contains (remove p s) q ≡ (not (str_eq q p) && contains s q)
unfolding remove
contains-remove p s q = contains-retain (λ r. not (str_eq r p)) s q

pub contains-map {ℓ} :
    {A : Type ℓ} (f : A → String) (xs : List A) (p : String)
    → contains (map f xs) p ≡ any (λ x. str_eq (f x) p) xs
contains-map f [] p = refl
contains-map f (x ∷ xs) p = ground (arith, contains-map f xs p)

-- Every text of `s` is in `t`.
abbrev pub Subset : List String → List String → Type 0
Subset s t = All (λ p. contains t p ≡ true) s

pub Subset-contains :
    (s t : List String) (p : String) → Subset s t → contains s p ≡ true → contains t p ≡ true
Subset-contains [] t p h e = ground arith
Subset-contains (q ∷ s) t p h e = ground (arith, eq_iff q p, Subset-contains s t p h.1)
