-- ===== src/Prelude/Occurrences.antt =====
-- How often a text occurs in a list of texts: lists are compared up to order by their counts.
use Prim.Native.Nat.{ℕ, suc, ◌+◌, ◌≤◌, ◌<◌}
use Prim.Native.String.{String}
use mathlib.Core.Path.{◌≡◌, refl}
use mathlib.Core.Bool.{Bool, true, false, not, ◌&&◌, ◌||◌}
use mathlib.Core.List.{List, [], ◌∷◌, ◌++◌}
use native.Mathlib.Omega.{arith}
use text.Mathlib.Text.{◌==◌ as str_eq}
use text.Mathlib.TextEquality.{eq_iff as str_eq_iff}
use agentbnb.Prelude.Lists.{length}
use agentbnb.Prelude.Tests.{ltb, if◌then◌else◌}

-- `Set.prototype.has`, for a set that is the list of its texts.
unfoldable pub contains : String → List String → Bool
contains w [] = false
contains w (x ∷ xs) = str_eq x w || contains w xs

unfoldable pub occurrences : String → List String → ℕ
occurrences w [] = 0
occurrences w (x ∷ xs) = let n = occurrences w xs in if str_eq x w then suc n else n

pub contains-occurrences :
    (w : String) (xs : List String) → contains w xs ≡ ltb 0 (occurrences w xs)
unfolding contains occurrences
contains-occurrences w [] = refl
contains-occurrences w (x ∷ xs) = ground (arith, contains-occurrences w xs)

pub occurrences-append :
    (w : String) (xs ys : List String)
    → occurrences w (xs ++ ys) ≡ occurrences w xs + occurrences w ys
unfolding occurrences
occurrences-append w [] ys = omega arith
occurrences-append w (x ∷ xs) ys = ground (arith, occurrences-append w xs ys)

-- The list less the first occurrence of the text.
unfoldable pub remove : String → List String → List String
remove w [] = []
remove w (x ∷ xs) = let rest = remove w xs in if str_eq x w then xs else x ∷ rest

length-remove :
    (w : String) (xs : List String) → 0 < occurrences w xs → length xs ≡ suc (length (remove w xs))
unfolding remove occurrences
length-remove w [] h = omega arith
length-remove w (x ∷ xs) h = ground (arith, length-remove w xs)

occurrences-remove :
    (v w : String) (xs : List String)
    → 0 < occurrences w xs
    → occurrences v xs ≡ occurrences v (remove w xs) + (if str_eq w v then 1 else 0)
unfolding remove occurrences
occurrences-remove v w [] h = omega arith
occurrences-remove v w (x ∷ xs) h =
    ground (arith, occurrences-remove v w xs, str_eq_iff w v, str_eq_iff x w, str_eq_iff x v)

abbrev pub Within : List String → List String → Type 0
Within xs ys = (w : String) → occurrences w xs ≤ occurrences w ys

-- No text occurs twice.
abbrev pub IsDistinct : List String → Type 0
IsDistinct xs = (w : String) → occurrences w xs ≤ 1

first_occurs : (x : String) (xs ys : List String) → Within (x ∷ xs) ys → 0 < occurrences x ys
unfolding occurrences
first_occurs x xs ys h = ground (arith, h x, str_eq_iff x x)

rest-Within : (x : String) (xs ys : List String) → Within (x ∷ xs) ys → Within xs (remove x ys)
unfolding occurrences
rest-Within x xs ys h w =
    ground (arith, h w, first_occurs x xs ys h, occurrences-remove w x ys (first_occurs x xs ys h))

pub length-Within : (xs ys : List String) → Within xs ys → length xs ≤ length ys
length-Within [] ys h = omega arith
length-Within (x ∷ xs) ys h = omega (
  arith,
  length-remove x ys (first_occurs x xs ys h),
  length-Within xs (remove x ys) (rest-Within x xs ys h),
)

-- A list within one that is no longer holds all of it.
pub Within-full : (xs ys : List String) → Within xs ys → length ys ≤ length xs → Within ys xs
unfolding occurrences
Within-full [] [] h le w = omega arith
Within-full [] (y ∷ ys) h le w = omega arith
Within-full (x ∷ xs) ys h le w = ground (
  arith,
  occurrences-remove w x ys (first_occurs x xs ys h),
  Within-full xs (remove x ys) (rest-Within x xs ys h)
      (omega (arith, length-remove x ys (first_occurs x xs ys h))) w,
)

unfoldable pub no_repeats : List String → Bool
unfolding contains
no_repeats [] = true
no_repeats (x ∷ xs) = not (contains x xs) && no_repeats xs

pub no_repeats→IsDistinct : (xs : List String) → no_repeats xs ≡ true → IsDistinct xs
unfolding no_repeats occurrences
no_repeats→IsDistinct [] h w = omega arith
no_repeats→IsDistinct (x ∷ xs) h w =
    let ih = no_repeats→IsDistinct xs (ground (arith, h)) w in
    ground (arith, h, ih, contains-occurrences x xs, str_eq_iff x w)
