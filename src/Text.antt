-- ===== src/Text.antt =====
-- Strings of C: the list of the characters up to the 0, and what `strcmp` and `strchr` tell of them.
use Prim.Native.Char.{code}
use Prim.Native.String.{String}
use route.Base.{
  ℕ, ◌≡◌, ◌≢◌, refl, arith, Bool, true, false, ◌&&◌, ◌||◌, leb, Option, none, some, List, [], ◌∷◌,
  ◌++◌, ◌==◌, if◌then◌else◌, length, All,
}

-- The characters of a literal.
abbrev pub codes : String → List ℕ
codes String.[] = []
codes (String.◌∷◌ c s) = code c ∷ codes s

-- The white space of the C locale.
unfoldable pub is_space : ℕ → Bool
is_space c = c == b' ' || leb 9 c && leb c 13

unfoldable pub skip_space : List ℕ → List ℕ
unfolding is_space
skip_space [] = []
skip_space (c ∷ cs) = if is_space c then skip_space cs else c ∷ cs

-- `strcmp` gives 0.
unfoldable pub equal : List ℕ → List ℕ → Bool
equal [] [] = true
equal (x ∷ xs) (y ∷ ys) = x == y && equal xs ys
equal _ _ = false

-- What stands before and behind the first `c`, where `strchr` finds it.
abbrev pub behind_char : ℕ → Option (List ℕ × List ℕ) → Option (List ℕ × List ℕ)
behind_char x none = none
behind_char x (some (before, after)) = some (x ∷ before, after)

unfoldable pub split_at : ℕ → List ℕ → Option (List ℕ × List ℕ)
split_at c [] = none
split_at c (x ∷ xs) = if x == c then some ([], xs) else behind_char x (split_at c xs)

abbrev pub Without : ℕ → List ℕ → Type 0
Without c xs = All (λ x. x ≢ c) xs

pub equal_refl : (xs : List ℕ) → equal xs xs ≡ true
unfolding equal
equal_refl [] = refl
equal_refl (x ∷ xs) = ground (arith, equal_refl xs)

pub equal-length : (xs ys : List ℕ) → equal xs ys ≡ true → length xs ≡ length ys
unfolding equal
equal-length [] [] e = refl
equal-length [] (y ∷ ys) e = ground arith
equal-length (x ∷ xs) [] e = ground arith
equal-length (x ∷ xs) (y ∷ ys) e = ground (arith, equal-length xs ys)

pub split_at-found :
    (c : ℕ) (xs ys : List ℕ) → Without c xs → split_at c (xs ++ c ∷ ys) ≡ some (xs, ys)
unfolding split_at
split_at-found c [] ys w = ground arith
split_at-found c (x ∷ xs) ys w = ground (arith, split_at-found c xs ys w.1)

pub split_at-none : (c : ℕ) (xs : List ℕ) → Without c xs → split_at c xs ≡ none
unfolding split_at
split_at-none c [] w = refl
split_at-none c (x ∷ xs) w = ground (arith, split_at-none c xs w.1)
