-- ===== src/Utf8/Tests.antt =====
-- The conversions at concrete inputs.
use route.Base.{ℕ, ◌≤◌, ◌<◌, ◌≡◌, refl, arith, true, false, List, [], ◌∷◌, ◌++◌, All, length}
use route.Utf8.{x_iso_8859_1s_to_utf8s, x_utf8s_to_iso_8859_1s, iso_to_utf8, utf8_to_iso}
use route.Utf8.RoundTrip.{x_utf8s_to_iso_8859_1s-x_iso_8859_1s_to_utf8s}
use route.Utf8.Bounds.{stored-le-count}

-- "a" and "ä".
abbrev text : List ℕ
text = 97 ∷ 228 ∷ []

converts : x_iso_8859_1s_to_utf8s true text 8 ≡ (3, 97 ∷ 195 ∷ 164 ∷ 0 ∷ [])
unfolding iso_to_utf8
converts = refl

-- A byte that starts no character takes the continuation behind it.
converts_erroneous : x_utf8s_to_iso_8859_1s true (129 ∷ 130 ∷ 97 ∷ []) 8 ≡ (2, 66 ∷ 97 ∷ 0 ∷ [])
unfolding utf8_to_iso
converts_erroneous = refl

x_utf8s_to_iso_8859_1s-x_iso_8859_1s_to_utf8s_example :
    (utf8 : List ℕ) × All (λ b. 0 < b) utf8
    × (x_iso_8859_1s_to_utf8s true text 8 ≡ (length utf8, utf8 ++ 0 ∷ []))
    × (x_utf8s_to_iso_8859_1s true utf8 8 ≡ (length text, text ++ 0 ∷ []))
x_utf8s_to_iso_8859_1s-x_iso_8859_1s_to_utf8s_example =
    x_utf8s_to_iso_8859_1s-x_iso_8859_1s_to_utf8s text 8
      ((omega arith, omega arith), ((omega arith, omega arith), tt)) (omega arith)

stored-le-count_example :
    (length (x_iso_8859_1s_to_utf8s true text 3).1 ≤ 3)
    × (length (x_utf8s_to_iso_8859_1s true text 3).1 ≤ 3)
    × ((x_iso_8859_1s_to_utf8s false text 3).1 ≡ [])
    × ((x_utf8s_to_iso_8859_1s false text 3).1 ≡ [])
stored-le-count_example = stored-le-count true text 3
