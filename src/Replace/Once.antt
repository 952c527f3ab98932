-- ===== src/Replace/Once.antt =====
-- The replacement of one occurrence.
use route.Base.{
  ℕ, ◌+◌, ◌-◌, ◌≡◌, ◌≢◌, ◌≤◌, ◌<◌, arith, ap, sym, ◌∙◌, true, false, some, List, [], ◌∷◌, ◌++◌,
  ◌==◌, leb, length, drop, All, length-append, Bool-cases, inl, inr,
}
use route.Replace.{success, shrink, forward, backward, reverse_onto, expanded, str_replace}
use mathlib.Core.List.{append_assoc}
use route.Replace.Scan.{append_none, shrink-once, forward-other, forward-match}
use route.Replace.Back.{
  backward-other, backward-match, drop-reverse_onto, reverse_onto-append, reverse_onto-out,
  reverse_onto-twice, All-reverse_onto,
}

forward-once :
    (x : ℕ) (n pre post : List ℕ) (diff size : ℕ)
    → All (λ c. x ≢ c) pre
    → All (λ c. x ≢ c) post
    → length pre + (1 + length n) + length post + diff ≤ size
    → forward (x ∷ n) (x ∷ n) (pre ++ (x ∷ n ++ post)) 0 0 diff size ≡ some diff
unfolding forward
forward-once x n pre post diff size a b l =
    forward-other x n pre (x ∷ n ++ post) 0 0 diff size a (omega arith)
    ∙ forward-match (x ∷ n) x n post (0 + length pre) 0 diff size (omega arith)
    ∙ ap
        (λ (t : List ℕ).
          forward (x ∷ n) (x ∷ n) t (0 + length pre + (1 + length n)) (0 + diff) diff size)
        (sym (append_none post))
    ∙ forward-other x n post [] (0 + length pre + (1 + length n)) (0 + diff) diff size b
        (omega arith)
    ∙ ap some (omega arith)

backward-end :
    (needle new : List ℕ) (ahead : ℕ) (out : List ℕ)
    → backward needle new needle [] (ahead - ahead) ahead out ≡ success out
unfolding backward
backward-end needle new ahead out = ground arith

backward-once :
    (y : ℕ) (m new pre post : List ℕ) (ahead : ℕ)
    → All (λ c. y ≢ c) pre
    → All (λ c. y ≢ c) post
    → backward (y ∷ m) new (y ∷ m) (post ++ (y ∷ m ++ pre)) ahead ahead []
      ≡ success (reverse_onto pre (new ++ reverse_onto post []))
backward-once y m new pre post ahead a b =
    backward-other y m new post (y ∷ m ++ pre) ahead ahead [] b
    ∙ backward-match (y ∷ m) new y m pre ahead ahead (reverse_onto post []) (omega arith)
    ∙ ap (λ (o : List ℕ). backward (y ∷ m) new (y ∷ m) pre (ahead - ahead) ahead (new ++ o)) dropped
    ∙ ap
        (λ (l : List ℕ).
          backward (y ∷ m) new (y ∷ m) l (ahead - ahead) ahead (new ++ reverse_onto post []))
        (sym (append_none pre))
    ∙ backward-other y m new pre [] (ahead - ahead) ahead (new ++ reverse_onto post []) a
    ∙ backward-end (y ∷ m) new ahead (reverse_onto pre (new ++ reverse_onto post []))
  where
    none_more : (k : ℕ) → k ≡ k + 0
    none_more k = omega arith

    dropped :
        drop (length (y ∷ m)) (reverse_onto (y ∷ m) (reverse_onto post [])) ≡ reverse_onto post []
    dropped =
        ap (λ k. drop k (reverse_onto (y ∷ m) (reverse_onto post []))) (none_more (length (y ∷ m)))
        ∙ drop-reverse_onto (y ∷ m) 0 (reverse_onto post [])

-- The string from its end.
from_end :
    (pre needle post : List ℕ)
    → reverse_onto (pre ++ (needle ++ post)) []
      ≡ reverse_onto post [] ++ (reverse_onto needle [] ++ reverse_onto pre [])
from_end pre needle post =
    reverse_onto-append pre (needle ++ post) []
    ∙ reverse_onto-append needle post (reverse_onto pre [])
    ∙ reverse_onto-out post (reverse_onto needle (reverse_onto pre []))
    ∙ ap (λ (l : List ℕ). reverse_onto post [] ++ l) (reverse_onto-out needle (reverse_onto pre []))

second_pass :
    (pre needle post new : List ℕ) (y : ℕ) (m : List ℕ) (ahead : ℕ)
    → reverse_onto needle [] ≡ y ∷ m
    → All (λ c. y ≢ c) pre
    → All (λ c. y ≢ c) post
    → backward
        (reverse_onto needle [])
        new
        (reverse_onto needle [])
        (reverse_onto (pre ++ (needle ++ post)) [])
        ahead
        ahead
        []
      ≡ success (pre ++ (new ++ post))
unfolding reverse_onto
second_pass pre needle post new y m ahead e a b =
    ap
      (λ (l : List ℕ).
        backward (reverse_onto needle []) new (reverse_onto needle []) l ahead ahead [])
      (from_end pre needle post)
    ∙ ap
        (λ (r : List ℕ).
          backward r new r (reverse_onto post [] ++ (r ++ reverse_onto pre [])) ahead ahead [])
        e
    ∙ backward-once y m new (reverse_onto pre []) (reverse_onto post []) ahead
        (All-reverse_onto y pre [] a tt) (All-reverse_onto y post [] b tt)
    ∙ ap (λ (l : List ℕ). success (reverse_onto (reverse_onto pre []) (new ++ l)))
        (reverse_onto-twice post [] [] ∙ append_none post)
    ∙ ap success (reverse_onto-twice pre [] (new ++ post))

str_replace-short :
    (haystack : List ℕ) (size : ℕ) (x : ℕ) (n new : List ℕ)
    → leb (length new) (length (x ∷ n)) ≡ true
    → str_replace haystack size (x ∷ n) new ≡ success (shrink (x ∷ n) new (x ∷ n) haystack [])
unfolding str_replace
str_replace-short haystack size x n new e = ground arith

str_replace-long :
    (haystack : List ℕ) (size : ℕ) (x : ℕ) (n new : List ℕ) (ahead : ℕ)
    → leb (length new) (length (x ∷ n)) ≡ false
    → forward (x ∷ n) (x ∷ n) haystack 0 0 (length new - length (x ∷ n)) size ≡ some ahead
    → length haystack + ahead < size
    → str_replace haystack size (x ∷ n) new
      ≡ backward
          (reverse_onto (x ∷ n) [])
          new
          (reverse_onto (x ∷ n) [])
          (reverse_onto haystack [])
          ahead
          (length new - length (x ∷ n))
          []
unfolding str_replace
str_replace-long haystack size x n new ahead e f l =
    rw (some_needle, e) (ap (λ o. expanded haystack size (x ∷ n) new o) f ∙ fits)
  where
    some_needle : (length (x ∷ n) == 0) ≡ false
    some_needle = ground arith

    fits :
        expanded haystack size (x ∷ n) new (some ahead)
        ≡ backward
            (reverse_onto (x ∷ n) [])
            new
            (reverse_onto (x ∷ n) [])
            (reverse_onto haystack [])
            ahead
            (length new - length (x ∷ n))
            []
    fits = ground arith

-- A needle that occurs once in a string, which has its first and its last character nowhere else,
-- is replaced, whether the new one is longer or not, if the result and the 0 behind it fit.
pub str_replace-once :
    (pre post new : List ℕ) (size : ℕ) (x : ℕ) (n : List ℕ) (y : ℕ) (m : List ℕ)
    → reverse_onto (x ∷ n) [] ≡ y ∷ m
    → All (λ c. x ≢ c) pre
    → All (λ c. x ≢ c) post
    → All (λ c. y ≢ c) pre
    → All (λ c. y ≢ c) post
    → length (pre ++ (new ++ post)) < size
    → str_replace (pre ++ (x ∷ n ++ post)) size (x ∷ n) new ≡ success (pre ++ (new ++ post))
unfolding str_replace
str_replace-once pre post new size x n y m e a b c d l =
    elim (Bool-cases (leb (length new) (length (x ∷ n)))) [
      | inl short ↦
          str_replace-short (pre ++ (x ∷ n ++ post)) size x n new short
          ∙ ap success (shrink-once x n new pre post a b ∙ append_assoc pre new post)
      | inr long ↦
          str_replace-long (pre ++ (x ∷ n ++ post)) size x n new (length new - length (x ∷ n)) long
            (forward-once x n pre post (length new - length (x ∷ n)) size a b (room long).0)
            (room long).1
          ∙ second_pass pre (x ∷ n) post new y m (length new - length (x ∷ n)) e c d
    ]
  where
    room :
        leb (length new) (length (x ∷ n)) ≡ false
        → (length pre + (1 + length n) + length post + (length new - length (x ∷ n)) ≤ size)
          × (length (pre ++ (x ∷ n ++ post)) + (length new - length (x ∷ n)) < size)
    room long =
        let longer : length (x ∷ n) < length new = ground arith in
        let result = length-append pre (new ++ post) in
        let behind = length-append new post in
        let string = length-append pre (x ∷ n ++ post) in
        let tail = length-append (x ∷ n) post in (omega arith, omega arith)
