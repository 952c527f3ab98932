-- ===== src/Replace/Scan.antt =====
-- The pass that shrinks and the first pass, over characters that do not begin the needle, and over
-- the needle.
use route.Base.{
  ℕ, ◌+◌, ◌-◌, ◌≡◌, ◌≢◌, ◌≤◌, ◌<◌, refl, arith, ap, sym, ◌∙◌, true, false, List, [], ◌∷◌, ◌++◌,
  length, take, All, length-append,
}
use route.Replace.{found, next, shrink, forward}

-- Characters that are not the first of the needle leave the pointer at its start.
pub next-other : (x : ℕ) (n : List ℕ) (c : ℕ) → x ≢ c → next (x ∷ n) (x ∷ n) c ≡ x ∷ n
unfolding next
next-other x [] c ne = refl
next-other x (y ∷ n) c ne = ground arith

pub found-other : (x : ℕ) (n : List ℕ) (c : ℕ) → x ≢ c → found (x ∷ n) c ≡ false
unfolding found
found-other x [] c ne = ground arith
found-other x (y ∷ n) c ne = refl

pub append_one : (xs : List ℕ) (c : ℕ) (ys : List ℕ) → (xs ++ c ∷ []) ++ ys ≡ xs ++ c ∷ ys
append_one [] c ys = refl
append_one (x ∷ xs) c ys = ap (λ (t : List ℕ). x ∷ t) (append_one xs c ys)

pub append_none : (xs : List ℕ) → xs ++ [] ≡ xs
append_none [] = refl
append_none (x ∷ xs) = ap (λ (t : List ℕ). x ∷ t) (append_none xs)

-- A character that the needle begins with, and that is not its last.
pub next-match : (needle : List ℕ) (p q : ℕ) (ps : List ℕ) → next needle (p ∷ q ∷ ps) p ≡ q ∷ ps
unfolding next
next-match needle p q ps = ground arith

pub found-last : (p : ℕ) → found (p ∷ []) p ≡ true
unfolding found
found-last p = ground arith

pub shrink-on :
    (needle new ptr ptr' : List ℕ) (c : ℕ) (cs out : List ℕ)
    → found ptr c ≡ false
    → next needle ptr c ≡ ptr'
    → shrink needle new ptr (c ∷ cs) out ≡ shrink needle new ptr' cs (out ++ c ∷ [])
unfolding shrink
shrink-on needle new ptr ptr' c cs out e e' = rw (e, e') refl

pub shrink-last :
    (needle new : List ℕ) (p : ℕ) (cs out : List ℕ)
    → shrink needle new (p ∷ []) (p ∷ cs) out
      ≡ shrink needle new needle cs
          (take (length (out ++ p ∷ []) - length needle) (out ++ p ∷ []) ++ new)
unfolding shrink next
shrink-last needle new p cs out = rw (found-last p) refl

pub shrink-other :
    (x : ℕ) (n new cs t out : List ℕ)
    → All (λ c. x ≢ c) cs
    → shrink (x ∷ n) new (x ∷ n) (cs ++ t) out ≡ shrink (x ∷ n) new (x ∷ n) t (out ++ cs)
shrink-other x n new [] t out a = rw (append_none out) refl
shrink-other x n new (c ∷ cs) t out a =
    shrink-on (x ∷ n) new (x ∷ n) (x ∷ n) c (cs ++ t) out (found-other x n c a.0)
      (next-other x n c a.0)
    ∙ shrink-other x n new cs t (out ++ c ∷ []) a.1
    ∙ ap (λ (o : List ℕ). shrink (x ∷ n) new (x ∷ n) t o) (append_one out c cs)

-- What is written when the needle is complete.
abbrev replaced : List ℕ → List ℕ → List ℕ → List ℕ
replaced needle new out = take (length out - length needle) out ++ new

pub shrink-match :
    (needle new : List ℕ) (p : ℕ) (ps t out : List ℕ)
    → shrink needle new (p ∷ ps) (p ∷ ps ++ t) out
      ≡ shrink needle new needle t (replaced needle new (out ++ p ∷ ps))
unfolding found
shrink-match needle new p [] t out = shrink-last needle new p t out
shrink-match needle new p (q ∷ ps) t out =
    shrink-on needle new (p ∷ q ∷ ps) (q ∷ ps) p (q ∷ ps ++ t) out refl (next-match needle p q ps)
    ∙ shrink-match needle new q ps t (out ++ p ∷ [])
    ∙ ap (λ (o : List ℕ). shrink needle new needle t (replaced needle new o))
        (append_one out p (q ∷ ps))

pub take-append : (xs ys : List ℕ) → take (length xs) (xs ++ ys) ≡ xs
take-append [] ys = refl
take-append (x ∷ xs) ys = ap (λ (t : List ℕ). x ∷ t) (take-append xs ys)

pub replaced-append : (needle new out : List ℕ) → replaced needle new (out ++ needle) ≡ out ++ new
replaced-append needle new out =
    ap (λ k. take k (out ++ needle) ++ new) (omega (arith, length-append out needle))
    ∙ ap (λ (o : List ℕ). o ++ new) (take-append out needle)

pub shrink-once :
    (x : ℕ) (n new pre post : List ℕ)
    → All (λ c. x ≢ c) pre
    → All (λ c. x ≢ c) post
    → shrink (x ∷ n) new (x ∷ n) (pre ++ (x ∷ n ++ post)) [] ≡ (pre ++ new) ++ post
unfolding shrink
shrink-once x n new pre post a b =
    shrink-other x n new pre (x ∷ n ++ post) [] a
    ∙ shrink-match (x ∷ n) new x n post pre
    ∙ ap (λ (o : List ℕ). shrink (x ∷ n) new (x ∷ n) post o) (replaced-append (x ∷ n) new pre)
    ∙ ap (λ (l : List ℕ). shrink (x ∷ n) new (x ∷ n) l (pre ++ new)) (sym (append_none post))
    ∙ shrink-other x n new post [] (pre ++ new) b

-- The first pass of a longer needle.
pub forward-on :
    (needle ptr ptr' : List ℕ) (c : ℕ) (cs : List ℕ) (i ahead diff size : ℕ)
    → found ptr c ≡ false
    → next needle ptr c ≡ ptr'
    → i + ahead < size
    → forward needle ptr (c ∷ cs) i ahead diff size ≡ forward needle ptr' cs (i + 1) ahead diff size
unfolding forward
forward-on needle ptr ptr' c cs i ahead diff size e e' l = rw (e, e') (ground arith)

pub forward-last :
    (needle : List ℕ) (p : ℕ) (cs : List ℕ) (i ahead diff size : ℕ)
    → i + (ahead + diff) < size
    → forward needle (p ∷ []) (p ∷ cs) i ahead diff size
      ≡ forward needle needle cs (i + 1) (ahead + diff) diff size
unfolding forward next
forward-last needle p cs i ahead diff size l = rw (found-last p) (ground arith)

pub forward-other :
    (x : ℕ) (n cs t : List ℕ) (i ahead diff size : ℕ)
    → All (λ c. x ≢ c) cs
    → i + length cs + ahead ≤ size
    → forward (x ∷ n) (x ∷ n) (cs ++ t) i ahead diff size
      ≡ forward (x ∷ n) (x ∷ n) t (i + length cs) ahead diff size
forward-other x n [] t i ahead diff size a l =
    ap (λ k. forward (x ∷ n) (x ∷ n) t k ahead diff size) (omega arith)
forward-other x n (c ∷ cs) t i ahead diff size a l =
    forward-on (x ∷ n) (x ∷ n) (x ∷ n) c (cs ++ t) i ahead diff size (found-other x n c a.0)
      (next-other x n c a.0) (omega arith)
    ∙ forward-other x n cs t (i + 1) ahead diff size a.1 (omega arith)
    ∙ ap (λ k. forward (x ∷ n) (x ∷ n) t k ahead diff size) (omega arith)

pub forward-match :
    (needle : List ℕ) (p : ℕ) (ps t : List ℕ) (i ahead diff size : ℕ)
    → i + (1 + length ps) + (ahead + diff) ≤ size
    → forward needle (p ∷ ps) (p ∷ ps ++ t) i ahead diff size
      ≡ forward needle needle t (i + (1 + length ps)) (ahead + diff) diff size
unfolding found
forward-match needle p [] t i ahead diff size l =
    forward-last needle p t i ahead diff size (omega arith)
forward-match needle p (q ∷ ps) t i ahead diff size l =
    forward-on needle (p ∷ q ∷ ps) (q ∷ ps) p (q ∷ ps ++ t) i ahead diff size refl
      (next-match needle p q ps) (omega arith)
    ∙ forward-match needle q ps t (i + 1) ahead diff size (omega arith)
    ∙ ap (λ k. forward needle needle t k (ahead + diff) diff size) (omega arith)
