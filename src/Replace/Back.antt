-- ===== src/Replace/Back.antt =====
-- The second pass, and strings from their end.
use route.Base.{
  ℕ, suc, ◌+◌, ◌-◌, ◌≡◌, ◌≢◌, ◌≤◌, refl, arith, ap, sym, ◌∙◌, false, List, [], ◌∷◌, ◌++◌, length,
  drop, All,
}
use route.Replace.{found, next, backward, reverse_onto}
use route.Replace.Scan.{next-other, found-other, append_one, next-match, found-last}

-- The second pass.
pub backward-on :
    (needle new ptr ptr' : List ℕ) (c : ℕ) (cs : List ℕ) (ahead diff : ℕ) (out : List ℕ)
    → found ptr c ≡ false
    → next needle ptr c ≡ ptr'
    → backward needle new ptr (c ∷ cs) ahead diff out
      ≡ backward needle new ptr' cs ahead diff (c ∷ out)
unfolding backward
backward-on needle new ptr ptr' c cs ahead diff out e e' = rw (e, e') refl

pub backward-last :
    (needle new : List ℕ) (p : ℕ) (cs : List ℕ) (ahead diff : ℕ) (out : List ℕ)
    → diff ≤ ahead
    → backward needle new (p ∷ []) (p ∷ cs) ahead diff out
      ≡ backward needle new needle cs (ahead - diff) diff (new ++ drop (length needle) (p ∷ out))
unfolding backward next
backward-last needle new p cs ahead diff out l = rw (found-last p) (ground arith)

pub backward-other :
    (x : ℕ) (n new cs t : List ℕ) (ahead diff : ℕ) (out : List ℕ)
    → All (λ c. x ≢ c) cs
    → backward (x ∷ n) new (x ∷ n) (cs ++ t) ahead diff out
      ≡ backward (x ∷ n) new (x ∷ n) t ahead diff (reverse_onto cs out)
unfolding reverse_onto
backward-other x n new [] t ahead diff out a = refl
backward-other x n new (c ∷ cs) t ahead diff out a =
    backward-on (x ∷ n) new (x ∷ n) (x ∷ n) c (cs ++ t) ahead diff out (found-other x n c a.0)
      (next-other x n c a.0)
    ∙ backward-other x n new cs t ahead diff (c ∷ out) a.1

pub backward-match :
    (needle new : List ℕ) (p : ℕ) (ps t : List ℕ) (ahead diff : ℕ) (out : List ℕ)
    → diff ≤ ahead
    → backward needle new (p ∷ ps) (p ∷ ps ++ t) ahead diff out
      ≡ backward needle new needle t
          (ahead - diff)
          diff
          (new ++ drop (length needle) (reverse_onto (p ∷ ps) out))
unfolding found reverse_onto
backward-match needle new p [] t ahead diff out l = backward-last needle new p t ahead diff out l
backward-match needle new p (q ∷ ps) t ahead diff out l =
    backward-on needle new (p ∷ q ∷ ps) (q ∷ ps) p (q ∷ ps ++ t) ahead diff out refl
      (next-match needle p q ps)
    ∙ backward-match needle new q ps t ahead diff (p ∷ out) l

pub drop-reverse_onto :
    (cs : List ℕ) (k : ℕ) (out : List ℕ) → drop (length cs + k) (reverse_onto cs out) ≡ drop k out
unfolding reverse_onto
drop-reverse_onto [] k out = ap (λ j. drop j out) (omega arith)
drop-reverse_onto (c ∷ cs) k out =
    ap (λ j. drop j (reverse_onto cs (c ∷ out))) (omega arith)
    ∙ drop-reverse_onto cs (suc k) (c ∷ out)

pub reverse_onto-append :
    (xs ys out : List ℕ) → reverse_onto (xs ++ ys) out ≡ reverse_onto ys (reverse_onto xs out)
unfolding reverse_onto
reverse_onto-append [] ys out = refl
reverse_onto-append (x ∷ xs) ys out = reverse_onto-append xs ys (x ∷ out)

pub reverse_onto-out : (xs out : List ℕ) → reverse_onto xs out ≡ reverse_onto xs [] ++ out
unfolding reverse_onto
reverse_onto-out [] out = refl
reverse_onto-out (x ∷ xs) out =
    reverse_onto-out xs (x ∷ out)
    ∙ sym (append_one (reverse_onto xs []) x out)
    ∙ ap (λ (l : List ℕ). l ++ out) (sym (reverse_onto-out xs (x ∷ [])))

pub reverse_onto-twice :
    (xs ys out : List ℕ) → reverse_onto (reverse_onto xs ys) out ≡ reverse_onto ys (xs ++ out)
unfolding reverse_onto
reverse_onto-twice [] ys out = refl
reverse_onto-twice (x ∷ xs) ys out = reverse_onto-twice xs (x ∷ ys) out

pub All-reverse_onto :
    (y : ℕ) (xs ys : List ℕ)
    → All (λ c. y ≢ c) xs
    → All (λ c. y ≢ c) ys
    → All (λ c. y ≢ c) (reverse_onto xs ys)
unfolding reverse_onto
All-reverse_onto y [] ys a b = b
All-reverse_onto y (x ∷ xs) ys a b = All-reverse_onto y xs (x ∷ ys) a.1 (a.0, b)
