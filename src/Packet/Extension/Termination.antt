-- ===== src/Packet/Extension/Termination.antt =====
-- When the loop over the extensions ends, and when it does not.
use route.Base.{
  ℕ, zero, suc, ◌+◌, ◌-◌, ◌<◌, ◌≡◌, ◌≢◌, inl, inr, refl, arith, ltb, Bool-cases, lt→ltb, ltb→lt,
  ◌∙◌, bit_and, ◌>>>◌, ◌<<<◌, u64,
}
use mathlib.Core.Path.{subst}
use route.Wire.{Buffer, read32}
use route.Packet.Status.{Result, ok, stop, ◌>>=◌, looping}
use route.Packet.Extension.{
  Ext, het_of, take_word, pass_over, read_fdt, read_cenc, read_fti, read_fti_scheme,
  read_fti_lengths, read_extension, read_extensions,
}

-- EXT_NOP, EXT_AUTH or EXT_TIME with a length of 0 words.
abbrev pub ZeroLength : ℕ → Type 0
ZeroLength word = (het_of word < 3) × (bit_and word 0x00FF0000 >>> 16 ≡ 0)

ok_injective : {x y : Ext} → ok x ≡ ok y → x ≡ y
ok_injective e = cc

-- Fewer than `n` words of the header are left.
abbrev Shorter : ℕ → Ext → Type 0
Shorter n x = x.exthdrlen < n

module _ (n : ℕ) (x : Ext) (h : Shorter n x) {x' : Ext} where
  read_fdt-Shorter : (word : ℕ) → read_fdt word x ≡ ok x' → Shorter n x'
  unfolding read_fdt
  read_fdt-Shorter word e = ground arith

  read_cenc-Shorter : (word : ℕ) → read_cenc word x ≡ ok x' → Shorter n x'
  unfolding read_cenc
  read_cenc-Shorter word e = ground arith

  read_fti_scheme-Shorter : (fec word : ℕ) → read_fti_scheme fec word x ≡ ok x' → Shorter n x'
  unfolding read_fti_scheme
  read_fti_scheme-Shorter fec word e = ground arith

read_fti_lengths-Shorter :
    (n : ℕ) (fec word : ℕ) (m : Buffer) (x : Ext)
    → Shorter n x
    → Shorter n (read_fti_lengths fec word m x)
unfolding read_fti_lengths
read_fti_lengths-Shorter n fec word m x h = ground arith

-- The state that `read_fti` hands on, after two words.
abbrev two_taken : ℕ → Buffer → Ext → Ext
two_taken word m x = record x {
  transfer_len = u64 ((bit_and word 0x0000FFFF <<< 16) + read32 m x.hdrlen);
  hdrlen = x.hdrlen + 8;
  exthdrlen = x.exthdrlen - 2;
}

read_fti-Shorter :
    (n fec word : ℕ) (m : Buffer) (x : Ext) {x' : Ext}
    → Shorter n x
    → read_fti fec word m x ≡ ok x'
    → Shorter n x'
unfolding read_fti
read_fti-Shorter n fec word m x {x'} h e =
    go (read_fti_scheme fec third (two_taken word m x)) refl (checked e)
  where
    third : ℕ
    third = read32 m (x.hdrlen + 4)

    rest : Result Ext → Result Ext
    rest r = r >>= λ x''. ok (read_fti_lengths fec third m x'')

    checked :
        read_fti fec word m x ≡ ok x'
        → rest (read_fti_scheme fec third (two_taken word m x)) ≡ ok x'
    checked e = ground arith

    go :
        (r : Result Ext)
        → read_fti_scheme fec third (two_taken word m x) ≡ r
        → rest r ≡ ok x'
        → Shorter n x'
    go (ok y) e₁ e₂ = subst (Shorter n) (ok_injective e₂) (
        read_fti_lengths-Shorter n fec third m y
          (read_fti_scheme-Shorter n (two_taken word m x) (omega arith) fec third e₁))
    go (stop s) e₁ e₂ = absurd (cc)

pass_over-Shorter : (n : ℕ) (x : Ext) → Shorter n x → 0 < x.hel → Shorter n (pass_over x)
unfolding pass_over
pass_over-Shorter n x h p = ground arith

take_word-Shorter : (word : ℕ) (x : Ext) → 0 < x.exthdrlen → Shorter x.exthdrlen (take_word word x)
unfolding take_word
take_word-Shorter word x p = omega arith

hel-take_word :
    (word : ℕ) (x : Ext)
    → het_of word < 128
    → (take_word word x).hel ≡ bit_and word 0x00FF0000 >>> 16
unfolding take_word
hel-take_word word x h = ground arith

-- Each extension that is read shortens what is left of the header, unless it is one that is passed
-- over and has no length.
pub read_extension-Shorter :
    (fec : ℕ) (m : Buffer) (x : Ext) {x' : Ext}
    → 0 < x.exthdrlen
    → ¬ (ZeroLength (read32 m x.hdrlen))
    → read_extension fec m x ≡ ok x'
    → Shorter x.exthdrlen x'
unfolding read_extension
read_extension-Shorter fec m x {x'} p z e =
    let word = read32 m x.hdrlen in
    let n = x.exthdrlen in
    let y = take_word word x in
    let start = take_word-Shorter word x p in
    ground (
      arith,
      read_fdt-Shorter n y start {x' = x'} word,
      read_cenc-Shorter n y start {x' = x'} word,
      read_fti-Shorter n fec word m y {x' = x'} start,
      pass_over-Shorter n y start,
      hel-take_word word x,
    )

read_extension-ne-looping : (fec : ℕ) (m : Buffer) (x : Ext) → read_extension fec m x ≢ stop looping
unfolding read_extension
read_extension-ne-looping fec m x e = ground arith

-- The states that the loop goes through from `x` on.
pub data Reaches (fec : ℕ) (m : Buffer) : Ext → Ext → Type 0 where
  here : {x : Ext} → Reaches fec m x x
  next :
      {x y z : Ext}
      → 0 < x.exthdrlen
      → read_extension fec m x ≡ ok y
      → Reaches fec m y z
      → Reaches fec m x z

-- The loop comes to an extension that is passed over and has no length.
abbrev pub Stuck : ℕ → Buffer → Ext → Type 0
Stuck fec m x = (y : Ext) × Reaches fec m x y × (0 < y.exthdrlen) × ZeroLength (read32 m y.hdrlen)

-- A round of the loop, whose rest is `k`.
round-halts :
    (fec : ℕ) (m : Buffer) (x : Ext) (k : Ext → Result Ext)
    → 0 < x.exthdrlen
    → ¬ (Stuck fec m x)
    → ((y : Ext) → y.exthdrlen < x.exthdrlen → ¬ (Stuck fec m y) → k y ≢ stop looping)
    → (read_extension fec m x >>= k) ≢ stop looping
round-halts fec m x k p free h = go (read_extension fec m x) refl
  where
    go : (r : Result Ext) → read_extension fec m x ≡ r → (r >>= k) ≢ stop looping
    go (ok y) e =
        h y (read_extension-Shorter fec m x p (λ z. free (x, here, p, z)) e)
          (λ (z, r, q, w). free (z, next p e r, q, w))
    go (stop s) e = λ e'. read_extension-ne-looping fec m x (e ∙ e')

-- The loop ends within as many rounds as words are left, and one, unless it comes to an extension
-- that is passed over and has no length.
pub read_extensions-halts :
    (fuel fec : ℕ) (m : Buffer) (x : Ext)
    → x.exthdrlen < fuel
    → ¬ (Stuck fec m x)
    → read_extensions fuel fec m x ≢ stop looping
unfolding read_extensions
read_extensions-halts zero fec m x f free = absurd (omega arith)
read_extensions-halts (suc fuel) fec m x f free = elim (Bool-cases (ltb 0 x.exthdrlen)) [
  | inl more ↦ rw more (
      round-halts fec m x _ (ltb→lt _ _ more) free
        (λ y short free'. read_extensions-halts fuel fec m y (omega arith) free'))
  | inr done ↦ rw done (λ e. cc)
]

pass_over_zero :
    (fec : ℕ) (m : Buffer) (x : Ext)
    → 0 < x.exthdrlen
    → ZeroLength (read32 m x.hdrlen)
    → read_extension fec m x ≡ ok (record x { hel = 0 })
unfolding read_extension
pass_over_zero fec m x p z = ground arith

at_the_stop :
    (fuel fec : ℕ) (m : Buffer) (x : Ext)
    → 0 < x.exthdrlen
    → ZeroLength (read32 m x.hdrlen)
    → read_extensions fuel fec m x ≡ stop looping
unfolding read_extensions
at_the_stop zero fec m x p z = refl
at_the_stop (suc fuel) fec m x p z =
    rw (lt→ltb 0 x.exthdrlen p, pass_over_zero fec m x p z)
      (at_the_stop fuel fec m (record x { hel = 0 }) p z)

-- If the loop comes to an extension that is passed over and has a length of 0 words, it does not
-- end, whatever the fuel: it comes back to the same word for ever.
pub read_extensions-loops :
    (fec : ℕ) (m : Buffer) (fuel : ℕ) {x y : Ext}
    → Reaches fec m x y
    → 0 < y.exthdrlen
    → ZeroLength (read32 m y.hdrlen)
    → read_extensions fuel fec m x ≡ stop looping
unfolding read_extensions
read_extensions-loops fec m fuel {x} here p z = at_the_stop fuel fec m x p z
read_extensions-loops fec m zero (next q e r) p z = refl
read_extensions-loops fec m (suc fuel) (next {x} q e r) p z =
    rw (lt→ltb 0 x.exthdrlen q, e) (read_extensions-loops fec m fuel r p z)
