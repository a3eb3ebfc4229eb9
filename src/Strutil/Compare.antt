-- ===== src/Strutil/Compare.antt =====
-- What the comparisons of kernel/lib/strutil.c say.
use yjkos.Prelude.{
  ℕ, suc, ◌+◌, ◌%◌, ◌<◌, ◌≡◌, ◌≢◌, ◌↔◌, refl, ap, ap₂, Bool-cases, true, false, inl, inr, List, [],
  ◌∷◌, arith, ltb, ◌==◌, length, take,
}
use native.Mathlib.Decide.{ℕ_discrete}
use yjkos.Strutil.{kstrlen, char_diff, kstrcmp, kstrncmp, is_zero}

-- No character is the one that ends a string.
abbrev pub AreChars : List ℕ → Type 0
AreChars [] = Unit
AreChars (c ∷ s) = (0 < c) × (c < 256) × AreChars s

char_diff-ne : (a b : ℕ) → a < 256 → b < 256 → a ≢ b → is_zero (char_diff a b) ≡ false
unfolding is_zero char_diff
char_diff-ne a b ha hb ne = elim (Bool-cases (ltb ((a + 128) % 256) ((b + 128) % 256))) [
  | inl h ↦ rw h refl
  | inr h ↦ rw h (ground arith)
]

pub kstrlen-length : (s : List ℕ) → kstrlen s ≡ length s
unfolding kstrlen
kstrlen-length [] = refl
kstrlen-length (c ∷ s) = ap suc (kstrlen-length s)

head_of : List ℕ → ℕ
head_of [] = 0
head_of (c ∷ s) = c

tail_of : List ℕ → List ℕ
tail_of [] = []
tail_of (c ∷ s) = s

-- kstrcmp of two strings of bytes is 0 exactly if they are equal.
pub kstrcmp-zero :
    (s t : List ℕ) → AreChars s → AreChars t → (is_zero (kstrcmp s t) ≡ true) ↔ (s ≡ t)
unfolding kstrcmp is_zero head_of tail_of
kstrcmp-zero [] [] hs ht = (λ h. refl, λ e. refl)
kstrcmp-zero [] (d ∷ t) hs (some_d, small, rest) =
    (λ h. absurd (cc (h, char_diff-ne 0 d (omega arith) small (omega arith))), λ e. absurd (cc e))
kstrcmp-zero (c ∷ s) [] (some_c, small, rest) ht =
    (λ h. absurd (cc (h, char_diff-ne c 0 small (omega arith) (omega arith))), λ e. absurd (cc e))
kstrcmp-zero (c ∷ s) (d ∷ t) (some_c, small_c, hs) (some_d, small_d, ht) =
    let (there, back) = kstrcmp-zero s t hs ht in
    elim (ℕ_discrete c d) [
      | yes e ↦
          let h : (c == d) ≡ true = ground arith in
          rw h (λ z. ap₂ ◌∷◌ e (there z), λ p. back (ap tail_of p))
      | no ne ↦
          let h : (c == d) ≡ false = ground arith in
          rw h (
            λ z. absurd (cc (z, char_diff-ne c d small_c small_d ne)),
            λ p. absurd (ne (ap head_of p)),
          )
    ]

-- kstrncmp over the length of the second string is 0 exactly if the first begins with it.
pub kstrncmp-zero :
    (s t : List ℕ)
    → AreChars s
    → AreChars t
    → (is_zero (kstrncmp s t (kstrlen t)) ≡ true) ↔ (take (length t) s ≡ t)
unfolding kstrncmp is_zero kstrlen head_of tail_of
kstrncmp-zero s [] hs ht = (λ h. refl, λ e. refl)
kstrncmp-zero [] (d ∷ t) hs (some_d, small, rest) =
    (λ h. absurd (cc (h, char_diff-ne 0 d (omega arith) small (omega arith))), λ e. absurd (cc e))
kstrncmp-zero (c ∷ s) (d ∷ t) (some_c, small_c, hs) (some_d, small_d, ht) =
    let (there, back) = kstrncmp-zero s t hs ht in
    elim (ℕ_discrete c d) [
      | yes e ↦
          let h : (c == d) ≡ true = ground arith in
          rw h (λ z. ap₂ ◌∷◌ e (there z), λ p. back (ap tail_of p))
      | no ne ↦
          let h : (c == d) ≡ false = ground arith in
          rw h (
            λ z. absurd (cc (z, char_diff-ne c d small_c small_d ne)),
            λ p. absurd (ne (ap head_of p)),
          )
    ]
