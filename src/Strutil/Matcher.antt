-- ===== src/Strutil/Matcher.antt =====
-- The string matcher of kernel/lib/strutil.c.
use yjkos.Prelude.{
  ℕ, zero, suc, ◌+◌, ◌-◌, ◌%◌, ◌≤◌, ◌<◌, ◌≡◌, ◌↔◌, ◌⊎◌, refl, Bool-cases, true, false, inl, inr,
  List, [], ◌∷◌, arith, ltb, ◌==◌, length, take, drop, get_or,
}
use native.Mathlib.Nat.{mod-eq_of_lt}
use native.Mathlib.Decide.{ℕ_discrete}
use yjkos.Bits.{word_mod}
use yjkos.Strutil.{
  kstrlen, Smatcher, matches, isspace, smatcher_consume_str_if_match,
  smatcher_consume_word_if_match,
}
use yjkos.Strutil.Compare.{AreChars, kstrncmp-zero, kstrlen-length}

-- The place lies in the part of the string that is matched.
pub record IsMatcher (self : Smatcher) : Type 0 where
  pub inside : self.currentindex ≤ self.len
  pub within : self.len ≤ length self.str
  pub small : self.len < word_mod
  pub chars : AreChars self.str

-- What is left of the matched part begins with the string.
abbrev pub Begins : Smatcher → List ℕ → Type 0
Begins self str =
    (self.currentindex + length str ≤ self.len)
    × (take (length str) (drop self.currentindex self.str) ≡ str)

drop-AreChars : (n : ℕ) (s : List ℕ) → AreChars s → AreChars (drop n s)
drop-AreChars zero s h = h
drop-AreChars (suc n) [] h = h
drop-AreChars (suc n) (c ∷ s) (some_c, small, h) = drop-AreChars n s h

module _ (self : Smatcher) (v : IsMatcher self) (str : List ℕ) (chars : AreChars str) where
  matches-Begins : (matches self str ≡ true) ↔ Begins self str
  unfolding matches
  matches-Begins =
      let left : (self.len + word_mod - self.currentindex) % word_mod
          ≡ self.len - self.currentindex =
        remaining in
      let size = kstrlen-length str in
      let (there, back) =
        kstrncmp-zero (drop self.currentindex self.str) str
          (drop-AreChars self.currentindex self.str v.chars) chars in
      elim (Bool-cases (ltb (self.len - self.currentindex) (kstrlen str))) [
        | inl short ↦
            rw (left, short) (λ h. absurd (cc h), λ (fits, eq). absurd (ground (arith, v.inside)))
        | inr fits ↦ rw (left, fits) (λ h. (ground (arith, v.inside), there h), λ (le, eq). back eq)
      ]
    where
      remaining :
          (self.len + word_mod - self.currentindex) % word_mod ≡ self.len - self.currentindex
      remaining = omega (arith, v.inside, v.small)

  -- smatcher_consume_str_if_match consumes the string exactly if what is left of the matched part
  -- begins with it; else it returns false and the matcher stays.
  pub smatcher_consume_str_if_match-Begins :
      (Begins self str
        × (smatcher_consume_str_if_match self str
            ≡ (true, record self { currentindex = self.currentindex + length str })))
      ⊎ ((¬ Begins self str) × (smatcher_consume_str_if_match self str ≡ (false, self)))
  unfolding smatcher_consume_str_if_match
  smatcher_consume_str_if_match-Begins =
      let (there, back) = matches-Begins in
      elim (Bool-cases (matches self str)) [
        | inl h ↦
            let begins = there h in
            let next : (self.currentindex + kstrlen str) % word_mod
                ≡ self.currentindex + length str =
              (rw (kstrlen-length str) (mod-eq_of_lt (omega (arith, begins.0, v.small)))) in
            inl (begins, rw (h, next) refl)
        | inr h ↦ inr (λ begins. absurd (cc (h, back begins)), rw h refl)
      ]

  -- smatcher_consume_word_if_match consumes the string exactly if what is left of the matched part
  -- begins with it and then ends or goes on with a space; else it returns false and the matcher
  -- stays.
  pub smatcher_consume_word_if_match-Begins :
      (Begins self str
        × ((self.currentindex + length str ≡ self.len)
            ⊎ (isspace (get_or self.str (self.currentindex + length str) 0) ≡ true))
        × (smatcher_consume_word_if_match self str
            ≡ (true, record self { currentindex = self.currentindex + length str })))
      ⊎ ((¬ (
            Begins self str
            × ((self.currentindex + length str ≡ self.len)
                ⊎ (isspace (get_or self.str (self.currentindex + length str) 0) ≡ true))))
          × (smatcher_consume_word_if_match self str ≡ (false, self)))
  unfolding smatcher_consume_word_if_match
  smatcher_consume_word_if_match-Begins =
      let (there, back) = matches-Begins in
      elim (Bool-cases (matches self str)) [
        | inl h ↦
            let begins = there h in
            let next : (self.currentindex + kstrlen str) % word_mod
                ≡ self.currentindex + length str =
              (rw (kstrlen-length str) (mod-eq_of_lt (omega (arith, begins.0, v.small)))) in
            elim (ℕ_discrete (self.currentindex + length str) self.len) [
              | yes e ↦
                  let at_end : (self.currentindex + length str == self.len) ≡ true = ground arith in
                  inl (begins, inl e, rw (h, next, at_end) refl)
              | no ne ↦
                  let going_on : (self.currentindex + length str == self.len) ≡ false =
                    ground arith in
                  elim (Bool-cases (isspace (get_or self.str (self.currentindex + length str) 0))) [
                    | inl space ↦ inl (begins, inr space, rw (h, next, going_on, space) refl)
                    | inr more ↦ inr (
                      λ (b, end). elim end [
                        | inl e ↦ absurd (ne e)
                        | inr space ↦ absurd (cc (space, more))
                      ],
                      rw (h, next, going_on, more) refl,
                    )
                  ]
            ]
        | inr h ↦ inr (λ (begins, end). absurd (cc (h, back begins)), rw h refl)
      ]
