-- ===== src/Strutil/Words.antt =====
-- Spaces and words in the string matcher of kernel/lib/strutil.c.
use yjkos.Prelude.{
  ℕ, zero, suc, ◌+◌, ◌-◌, ◌≤◌, ◌<◌, ◌≡◌, ◌⊎◌, refl, ap, ◌∙◌, Bool, Bool-cases, true, false, inl,
  inr, Option, none, some, List, arith, ◌==◌, length, get_or, get_or-past,
}
use native.Mathlib.Decide.{ℕ_discrete}
use yjkos.Strutil.{
  Smatcher, isspace, skip_loop, smatcher_skip_whitespaces, word_loop, smatcher_consume_word,
}

-- From `i` up to `stop` all characters are spaces, or none is.
abbrev pub AllAre : Bool → List ℕ → ℕ → ℕ → Type 0
AllAre space str i stop = (j : ℕ) → i ≤ j → j < stop → isspace (get_or str j 0) ≡ space

extend :
    (b : Bool) (str : List ℕ) (i stop : ℕ)
    → isspace (get_or str i 0) ≡ b
    → AllAre b str (i + 1) stop
    → AllAre b str i stop
extend b str i stop h all j lo hi = elim (ℕ_discrete i j) [
  | yes e ↦ ap (λ t. isspace (get_or str t 0)) (omega arith) ∙ h
  | no ne ↦ all j (omega arith) hi
]

end_no_space : isspace 0 ≡ false
unfolding isspace
end_no_space = refl

skip_loop_lem :
    (fuel : ℕ) (str : List ℕ) (i : ℕ)
    → length str ≤ fuel + i
    → (i ≤ skip_loop fuel str i)
      × AllAre true str i (skip_loop fuel str i)
      × (isspace (get_or str (skip_loop fuel str i) 0) ≡ false)
unfolding skip_loop
skip_loop_lem zero str i h = (
  omega arith,
  λ j lo hi. absurd (omega arith),
  rw (get_or-past str i (omega arith)) end_no_space,
)
skip_loop_lem (suc fuel) str i h = elim (Bool-cases (isspace (get_or str i 0))) [
  | inl space ↦
      let (lo, all, stop) = skip_loop_lem fuel str (i + 1) (omega arith) in
      rw space (omega arith, extend true str i (skip_loop fuel str (i + 1)) space all, stop)
  | inr other ↦ rw other (omega arith, λ j lo hi. absurd (omega arith), other)
]

-- smatcher_skip_whitespaces moves to the first place from the current one on that is no space; the
-- string's end is none, so its loop ends.
pub smatcher_skip_whitespaces-AllAre :
    (self : Smatcher)
    → self.currentindex ≤ length self.str
    → (self.currentindex ≤ (smatcher_skip_whitespaces self).currentindex)
      × AllAre true self.str self.currentindex (smatcher_skip_whitespaces self).currentindex
      × (isspace (get_or self.str (smatcher_skip_whitespaces self).currentindex 0) ≡ false)
unfolding smatcher_skip_whitespaces
smatcher_skip_whitespaces-AllAre self h =
    skip_loop_lem (length self.str - self.currentindex) self.str self.currentindex (omega arith)

word_loop_lem :
    (n : ℕ) (str : List ℕ) (i : ℕ)
    → (i ≤ word_loop n str i)
      × (word_loop n str i ≤ i + n)
      × AllAre false str i (word_loop n str i)
      × ((word_loop n str i ≡ i + n) ⊎ (isspace (get_or str (word_loop n str i) 0) ≡ true))
unfolding word_loop
word_loop_lem zero str i =
    (omega arith, omega arith, λ j lo hi. absurd (omega arith), inl (omega arith))
word_loop_lem (suc n) str i = elim (Bool-cases (isspace (get_or str i 0))) [
  | inl space ↦ rw space (omega arith, omega arith, λ j lo hi. absurd (omega arith), inr space)
  | inr other ↦
      let (lo, hi, all, stop) = word_loop_lem n str (i + 1) in
      rw other (
        omega arith,
        omega arith,
        extend false str i (word_loop n str (i + 1)) other all,
        elim stop [ inl e ↦ inl (omega arith) | inr space ↦ inr space ],
      )
]

-- What `smatcher_consume_word` leaves: nothing is consumed at the end or at a space; else the word
-- goes from the current place to the next space or the end.
pub data Word (self : Smatcher) (out : Option (ℕ × ℕ × Smatcher)) : Type 0 where
  no_word :
      (self.currentindex ≡ self.len) ⊎ (isspace (get_or self.str self.currentindex 0) ≡ true)
      → out ≡ none
      → Word self out
  word :
      (end : ℕ)
      → self.currentindex < end
      → end ≤ self.len
      → AllAre false self.str self.currentindex end
      → (end ≡ self.len) ⊎ (isspace (get_or self.str end 0) ≡ true)
      → out ≡ some (self.currentindex, end - self.currentindex, record self { currentindex = end })
      → Word self out

-- smatcher_consume_word consumes the longest run of characters that are no spaces, up to the end of
-- the matched part, and nothing if the run is empty.
pub smatcher_consume_word-Word :
    (self : Smatcher) → self.currentindex ≤ self.len → Word self (smatcher_consume_word self)
unfolding smatcher_consume_word
smatcher_consume_word-Word self inside =
    let start = self.currentindex in
    elim (ℕ_discrete start self.len) [
      | yes e ↦
          let done : (start == self.len) ≡ true = ground arith in no_word (inl e) (rw done refl)
      | no ne ↦
          let more : (start == self.len) ≡ false = ground arith in
          elim (Bool-cases (isspace (get_or self.str start 0))) [
            | inl space ↦ no_word (inr space) (rw (more, space) refl)
            | inr other ↦
                let (lo, hi, all, stop) = word_loop_lem (self.len - start) self.str start in
                let end = word_loop (self.len - start) self.str start in
                word end (past end ne lo stop other) (omega arith) all
                  (elim stop [ inl e ↦ inl (omega arith) | inr space ↦ inr space ])
                  (rw (more, other) refl)
          ]
    ]
  where
    past :
        (end : ℕ)
        → ¬ (self.currentindex ≡ self.len)
        → self.currentindex ≤ end
        → (end ≡ self.currentindex + (self.len - self.currentindex))
          ⊎ (isspace (get_or self.str end 0) ≡ true)
        → isspace (get_or self.str self.currentindex 0) ≡ false
        → self.currentindex < end
    past end ne lo stop other = elim (ℕ_discrete end self.currentindex) [
      | yes e ↦ elim stop [
        | inl at_end ↦ absurd (ne (omega arith))
        | inr space ↦ absurd (cc (ap (λ t. isspace (get_or self.str t 0)) e, space, other))
      ]
      | no later ↦ omega arith
    ]
