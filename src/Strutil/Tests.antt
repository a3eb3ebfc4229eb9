-- ===== src/Strutil/Tests.antt =====
-- Runs of kernel/lib/strutil.c on the string `ab c`.
use yjkos.Prelude.{ℕ, ◌+◌, ◌≡◌, ◌⊎◌, true, false, List, [], ◌∷◌, arith, length, get_or}
use yjkos.Strutil.{
  Smatcher, isspace, smatcher_consume_str_if_match, smatcher_consume_word_if_match,
  smatcher_consume_word,
}
use yjkos.Strutil.Compare.{AreChars}
use yjkos.Strutil.Matcher.{
  IsMatcher, Begins, smatcher_consume_str_if_match-Begins, smatcher_consume_word_if_match-Begins,
}
use yjkos.Strutil.Words.{Word, smatcher_consume_word-Word}

abbrev text : List ℕ
text = 97 ∷ 98 ∷ 32 ∷ 99 ∷ []

abbrev word_ab : List ℕ
word_ab = 97 ∷ 98 ∷ []

text-AreChars : AreChars text
text-AreChars = (
  omega arith,
  omega arith,
  (omega arith, omega arith, (omega arith, omega arith, (omega arith, omega arith, record {}))),
)

word_ab-AreChars : AreChars word_ab
word_ab-AreChars = (omega arith, omega arith, (omega arith, omega arith, record {}))

abbrev matcher : Smatcher
matcher = record { str = text; len = 4; currentindex = 0 }

matcher-IsMatcher : IsMatcher matcher
matcher-IsMatcher = record {
  inside = omega arith;
  within = omega arith;
  small = omega arith;
  chars = text-AreChars;
}

smatcher_consume_str_if_match-Begins_example :
    (Begins matcher word_ab
      × (smatcher_consume_str_if_match matcher word_ab
          ≡ (true, record matcher { currentindex = matcher.currentindex + length word_ab })))
    ⊎ ((¬ Begins matcher word_ab)
        × (smatcher_consume_str_if_match matcher word_ab ≡ (false, matcher)))
smatcher_consume_str_if_match-Begins_example =
    smatcher_consume_str_if_match-Begins matcher matcher-IsMatcher word_ab word_ab-AreChars

smatcher_consume_word_if_match-Begins_example :
    (Begins matcher word_ab
      × ((matcher.currentindex + length word_ab ≡ matcher.len)
          ⊎ (isspace (get_or matcher.str (matcher.currentindex + length word_ab) 0) ≡ true))
      × (smatcher_consume_word_if_match matcher word_ab
          ≡ (true, record matcher { currentindex = matcher.currentindex + length word_ab })))
    ⊎ ((¬ (
          Begins matcher word_ab
          × ((matcher.currentindex + length word_ab ≡ matcher.len)
              ⊎ (isspace (get_or matcher.str (matcher.currentindex + length word_ab) 0) ≡ true))))
        × (smatcher_consume_word_if_match matcher word_ab ≡ (false, matcher)))
smatcher_consume_word_if_match-Begins_example =
    smatcher_consume_word_if_match-Begins matcher matcher-IsMatcher word_ab word_ab-AreChars

abbrev at_space : Smatcher
at_space = record { str = text; len = 4; currentindex = 2 }

smatcher_consume_word-Word_example : Word matcher (smatcher_consume_word matcher)
smatcher_consume_word-Word_example = smatcher_consume_word-Word matcher (omega arith)
