-- ===== src/Strutil.antt =====
-- kernel/lib/strutil.c: comparison of strings, and the string matcher, with
-- kernel/lib/libc/ctype.c. A string is the list of its characters, without the one that ends it;
-- they are bytes, and `char` is signed.
pub mod Compare
pub mod Matcher
pub mod Words
mod Tests
use yjkos.Prelude.{
  ℕ, zero, suc, ◌+◌, ◌-◌, ◌%◌, Bool, true, false, ◌||◌, ◌&&◌, not, Option, none, some, List, [],
  ◌∷◌, ℤ, pos, negsuc, ltb, leb, ◌==◌, if◌then◌else◌, length, get_or, drop,
}
use yjkos.Bits.{word_mod}

unfoldable pub kstrlen : List ℕ → ℕ
kstrlen [] = 0
kstrlen (c ∷ s) = suc (kstrlen s)

-- The difference of two characters; adding 128 maps the signed values to 0 to 255 in order.
unfoldable pub char_diff : ℕ → ℕ → ℤ
char_diff a b =
    let x = (a + 128) % 256 in
    let y = (b + 128) % 256 in if ltb x y then negsuc (y - x - 1) else pos (x - y)

unfoldable pub kstrcmp : List ℕ → List ℕ → ℤ
kstrcmp [] [] = pos 0
kstrcmp [] (d ∷ t) = char_diff 0 d
kstrcmp (c ∷ s) [] = char_diff c 0
kstrcmp (c ∷ s) (d ∷ t) = let rest = kstrcmp s t in if c == d then rest else char_diff c d

unfoldable pub kstrncmp : List ℕ → List ℕ → ℕ → ℤ
kstrncmp s1 s2 zero = pos 0
kstrncmp [] [] (suc n) = pos 0
kstrncmp [] (d ∷ t) (suc n) = char_diff 0 d
kstrncmp (c ∷ s) [] (suc n) = char_diff c 0
kstrncmp (c ∷ s) (d ∷ t) (suc n) =
    let rest = kstrncmp s t n in if c == d then rest else char_diff c d

unfoldable pub is_zero : ℤ → Bool
is_zero (pos n) = n == 0
is_zero (negsuc n) = false

-- `struct smatcher`
pub record Smatcher : Type 0 where
  pub str : List ℕ
  pub len : ℕ
  pub currentindex : ℕ

unfoldable pub smatcher_init_with_len : List ℕ → ℕ → Smatcher
smatcher_init_with_len str len = record { str = str; len = len; currentindex = 0 }

unfoldable pub smatcher_init : List ℕ → Smatcher
smatcher_init str = smatcher_init_with_len str (kstrlen str)

-- The two tests of `smatcher_consume_str_if_match` and `smatcher_consume_word_if_match`.
unfoldable pub matches : Smatcher → List ℕ → Bool
matches self str =
    let len = kstrlen str in
    if ltb ((self.len + word_mod - self.currentindex) % word_mod) len
    then false
    else is_zero (kstrncmp (drop self.currentindex self.str) str len)

unfoldable pub smatcher_consume_str_if_match : Smatcher → List ℕ → Bool × Smatcher
smatcher_consume_str_if_match self str =
    if matches self str
    then (true, record self { currentindex = (self.currentindex + kstrlen str) % word_mod })
    else (false, self)

-- The last character of the table is not looked up.
unfoldable pub isspace : ℕ → Bool
isspace c = if leb 127 c then false else c == 9 || c == 32

unfoldable pub isdigit : ℕ → Bool
isdigit c = if leb 127 c then false else leb 48 c && leb c 57

unfoldable pub smatcher_consume_word_if_match : Smatcher → List ℕ → Bool × Smatcher
smatcher_consume_word_if_match self str =
    let after = (self.currentindex + kstrlen str) % word_mod in
    let nextchar = get_or self.str after 0 in
    if matches self str
    then (if not (after == self.len) && not (isspace nextchar)
        then (false, self)
        else (true, record self { currentindex = after }))
    else (false, self)

-- The loop of `smatcher_skip_whitespaces`: the character that ends the string is no space.
unfoldable pub skip_loop : ℕ → List ℕ → ℕ → ℕ
skip_loop zero str i = i
skip_loop (suc fuel) str i =
    let rest = skip_loop fuel str (i + 1) in if isspace (get_or str i 0) then rest else i

unfoldable pub smatcher_skip_whitespaces : Smatcher → Smatcher
smatcher_skip_whitespaces self = record self {
  currentindex = skip_loop (length self.str - self.currentindex) self.str self.currentindex;
}

-- The loop of `smatcher_consume_word`, with the characters that are left of the matched part.
unfoldable pub word_loop : ℕ → List ℕ → ℕ → ℕ
word_loop zero str i = i
word_loop (suc n) str i =
    let rest = word_loop n str (i + 1) in if isspace (get_or str i 0) then i else rest

-- `smatcher_consume_word`: the index where the word begins, its length, and the matcher.
unfoldable pub smatcher_consume_word : Smatcher → Option (ℕ × ℕ × Smatcher)
smatcher_consume_word self =
    let start = self.currentindex in
    let end = word_loop (self.len - start) self.str start in
    if start == self.len || isspace (get_or self.str start 0)
    then none
    else some (start, end - start, record self { currentindex = end })
