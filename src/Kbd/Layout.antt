-- ===== src/Kbd/Layout.antt =====
-- The characters of a keyboard with the US layout.
use yjkos.Prelude.{
  ℕ, ◌+◌, ◌≡◌, ◌≢◌, Bool, true, false, ◌||◌, List, [], ◌∷◌, some, get_elem?, if◌then◌else◌,
}
use yjkos.Kbd.{KbdFlags, mod_lshift, mod_rshift}
use yjkos.Kbd.Keys.{
  KbdKey, kbd_key_0, kbd_key_1, kbd_key_2, kbd_key_3, kbd_key_4, kbd_key_5, kbd_key_6, kbd_key_7,
  kbd_key_8, kbd_key_9, kbd_key_a, kbd_key_b, kbd_key_back_tick, kbd_key_baskslash, kbd_key_c,
  kbd_key_close_bracket, kbd_key_comma, kbd_key_d, kbd_key_dot, kbd_key_down, kbd_key_e,
  kbd_key_end, kbd_key_equals, kbd_key_f, kbd_key_g, kbd_key_h, kbd_key_home, kbd_key_i,
  kbd_key_insert, kbd_key_invalid, kbd_key_j, kbd_key_k, kbd_key_l, kbd_key_left, kbd_key_m,
  kbd_key_minus, kbd_key_n, kbd_key_numpad_0, kbd_key_numpad_1, kbd_key_numpad_2, kbd_key_numpad_3,
  kbd_key_numpad_4, kbd_key_numpad_5, kbd_key_numpad_6, kbd_key_numpad_7, kbd_key_numpad_8,
  kbd_key_numpad_9, kbd_key_o, kbd_key_open_bracket, kbd_key_p, kbd_key_page_down, kbd_key_page_up,
  kbd_key_q, kbd_key_quote, kbd_key_r, kbd_key_right, kbd_key_s, kbd_key_semicolon, kbd_key_slash,
  kbd_key_t, kbd_key_u, kbd_key_up, kbd_key_v, kbd_key_w, kbd_key_x, kbd_key_y, kbd_key_z,
}

-- the letters, with their places in the alphabet
abbrev pub letters : List (KbdKey × ℕ)
letters =
    (kbd_key_a, 0)
    ∷ (kbd_key_b, 1)
    ∷ (kbd_key_c, 2)
    ∷ (kbd_key_d, 3)
    ∷ (kbd_key_e, 4)
    ∷ (kbd_key_f, 5)
    ∷ (kbd_key_g, 6)
    ∷ (kbd_key_h, 7)
    ∷ (kbd_key_i, 8)
    ∷ (kbd_key_j, 9)
    ∷ (kbd_key_k, 10)
    ∷ (kbd_key_l, 11)
    ∷ (kbd_key_m, 12)
    ∷ (kbd_key_n, 13)
    ∷ (kbd_key_o, 14)
    ∷ (kbd_key_p, 15)
    ∷ (kbd_key_q, 16)
    ∷ (kbd_key_r, 17)
    ∷ (kbd_key_s, 18)
    ∷ (kbd_key_t, 19)
    ∷ (kbd_key_u, 20)
    ∷ (kbd_key_v, 21)
    ∷ (kbd_key_w, 22)
    ∷ (kbd_key_x, 23)
    ∷ (kbd_key_y, 24)
    ∷ (kbd_key_z, 25)
    ∷ []

-- the other keys that Shift changes, with their characters without it and with it
abbrev pub symbols : List (KbdKey × ℕ × ℕ)
symbols =
    (kbd_key_back_tick, b'`', b'~')
    ∷ (kbd_key_1, b'1', b'!')
    ∷ (kbd_key_2, b'2', b'@')
    ∷ (kbd_key_3, b'3', b'#')
    ∷ (kbd_key_4, b'4', b'$')
    ∷ (kbd_key_5, b'5', b'%')
    ∷ (kbd_key_6, b'6', b'^')
    ∷ (kbd_key_7, b'7', b'&')
    ∷ (kbd_key_8, b'8', b'*')
    ∷ (kbd_key_9, b'9', b'(')
    ∷ (kbd_key_0, b'0', b')')
    ∷ (kbd_key_minus, b'-', b'_')
    ∷ (kbd_key_equals, b'=', b'+')
    ∷ (kbd_key_open_bracket, b'[', b'{')
    ∷ (kbd_key_close_bracket, b']', b'}')
    ∷ (kbd_key_baskslash, 92, b'|')
    ∷ (kbd_key_semicolon, b';', b':')
    ∷ (kbd_key_quote, 39, b'"')
    ∷ (kbd_key_comma, b',', b'<')
    ∷ (kbd_key_dot, b'.', b'>')
    ∷ (kbd_key_slash, b'/', b'?')
    ∷ []

-- the digits of the numpad, with the keys that they are without Num Lock
abbrev pub digits : List (KbdKey × KbdKey × ℕ)
digits =
    (kbd_key_numpad_0, kbd_key_insert, 0)
    ∷ (kbd_key_numpad_1, kbd_key_end, 1)
    ∷ (kbd_key_numpad_2, kbd_key_down, 2)
    ∷ (kbd_key_numpad_3, kbd_key_page_down, 3)
    ∷ (kbd_key_numpad_4, kbd_key_left, 4)
    ∷ (kbd_key_numpad_5, kbd_key_invalid, 5)
    ∷ (kbd_key_numpad_6, kbd_key_right, 6)
    ∷ (kbd_key_numpad_7, kbd_key_home, 7)
    ∷ (kbd_key_numpad_8, kbd_key_up, 8)
    ∷ (kbd_key_numpad_9, kbd_key_page_up, 9)
    ∷ []

abbrev pub shift_down : KbdFlags → Bool
shift_down flags = flags.mods mod_lshift || flags.mods mod_rshift

-- What a key reports: the key and the character.
pub data Reports (flags : KbdFlags) : KbdKey → KbdKey → ℕ → Type 0 where
  letter :
      (i : ℕ) (key : KbdKey) (n : ℕ)
      → get_elem? letters i ≡ some (key, n)
      → Reports flags key key (if flags.lock_caps || shift_down flags then b'A' + n else b'a' + n)
  symbol :
      (i : ℕ) (key : KbdKey) (chr shifted : ℕ)
      → get_elem? symbols i ≡ some (key, chr, shifted)
      → Reports flags key key (if shift_down flags then shifted else chr)
  digit :
      (i : ℕ) (key other : KbdKey) (n : ℕ)
      → get_elem? digits i ≡ some (key, other, n)
      → flags.lock_num ≡ true
      → Reports flags key key (b'0' + n)
  navigation :
      (i : ℕ) (key other : KbdKey) (n : ℕ)
      → get_elem? digits i ≡ some (key, other, n)
      → flags.lock_num ≡ false
      → other ≢ kbd_key_invalid
      → Reports flags key other 0
