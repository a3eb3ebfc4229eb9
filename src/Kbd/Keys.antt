-- ===== src/Kbd/Keys.antt =====
-- The keys of include/kernel/io/kbd.h and the table `KEYMAP` of kernel/io/kbd.c.
use yjkos.Prelude.{ℕ, Bool, true, false, List, [], ◌∷◌}

-- `KBD_KEY`
pub data KbdKey : Type 0 where
  kbd_key_invalid kbd_key_escape kbd_key_f1 kbd_key_f2 kbd_key_f3 kbd_key_f4 : KbdKey
  kbd_key_f5 kbd_key_f6 kbd_key_f7 kbd_key_f8 kbd_key_f9 kbd_key_f10 kbd_key_f11 : KbdKey
  kbd_key_f12 kbd_key_print_screen kbd_key_scroll_lock kbd_key_pause : KbdKey
  kbd_key_back_tick kbd_key_1 kbd_key_2 kbd_key_3 kbd_key_4 kbd_key_5 kbd_key_6 : KbdKey
  kbd_key_7 kbd_key_8 kbd_key_9 kbd_key_0 kbd_key_minus kbd_key_equals : KbdKey
  kbd_key_backspace kbd_key_tab kbd_key_q kbd_key_w kbd_key_e kbd_key_r kbd_key_t : KbdKey
  kbd_key_y kbd_key_u kbd_key_i kbd_key_o kbd_key_p kbd_key_open_bracket : KbdKey
  kbd_key_close_bracket kbd_key_baskslash kbd_key_caps_lock kbd_key_a kbd_key_s : KbdKey
  kbd_key_d kbd_key_f kbd_key_g kbd_key_h kbd_key_j kbd_key_k kbd_key_l : KbdKey
  kbd_key_semicolon kbd_key_quote kbd_key_enter kbd_key_lshift kbd_key_z kbd_key_x : KbdKey
  kbd_key_c kbd_key_v kbd_key_b kbd_key_n kbd_key_m kbd_key_comma kbd_key_dot : KbdKey
  kbd_key_slash kbd_key_rshift kbd_key_lctrl kbd_key_lsuper kbd_key_lalt : KbdKey
  kbd_key_space kbd_key_ralt kbd_key_rsuper kbd_key_menu kbd_key_rctrl : KbdKey
  kbd_key_insert kbd_key_delete kbd_key_home kbd_key_end kbd_key_page_up : KbdKey
  kbd_key_page_down kbd_key_up kbd_key_down kbd_key_left kbd_key_right : KbdKey
  kbd_key_num_lock kbd_key_numpad_div kbd_key_numpad_mul kbd_key_numpad_sub : KbdKey
  kbd_key_numpad_7 kbd_key_numpad_8 kbd_key_numpad_9 kbd_key_numpad_4 : KbdKey
  kbd_key_numpad_5 kbd_key_numpad_6 kbd_key_numpad_add kbd_key_numpad_1 : KbdKey
  kbd_key_numpad_2 kbd_key_numpad_3 kbd_key_numpad_0 kbd_key_numpad_point : KbdKey
  kbd_key_numpad_enter : KbdKey

unfoldable pub KbdKey-discrete : Discrete KbdKey
KbdKey-discrete = hlevel

-- the keys from 1 on, in the order of their numbers
abbrev pub all_keys : List KbdKey
all_keys =
    kbd_key_escape ∷ kbd_key_f1 ∷ kbd_key_f2 ∷ kbd_key_f3 ∷ kbd_key_f4 ∷ kbd_key_f5 ∷ kbd_key_f6
    ∷ kbd_key_f7 ∷ kbd_key_f8 ∷ kbd_key_f9 ∷ kbd_key_f10 ∷ kbd_key_f11 ∷ kbd_key_f12
    ∷ kbd_key_print_screen ∷ kbd_key_scroll_lock ∷ kbd_key_pause ∷ kbd_key_back_tick ∷ kbd_key_1
    ∷ kbd_key_2 ∷ kbd_key_3 ∷ kbd_key_4 ∷ kbd_key_5 ∷ kbd_key_6 ∷ kbd_key_7 ∷ kbd_key_8 ∷ kbd_key_9
    ∷ kbd_key_0 ∷ kbd_key_minus ∷ kbd_key_equals ∷ kbd_key_backspace ∷ kbd_key_tab ∷ kbd_key_q
    ∷ kbd_key_w ∷ kbd_key_e ∷ kbd_key_r ∷ kbd_key_t ∷ kbd_key_y ∷ kbd_key_u ∷ kbd_key_i ∷ kbd_key_o
    ∷ kbd_key_p ∷ kbd_key_open_bracket ∷ kbd_key_close_bracket ∷ kbd_key_baskslash
    ∷ kbd_key_caps_lock ∷ kbd_key_a ∷ kbd_key_s ∷ kbd_key_d ∷ kbd_key_f ∷ kbd_key_g ∷ kbd_key_h
    ∷ kbd_key_j ∷ kbd_key_k ∷ kbd_key_l ∷ kbd_key_semicolon ∷ kbd_key_quote ∷ kbd_key_enter
    ∷ kbd_key_lshift ∷ kbd_key_z ∷ kbd_key_x ∷ kbd_key_c ∷ kbd_key_v ∷ kbd_key_b ∷ kbd_key_n
    ∷ kbd_key_m ∷ kbd_key_comma ∷ kbd_key_dot ∷ kbd_key_slash ∷ kbd_key_rshift ∷ kbd_key_lctrl
    ∷ kbd_key_lsuper ∷ kbd_key_lalt ∷ kbd_key_space ∷ kbd_key_ralt ∷ kbd_key_rsuper ∷ kbd_key_menu
    ∷ kbd_key_rctrl ∷ kbd_key_insert ∷ kbd_key_delete ∷ kbd_key_home ∷ kbd_key_end ∷ kbd_key_page_up
    ∷ kbd_key_page_down ∷ kbd_key_up ∷ kbd_key_down ∷ kbd_key_left ∷ kbd_key_right
    ∷ kbd_key_num_lock ∷ kbd_key_numpad_div ∷ kbd_key_numpad_mul ∷ kbd_key_numpad_sub
    ∷ kbd_key_numpad_7 ∷ kbd_key_numpad_8 ∷ kbd_key_numpad_9 ∷ kbd_key_numpad_4 ∷ kbd_key_numpad_5
    ∷ kbd_key_numpad_6 ∷ kbd_key_numpad_add ∷ kbd_key_numpad_1 ∷ kbd_key_numpad_2 ∷ kbd_key_numpad_3
    ∷ kbd_key_numpad_0 ∷ kbd_key_numpad_point ∷ kbd_key_numpad_enter ∷ []

-- `struct keymapentry`, with a field for each of its flags
pub record KeymapEntry : Type 0 where
  pub key_alt : KbdKey
  pub chr : ℕ
  pub chralt : ℕ
  pub with_shift : Bool
  pub with_capslock : Bool
  pub with_numlock : Bool

abbrev entry : KbdKey → ℕ → ℕ → Bool → Bool → Bool → KeymapEntry
entry key_alt chr chralt shift capslock numlock = record {
  key_alt = key_alt;
  chr = chr;
  chralt = chralt;
  with_shift = shift;
  with_capslock = capslock;
  with_numlock = numlock;
}

abbrev pub key_nochar : KeymapEntry
key_nochar = entry kbd_key_invalid 0 0 false false false

abbrev pub key_char : ℕ → KeymapEntry
key_char chr = entry kbd_key_invalid chr chr false false false

abbrev pub key_char_with_shift : ℕ → ℕ → KeymapEntry
key_char_with_shift chr chralt = entry kbd_key_invalid chr chralt true false false

abbrev pub key_char_with_capslock : ℕ → ℕ → KeymapEntry
key_char_with_capslock chr chralt = entry kbd_key_invalid chr chralt true true false

abbrev pub key_char_with_numlock : KbdKey → ℕ → KeymapEntry
key_char_with_numlock numlock_off_k chr = entry numlock_off_k chr chr false false true

-- `KEYMAP`; the keys of the last clause have `KEY_NOCHAR`, and `KBD_KEY_INVALID` has an entry of
-- zeros.
unfoldable pub keymap : KbdKey → KeymapEntry
keymap kbd_key_back_tick = key_char_with_shift b'`' b'~'
keymap kbd_key_1 = key_char_with_shift b'1' b'!'
keymap kbd_key_2 = key_char_with_shift b'2' b'@'
keymap kbd_key_3 = key_char_with_shift b'3' b'#'
keymap kbd_key_4 = key_char_with_shift b'4' b'$'
keymap kbd_key_5 = key_char_with_shift b'5' b'%'
keymap kbd_key_6 = key_char_with_shift b'6' b'^'
keymap kbd_key_7 = key_char_with_shift b'7' b'&'
keymap kbd_key_8 = key_char_with_shift b'8' b'*'
keymap kbd_key_9 = key_char_with_shift b'9' b'('
keymap kbd_key_0 = key_char_with_shift b'0' b')'
keymap kbd_key_minus = key_char_with_shift b'-' b'_'
keymap kbd_key_equals = key_char_with_shift b'=' b'+'
keymap kbd_key_backspace = key_char 8
keymap kbd_key_tab = key_char 9
keymap kbd_key_q = key_char_with_capslock b'q' b'Q'
keymap kbd_key_w = key_char_with_capslock b'w' b'W'
keymap kbd_key_e = key_char_with_capslock b'e' b'E'
keymap kbd_key_r = key_char_with_capslock b'r' b'R'
keymap kbd_key_t = key_char_with_capslock b't' b'T'
keymap kbd_key_y = key_char_with_capslock b'y' b'Y'
keymap kbd_key_u = key_char_with_capslock b'u' b'U'
keymap kbd_key_i = key_char_with_capslock b'i' b'I'
keymap kbd_key_o = key_char_with_capslock b'o' b'O'
keymap kbd_key_p = key_char_with_capslock b'p' b'P'
keymap kbd_key_open_bracket = key_char_with_shift b'[' b'{'
keymap kbd_key_close_bracket = key_char_with_shift b']' b'}'
keymap kbd_key_baskslash = key_char_with_shift 92 b'|'
keymap kbd_key_a = key_char_with_capslock b'a' b'A'
keymap kbd_key_s = key_char_with_capslock b's' b'S'
keymap kbd_key_d = key_char_with_capslock b'd' b'D'
keymap kbd_key_f = key_char_with_capslock b'f' b'F'
keymap kbd_key_g = key_char_with_capslock b'g' b'G'
keymap kbd_key_h = key_char_with_capslock b'h' b'H'
keymap kbd_key_j = key_char_with_capslock b'j' b'J'
keymap kbd_key_k = key_char_with_capslock b'k' b'K'
keymap kbd_key_l = key_char_with_capslock b'l' b'L'
keymap kbd_key_semicolon = key_char_with_shift b';' b':'
keymap kbd_key_quote = key_char_with_shift 39 b'"'
keymap kbd_key_enter = key_char 10
keymap kbd_key_z = key_char_with_capslock b'z' b'Z'
keymap kbd_key_x = key_char_with_capslock b'x' b'X'
keymap kbd_key_c = key_char_with_capslock b'c' b'C'
keymap kbd_key_v = key_char_with_capslock b'v' b'V'
keymap kbd_key_b = key_char_with_capslock b'b' b'B'
keymap kbd_key_n = key_char_with_capslock b'n' b'N'
keymap kbd_key_m = key_char_with_capslock b'm' b'M'
keymap kbd_key_comma = key_char_with_shift b',' b'<'
keymap kbd_key_dot = key_char_with_shift b'.' b'>'
keymap kbd_key_slash = key_char_with_shift b'/' b'?'
keymap kbd_key_space = key_char b' '
keymap kbd_key_numpad_mul = key_char b'*'
keymap kbd_key_numpad_div = key_char b'/'
keymap kbd_key_numpad_sub = key_char b'-'
keymap kbd_key_numpad_7 = key_char_with_numlock kbd_key_home b'7'
keymap kbd_key_numpad_8 = key_char_with_numlock kbd_key_up b'8'
keymap kbd_key_numpad_9 = key_char_with_numlock kbd_key_page_up b'9'
keymap kbd_key_numpad_4 = key_char_with_numlock kbd_key_left b'4'
keymap kbd_key_numpad_5 = key_char_with_numlock kbd_key_invalid b'5'
keymap kbd_key_numpad_6 = key_char_with_numlock kbd_key_right b'6'
keymap kbd_key_numpad_add = key_char b'+'
keymap kbd_key_numpad_1 = key_char_with_numlock kbd_key_end b'1'
keymap kbd_key_numpad_2 = key_char_with_numlock kbd_key_down b'2'
keymap kbd_key_numpad_3 = key_char_with_numlock kbd_key_page_down b'3'
keymap kbd_key_numpad_0 = key_char_with_numlock kbd_key_insert b'0'
keymap kbd_key_numpad_point = key_char b'.'
keymap kbd_key_numpad_enter = key_char 10
keymap _ = key_nochar
