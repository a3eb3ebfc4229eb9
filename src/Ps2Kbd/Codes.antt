-- ===== src/Ps2Kbd/Codes.antt =====
-- Scancode set 2: the bytes that a PS/2 keyboard sends when a key goes down and when it comes up.
use yjkos.Prelude.{ℕ, List, [], ◌∷◌}
use yjkos.Kbd.Keys.{
  KbdKey, kbd_key_invalid, kbd_key_print_screen, kbd_key_pause, kbd_key_0, kbd_key_1, kbd_key_2,
  kbd_key_3, kbd_key_4, kbd_key_5, kbd_key_6, kbd_key_7, kbd_key_8, kbd_key_9, kbd_key_a, kbd_key_b,
  kbd_key_back_tick, kbd_key_backspace, kbd_key_baskslash, kbd_key_c, kbd_key_caps_lock,
  kbd_key_close_bracket, kbd_key_comma, kbd_key_d, kbd_key_delete, kbd_key_dot, kbd_key_down,
  kbd_key_e, kbd_key_end, kbd_key_enter, kbd_key_equals, kbd_key_escape, kbd_key_f, kbd_key_f1,
  kbd_key_f10, kbd_key_f11, kbd_key_f12, kbd_key_f2, kbd_key_f3, kbd_key_f4, kbd_key_f5, kbd_key_f6,
  kbd_key_f7, kbd_key_f8, kbd_key_f9, kbd_key_g, kbd_key_h, kbd_key_home, kbd_key_i, kbd_key_insert,
  kbd_key_j, kbd_key_k, kbd_key_l, kbd_key_lalt, kbd_key_lctrl, kbd_key_left, kbd_key_lshift,
  kbd_key_lsuper, kbd_key_m, kbd_key_menu, kbd_key_minus, kbd_key_n, kbd_key_num_lock,
  kbd_key_numpad_0, kbd_key_numpad_1, kbd_key_numpad_2, kbd_key_numpad_3, kbd_key_numpad_4,
  kbd_key_numpad_5, kbd_key_numpad_6, kbd_key_numpad_7, kbd_key_numpad_8, kbd_key_numpad_9,
  kbd_key_numpad_add, kbd_key_numpad_div, kbd_key_numpad_enter, kbd_key_numpad_mul,
  kbd_key_numpad_point, kbd_key_numpad_sub, kbd_key_o, kbd_key_open_bracket, kbd_key_p,
  kbd_key_page_down, kbd_key_page_up, kbd_key_q, kbd_key_quote, kbd_key_r, kbd_key_ralt,
  kbd_key_rctrl, kbd_key_right, kbd_key_rshift, kbd_key_rsuper, kbd_key_s, kbd_key_scroll_lock,
  kbd_key_semicolon, kbd_key_slash, kbd_key_space, kbd_key_t, kbd_key_tab, kbd_key_u, kbd_key_up,
  kbd_key_v, kbd_key_w, kbd_key_x, kbd_key_y, kbd_key_z,
}

-- The code of a key in scancode set 2: a byte, a byte after e0, or one of the two sequences.
pub data ScanCode : Type 0 where
  plain extended : ℕ → ScanCode
  print_screen pause no_code : ScanCode

unfoldable pub scan_code : KbdKey → ScanCode
scan_code kbd_key_invalid = no_code
scan_code kbd_key_print_screen = print_screen
scan_code kbd_key_pause = pause
scan_code kbd_key_escape = plain 0x76
scan_code kbd_key_f1 = plain 0x05
scan_code kbd_key_f2 = plain 0x06
scan_code kbd_key_f3 = plain 0x04
scan_code kbd_key_f4 = plain 0x0c
scan_code kbd_key_f5 = plain 0x03
scan_code kbd_key_f6 = plain 0x0b
scan_code kbd_key_f7 = plain 0x83
scan_code kbd_key_f8 = plain 0x0a
scan_code kbd_key_f9 = plain 0x01
scan_code kbd_key_f10 = plain 0x09
scan_code kbd_key_f11 = plain 0x78
scan_code kbd_key_f12 = plain 0x07
scan_code kbd_key_scroll_lock = plain 0x7e
scan_code kbd_key_back_tick = plain 0x0e
scan_code kbd_key_1 = plain 0x16
scan_code kbd_key_2 = plain 0x1e
scan_code kbd_key_3 = plain 0x26
scan_code kbd_key_4 = plain 0x25
scan_code kbd_key_5 = plain 0x2e
scan_code kbd_key_6 = plain 0x36
scan_code kbd_key_7 = plain 0x3d
scan_code kbd_key_8 = plain 0x3e
scan_code kbd_key_9 = plain 0x46
scan_code kbd_key_0 = plain 0x45
scan_code kbd_key_minus = plain 0x4e
scan_code kbd_key_equals = plain 0x55
scan_code kbd_key_backspace = plain 0x66
scan_code kbd_key_tab = plain 0x0d
scan_code kbd_key_q = plain 0x15
scan_code kbd_key_w = plain 0x1d
scan_code kbd_key_e = plain 0x24
scan_code kbd_key_r = plain 0x2d
scan_code kbd_key_t = plain 0x2c
scan_code kbd_key_y = plain 0x35
scan_code kbd_key_u = plain 0x3c
scan_code kbd_key_i = plain 0x43
scan_code kbd_key_o = plain 0x44
scan_code kbd_key_p = plain 0x4d
scan_code kbd_key_open_bracket = plain 0x54
scan_code kbd_key_close_bracket = plain 0x5b
scan_code kbd_key_baskslash = plain 0x5d
scan_code kbd_key_caps_lock = plain 0x58
scan_code kbd_key_a = plain 0x1c
scan_code kbd_key_s = plain 0x1b
scan_code kbd_key_d = plain 0x23
scan_code kbd_key_f = plain 0x2b
scan_code kbd_key_g = plain 0x34
scan_code kbd_key_h = plain 0x33
scan_code kbd_key_j = plain 0x3b
scan_code kbd_key_k = plain 0x42
scan_code kbd_key_l = plain 0x4b
scan_code kbd_key_semicolon = plain 0x4c
scan_code kbd_key_quote = plain 0x52
scan_code kbd_key_enter = plain 0x5a
scan_code kbd_key_lshift = plain 0x12
scan_code kbd_key_z = plain 0x1a
scan_code kbd_key_x = plain 0x22
scan_code kbd_key_c = plain 0x21
scan_code kbd_key_v = plain 0x2a
scan_code kbd_key_b = plain 0x32
scan_code kbd_key_n = plain 0x31
scan_code kbd_key_m = plain 0x3a
scan_code kbd_key_comma = plain 0x41
scan_code kbd_key_dot = plain 0x49
scan_code kbd_key_slash = plain 0x4a
scan_code kbd_key_rshift = plain 0x59
scan_code kbd_key_lctrl = plain 0x14
scan_code kbd_key_lalt = plain 0x11
scan_code kbd_key_space = plain 0x29
scan_code kbd_key_num_lock = plain 0x77
scan_code kbd_key_numpad_mul = plain 0x7c
scan_code kbd_key_numpad_sub = plain 0x7b
scan_code kbd_key_numpad_7 = plain 0x6c
scan_code kbd_key_numpad_8 = plain 0x75
scan_code kbd_key_numpad_9 = plain 0x7d
scan_code kbd_key_numpad_4 = plain 0x6b
scan_code kbd_key_numpad_5 = plain 0x73
scan_code kbd_key_numpad_6 = plain 0x74
scan_code kbd_key_numpad_add = plain 0x79
scan_code kbd_key_numpad_1 = plain 0x69
scan_code kbd_key_numpad_2 = plain 0x72
scan_code kbd_key_numpad_3 = plain 0x7a
scan_code kbd_key_numpad_0 = plain 0x70
scan_code kbd_key_numpad_point = plain 0x71
scan_code kbd_key_lsuper = extended 0x1f
scan_code kbd_key_ralt = extended 0x11
scan_code kbd_key_rsuper = extended 0x27
scan_code kbd_key_menu = extended 0x2f
scan_code kbd_key_rctrl = extended 0x14
scan_code kbd_key_insert = extended 0x70
scan_code kbd_key_delete = extended 0x71
scan_code kbd_key_home = extended 0x6c
scan_code kbd_key_end = extended 0x69
scan_code kbd_key_page_up = extended 0x7d
scan_code kbd_key_page_down = extended 0x7a
scan_code kbd_key_up = extended 0x75
scan_code kbd_key_down = extended 0x72
scan_code kbd_key_left = extended 0x6b
scan_code kbd_key_right = extended 0x74
scan_code kbd_key_numpad_div = extended 0x4a
scan_code kbd_key_numpad_enter = extended 0x5a

unfoldable pub make_code : ScanCode → List ℕ
make_code (plain b) = b ∷ []
make_code (extended b) = 0xe0 ∷ b ∷ []
make_code print_screen = 0xe0 ∷ 0x12 ∷ 0xe0 ∷ 0x7c ∷ []
make_code pause = 0xe1 ∷ 0x14 ∷ 0x77 ∷ 0xe1 ∷ 0xf0 ∷ 0x14 ∷ 0xf0 ∷ 0x77 ∷ []
make_code no_code = []

-- Pause sends nothing when it comes up.
unfoldable pub break_code : ScanCode → List ℕ
break_code (plain b) = 0xf0 ∷ b ∷ []
break_code (extended b) = 0xe0 ∷ 0xf0 ∷ b ∷ []
break_code print_screen = 0xe0 ∷ 0xf0 ∷ 0x7c ∷ 0xe0 ∷ 0xf0 ∷ 0x12 ∷ []
break_code pause = []
break_code no_code = []
