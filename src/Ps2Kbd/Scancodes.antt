-- ===== src/Ps2Kbd/Scancodes.antt =====
-- The scancodes of kernel/dev/ps2kbd.c: the tables of scancode set 2, which are zero
-- (`KBD_KEY_INVALID`) where they have no key.
use yjkos.Prelude.{ℕ, List, [], ◌∷◌, ◌==◌, if◌then◌else◌}
use yjkos.Kbd.Keys.{
  KbdKey, kbd_key_invalid, kbd_key_0, kbd_key_1, kbd_key_2, kbd_key_3, kbd_key_4, kbd_key_5,
  kbd_key_6, kbd_key_7, kbd_key_8, kbd_key_9, kbd_key_a, kbd_key_b, kbd_key_back_tick,
  kbd_key_backspace, kbd_key_baskslash, kbd_key_c, kbd_key_caps_lock, kbd_key_close_bracket,
  kbd_key_comma, kbd_key_d, kbd_key_delete, kbd_key_dot, kbd_key_down, kbd_key_e, kbd_key_end,
  kbd_key_enter, kbd_key_equals, kbd_key_escape, kbd_key_f, kbd_key_f1, kbd_key_f10, kbd_key_f11,
  kbd_key_f12, kbd_key_f2, kbd_key_f3, kbd_key_f4, kbd_key_f5, kbd_key_f6, kbd_key_f7, kbd_key_f8,
  kbd_key_f9, kbd_key_g, kbd_key_h, kbd_key_home, kbd_key_i, kbd_key_insert, kbd_key_j, kbd_key_k,
  kbd_key_l, kbd_key_lalt, kbd_key_lctrl, kbd_key_left, kbd_key_lshift, kbd_key_lsuper, kbd_key_m,
  kbd_key_menu, kbd_key_minus, kbd_key_n, kbd_key_num_lock, kbd_key_numpad_0, kbd_key_numpad_1,
  kbd_key_numpad_2, kbd_key_numpad_3, kbd_key_numpad_4, kbd_key_numpad_5, kbd_key_numpad_6,
  kbd_key_numpad_7, kbd_key_numpad_8, kbd_key_numpad_9, kbd_key_numpad_add, kbd_key_numpad_div,
  kbd_key_numpad_enter, kbd_key_numpad_mul, kbd_key_numpad_point, kbd_key_numpad_sub, kbd_key_o,
  kbd_key_open_bracket, kbd_key_p, kbd_key_page_down, kbd_key_page_up, kbd_key_q, kbd_key_quote,
  kbd_key_r, kbd_key_ralt, kbd_key_rctrl, kbd_key_right, kbd_key_rshift, kbd_key_rsuper, kbd_key_s,
  kbd_key_scroll_lock, kbd_key_semicolon, kbd_key_slash, kbd_key_space, kbd_key_t, kbd_key_tab,
  kbd_key_u, kbd_key_up, kbd_key_v, kbd_key_w, kbd_key_x, kbd_key_y, kbd_key_z,
}

-- an array of 256 keys, by the entries that it is written with
unfoldable pub lookup_key : List (ℕ × KbdKey) → ℕ → KbdKey
lookup_key [] byte = kbd_key_invalid
lookup_key ((code, key) ∷ entries) byte =
    let rest = lookup_key entries byte in if byte == code then key else rest

abbrev keymap_default_entries : List (ℕ × KbdKey)
keymap_default_entries =
    (0x76, kbd_key_escape)
    ∷ (0x05, kbd_key_f1)
    ∷ (0x06, kbd_key_f2)
    ∷ (0x04, kbd_key_f3)
    ∷ (0x0c, kbd_key_f4)
    ∷ (0x03, kbd_key_f5)
    ∷ (0x0b, kbd_key_f6)
    ∷ (0x83, kbd_key_f7)
    ∷ (0x0a, kbd_key_f8)
    ∷ (0x01, kbd_key_f9)
    ∷ (0x09, kbd_key_f10)
    ∷ (0x78, kbd_key_f11)
    ∷ (0x07, kbd_key_f12)
    ∷ (0x7e, kbd_key_scroll_lock)
    ∷ (0x0e, kbd_key_back_tick)
    ∷ (0x16, kbd_key_1)
    ∷ (0x1e, kbd_key_2)
    ∷ (0x26, kbd_key_3)
    ∷ (0x25, kbd_key_4)
    ∷ (0x2e, kbd_key_5)
    ∷ (0x36, kbd_key_6)
    ∷ (0x3d, kbd_key_7)
    ∷ (0x3e, kbd_key_8)
    ∷ (0x46, kbd_key_9)
    ∷ (0x45, kbd_key_0)
    ∷ (0x4e, kbd_key_minus)
    ∷ (0x55, kbd_key_equals)
    ∷ (0x66, kbd_key_backspace)
    ∷ (0x0d, kbd_key_tab)
    ∷ (0x15, kbd_key_q)
    ∷ (0x1d, kbd_key_w)
    ∷ (0x24, kbd_key_e)
    ∷ (0x2d, kbd_key_r)
    ∷ (0x2c, kbd_key_t)
    ∷ (0x35, kbd_key_y)
    ∷ (0x3c, kbd_key_u)
    ∷ (0x43, kbd_key_i)
    ∷ (0x44, kbd_key_o)
    ∷ (0x4d, kbd_key_p)
    ∷ (0x54, kbd_key_open_bracket)
    ∷ (0x5b, kbd_key_close_bracket)
    ∷ (0x5d, kbd_key_baskslash)
    ∷ (0x58, kbd_key_caps_lock)
    ∷ (0x1c, kbd_key_a)
    ∷ (0x1b, kbd_key_s)
    ∷ (0x23, kbd_key_d)
    ∷ (0x2b, kbd_key_f)
    ∷ (0x34, kbd_key_g)
    ∷ (0x33, kbd_key_h)
    ∷ (0x3b, kbd_key_j)
    ∷ (0x42, kbd_key_k)
    ∷ (0x4b, kbd_key_l)
    ∷ (0x4c, kbd_key_semicolon)
    ∷ (0x52, kbd_key_quote)
    ∷ (0x5a, kbd_key_enter)
    ∷ (0x12, kbd_key_lshift)
    ∷ (0x1a, kbd_key_z)
    ∷ (0x22, kbd_key_x)
    ∷ (0x21, kbd_key_c)
    ∷ (0x2a, kbd_key_v)
    ∷ (0x32, kbd_key_b)
    ∷ (0x31, kbd_key_n)
    ∷ (0x3a, kbd_key_m)
    ∷ (0x41, kbd_key_comma)
    ∷ (0x49, kbd_key_dot)
    ∷ (0x4a, kbd_key_slash)
    ∷ (0x59, kbd_key_rshift)
    ∷ (0x14, kbd_key_lctrl)
    ∷ (0x11, kbd_key_lalt)
    ∷ (0x29, kbd_key_space)
    ∷ (0x77, kbd_key_num_lock)
    ∷ (0x7c, kbd_key_numpad_mul)
    ∷ (0x7b, kbd_key_numpad_sub)
    ∷ (0x6c, kbd_key_numpad_7)
    ∷ (0x75, kbd_key_numpad_8)
    ∷ (0x7d, kbd_key_numpad_9)
    ∷ (0x6b, kbd_key_numpad_4)
    ∷ (0x73, kbd_key_numpad_5)
    ∷ (0x74, kbd_key_numpad_6)
    ∷ (0x79, kbd_key_numpad_add)
    ∷ (0x69, kbd_key_numpad_1)
    ∷ (0x72, kbd_key_numpad_2)
    ∷ (0x7a, kbd_key_numpad_3)
    ∷ (0x70, kbd_key_numpad_0)
    ∷ (0x71, kbd_key_numpad_point)
    ∷ []

unfoldable pub keymap_default : ℕ → KbdKey
unfolding lookup_key
keymap_default byte = lookup_key keymap_default_entries byte

abbrev keymap_e0_entries : List (ℕ × KbdKey)
keymap_e0_entries =
    (0x1f, kbd_key_lsuper)
    ∷ (0x11, kbd_key_ralt)
    ∷ (0x27, kbd_key_rsuper)
    ∷ (0x2f, kbd_key_menu)
    ∷ (0x14, kbd_key_rctrl)
    ∷ (0x70, kbd_key_insert)
    ∷ (0x71, kbd_key_delete)
    ∷ (0x6c, kbd_key_home)
    ∷ (0x69, kbd_key_end)
    ∷ (0x7d, kbd_key_page_up)
    ∷ (0x7a, kbd_key_page_down)
    ∷ (0x75, kbd_key_up)
    ∷ (0x72, kbd_key_down)
    ∷ (0x6b, kbd_key_left)
    ∷ (0x74, kbd_key_right)
    ∷ (0x4a, kbd_key_numpad_div)
    ∷ (0x5a, kbd_key_numpad_enter)
    ∷ []

unfoldable pub keymap_e0 : ℕ → KbdKey
unfolding lookup_key
keymap_e0 byte = lookup_key keymap_e0_entries byte
