-- ===== src/Kbd/Characters.antt =====
-- kernel/io/kbd.c: `KEYMAP` and the key to report are those of the US layout.
use mathlib.Core.Path.{subst}
use yjkos.Prelude.{
  ℕ, zero, suc, ◌+◌, ◌≡◌, ◌≢◌, refl, ap, ◌∙◌, Bool, true, false, ◌&&◌, ◌||◌, not, List, [], ◌∷◌,
  map, some, get_elem?, if◌then◌else◌,
}
use yjkos.Kbd.{KbdFlags, report}
use yjkos.Kbd.Keys.{
  KbdKey, KeymapEntry, keymap, key_char_with_shift, key_char_with_capslock, key_char_with_numlock,
  kbd_key_invalid, kbd_key_num_lock,
}
use yjkos.Kbd.Layout.{
  letters, symbols, digits, shift_down, Reports, letter, symbol, digit, navigation,
}

-- A row of a table is the entry of its key.
row-keymap {ℓ} :
    {A : Type ℓ} (key : A → KbdKey) (entry : A → KeymapEntry) (rows : List A)
    → map (λ r. keymap (key r)) rows ≡ map entry rows
    → (i : ℕ) (r : A) → get_elem? rows i ≡ some r
    → keymap (key r) ≡ entry r
row-keymap key entry [] e i r h = cc
row-keymap key entry (x ∷ rows) e zero r h = cc
row-keymap key entry (x ∷ rows) e (suc i) r h =
    let e' : map (λ r. keymap (key r)) rows ≡ map entry rows = cc in
    row-keymap key entry rows e' i r h

letters-keymap :
    map (λ (r : KbdKey × ℕ). keymap r.0) letters
    ≡ map (λ r. key_char_with_capslock (b'a' + r.1) (b'A' + r.1)) letters
unfolding keymap
letters-keymap = refl

symbols-keymap :
    map (λ (r : KbdKey × ℕ × ℕ). keymap r.0) symbols
    ≡ map (λ r. key_char_with_shift r.1 r.2) symbols
unfolding keymap
symbols-keymap = refl

digits-keymap :
    map (λ (r : KbdKey × KbdKey × ℕ). keymap r.0) digits
    ≡ map (λ r. key_char_with_numlock r.1 (b'0' + r.2)) digits
unfolding keymap
digits-keymap = refl

letter_entry :
    (i : ℕ) (key : KbdKey) (n : ℕ)
    → get_elem? letters i ≡ some (key, n)
    → keymap key ≡ key_char_with_capslock (b'a' + n) (b'A' + n)
letter_entry i key n h =
    row-keymap (λ r. r.0) (λ r. key_char_with_capslock (b'a' + r.1) (b'A' + r.1)) letters
      letters-keymap i (key, n) h

symbol_entry :
    (i : ℕ) (key : KbdKey) (chr shifted : ℕ)
    → get_elem? symbols i ≡ some (key, chr, shifted)
    → keymap key ≡ key_char_with_shift chr shifted
symbol_entry i key chr shifted h =
    row-keymap (λ r. r.0) (λ r. key_char_with_shift r.1 r.2) symbols symbols-keymap i
      (key, chr, shifted) h

digit_entry :
    (i : ℕ) (key other : KbdKey) (n : ℕ)
    → get_elem? digits i ≡ some (key, other, n)
    → keymap key ≡ key_char_with_numlock other (b'0' + n)
digit_entry i key other n h =
    row-keymap (λ r. r.0) (λ r. key_char_with_numlock r.1 (b'0' + r.2)) digits digits-keymap i
      (key, other, n) h

-- a key that Shift or Num Lock changes
changes : KeymapEntry → Bool
changes e = e.with_shift || e.with_numlock

changes-valid :
    (key : KbdKey) (e : KeymapEntry)
    → keymap key ≡ e
    → changes e ≡ true
    → (key ≢ kbd_key_invalid) × (key ≢ kbd_key_num_lock)
unfolding keymap changes
changes-valid key e h c =
    let c' : changes (keymap key) ≡ true = ap changes h ∙ c in
    (
      λ same.
          let c'' : changes (keymap kbd_key_invalid) ≡ true =
            subst (λ k. changes (keymap k) ≡ true) same c' in
          cc,
      λ same.
          let c'' : changes (keymap kbd_key_num_lock) ≡ true =
            subst (λ k. changes (keymap k) ≡ true) same c' in
          cc,
    )

-- Such keys, and what they report, are keys.
pub Reports-valid :
    (flags : KbdFlags) (key other : KbdKey) (chr : ℕ)
    → Reports flags key other chr
    → (key ≢ kbd_key_invalid) × (key ≢ kbd_key_num_lock) × (other ≢ kbd_key_invalid)
unfolding changes
Reports-valid flags key other chr (letter i _ n h) =
    let (v, l) = changes-valid key _ (letter_entry i key n h) refl in (v, l, v)
Reports-valid flags key other chr (symbol i _ c shifted h) =
    let (v, l) = changes-valid key _ (symbol_entry i key c shifted h) refl in (v, l, v)
Reports-valid flags key other chr (digit i _ alt n h on) =
    let (v, l) = changes-valid key _ (digit_entry i key alt n h) refl in (v, l, v)
Reports-valid flags key other chr (navigation i _ _ n h off valid) =
    let (v, l) = changes-valid key _ (digit_entry i key other n h) refl in (v, l, valid)

if_pair :
    (b : Bool) (key : KbdKey) (x y : ℕ)
    → ◌≡◌ {A = KbdKey × ℕ} (if b then (key, x) else (key, y)) (key, if b then x else y)
if_pair true key x y = refl
if_pair false key x y = refl

module _ (key other : KbdKey) (n : ℕ) where
  digit_pair :
      (num : Bool)
      → num ≡ true
      → ◌≡◌ {A = KbdKey × ℕ} (if not num then (other, 0) else (key, b'0' + n)) (key, b'0' + n)
  digit_pair true on = refl
  digit_pair false on = cc

  navigation_pair :
      (num : Bool)
      → num ≡ false
      → ◌≡◌ {A = KbdKey × ℕ} (if not num then (other, 0) else (key, b'0' + n)) (other, 0)
  navigation_pair true off = cc
  navigation_pair false off = refl

-- what is reported with an entry of the table
report_entry : KbdKey → KbdFlags → KeymapEntry → KbdKey × ℕ
report_entry key flags e =
    if e.with_numlock && not flags.lock_num
    then (e.key_alt, 0)
    else if (e.with_capslock && flags.lock_caps) || (e.with_shift && shift_down flags)
    then (key, e.chralt)
    else (key, e.chr)

report-entry :
    (key : KbdKey) (flags : KbdFlags) (e : KeymapEntry)
    → keymap key ≡ e
    → report key flags ≡ report_entry key flags e
unfolding report report_entry
report-entry key flags e h = ap (report_entry key flags) h

-- Each key reports what the layout says.
pub report-Reports :
    (flags : KbdFlags) (key other : KbdKey) (chr : ℕ)
    → Reports flags key other chr
    → report key flags ≡ (other, chr)
unfolding report_entry
report-Reports flags key other chr (letter i _ n h) =
    report-entry key flags _ (letter_entry i key n h)
    ∙ if_pair (flags.lock_caps || shift_down flags) key (b'A' + n) (b'a' + n)
report-Reports flags key other chr (symbol i _ c shifted h) =
    report-entry key flags _ (symbol_entry i key c shifted h)
    ∙ if_pair (shift_down flags) key shifted c
report-Reports flags key other chr (digit i _ alt n h on) =
    report-entry key flags _ (digit_entry i key alt n h) ∙ digit_pair key alt n flags.lock_num on
report-Reports flags key other chr (navigation i _ _ n h off valid) =
    report-entry key flags _ (digit_entry i key other n h)
    ∙ navigation_pair key other n flags.lock_num off
