-- ===== src/Kbd/Locks.antt =====
-- kernel/io/kbd.c: what a release and Num Lock leave of the keys that are down.
use yjkos.Prelude.{
  ◌≡◌, ◌≢◌, inl, inr, refl, sym, ap, ◌∙◌, Bool, true, false, Bool-cases, ◌||◌, not, List, [], ◌∷◌,
  arith, Option-cases,
}
use mathlib.Core.Path.{fun_ext}
use yjkos.Kbd.Keys.{KbdKey, KbdKey-discrete, all_keys, kbd_key_num_lock, kbd_key_invalid}
use yjkos.Kbd.{
  Modifier, Modifier-discrete, Kbd, same_key, set_key, update_leds, modifier, set_mod, set_modifier,
  kbd_key_released, release_keys, release_all_keys_except, press_lock, kbd_key_pressed,
}
use yjkos.Kbd.Modifiers.{
  IsKbd, modifier_key-modifier, set_key-at, set_key-other, set_mod-at, set_mod-other, same_key_refl,
}
use yjkos.Kbd.Invariant.{
  Queued, report_event-Queued, kbd_key_released-changed, release_keys-keeps, pressed,
  set_modifier-none,
}

set_mod-same :
    (mods : Modifier → Bool) (m : Modifier) (v : Bool) → mods m ≡ v → set_mod mods m v ≡ mods
set_mod-same mods m v e = fun_ext at
  where
    at : (m' : Modifier) → set_mod mods m v m' ≡ mods m'
    at m' = elim (Modifier-discrete m' m) [
      | yes p ↦ rw p (set_mod-at mods m v ∙ sym e)
      | no p ↦ set_mod-other mods m m' v p
    ]

set_modifier-up :
    (key : KbdKey) (s : Kbd)
    → IsKbd s
    → s.keysdown key ≡ false
    → set_modifier key false s.flags ≡ s.flags
unfolding set_modifier
set_modifier-up key s v up = elim (Option-cases (modifier key)) [
  | inl e ↦ set_modifier-none key false s.flags e
  | inr (m, e) ↦
      let clear = v.mods m ∙ ap s.keysdown (sym (modifier_key-modifier key m e)) ∙ up in
      rw (set_modifier, e)
        (ap (λ mods. record s.flags { mods = mods }) (set_mod-same s.flags.mods m false clear))
]

-- A release of a key that is not down changes nothing, in a state in which the modifiers' flags
-- agree with their keys.
pub release-not_down :
    (key : KbdKey) (s : Kbd) → IsKbd s → s.keysdown key ≡ false → kbd_key_released key s ≡ s
unfolding kbd_key_released
release-not_down key s v up =
    rw (kbd_key_released, up)
      (ap (λ flags. record s { flags = flags }) (set_modifier-up key s v up))

-- whether a key is in a list
unfoldable has_key : KbdKey → List KbdKey → Bool
has_key k [] = false
has_key k (key ∷ keys) = same_key k key || has_key k keys

pub same_key-other : (a b : KbdKey) → a ≢ b → same_key a b ≡ false
same_key-other a b ne = ground arith

set_key-up :
    (keysdown : KbdKey → Bool) (key k : KbdKey)
    → keysdown k ≡ false
    → set_key keysdown key false k ≡ false
set_key-up keysdown key k up = elim (KbdKey-discrete k key) [
  | yes p ↦ rw p (set_key-at keysdown key false)
  | no p ↦ set_key-other keysdown key k false p ∙ up
]

release-up :
    (key k : KbdKey) (s : Kbd) → s.keysdown k ≡ false → (kbd_key_released key s).keysdown k ≡ false
release-up key k s up =
    let (es, room, e) = kbd_key_released-changed key s in
    ap (λ t. t.keysdown k) e ∙ set_key-up s.keysdown key k up

pub release-keysdown : (key : KbdKey) (s : Kbd) → (kbd_key_released key s).keysdown key ≡ false
release-keysdown key s =
    let (es, room, e) = kbd_key_released-changed key s in
    ap (λ t. t.keysdown key) e ∙ set_key-at s.keysdown key false

release_keys-up :
    (except : KbdKey) (keys : List KbdKey) (k : KbdKey) (s : Kbd)
    → s.keysdown k ≡ false
    → (release_keys except keys s).keysdown k ≡ false
release_keys-up except keys k s up =
    release_keys-keeps {P = λ s'. s'.keysdown k ≡ false} (λ key s'. release-up key k s') except keys
      s up

or_false : (a b : Bool) → a ≡ false → (a || b) ≡ true → b ≡ true
or_false false b e h = h
or_false true b e h = cc

release_keys-releases :
    (except : KbdKey) (keys : List KbdKey) (k : KbdKey) (s : Kbd)
    → has_key k keys ≡ true
    → k ≢ except
    → (release_keys except keys s).keysdown k ≡ false
unfolding has_key release_keys
release_keys-releases except [] k s h ne = cc
release_keys-releases except (key ∷ keys) k s h ne = elim (KbdKey-discrete k key) [
  | yes p ↦ release_keys-up except keys k _ (
      rw (sym p, same_key-other k except ne)
        (elim (Bool-cases (s.keysdown k)) [ inl d ↦ rw d (release-keysdown k s) | inr d ↦ rw d d ]))
  | no p ↦ release_keys-releases except keys k _ (or_false _ _ (same_key-other k key p) h) ne
]

all_keys-has_key : (k : KbdKey) → k ≢ kbd_key_invalid → has_key k all_keys ≡ true
unfolding has_key KbdKey-discrete
all_keys-has_key kbd_key_invalid ne = absurd (ne refl)
all_keys-has_key _ ne = refl

-- After a press of Num Lock no valid key is down but Num Lock.
pub num_lock-keysdown :
    (s : Kbd) (k : KbdKey)
    → k ≢ kbd_key_invalid
    → (kbd_key_pressed kbd_key_num_lock s).keysdown k ≡ same_key k kbd_key_num_lock
unfolding kbd_key_pressed press_lock release_all_keys_except Queued set_modifier modifier
num_lock-keysdown s k valid =
    let (es, room, e) = report_event-Queued kbd_key_num_lock true (pressed kbd_key_num_lock s) in
    let toggled = update_leds (record s {
      flags = record (set_modifier kbd_key_num_lock true s.flags) {
        lock_num = not s.flags.lock_num;
      };
    }) in
    let keysdown = (release_keys kbd_key_num_lock all_keys toggled).keysdown in
    ap (λ t. t.keysdown k) e ∙ elim (KbdKey-discrete k kbd_key_num_lock) [
      | yes p ↦
          rw p (set_key-at keysdown kbd_key_num_lock true ∙ sym (same_key_refl kbd_key_num_lock))
      | no p ↦
          set_key-other keysdown kbd_key_num_lock k true p
          ∙ release_keys-releases kbd_key_num_lock all_keys k toggled (all_keys-has_key k valid) p
          ∙ sym (same_key-other k kbd_key_num_lock p)
    ]
