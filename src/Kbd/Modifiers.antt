-- ===== src/Kbd/Modifiers.antt =====
-- kernel/io/kbd.c: the flags of the modifiers against `s_keysdown`.
use yjkos.Prelude.{
  ◌≤◌, ◌≡◌, ◌≢◌, inl, inr, refl, sym, ap, ◌∙◌, Bool, true, length, arith, some, Option-cases,
}
use yjkos.Kbd.Keys.{
  KbdKey, KbdKey-discrete, kbd_key_lshift, kbd_key_rshift, kbd_key_lctrl, kbd_key_rctrl,
  kbd_key_lalt, kbd_key_ralt, kbd_key_lsuper, kbd_key_rsuper,
}
use yjkos.Kbd.{
  Modifier, Modifier-discrete, mod_lshift, mod_rshift, mod_lctrl, mod_rctrl, mod_lalt, mod_ralt,
  mod_lsuper, mod_rsuper, KbdFlags, Kbd, event_cap, same_key, set_key, modifier, set_mod,
  set_modifier,
}

-- the key of a flag
abbrev pub modifier_key : Modifier → KbdKey
modifier_key mod_lshift = kbd_key_lshift
modifier_key mod_rshift = kbd_key_rshift
modifier_key mod_lctrl = kbd_key_lctrl
modifier_key mod_rctrl = kbd_key_rctrl
modifier_key mod_lalt = kbd_key_lalt
modifier_key mod_ralt = kbd_key_ralt
modifier_key mod_lsuper = kbd_key_lsuper
modifier_key mod_rsuper = kbd_key_rsuper

-- A flag is set while its key is down, and the queue is not past its end.
pub record IsKbd (s : Kbd) : Type 0 where
  pub mods : (m : Modifier) → s.flags.mods m ≡ s.keysdown (modifier_key m)
  pub events : length s.events ≤ event_cap

pub modifier-modifier_key : (m : Modifier) → modifier (modifier_key m) ≡ some m
unfolding modifier
modifier-modifier_key mod_lshift = refl
modifier-modifier_key mod_rshift = refl
modifier-modifier_key mod_lctrl = refl
modifier-modifier_key mod_rctrl = refl
modifier-modifier_key mod_lalt = refl
modifier-modifier_key mod_ralt = refl
modifier-modifier_key mod_lsuper = refl
modifier-modifier_key mod_rsuper = refl

modifier_key-inj : (m m' : Modifier) → modifier_key m ≡ modifier_key m' → m ≡ m'
modifier_key-inj m m' e =
    let back = modifier-modifier_key m in let back' = modifier-modifier_key m' in cc

same_modifier : (m m' : Modifier) → some m ≡ some m' → modifier_key m ≡ modifier_key m'
same_modifier m m' e = ap modifier_key cc

pub modifier_key-modifier :
    (key : KbdKey) (m : Modifier) → modifier key ≡ some m → key ≡ modifier_key m
unfolding modifier
modifier_key-modifier kbd_key_lshift m e = same_modifier mod_lshift m e
modifier_key-modifier kbd_key_rshift m e = same_modifier mod_rshift m e
modifier_key-modifier kbd_key_lctrl m e = same_modifier mod_lctrl m e
modifier_key-modifier kbd_key_rctrl m e = same_modifier mod_rctrl m e
modifier_key-modifier kbd_key_lalt m e = same_modifier mod_lalt m e
modifier_key-modifier kbd_key_ralt m e = same_modifier mod_ralt m e
modifier_key-modifier kbd_key_lsuper m e = same_modifier mod_lsuper m e
modifier_key-modifier kbd_key_rsuper m e = same_modifier mod_rsuper m e
modifier_key-modifier _ m e = cc

-- a state that differs in its flags and its keys
abbrev pub with_keys : Kbd → KbdFlags → (KbdKey → Bool) → Kbd
with_keys s flags keysdown = record s { flags = flags; keysdown = keysdown }

pub same_key_refl : (k : KbdKey) → same_key k k ≡ true
same_key_refl k = ground arith

pub set_key-at :
    (keysdown : KbdKey → Bool) (key : KbdKey) (v : Bool) → set_key keysdown key v key ≡ v
set_key-at keysdown key v = ground arith

pub set_key-other :
    (keysdown : KbdKey → Bool) (key k : KbdKey) (v : Bool)
    → k ≢ key
    → set_key keysdown key v k ≡ keysdown k
set_key-other keysdown key k v ne = ground arith

pub set_key-same :
    (keysdown : KbdKey → Bool) (key : KbdKey) (v : Bool)
    → keysdown key ≡ v
    → set_key keysdown key v ≡ keysdown
set_key-same keysdown key v e = λ i k. at k i
  where
    at : (k : KbdKey) → set_key keysdown key v k ≡ keysdown k
    at k = elim (KbdKey-discrete k key) [
      | yes p ↦ rw p (set_key-at keysdown key v ∙ sym e)
      | no p ↦ set_key-other keysdown key k v p
    ]

pub set_mod-at : (mods : Modifier → Bool) (m : Modifier) (v : Bool) → set_mod mods m v m ≡ v
set_mod-at mods m v = ground arith

pub set_mod-other :
    (mods : Modifier → Bool) (m m' : Modifier) (v : Bool) → m' ≢ m → set_mod mods m v m' ≡ mods m'
set_mod-other mods m m' v ne = ground arith

pub set_modifier-set_key :
    (key : KbdKey) (v : Bool) (flags : KbdFlags) (keysdown : KbdKey → Bool)
    → ((m : Modifier) → flags.mods m ≡ keysdown (modifier_key m))
    → (m : Modifier) → (set_modifier key v flags).mods m ≡ set_key keysdown key v (modifier_key m)
unfolding set_modifier
set_modifier-set_key key v flags keysdown same m =
    let back = modifier-modifier_key m in
    elim (Option-cases (modifier key)) [
      | inl e ↦
          rw (set_modifier, e)
            (same m ∙ sym (set_key-other keysdown key (modifier_key m) v (λ p. cc)))
      | inr (m', e) ↦
          let at = modifier_key-modifier key m' e in
          rw (set_modifier, e)
            (elim (Modifier-discrete m m') [
              | yes p ↦
                  rw (at, p)
                    (set_mod-at flags.mods m' v ∙ sym (set_key-at keysdown (modifier_key m') v))
              | no p ↦
                  set_mod-other flags.mods m' m v p
                  ∙ same m
                  ∙ sym (
                      set_key-other keysdown key (modifier_key m) v
                        (λ q. p (modifier_key-inj m m' (q ∙ at))))
            ])
    ]
