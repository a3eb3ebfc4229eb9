-- ===== src/Ps2Kbd/Input.antt =====
-- kernel/dev/ps2kbd.c: `keybytes` against the input state.
use yjkos.Prelude.{
  ℕ, ◌≤◌, ◌≡◌, ◌≢◌, refl, sym, ap, ◌∙◌, Bool, true, false, ◌&&◌, ◌||◌, [], leb, arith,
  if◌then◌else◌, Run, ok,
}
use mathlib.Core.Path.{subst}
use yjkos.Kbd.{same_key}
use yjkos.Kbd.Keys.{KbdKey, kbd_key_invalid}
use yjkos.Ps2Kbd.{
  InputState, inputstate_default, inputstate_waiting_responsedata, inputstate_waiting_e0ext,
  inputstate_waiting_e1ext1, inputstate_waiting_e1ext2, inputstate_waiting_normalrelease,
  inputstate_waiting_e0release, inputstate_waiting_e1release1, inputstate_waiting_e1release2,
  KbdContext, key_pressed, key_released, report_bad_scancode, check_printscreen_press,
  check_printscreen_release, check_pause_press, check_pause_release,
}
use yjkos.Ps2Kbd.Receive.{is_default}

-- the bytes that `keybytes` can have in a state other than the first
abbrev pub most_bytes : InputState → ℕ
most_bytes inputstate_default = 0
most_bytes inputstate_waiting_responsedata = 1
most_bytes inputstate_waiting_e0ext = 1
most_bytes inputstate_waiting_e1ext1 = 1
most_bytes inputstate_waiting_e1ext2 = 3
most_bytes inputstate_waiting_normalrelease = 1
most_bytes inputstate_waiting_e0release = 2
most_bytes inputstate_waiting_e1release1 = 2
most_bytes inputstate_waiting_e1release2 = 4

-- The index is inside, and a byte of data is awaited only for a command.
pub record IsInput (ctx : KbdContext) : Type 0 where
  pub index : is_default ctx.state ≡ false → ctx.next_key_byte_index ≤ most_bytes ctx.state
  pub pending : ctx.state ≡ inputstate_waiting_responsedata → ctx.cmd_queue ≢ []

-- The code neither fails an assertion nor writes astray, and leaves such a state.
unfoldable pub Goes : Run KbdContext → Type 0
Goes r = (ctx : KbdContext) × (r ≡ ok ctx) × IsInput ctx

pub if-Goes : (b : Bool) (r r' : Run KbdContext) → Goes r → Goes r' → Goes (if b then r else r')
if-Goes true r r' g g' = g
if-Goes false r r' g g' = g'

-- the first state
pub IsInput-default : (ctx : KbdContext) → ctx.state ≡ inputstate_default → IsInput ctx
IsInput-default ctx e = record { index = λ h. let first = ap is_default e in cc; pending = λ h. cc }

-- a byte was stored, and at most `most` are there
abbrev pub Stored : ℕ → KbdContext → Type 0
Stored most ctx = (1 ≤ ctx.next_key_byte_index) × (ctx.next_key_byte_index ≤ most)

pub report_bad_scancode-Goes :
    (ctx : KbdContext)
    → ctx.state ≡ inputstate_default
    → Stored 8 ctx
    → Goes (report_bad_scancode ctx)
unfolding report_bad_scancode Goes
report_bad_scancode-Goes ctx e (lo, hi) =
    let least : leb 1 ctx.next_key_byte_index ≡ true = ground arith in
    let most : leb ctx.next_key_byte_index 8 ≡ true = ground arith in
    (ctx, rw (least, most) refl, IsInput-default ctx e)

pub ok-Goes : (ctx : KbdContext) → IsInput ctx → Goes (ok ctx)
unfolding Goes
ok-Goes ctx v = (ctx, refl, v)

module _ (ctx : KbdContext) (e : ctx.state ≡ inputstate_default) where
  pub first-Goes : Goes (ok ctx)
  first-Goes = ok-Goes ctx (IsInput-default ctx e)

  module _ (stored : Stored 8 ctx) where
    pub key_pressed-Goes : (key : KbdKey) → Goes (key_pressed key ctx)
    unfolding key_pressed
    key_pressed-Goes key =
        if-Goes (same_key key kbd_key_invalid) _ _ (report_bad_scancode-Goes ctx e stored)
          (ok-Goes _ (IsInput-default _ e))

    pub key_released-Goes : (key : KbdKey) → Goes (key_released key ctx)
    unfolding key_released
    key_released-Goes key =
        if-Goes (same_key key kbd_key_invalid) _ _ (report_bad_scancode-Goes ctx e stored)
          (ok-Goes _ (IsInput-default _ e))

    pub check_printscreen_press-Goes : Goes (check_printscreen_press ctx)
    unfolding check_printscreen_press
    check_printscreen_press-Goes =
        if-Goes (ctx.fakelshift_down && ctx.fakenumpadmul_down) _ _ (key_pressed-Goes _) first-Goes

    pub check_printscreen_release-Goes : Goes (check_printscreen_release ctx)
    unfolding check_printscreen_release
    check_printscreen_release-Goes =
        if-Goes (ctx.fakelshift_down || ctx.fakenumpadmul_down) _ _ first-Goes (key_released-Goes _)

    pub check_pause_press-Goes : Goes (check_pause_press ctx)
    unfolding check_pause_press
    check_pause_press-Goes =
        if-Goes (ctx.fakelctrl_down && ctx.fakenumlock_down) _ _ (key_pressed-Goes _) first-Goes

    pub check_pause_release-Goes : Goes (check_pause_release ctx)
    unfolding check_pause_release
    check_pause_release-Goes =
        if-Goes (ctx.fakelctrl_down || ctx.fakenumlock_down) _ _ first-Goes (key_released-Goes _)

-- a state in the middle of a sequence
pub sequence-Goes :
    (state : InputState) (ctx : KbdContext)
    → ctx.state ≡ state
    → state ≢ inputstate_waiting_responsedata
    → ctx.next_key_byte_index ≤ most_bytes state
    → Goes (ok ctx)
sequence-Goes state ctx e other le = ok-Goes ctx (record {
  index = λ h. subst (λ st. ctx.next_key_byte_index ≤ most_bytes st) (sym e) le;
  pending = λ h. absurd (other (sym e ∙ h));
})
