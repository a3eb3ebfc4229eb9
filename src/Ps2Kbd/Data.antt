-- ===== src/Ps2Kbd/Data.antt =====
-- kernel/dev/ps2kbd.c: bytes of data leave the commands as they are.
use yjkos.Prelude.{
  ℕ, ◌≡◌, refl, ◌∙◌, Bool, true, false, ◌&&◌, ◌||◌, leb, ◌==◌, if◌then◌else◌, Run, ok, panicked,
}
use yjkos.Kbd.{same_key}
use yjkos.Kbd.Keys.{KbdKey, kbd_key_invalid}
use yjkos.Ps2Kbd.{
  KbdContext, e0_ext_received, e0_release_received, e1_ext1_received, e1_release1_received,
  e1_ext2_received, e1_release2_received, normal_release_received, scancode_first_byte_received,
  key_pressed, key_released, report_bad_scancode, check_printscreen_press,
  check_printscreen_release, check_pause_press, check_pause_release,
}

-- The commands are those of the state before.
pub record SameCmds (ctx ctx' : KbdContext) : Type 0 where
  pub queue : ctx'.cmd_queue ≡ ctx.cmd_queue
  pub finished : ctx'.finished ≡ ctx.finished
  pub freed : ctx'.freed ≡ ctx.freed
  pub sent : ctx'.sent ≡ ctx.sent

pub same_cmds : (ctx : KbdContext) → SameCmds ctx ctx
same_cmds ctx = record { queue = refl; finished = refl; freed = refl; sent = refl }

-- whatever the code leaves, when the kernel goes on
abbrev pub Keeps : KbdContext → Run KbdContext → Type 0
Keeps ctx (ok ctx') = SameCmds ctx ctx'
Keeps ctx panicked = Unit

pub if-Keeps :
    (b : Bool) (ctx : KbdContext) (r r' : Run KbdContext)
    → Keeps ctx r
    → Keeps ctx r'
    → Keeps ctx (if b then r else r')
if-Keeps true ctx r r' k k' = k
if-Keeps false ctx r r' k k' = k'

module _ (base ctx : KbdContext) (same : SameCmds base ctx) where
  pub report_bad_scancode-Keeps : Keeps base (report_bad_scancode ctx)
  unfolding report_bad_scancode
  report_bad_scancode-Keeps =
      if-Keeps (leb 1 ctx.next_key_byte_index && leb ctx.next_key_byte_index 8) base (ok ctx)
        panicked same tt

  pub key_pressed-Keeps : (key : KbdKey) → Keeps base (key_pressed key ctx)
  unfolding key_pressed
  key_pressed-Keeps key =
      if-Keeps (same_key key kbd_key_invalid) base _ _ report_bad_scancode-Keeps (record {
        queue = same.queue;
        finished = same.finished;
        freed = same.freed;
        sent = same.sent;
      })

  pub key_released-Keeps : (key : KbdKey) → Keeps base (key_released key ctx)
  unfolding key_released
  key_released-Keeps key =
      if-Keeps (same_key key kbd_key_invalid) base _ _ report_bad_scancode-Keeps (record {
        queue = same.queue;
        finished = same.finished;
        freed = same.freed;
        sent = same.sent;
      })

  pub check_printscreen_press-Keeps : Keeps base (check_printscreen_press ctx)
  unfolding check_printscreen_press
  check_printscreen_press-Keeps =
      if-Keeps (ctx.fakelshift_down && ctx.fakenumpadmul_down) base _ _ (key_pressed-Keeps _) same

  pub check_printscreen_release-Keeps : Keeps base (check_printscreen_release ctx)
  unfolding check_printscreen_release
  check_printscreen_release-Keeps =
      if-Keeps (ctx.fakelshift_down || ctx.fakenumpadmul_down) base _ _ same (key_released-Keeps _)

  pub check_pause_press-Keeps : Keeps base (check_pause_press ctx)
  unfolding check_pause_press
  check_pause_press-Keeps =
      if-Keeps (ctx.fakelctrl_down && ctx.fakenumlock_down) base _ _ (key_pressed-Keeps _) same

  pub check_pause_release-Keeps : Keeps base (check_pause_release ctx)
  unfolding check_pause_release
  check_pause_release-Keeps =
      if-Keeps (ctx.fakelctrl_down || ctx.fakenumlock_down) base _ _ same (key_released-Keeps _)

-- the context with which a handler goes on
pub moved :
    {base ctx : KbdContext}
    → SameCmds base ctx
    → (ctx' : KbdContext) → ctx'.cmd_queue ≡ ctx.cmd_queue
    → ctx'.finished ≡ ctx.finished
    → ctx'.freed ≡ ctx.freed
    → ctx'.sent ≡ ctx.sent
    → SameCmds base ctx'
moved same ctx' q f g s = record {
  queue = q ∙ same.queue;
  finished = f ∙ same.finished;
  freed = g ∙ same.freed;
  sent = s ∙ same.sent;
}

module _ (byte : ℕ) (base ctx : KbdContext) (same : SameCmds base ctx) where
  pub e0_ext_received-Keeps : Keeps base (e0_ext_received byte ctx)
  unfolding e0_ext_received
  e0_ext_received-Keeps = if-Keeps (byte == 0xf0) base _ _ (moved same _ refl refl refl refl) (
      if-Keeps (byte == 0x12) base _ _
        (check_printscreen_press-Keeps base _ (moved same _ refl refl refl refl))
        (if-Keeps (byte == 0x7c) base _ _
          (check_printscreen_press-Keeps base _ (moved same _ refl refl refl refl))
          (key_pressed-Keeps base _ (moved same _ refl refl refl refl) _)))

  pub e0_release_received-Keeps : Keeps base (e0_release_received byte ctx)
  unfolding e0_release_received
  e0_release_received-Keeps =
      if-Keeps (byte == 0x12) base _ _
        (check_printscreen_release-Keeps base _ (moved same _ refl refl refl refl))
        (if-Keeps (byte == 0x7c) base _ _
          (check_printscreen_release-Keeps base _ (moved same _ refl refl refl refl))
          (key_released-Keeps base _ (moved same _ refl refl refl refl) _))

  pub e1_ext1_received-Keeps : Keeps base (e1_ext1_received byte ctx)
  unfolding e1_ext1_received
  e1_ext1_received-Keeps = if-Keeps (byte == 0xf0) base _ _ (moved same _ refl refl refl refl) (
      if-Keeps (byte == 0x14) base _ _ (moved same _ refl refl refl refl) (
        if-Keeps (byte == 0x77) base _ _ (moved same _ refl refl refl refl)
          (moved same _ refl refl refl refl)))

  pub e1_release1_received-Keeps : Keeps base (e1_release1_received byte ctx)
  unfolding e1_release1_received
  e1_release1_received-Keeps = if-Keeps (byte == 0x14) base _ _ (moved same _ refl refl refl refl) (
      if-Keeps (byte == 0x77) base _ _ (moved same _ refl refl refl refl)
        (moved same _ refl refl refl refl))

  pub e1_ext2_received-Keeps : Keeps base (e1_ext2_received byte ctx)
  unfolding e1_ext2_received
  e1_ext2_received-Keeps = if-Keeps (byte == 0xf0) base _ _ (moved same _ refl refl refl refl) (
      if-Keeps (byte == 0x14) base _ _
        (check_pause_press-Keeps base _ (moved same _ refl refl refl refl))
        (if-Keeps (byte == 0x77) base _ _
          (check_pause_press-Keeps base _ (moved same _ refl refl refl refl))
          (report_bad_scancode-Keeps base _ (moved same _ refl refl refl refl))))

  pub e1_release2_received-Keeps : Keeps base (e1_release2_received byte ctx)
  unfolding e1_release2_received
  e1_release2_received-Keeps =
      if-Keeps (byte == 0x14) base _ _
        (check_pause_release-Keeps base _ (moved same _ refl refl refl refl))
        (if-Keeps (byte == 0x77) base _ _
          (check_pause_release-Keeps base _ (moved same _ refl refl refl refl))
          (report_bad_scancode-Keeps base _ (moved same _ refl refl refl refl)))

  pub normal_release_received-Keeps : Keeps base (normal_release_received byte ctx)
  unfolding normal_release_received
  normal_release_received-Keeps = key_released-Keeps base _ (moved same _ refl refl refl refl) _

  pub scancode_first_byte_received-Keeps : Keeps base (scancode_first_byte_received byte ctx)
  unfolding scancode_first_byte_received
  scancode_first_byte_received-Keeps =
      if-Keeps (byte == 0xe0) base _ _ (moved same _ refl refl refl refl) (
        if-Keeps (byte == 0xe1) base _ _ (moved same _ refl refl refl refl) (
          if-Keeps (byte == 0xf0) base _ _ (moved same _ refl refl refl refl)
            (key_pressed-Keeps base ctx same _)))
