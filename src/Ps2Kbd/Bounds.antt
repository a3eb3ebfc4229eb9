-- ===== src/Ps2Kbd/Bounds.antt =====
-- kernel/dev/ps2kbd.c: no byte of data goes past `keybytes`, and no message finds too many bytes
-- there.
use yjkos.Prelude.{ℕ, ◌≤◌, ◌≡◌, refl, ◌==◌, arith}
use yjkos.Ps2Kbd.{
  inputstate_default, inputstate_waiting_e0ext, inputstate_waiting_e1ext1,
  inputstate_waiting_e1ext2, inputstate_waiting_normalrelease, inputstate_waiting_e0release,
  inputstate_waiting_e1release1, inputstate_waiting_e1release2, KbdContext, e0_ext_received,
  e0_release_received, e1_ext1_received, e1_release1_received, e1_ext2_received,
  e1_release2_received, normal_release_received, scancode_first_byte_received,
}
use yjkos.Ps2Kbd.Input.{
  Goes, if-Goes, Stored, report_bad_scancode-Goes, sequence-Goes, key_pressed-Goes,
  key_released-Goes, check_printscreen_press-Goes, check_printscreen_release-Goes,
  check_pause_press-Goes, check_pause_release-Goes,
}

module _ (byte : ℕ) (ctx : KbdContext) (lo : 1 ≤ ctx.next_key_byte_index) where
  pub e0_ext_received-Goes : ctx.next_key_byte_index ≤ 2 → Goes (e0_ext_received byte ctx)
  unfolding e0_ext_received
  e0_ext_received-Goes hi =
      let stored : Stored 8 ctx = (lo, omega arith) in
      if-Goes (byte == 0xf0) _ _ (sequence-Goes inputstate_waiting_e0release _ refl (λ p. cc) hi) (
        if-Goes (byte == 0x12) _ _ (check_printscreen_press-Goes _ refl stored) (
          if-Goes (byte == 0x7c) _ _ (check_printscreen_press-Goes _ refl stored)
            (key_pressed-Goes _ refl stored _)))

  pub e0_release_received-Goes : ctx.next_key_byte_index ≤ 3 → Goes (e0_release_received byte ctx)
  unfolding e0_release_received
  e0_release_received-Goes hi =
      let stored : Stored 8 ctx = (lo, omega arith) in
      if-Goes (byte == 0x12) _ _ (check_printscreen_release-Goes _ refl stored) (
        if-Goes (byte == 0x7c) _ _ (check_printscreen_release-Goes _ refl stored)
          (key_released-Goes _ refl stored _))

  pub e1_ext1_received-Goes : ctx.next_key_byte_index ≤ 2 → Goes (e1_ext1_received byte ctx)
  unfolding e1_ext1_received
  e1_ext1_received-Goes hi =
      let le : ctx.next_key_byte_index ≤ 3 = omega arith in
      if-Goes (byte == 0xf0) _ _ (sequence-Goes inputstate_waiting_e1release1 _ refl (λ p. cc) hi) (
        if-Goes (byte == 0x14) _ _ (sequence-Goes inputstate_waiting_e1ext2 _ refl (λ p. cc) le) (
          if-Goes (byte == 0x77) _ _ (sequence-Goes inputstate_waiting_e1ext2 _ refl (λ p. cc) le)
            (sequence-Goes inputstate_waiting_e1ext2 _ refl (λ p. cc) le)))

  pub e1_release1_received-Goes : ctx.next_key_byte_index ≤ 3 → Goes (e1_release1_received byte ctx)
  unfolding e1_release1_received
  e1_release1_received-Goes hi =
      if-Goes (byte == 0x14) _ _ (sequence-Goes inputstate_waiting_e1ext2 _ refl (λ p. cc) hi) (
        if-Goes (byte == 0x77) _ _ (sequence-Goes inputstate_waiting_e1ext2 _ refl (λ p. cc) hi)
          (sequence-Goes inputstate_waiting_e1ext2 _ refl (λ p. cc) hi))

  pub e1_ext2_received-Goes : ctx.next_key_byte_index ≤ 4 → Goes (e1_ext2_received byte ctx)
  unfolding e1_ext2_received
  e1_ext2_received-Goes hi =
      let stored : Stored 8 ctx = (lo, omega arith) in
      if-Goes (byte == 0xf0) _ _ (sequence-Goes inputstate_waiting_e1release2 _ refl (λ p. cc) hi) (
        if-Goes (byte == 0x14) _ _ (check_pause_press-Goes _ refl stored) (
          if-Goes (byte == 0x77) _ _ (check_pause_press-Goes _ refl stored)
            (report_bad_scancode-Goes _ refl stored)))

  pub e1_release2_received-Goes : ctx.next_key_byte_index ≤ 5 → Goes (e1_release2_received byte ctx)
  unfolding e1_release2_received
  e1_release2_received-Goes hi =
      let stored : Stored 8 ctx = (lo, omega arith) in
      if-Goes (byte == 0x14) _ _ (check_pause_release-Goes _ refl stored) (
        if-Goes (byte == 0x77) _ _ (check_pause_release-Goes _ refl stored)
          (report_bad_scancode-Goes _ refl stored))

  pub normal_release_received-Goes :
      ctx.next_key_byte_index ≤ 2 → Goes (normal_release_received byte ctx)
  unfolding normal_release_received
  normal_release_received-Goes hi =
      let stored : Stored 8 ctx = (lo, omega arith) in key_released-Goes _ refl stored _

  pub scancode_first_byte_received-Goes :
      ctx.state ≡ inputstate_default
      → ctx.next_key_byte_index ≤ 1
      → Goes (scancode_first_byte_received byte ctx)
  unfolding scancode_first_byte_received
  scancode_first_byte_received-Goes e hi =
      let stored : Stored 8 ctx = (lo, omega arith) in
      if-Goes (byte == 0xe0) _ _ (sequence-Goes inputstate_waiting_e0ext _ refl (λ p. cc) hi) (
        if-Goes (byte == 0xe1) _ _ (sequence-Goes inputstate_waiting_e1ext1 _ refl (λ p. cc) hi) (
          if-Goes (byte == 0xf0) _ _
            (sequence-Goes inputstate_waiting_normalrelease _ refl (λ p. cc) hi)
            (key_pressed-Goes _ e stored _)))
