-- ===== src/Ps2Kbd/Safety.antt =====
-- kernel/dev/ps2kbd.c: `ps2_op_bytereceived` keeps `keybytes` and the input state in step.
use yjkos.Prelude.{
  ℕ, ◌+◌, ◌%◌, ◌^◌, ◌≤◌, ◌≡◌, ◌≢◌, refl, Bool, true, false, ◌||◌, List, [], ltb, ◌==◌, arith, set,
  if◌then◌else◌, Run, ok, Errno, ◌⊎◌,
}
use mathlib.Core.Path.{subst}
use yjkos.Ps2Kbd.{
  InputState, inputstate_default, inputstate_waiting_responsedata, inputstate_waiting_e0ext,
  inputstate_waiting_e1ext1, inputstate_waiting_e1ext2, inputstate_waiting_normalrelease,
  inputstate_waiting_e0release, inputstate_waiting_e1release1, inputstate_waiting_e1release2,
  cmd_echo, ps2_response_ack, ps2_response_resend, KbdContext,
}
use yjkos.Ps2Kbd.Receive.{is_default, store_byte, data_received, dispatch, ps2_op_bytereceived}
use yjkos.Ps2Kbd.Input.{most_bytes, IsInput, Goes}
use yjkos.Ps2Kbd.Bounds.{
  e0_ext_received-Goes, e0_release_received-Goes, e1_ext1_received-Goes, e1_release1_received-Goes,
  e1_ext2_received-Goes, e1_release2_received-Goes, normal_release_received-Goes,
  scancode_first_byte_received-Goes,
}
use yjkos.Ps2Kbd.ReplyBounds.{
  ack_received-Goes, resend_received-Goes, echo_received-Goes, response_byte_received-Goes,
}

-- the bytes that reply to a command
unfoldable pub is_control : ℕ → Bool
is_control byte = (byte == ps2_response_ack) || (byte == ps2_response_resend) || (byte == cmd_echo)

test-Goes :
    (b : Bool) (r r' : Run KbdContext)
    → (b ≡ true → Goes r)
    → (b ≡ false → Goes r')
    → Goes (if b then r else r')
test-Goes true r r' g g' = g refl
test-Goes false r r' g g' = g' refl

most_bytes-le : (state : InputState) → most_bytes state ≤ 4
most_bytes-le inputstate_default = omega arith
most_bytes-le _ = omega arith

if_le : (b : Bool) (n m : ℕ) → (b ≡ false → n ≤ m) → (if b then 0 else n) ≤ m
if_le true n m h = omega arith
if_le false n m h = h refl

index_inside : (i : ℕ) → i ≤ 4 → (ltb i 8 ≡ true) × ((i + 1) % 2 ^ 8 ≡ i + 1)
index_inside i le = (ground arith, omega arith)

-- There is room for the byte.
store_byte-ok :
    (byte : ℕ) (ctx : KbdContext)
    → IsInput ctx
    → (index : ℕ) × (index ≤ most_bytes ctx.state)
      × (store_byte byte ctx
          ≡ ok (record ctx {
            keybytes = set ctx.keybytes index byte;
            next_key_byte_index = index + 1;
          }))
unfolding store_byte
store_byte-ok byte ctx v =
    let index = if is_default ctx.state then 0 else ctx.next_key_byte_index in
    let le = if_le (is_default ctx.state) ctx.next_key_byte_index (most_bytes ctx.state) v.index in
    let most = most_bytes-le ctx.state in
    let (inside, small) = index_inside index (omega arith) in (index, le, rw (inside, small) refl)

module _ (put_char : List ℕ → ℕ → Errno ⊎ ℕ) where
  module _ (byte : ℕ) (ctx : KbdContext) (lo : 1 ≤ ctx.next_key_byte_index) where
    data_received-Goes :
        (state : InputState)
        → ctx.state ≡ state
        → (state ≡ inputstate_waiting_responsedata → ctx.cmd_queue ≢ [])
        → ctx.next_key_byte_index ≤ most_bytes state + 1
        → Goes (data_received put_char byte state ctx)
    unfolding data_received
    data_received-Goes inputstate_default e p hi =
        scancode_first_byte_received-Goes byte ctx lo e hi
    data_received-Goes inputstate_waiting_responsedata e p hi =
        response_byte_received-Goes put_char byte ctx (p refl)
    data_received-Goes inputstate_waiting_e0ext e p hi = e0_ext_received-Goes byte ctx lo hi
    data_received-Goes inputstate_waiting_e0release e p hi = e0_release_received-Goes byte ctx lo hi
    data_received-Goes inputstate_waiting_e1ext1 e p hi = e1_ext1_received-Goes byte ctx lo hi
    data_received-Goes inputstate_waiting_e1release1 e p hi =
        e1_release1_received-Goes byte ctx lo hi
    data_received-Goes inputstate_waiting_e1ext2 e p hi = e1_ext2_received-Goes byte ctx lo hi
    data_received-Goes inputstate_waiting_e1release2 e p hi =
        e1_release2_received-Goes byte ctx lo hi
    data_received-Goes inputstate_waiting_normalrelease e p hi =
        normal_release_received-Goes byte ctx lo hi

    dispatch-Goes :
        (is_control byte ≡ true → ctx.state ≡ inputstate_default)
        → (ctx.state ≡ inputstate_waiting_responsedata → ctx.cmd_queue ≢ [])
        → ctx.next_key_byte_index ≤ most_bytes ctx.state + 1
        → Goes (dispatch put_char byte ctx)
    unfolding dispatch is_control
    dispatch-Goes first p hi =
        let control : is_control byte ≡ true
            → (ctx.state ≡ inputstate_default) × (ctx.next_key_byte_index ≤ 1) =
          λ h. (first h, subst (λ st. ctx.next_key_byte_index ≤ most_bytes st + 1) (first h) hi) in
        let ack = byte == ps2_response_ack in
        let resend = byte == ps2_response_resend in
        let echo = byte == cmd_echo in
        test-Goes ack _ _
          (λ h. let (e, le) = control (rw h refl) in ack_received-Goes put_char ctx e le)
          (λ h.
            test-Goes resend _ _
              (λ h'. let (e, le) = control (rw (h, h') refl) in resend_received-Goes put_char ctx e)
              (λ h'.
                test-Goes echo _ _
                  (λ h''.
                    let (e, le) = control (rw (h, h', h'') refl) in
                    echo_received-Goes put_char ctx e)
                  (λ h''. data_received-Goes ctx.state refl p hi)))

  -- From a state in which the index into keybytes fits the input state and a byte of data is
  -- awaited only while there is a command, ps2_op_bytereceived of any byte neither writes outside
  -- keybytes nor fails an assertion, and leaves such a state, if an ACK, a RESEND or an echo comes
  -- only in the default input state.
  pub bytereceived-Goes :
      (byte : ℕ) (ctx : KbdContext)
      → (is_control byte ≡ true → ctx.state ≡ inputstate_default)
      → IsInput ctx
      → Goes (ps2_op_bytereceived put_char byte ctx)
  unfolding ps2_op_bytereceived
  bytereceived-Goes byte ctx first v =
      let (index, le, stored) = store_byte-ok byte ctx v in
      rw stored (
        dispatch-Goes byte
          (record ctx { keybytes = set ctx.keybytes index byte; next_key_byte_index = index + 1 })
          (omega arith) first v.pending (omega arith))
