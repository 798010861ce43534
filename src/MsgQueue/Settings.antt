-- ===== src/MsgQueue/Settings.antt =====
-- The camera settings that reach the logger by msg_queue/msg_queue.cpp.
use logger_verifier.Base.Decimal.{ℤ, pos, negsuc}
use logger_verifier.Base.Run.{◌>>=◌}
use logger_verifier.MsgQueue.{
  Queues, Camera, type_camera_cfg, type_camera_cfg_res, camera_cfg_mq, camera_cfg_res_mq,
  message_size, int_value, set_size, read_cfg, send_answer, camera_cfg_res_send, apply_cfg,
  camera_cfg_recv,
}
use logger_verifier.Base.{
  ℕ, zero, suc, ◌+◌, ◌-◌, ◌*◌, ◌/◌, ◌%◌, ◌^◌, ◌<◌, ◌≡◌, refl, ap, ◌∙◌, true, some, List, [], ◌∷◌,
  arith, get_or,
}

-- The pattern of an `int` of 32 bits.
abbrev pub pattern : ℤ → ℕ
pattern (pos n) = n
pattern (negsuc n) = 2 ^ 32 - 1 - n

-- An `int` fits its 32 bits.
abbrev pub IsInt : ℤ → Type 0
IsInt (pos n) = n < 2 ^ 31
IsInt (negsuc n) = n < 2 ^ 31

-- The message of the Web UI: a size, a format, and the frame rate as an `int`.
abbrev pub cfg_message : ℕ → ℕ → ℤ → List ℕ
cfg_message size format fps =
    size
    ∷ format
    ∷ pattern fps % 2 ^ 8
    ∷ pattern fps / 2 ^ 8 % 2 ^ 8
    ∷ pattern fps / 2 ^ 16 % 2 ^ 8
    ∷ pattern fps / 2 ^ 24 % 2 ^ 8
    ∷ []

four_bytes :
    (p : ℕ)
    → p < 2 ^ 32
    → p % 2 ^ 8
        + p / 2 ^ 8 % 2 ^ 8 * 2 ^ 8
        + p / 2 ^ 16 % 2 ^ 8 * 2 ^ 16
        + p / 2 ^ 24 % 2 ^ 8 * 2 ^ 24
      ≡ p
four_bytes p h = omega arith

int_value-pattern :
    (k : ℤ)
    → IsInt k
    → int_value
        (pattern k % 2 ^ 8)
        (pattern k / 2 ^ 8 % 2 ^ 8)
        (pattern k / 2 ^ 16 % 2 ^ 8)
        (pattern k / 2 ^ 24 % 2 ^ 8)
      ≡ k
unfolding int_value
int_value-pattern (pos n) h = let e = four_bytes n (omega arith) in ground arith
int_value-pattern (negsuc n) h =
    let e = four_bytes (2 ^ 32 - 1 - n) (omega arith) in
    let back : 2 ^ 32 - 1 - (2 ^ 32 - 1 - n) ≡ n = omega arith in ground arith

read_cfg-cfg_message :
    (size format : ℕ) (fps : ℤ)
    → IsInt fps
    → read_cfg (cfg_message size format fps) ≡ some (size, fps)
unfolding read_cfg
read_cfg-cfg_message size format fps h = ap (λ k. some (size, k)) (int_value-pattern fps h)

-- The frame's width and height for a size of the message.
abbrev pub frame_size : ℕ → Camera → ℕ × ℕ
frame_size size cam =
    get_or ((cam.width, cam.height) ∷ (640, 480) ∷ (1280, 720) ∷ (352, 288) ∷ []) size
      (cam.width, cam.height)

set_size-frame_size :
    (size : ℕ) (cam : Camera)
    → ((set_size size cam).fps ≡ cam.fps)
      × (((set_size size cam).width, (set_size size cam).height) ≡ frame_size size cam)
unfolding set_size
set_size-frame_size zero cam = (refl, refl)
set_size-frame_size (suc zero) cam = (refl, refl)
set_size-frame_size (suc (suc zero)) cam = (refl, refl)
set_size-frame_size (suc (suc (suc zero))) cam = (refl, refl)
set_size-frame_size (suc (suc (suc (suc n)))) cam = (ground arith, ground arith)

module _ (Q : Queues) where
  camera_cfg_res_send-sends :
      (r : ℕ) (w w1 w2 : Q.World)
      → Q.msgget camera_cfg_res_mq w ≡ some (some r, w1)
      → Q.msgsnd r type_camera_cfg_res (1 ∷ Q.rest) w1 ≡ some (true, w2)
      → camera_cfg_res_send Q w ≡ some (tt, w2)
  unfolding camera_cfg_res_send send_answer
  camera_cfg_res_send-sends r w w1 w2 e f = ground arith

  apply_cfg-answers :
      (cam : Camera) (size : ℕ) (fps : ℤ) (bytes : List ℕ) (w w' : Q.World)
      → read_cfg bytes ≡ some (size, fps)
      → camera_cfg_res_send Q w ≡ some (tt, w')
      → apply_cfg Q cam (type_camera_cfg, bytes) w
        ≡ some (set_size size (record cam { fps = fps }), w')
  unfolding apply_cfg
  apply_cfg-answers cam size fps bytes w w' e f = rw (e, ◌>>=◌, f)

  camera_cfg_recv_takes :
      (cam : Camera) (q : ℕ) (m : ℕ × List ℕ) (w w1 w2 : Q.World)
      → Q.msgget camera_cfg_mq w ≡ some (some q, w1)
      → Q.msgrcv q message_size w1 ≡ some (some m, w2)
      → camera_cfg_recv Q cam w ≡ apply_cfg Q cam m w2
  unfolding camera_cfg_recv
  camera_cfg_recv_takes cam q m w w1 w2 e f = rw (◌>>=◌, e, f)

  -- A message that asks for a size, a format and a frame rate, any `int`, is answered and sets the
  -- camera: the frame rate to that number, and the width and the height to those of VGA, HD or CIF
  -- for the sizes 1 to 3, and not at all for another.
  pub camera_cfg_recv-applies :
      (cam : Camera) (size format : ℕ) (fps : ℤ) (q r : ℕ) (w w1 w2 w3 w4 : Q.World)
      → IsInt fps
      → Q.msgget camera_cfg_mq w ≡ some (some q, w1)
      → Q.msgrcv q message_size w1 ≡ some (some (type_camera_cfg, cfg_message size format fps), w2)
      → Q.msgget camera_cfg_res_mq w2 ≡ some (some r, w3)
      → Q.msgsnd r type_camera_cfg_res (1 ∷ Q.rest) w3 ≡ some (true, w4)
      → (cam' : Camera) × (camera_cfg_recv Q cam w ≡ some (cam', w4))
        × (cam'.fps ≡ fps)
        × ((cam'.width, cam'.height) ≡ frame_size size cam)
  camera_cfg_recv-applies cam size format fps q r w w1 w2 w3 w4 h e1 e2 e3 e4 =
      let cfg = read_cfg-cfg_message size format fps h in
      let answer = camera_cfg_res_send-sends r w2 w3 w4 e3 e4 in
      let cam' : Camera = record cam { fps = fps } in
      let taken = apply_cfg-answers cam size fps (cfg_message size format fps) w2 w4 cfg answer in
      let (kept, sized) = set_size-frame_size size cam' in
      (set_size size cam', camera_cfg_recv_takes cam q _ w w1 w2 e1 e2 ∙ taken, kept, sized)
