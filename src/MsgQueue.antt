-- ===== src/MsgQueue.antt =====
-- msg_queue/msg_queue.cpp and msg_queue/msg_type.h: the messages between the logger and the Web UI,
-- over the message queues of the system, a parameter.
pub mod Settings
mod Tests
use logger_verifier.Base.Decimal.{ℤ, pos, negsuc}
use logger_verifier.Base.Run.{Run, pure, fault, ◌>>=◌}
use logger_verifier.Base.{
  ℕ, ◌+◌, ◌-◌, ◌*◌, ◌^◌, Bool, true, false, Option, none, some, List, ◌∷◌, ltb, ◌==◌, if◌then◌else◌,
}

-- `msgget` of a key, `msgrcv` without waiting, and `msgsnd`: -1 is `none`, and `false`. A message
-- is its type and its bytes. `rest` is what memory holds behind the one byte of an answer: the
-- struct is padded, and the padding is sent with it.
pub record Queues : Type 1 where
  pub World : Type 0
  pub msgget : ℕ → Run World (Option ℕ)
  pub msgrcv : ℕ → ℕ → Run World (Option (ℕ × List ℕ))
  pub msgsnd : ℕ → ℕ → List ℕ → Run World Bool
  pub rest : List ℕ

-- `WIDTH`, `HEIGHT` and `FPS`.
pub record Camera : Type 0 where
  pub width : ℕ
  pub height : ℕ
  pub fps : ℤ

abbrev pub type_camera_cfg : ℕ
type_camera_cfg = 1

abbrev pub type_camera_cfg_res : ℕ
type_camera_cfg_res = 2

abbrev pub type_image_hash_req : ℕ
type_image_hash_req = 3

abbrev pub type_image_hash_res : ℕ
type_image_hash_res = 4

abbrev pub camera_cfg_mq : ℕ
camera_cfg_mq = 1129

abbrev pub camera_cfg_res_mq : ℕ
camera_cfg_res_mq = 1130

abbrev pub image_hash_req_mq : ℕ
image_hash_req_mq = 1131

abbrev pub image_hash_res_mq : ℕ
image_hash_res_mq = 1132

-- Both structs with a `long` are 16 bytes, and the calls pass `sizeof - sizeof(long)`.
abbrev pub message_size : ℕ
message_size = 8

-- An `int` from its four bytes, the lowest first.
unfoldable pub int_value : ℕ → ℕ → ℕ → ℕ → ℤ
int_value a b c d =
    let n = a + b * 2 ^ 8 + c * 2 ^ 16 + d * 2 ^ 24 in
    if ltb n (2 ^ 31) then pos n else negsuc (2 ^ 32 - 1 - n)

-- The `switch (size)`.
unfoldable pub set_size : ℕ → Camera → Camera
set_size size cam =
    if size == 1
    then record cam { width = 640; height = 480 }
    else if size == 2
    then record cam { width = 1280; height = 720 }
    else if size == 3
    then record cam { width = 352; height = 288 }
    else cam

-- What `memcpy` takes from `data_buff`; bytes that were not received are indeterminate.
unfoldable pub read_cfg : List ℕ → Option (ℕ × ℤ)
read_cfg (size ∷ format ∷ a ∷ b ∷ c ∷ d ∷ more) = some (size, int_value a b c d)
read_cfg _ = none

module _ (Q : Queues) where
  -- The answer of one byte. A failure ends the program.
  unfoldable pub send_answer : ℕ → ℕ → ℕ → Run Q.World (Unit {0})
  send_answer key type byte = do
    id ← Q.msgget key
    elim id [
      | none ↦ fault
      | some q ↦ do ok ← Q.msgsnd q type (byte ∷ Q.rest); elim ok [ true ↦ pure tt | false ↦ fault ]
    ]

  unfoldable pub camera_cfg_res_send : Run Q.World (Unit {0})
  camera_cfg_res_send = send_answer camera_cfg_res_mq type_camera_cfg_res 1

  -- What follows `msgrcv`: for another type `size` is never set, and the `switch` reads it.
  unfoldable pub apply_cfg : Camera → ℕ × List ℕ → Run Q.World Camera
  apply_cfg cam m =
      if m.0 == type_camera_cfg
      then elim (read_cfg m.1) [
        | none ↦ fault
        | some (size, fps) ↦ do
          _ ← camera_cfg_res_send
          pure (set_size size (record cam { fps = fps }))
      ]
      else fault

  unfoldable pub camera_cfg_recv : Camera → Run Q.World Camera
  camera_cfg_recv cam = do
    id ← Q.msgget camera_cfg_mq
    elim id [
      | none ↦ fault
      | some q ↦ do
        m ← Q.msgrcv q message_size
        elim m [ none ↦ pure cam | some msg ↦ apply_cfg cam msg ]
    ]

  -- A message of another type leaves the function without a result.
  unfoldable pub image_hash_request : Run Q.World ℤ
  image_hash_request = do
    id ← Q.msgget image_hash_req_mq
    elim id [
      | none ↦ fault
      | some q ↦ do
        m ← Q.msgrcv q message_size
        elim m [
          | none ↦ pure (pos 0)
          | some msg ↦ if msg.0 == type_image_hash_req then pure (pos 1) else fault
        ]
    ]

  -- The source's function returns nothing, though its type is `int`; its result is left out here.
  unfoldable pub image_hash_response : Run Q.World (Unit {0})
  image_hash_response = send_answer image_hash_res_mq type_image_hash_res 2
