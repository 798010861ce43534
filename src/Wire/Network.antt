-- ===== src/Wire/Network.antt =====
-- The socket calls of the operating system, as a parameter: `select`, `recv` and `send`, what they
-- may answer, and what their documentation promises of the bytes.
use logger_verifier.Base.{ℕ, ◌≤◌, ◌≡◌, List, ◌++◌, length, take}

-- `select`: -1, 0, or a positive count.
pub data Selected : Type 0 where
  select_failed timed_out ready : Selected

-- `recv`: -1, or the bytes that it stored. No byte means that the peer has closed.
pub data Received : Type 0 where
  recv_failed : Received
  received : List ℕ → Received

-- `send`: -1, or how many bytes it took.
pub data Sent : Type 0 where
  send_failed : Sent
  sent : ℕ → Sent

-- A socket is its descriptor; a wait is a number of seconds.
pub record Network : Type 1 where
  pub World : Type 0
  pub select_read : ℕ → ℕ → World → Selected × World
  pub select_write : ℕ → ℕ → World → Selected × World
  pub recv : ℕ → ℕ → World → Received × World
  pub send : ℕ → List ℕ → World → Sent × World

-- `inbound` is what the peer has sent and nobody has read, `outbound` all that was sent to it.
-- `recv` takes from the front of the one, `send` adds to the end of the other; a failed call and a
-- `select` leave both alone.
pub record IsStream (N : Network) : Type 0 where
  pub inbound : ℕ → N.World → List ℕ
  pub outbound : ℕ → N.World → List ℕ
  pub select_read-keeps :
      (s t : ℕ) (w : N.World)
      → (inbound s (N.select_read s t w).1 ≡ inbound s w)
        × (outbound s (N.select_read s t w).1 ≡ outbound s w)
  pub select_write-keeps :
      (s t : ℕ) (w : N.World)
      → (inbound s (N.select_write s t w).1 ≡ inbound s w)
        × (outbound s (N.select_write s t w).1 ≡ outbound s w)
  pub recv_failed-keeps :
      (s n : ℕ) (w w' : N.World)
      → N.recv s n w ≡ (recv_failed, w')
      → (inbound s w ≡ inbound s w') × (outbound s w' ≡ outbound s w)
  pub recv-takes :
      (s n : ℕ) (w w' : N.World) (bs : List ℕ)
      → N.recv s n w ≡ (received bs, w')
      → (inbound s w ≡ bs ++ inbound s w') × (outbound s w' ≡ outbound s w) × (length bs ≤ n)
  pub send_failed-keeps :
      (s : ℕ) (bs : List ℕ) (w w' : N.World)
      → N.send s bs w ≡ (send_failed, w')
      → (outbound s w' ≡ outbound s w) × (inbound s w' ≡ inbound s w)
  pub send-adds :
      (s n : ℕ) (bs : List ℕ) (w w' : N.World)
      → N.send s bs w ≡ (sent n, w')
      → (outbound s w' ≡ outbound s w ++ take n bs) × (inbound s w' ≡ inbound s w) × (n ≤ length bs)
