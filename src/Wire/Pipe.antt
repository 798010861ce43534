-- ===== src/Wire/Pipe.antt =====
-- A network that meets the assumptions of Wire/Network: one socket, always ready, which moves at
-- most `chunk` bytes in a call. The theorems are tried on it.
use logger_verifier.Wire.Network.{
  Network, IsStream, ready, Received, recv_failed, received, Sent, send_failed, sent,
}
use logger_verifier.Base.{
  ℕ, ◌≤◌, min, ◌≡◌, refl, List, ◌++◌, arith, length, take, drop, take-append-drop, length-take,
}

pub record PipeWorld : Type 0 where
  pub incoming : List ℕ
  pub outgoing : List ℕ
  pub chunk : ℕ

unfoldable pub pipe_recv : ℕ → PipeWorld → Received × PipeWorld
pipe_recv n w = (
  received (take (min n w.chunk) w.incoming),
  record w { incoming = drop (min n w.chunk) w.incoming },
)

unfoldable pub pipe_send : List ℕ → PipeWorld → Sent × PipeWorld
pipe_send bs w = (
  sent (min (length bs) w.chunk),
  record w { outgoing = w.outgoing ++ take (min (length bs) w.chunk) bs },
)

abbrev pub pipe : Network
pipe = record {
  World = PipeWorld;
  select_read = λ s t w. (ready, w);
  select_write = λ s t w. (ready, w);
  recv = λ s n w. pipe_recv n w;
  send = λ s bs w. pipe_send bs w;
}

pub pipe_recv_takes :
    (n : ℕ) (w w' : PipeWorld) (bs : List ℕ)
    → pipe_recv n w ≡ (received bs, w')
    → (w.incoming ≡ bs ++ w'.incoming) × (w'.outgoing ≡ w.outgoing) × (length bs ≤ n)
unfolding pipe_recv
pipe_recv_takes n w w' bs e =
    ground
      (arith, take-append-drop (min n w.chunk) w.incoming, length-take (min n w.chunk) w.incoming)

pub pipe_send_adds :
    (n : ℕ) (bs : List ℕ) (w w' : PipeWorld)
    → pipe_send bs w ≡ (sent n, w')
    → (w'.outgoing ≡ w.outgoing ++ take n bs) × (w'.incoming ≡ w.incoming) × (n ≤ length bs)
unfolding pipe_send
pipe_send_adds n bs w w' e = ground arith

pub pipe_recv-ne-failed :
    (n : ℕ) (w w' : PipeWorld)
    → pipe_recv n w ≡ (recv_failed, w')
    → (w.incoming ≡ w'.incoming) × (w'.outgoing ≡ w.outgoing)
unfolding pipe_recv
pipe_recv-ne-failed n w w' e = cc

pub pipe_send-ne-failed :
    (bs : List ℕ) (w w' : PipeWorld)
    → pipe_send bs w ≡ (send_failed, w')
    → (w'.outgoing ≡ w.outgoing) × (w'.incoming ≡ w.incoming)
unfolding pipe_send
pipe_send-ne-failed bs w w' e = cc

unfoldable pub pipe-IsStream : IsStream pipe
pipe-IsStream = record {
  inbound = λ s w. w.incoming;
  outbound = λ s w. w.outgoing;
  select_read-keeps = λ s t w. (refl, refl);
  select_write-keeps = λ s t w. (refl, refl);
  recv_failed-keeps = λ s n w w' e. pipe_recv-ne-failed n w w' e;
  recv-takes = λ s n w w' bs e. pipe_recv_takes n w w' bs e;
  send_failed-keeps = λ s bs w w' e. pipe_send-ne-failed bs w w' e;
  send-adds = λ s n bs w w' e. pipe_send_adds n bs w w' e;
}
