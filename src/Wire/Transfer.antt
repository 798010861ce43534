-- ===== src/Wire/Transfer.antt =====
-- The transfer loops. A buffer is the list of the bytes that were stored in it or are sent from it.
use logger_verifier.Wire.Network.{
  Network, Selected, select_failed, timed_out, ready, Received, recv_failed, received, Sent,
  send_failed, sent,
}
use logger_verifier.Base.{
  ℕ, zero, suc, ◌-◌, ◌%◌, ◌^◌, min, Bool, true, false, Option, none, some, List, [], ◌∷◌, ◌++◌, ltb,
  ◌==◌, if◌then◌else◌, length, take, drop,
}

-- `IO_PORT`, without the peer's address, which no function of the program reads back.
pub record IoPort : Type 0 where
  pub port_type : ℕ
  pub s : ℕ
  pub timeout : ℕ

-- `ASYNC_BUFSIZE` of Client/client.h.
abbrev pub async_bufsize : ℕ
async_bufsize = 4096

-- What `__recv` returns: -1, -9, or what `recv` returns.
pub data RecvResult : Type 0 where
  recv_error recv_timeout : RecvResult
  stored : List ℕ → RecvResult

-- The result of a loop: the returned `int`, the bytes moved and the world after it.
pub record Moved (W : Type 0) : Type 0 where
  pub complete : Bool
  pub bytes : List ℕ
  pub world : W

-- `remainbytes = size` stores a `long` in an `int`: from 2^31 on the result is negative, and the
-- loop's test `remainbytes > 0` fails at once, as it does at 0.
abbrev pub int_bytes : ℕ → ℕ
int_bytes size = let n = size % 2 ^ 32 in if ltb n (2 ^ 31) then n else 0

-- `recvbytes <= 0` is `none`.
unfoldable pub positive : RecvResult → Option (List ℕ)
positive recv_error = none
positive recv_timeout = none
positive (stored []) = none
positive (stored (b ∷ bs)) = some (b ∷ bs)

-- `res <= 0` is `none`.
unfoldable pub positive_sent : Sent → Option ℕ
positive_sent send_failed = none
positive_sent (sent zero) = none
positive_sent (sent (suc n)) = some (suc n)

module _ (N : Network) where
  open N use {World, select_read, select_write, recv, send}

  unfoldable pub recv_result : Received × World → RecvResult × World
  recv_result (recv_failed, w) = (recv_error, w)
  recv_result (received bs, w) = (stored bs, w)

  unfoldable pub after_select : ℕ → ℕ → Selected × World → RecvResult × World
  unfolding recv_result
  after_select s len (select_failed, w) = (recv_error, w)
  after_select s len (timed_out, w) = (recv_timeout, w)
  after_select s len (ready, w) = recv_result (recv s len w)

  -- `__recv`, alike on both sides.
  unfoldable pub recv_once : IoPort → ℕ → World → RecvResult × World
  unfolding after_select recv_result
  recv_once p len w =
      if ltb 0 p.timeout
      then after_select p.s len (select_read p.s p.timeout w)
      else recv_result (recv p.s len w)

  -- One round of `recv_binary`: it stops unless the result is positive.
  unfoldable pub recv_round : IoPort → ℕ → World → Option (List ℕ) × World
  unfolding recv_once positive
  recv_round p len w = let (r, w') = recv_once p len w in (positive r, w')

  -- The loop of `recv_binary`; `ask` gives the length that a round asks for. `none`: out of fuel.
  unfoldable pub recv_loop : (ℕ → ℕ) → IoPort → ℕ → ℕ → List ℕ → World → Option (Moved World)
  recv_loop ask p zero remain got w = none
  recv_loop ask p (suc f) zero got w = some (record { complete = true; bytes = got; world = w })
  recv_loop ask p (suc f) (suc r) got w =
      let (o, w') = recv_round p (ask (suc r)) w in
      elim o [
        | none ↦ some (record { complete = false; bytes = got; world = w' })
        | some bs ↦ recv_loop ask p f (suc r - length bs) (got ++ bs) w'
      ]

  -- `recv_binary` of Server/server.cpp asks for all that is missing.
  unfoldable pub recv_binary : IoPort → ℕ → World → Option (Moved World)
  unfolding recv_loop
  recv_binary p size w = recv_loop (λ n. n) p (suc (int_bytes size)) (int_bytes size) [] w

  -- `recv_binary` of Client/client.cpp asks for `ASYNC_BUFSIZE` bytes at most.
  unfoldable pub client_recv_binary : IoPort → ℕ → World → Option (Moved World)
  unfolding recv_loop
  client_recv_binary p size w =
      recv_loop (min async_bufsize) p (suc (int_bytes size)) (int_bytes size) [] w

  -- The `do … while (++i < 4)` of `__send`: it ends at the first `select` that finds room.
  unfoldable pub await_room : ℕ → IoPort → World → Selected × World
  await_room zero p w = (timed_out, w)
  await_room (suc zero) p w = select_write p.s 5 w
  await_room (suc (suc i)) p w =
      let (r, w') = select_write p.s 5 w in
      elim r [ ready ↦ (ready, w') | _ ↦ await_room (suc i) p w' ]

  unfoldable pub send_if_ready : IoPort → List ℕ → Selected → World → Option ℕ × World
  unfolding positive_sent
  send_if_ready p bs ready w = let (r, w') = send p.s bs w in (positive_sent r, w')
  send_if_ready p bs _ w = (none, w)

  -- `__send` on a port that is not NULL. Every result that is not positive is `none`.
  unfoldable pub send_once : IoPort → List ℕ → World → Option ℕ × World
  unfolding await_room send_if_ready positive_sent
  send_once p bs w = let (r, w') = await_room 4 p w in send_if_ready p bs r w'

  -- The `do … while (nSize > 0)` of `send_binary`, with `ASYNC_BUFSIZE` at `bufsize`; `done` has been
  -- sent, `todo` has not.
  unfoldable pub send_loop : ℕ → IoPort → ℕ → List ℕ → List ℕ → World → Option (Moved World)
  send_loop bufsize p zero done todo w = none
  send_loop bufsize p (suc f) done todo w =
      let (o, w') = send_once p (take bufsize todo) w in
      elim o [
        | none ↦ some (record { complete = false; bytes = done; world = w' })
        | some n ↦
            let rest = send_loop bufsize p f (done ++ take n todo) (drop n todo) w' in
            if length todo - n == 0
            then some (record { complete = true; bytes = done ++ take n todo; world = w' })
            else rest
      ]

  -- `send_binary`: FALSE for the NULL port; a buffer of `nSize` bytes is its list.
  unfoldable pub send_binary : ℕ → Option IoPort → List ℕ → World → Option (Moved World)
  unfolding send_loop
  send_binary bufsize none bs w = some (record { complete = false; bytes = []; world = w })
  send_binary bufsize (some p) bs w = send_loop bufsize p (suc (length bs)) [] bs w
