-- ===== src/Server/State.antt =====
-- What the server's code keeps and what it uses: the globals, the network, the database, the files,
-- and the bytes of memory that it reads past a buffer.
use logger_verifier.Base.Decimal.{ℤ}
use logger_verifier.Base.Run.{Run, ◌>>◌}
use logger_verifier.Database.Mysql.{Mysql}
use logger_verifier.Wire.Network.{Network}
use logger_verifier.Wire.Packet.{HeaderPacket, make_packet, header_bytes}
use logger_verifier.Wire.Transfer.{IoPort, Moved, recv_binary, send_binary}
use logger_verifier.Base.{
  ℕ, Bool, true, false, Option, none, some, List, [], ◌∷◌, ◌++◌, length, c_string,
}

-- The configuration of Sys_cfg.json, and the code that is not of the repository.
-- `after` is what memory holds behind the bytes of a received buffer, up to the first NUL: the
-- handlers read such a buffer as a C string, and nothing ends it. `usable n` is how many bytes the
-- allocator gives for `n`. `generate_share_strings` is that of the library c-sss, `aes_key` what
-- `initAES` derives from the password, `rand n` the n-th number of `rand`.
pub record Environment : Type 0 where
  pub storage_dir : List ℕ
  pub password : List ℕ
  pub num_of_share : ℤ
  pub key_threshold : ℤ
  pub cmd_hdr_size : ℕ
  pub after : List ℕ
  pub usable : ℕ → ℕ
  pub can_create : List ℕ → Bool
  pub generate_share_strings : List ℕ → ℤ → ℤ → List ℕ
  pub aes_key : List ℕ → List ℕ
  pub rand : ℕ → ℕ

-- `ASYNC_BUFSIZE` of the server, which is the entry "ASYNC BUFSIZE" of the configuration: the number
-- that Sys_cfg.json gives.
abbrev pub sys_async_bufsize : ℕ
sys_async_bufsize = 4096

-- `files` lists the names and contents written, in their order; `draws` counts the calls of `rand`.
pub record ServerState (N : Network) (D : Mysql) : Type 0 where
  pub net : N.World
  pub db : D.World
  pub res_packet : HeaderPacket
  pub test_shares : List (List ℕ)
  pub files : List (List ℕ × List ℕ)
  pub draws : ℕ

module _ (N : Network) (D : Mysql) (E : Environment) where
  abbrev pub State : Type 0
  State = ServerState N D

  unfoldable pub moved : State → Option (Moved N.World) → Option (Moved N.World × State)
  moved st none = none
  moved st (some m) = some (m, record st { net = m.world })

  -- `recv_binary` with its result.
  unfoldable pub receive : IoPort → ℕ → Run State (Moved N.World)
  unfolding moved
  receive p size st = moved st (recv_binary N p size st.net)

  -- `send_binary`, whose result the handlers only report.
  unfoldable pub transmit : IoPort → List ℕ → Run State (Unit {0})
  unfolding moved
  transmit p bs st = elim (moved st (send_binary N sys_async_bufsize (some p) bs st.net)) [
    | none ↦ none
    | some (m, st') ↦ some (tt, st')
  ]

  unfoldable pub on_database : {A : Type 0} → Run D.World A → Run State A
  on_database m st = elim (m st.db) [ none ↦ none | some (a, d) ↦ some (a, record st { db = d }) ]

  -- `make_res_Packet`: `ThisID` is the server's.
  unfoldable pub make_res_packet : ℕ → ℕ → ℕ → ℕ → Run State (Unit {0})
  unfolding make_packet
  make_res_packet dest cmd type size st =
      some (tt, record st { res_packet = make_packet dest cmd type size })

  unfoldable pub send_res_packet : IoPort → Run State (Unit {0})
  unfolding transmit header_bytes
  send_res_packet p st = transmit p (header_bytes st.res_packet) st

  -- The header and the bytes of an answer.
  unfoldable pub respond : IoPort → ℕ → ℕ → ℕ → List ℕ → Run State (Unit {0})
  unfolding make_res_packet send_res_packet transmit
  respond p dest cmd type bytes = do
    make_res_packet dest cmd type (length bytes)
    send_res_packet p
    transmit p bytes

  -- `fwrite` to a file opened as `name`. A file that cannot be created is a NULL stream.
  unfoldable pub write_file : List ℕ → List ℕ → Run State (Unit {0})
  write_file name bytes st = elim (E.can_create name) [
    | true ↦ some (tt, record st { files = st.files ++ (name, bytes) ∷ [] })
    | false ↦ none
  ]

  -- `(char*)recv_buf` as a C string, once `bytes` have been stored in it.
  abbrev pub buffer_text : List ℕ → List ℕ
  buffer_text bytes = c_string (bytes ++ E.after)
