-- ===== src/Config/Agree.antt =====
-- What the programs that read one Sys_cfg.json have in common.
use mathlib.Core.Option.{bind}
use logger_verifier.Base.Decimal.{ℤ}
use logger_verifier.Config.{
  Jsoncpp, dangling, kept, ServerCfg, ClientCfg, lookup, int_at, string_at, copied, read_server_cfg,
  read_client_cfg,
}
use logger_verifier.Base.{ℕ, ◌≡◌, Option, some, List, arith, codes, c_string}

module _ (J : Jsoncpp) where
  int_of : List ℕ → List ℕ → J.Value → Option ℤ
  int_of part name v = bind (lookup J part name v) J.as_int

  server_header :
      (v : J.Value) (c c' : ServerCfg)
      → read_server_cfg J (some v) c ≡ some (tt, c')
      → (int_of (codes "HeaderPacket") (codes "Command Header size") v ≡ some c'.cmd_hdr_size)
        × (int_of (codes "HeaderPacket") (codes "ASYNC BUFSIZE") v ≡ some c'.async_bufsize)
        × (int_of (codes "HeaderPacket") (codes "Max User Count") v ≡ some c'.max_user_cnt)
  unfolding read_server_cfg int_at string_at int_of
  server_header v c c' e = ground arith

  client_header :
      (v : J.Value) (c c' : ClientCfg)
      → read_client_cfg J (some v) c ≡ some (tt, c')
      → (int_of (codes "HeaderPacket") (codes "Command Header size") v ≡ some c'.cmd_hdr_size)
        × (int_of (codes "HeaderPacket") (codes "ASYNC BUFSIZE") v ≡ some c'.async_bufsize)
        × (int_of (codes "HeaderPacket") (codes "Max User Count") v ≡ some c'.max_user_cnt)
  unfolding read_client_cfg int_at string_at int_of
  client_header v c c' e = ground arith

  server_dir :
      (v : J.Value) (c c' : ServerCfg)
      → read_server_cfg J (some v) c ≡ some (tt, c')
      → bind (lookup J (codes "Server") (codes "storage dir") v) J.as_string ≡ some c'.s_storage_dir
  unfolding read_server_cfg int_at string_at
  server_dir v c c' e = ground arith

  client_dir :
      (v : J.Value) (c c' : ClientCfg) (dir : List ℕ)
      → bind (lookup J (codes "Server") (codes "storage dir") v) J.as_string ≡ some dir
      → read_client_cfg J (some v) c ≡ some (tt, c')
      → c'.storage_dir ≡ kept (c_string dir)
  unfolding read_client_cfg int_at string_at copied
  client_dir v c c' dir e f = ground arith

  storage_dir_dangles :
      (v : J.Value) (c c' : ServerCfg)
      → read_server_cfg J (some v) c ≡ some (tt, c')
      → c'.storage_dir ≡ dangling
  unfolding read_server_cfg int_at string_at
  storage_dir_dangles v c c' e = ground arith

  -- A client and a server that have both read the same file agree on the size of a header, on the
  -- size of a transfer and on the number of users, and the client's directory is the text that the
  -- server has in `sStorage_dir`; the server's own pointer `storage_dir` leads nowhere.
  pub configurations_agree :
      (v : J.Value) (s s' : ServerCfg) (c c' : ClientCfg)
      → read_server_cfg J (some v) s ≡ some (tt, s')
      → read_client_cfg J (some v) c ≡ some (tt, c')
      → (s'.cmd_hdr_size ≡ c'.cmd_hdr_size)
        × (s'.async_bufsize ≡ c'.async_bufsize)
        × (s'.max_user_cnt ≡ c'.max_user_cnt)
        × (c'.storage_dir ≡ kept (c_string s'.s_storage_dir))
        × (s'.storage_dir ≡ dangling)
  configurations_agree v s s' c c' e f =
      let one = server_header v s s' e in
      let other = client_header v c c' f in
      let dir = client_dir v c c' s'.s_storage_dir (server_dir v s s' e) f in
      (ground arith, ground arith, ground arith, dir, storage_dir_dangles v s s' e)
