-- ===== src/Config.antt =====
-- The configuration: `Read_server_cfg` of Server/util.cpp, `Read_client_cfg` of
-- Client/client_cfg.h, `Read_Logger_cfg` of Logger/logger_cfg.h, and `Read_DB_cfg` of
-- DB/Database_cfg.cpp with the constructor of DB/bout_database.cpp that uses it. All read
-- Sys_cfg.json, by jsoncpp, a parameter. `none` is an exception that nothing catches, or the end
-- of the program.
pub mod Agree
pub mod Connection
mod Tests
use mathlib.Core.Option.{bind}
use logger_verifier.Base.Decimal.{ℤ}
use logger_verifier.Base.Run.{Run, pure, need, ◌>>=◌, ◌>>◌}
use logger_verifier.Base.{ℕ, Option, none, some, List, codes, c_string}

-- `member` is `value[name]`, `as_int` and `as_string` are the methods; each may throw.
pub record Jsoncpp : Type 1 where
  pub Value : Type 0
  pub member : List ℕ → Value → Option Value
  pub as_int : Value → Option ℤ
  pub as_string : Value → Option (List ℕ)

-- A `char *`: one that was never set, one to the buffer of a string that is gone, and one to a C
-- string that stays.
pub data TextPointer : Type 0 where
  null dangling : TextPointer
  kept : List ℕ → TextPointer

-- The globals of Server/util.cpp.
pub record ServerCfg : Type 0 where
  pub server_port : ℤ
  pub storage_dir : TextPointer
  pub s_storage_dir : List ℕ
  pub hash_size : ℤ
  pub signed_hash_size : ℤ
  pub cid_size : ℤ
  pub cmd_hdr_size : ℤ
  pub async_bufsize : ℤ
  pub max_user_cnt : ℤ
  pub pubkeyfile_path : TextPointer
  pub prikeyfile_path : TextPointer
  pub password : List ℕ
  pub num_of_share : ℤ
  pub key_threshold : ℤ
  pub salt : TextPointer

-- Those of Client/client_cfg.h.
pub record ClientCfg : Type 0 where
  pub server_port : ℤ
  pub server_ip_addr : TextPointer
  pub storage_dir : TextPointer
  pub hash_size : ℤ
  pub signed_hash_size : ℤ
  pub cid_size : ℤ
  pub cmd_hdr_size : ℤ
  pub async_bufsize : ℤ
  pub max_user_cnt : ℤ
  pub command : ℤ

-- Those of Logger/logger_cfg.h.
pub record LoggerCfg : Type 0 where
  pub width : ℤ
  pub height : ℤ
  pub fps : ℤ
  pub frame_count : ℤ
  pub signed_hash_bufsize : ℤ
  pub orifile_path : List ℕ
  pub yfile_path : TextPointer
  pub hashfile_path : TextPointer
  pub pubkeyfile_path : TextPointer

-- Those of DB/Database_cfg.cpp.
pub record DbCfg : Type 0 where
  pub db_ip : TextPointer
  pub db_user : TextPointer
  pub db_password : TextPointer
  pub db_database : TextPointer
  pub image_dir : List ℕ
  pub cmd_hdr_size_d : ℤ
  pub hash_size_d : ℤ
  pub signed_hash_size_d : ℤ
  pub cid_size_d : ℤ

modify : {W : Type 0} → (W → W) → Run W (Unit {0})
modify f w = some (tt, f w)

-- `new char[length + 1]` and `strcpy`: a copy as far as the first NUL.
unfoldable pub copied : List ℕ → TextPointer
copied s = kept (c_string s)

module _ (J : Jsoncpp) where
  -- `value[part][name]`
  unfoldable pub lookup : List ℕ → List ℕ → J.Value → Option J.Value
  lookup part name v = bind (J.member part v) (J.member name)

  unfoldable pub int_at : {W : Type 0} → List ℕ → List ℕ → J.Value → Run W ℤ
  int_at part name v = need (bind (lookup part name v) J.as_int)

  unfoldable pub string_at : {W : Type 0} → List ℕ → List ℕ → J.Value → Run W (List ℕ)
  string_at part name v = need (bind (lookup part name v) J.as_string)

  -- What `parseFromStream` gives of the file; `none` where it fails, and the globals stay.
  unfoldable pub read_server_cfg : Option J.Value → Run ServerCfg (Unit {0})
  unfolding modify
  read_server_cfg none = pure tt
  read_server_cfg (some v) = do
    port ← int_at (codes "Server") (codes "Server Port") v
    _ ← string_at (codes "Server") (codes "storage dir") v
    dir ← string_at (codes "Server") (codes "storage dir") v
    hash ← int_at (codes "Server") (codes "Hash size") v
    signed_hash ← int_at (codes "Server") (codes "Signed hash size") v
    cid ← int_at (codes "Server") (codes "CID size") v
    header ← int_at (codes "HeaderPacket") (codes "Command Header size") v
    bufsize ← int_at (codes "HeaderPacket") (codes "ASYNC BUFSIZE") v
    users ← int_at (codes "HeaderPacket") (codes "Max User Count") v
    _ ← string_at (codes "Server") (codes "public key path") v
    _ ← string_at (codes "Server") (codes "private key path") v
    password ← string_at (codes "Server") (codes "Password") v
    shares ← int_at (codes "Server") (codes "Number of Share") v
    threshold ← int_at (codes "Server") (codes "Gen Key Threshold") v
    _ ← string_at (codes "Server") (codes "Salt") v
    modify (λ c. record {
      server_port = port;
      storage_dir = dangling;
      s_storage_dir = dir;
      hash_size = hash;
      signed_hash_size = signed_hash;
      cid_size = cid;
      cmd_hdr_size = header;
      async_bufsize = bufsize;
      max_user_cnt = users;
      pubkeyfile_path = dangling;
      prikeyfile_path = dangling;
      password = password;
      num_of_share = shares;
      key_threshold = threshold;
      salt = dangling;
    })

  unfoldable pub read_client_cfg : Option J.Value → Run ClientCfg (Unit {0})
  unfolding modify copied
  read_client_cfg none = pure tt
  read_client_cfg (some v) = do
    port ← int_at (codes "Client") (codes "Server port") v
    raw_addr ← string_at (codes "Client") (codes "Server IP addr") v
    raw_dir ← string_at (codes "Server") (codes "storage dir") v
    hash ← int_at (codes "Default data size") (codes "Hash size") v
    signed_hash ← int_at (codes "Default data size") (codes "Signed hash size") v
    cid ← int_at (codes "Default data size") (codes "CID size") v
    header ← int_at (codes "HeaderPacket") (codes "Command Header size") v
    bufsize ← int_at (codes "HeaderPacket") (codes "ASYNC BUFSIZE") v
    users ← int_at (codes "HeaderPacket") (codes "Max User Count") v
    test ← need (bind (J.member (codes "command for test") v) J.as_int)
    modify (λ c. record {
      server_port = port;
      server_ip_addr = copied raw_addr;
      storage_dir = copied raw_dir;
      hash_size = hash;
      signed_hash_size = signed_hash;
      cid_size = cid;
      cmd_hdr_size = header;
      async_bufsize = bufsize;
      max_user_cnt = users;
      command = test;
    })

  -- The three paths are those of one local string, which is gone when the function returns.
  unfoldable pub read_logger_cfg : Option J.Value → Run LoggerCfg (Unit {0})
  unfolding modify
  read_logger_cfg none = pure tt
  read_logger_cfg (some v) = do
    w ← int_at (codes "Logger") (codes "width") v
    h ← int_at (codes "Logger") (codes "height") v
    f ← int_at (codes "Logger") (codes "fps") v
    count ← int_at (codes "Logger") (codes "frame count") v
    bufsize ← int_at (codes "Logger") (codes "signed hash bufsize") v
    ori ← string_at (codes "Logger") (codes "original file path") v
    _ ← string_at (codes "Logger") (codes "Y frame file path") v
    _ ← string_at (codes "Logger") (codes "hash file path") v
    _ ← string_at (codes "Logger") (codes "Public key file path") v
    modify (λ c. record {
      width = w;
      height = h;
      fps = f;
      frame_count = count;
      signed_hash_bufsize = bufsize;
      orifile_path = ori;
      yfile_path = dangling;
      hashfile_path = dangling;
      pubkeyfile_path = dangling;
    })

  unfoldable pub read_db_cfg : Option J.Value → Run DbCfg (Unit {0})
  unfolding modify copied
  read_db_cfg none = pure tt
  read_db_cfg (some v) = do
    ip ← string_at (codes "Database") (codes "DB IP") v
    user ← string_at (codes "Database") (codes "DB user") v
    password ← string_at (codes "Database") (codes "DB password") v
    database ← string_at (codes "Database") (codes "DB database") v
    dir ← string_at (codes "Database") (codes "storage dir") v
    header ← int_at (codes "HeaderPacket") (codes "Command Header size") v
    hash ← int_at (codes "Default data size") (codes "Hash size") v
    signed_hash ← int_at (codes "Default data size") (codes "Signed hash size") v
    cid ← int_at (codes "Default data size") (codes "CID size") v
    modify (λ c. record {
      db_ip = copied ip;
      db_user = copied user;
      db_password = copied password;
      db_database = copied database;
      image_dir = dir;
      cmd_hdr_size_d = header;
      hash_size_d = hash;
      signed_hash_size_d = signed_hash;
      cid_size_d = cid;
    })
