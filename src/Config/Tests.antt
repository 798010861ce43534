-- ===== src/Config/Tests.antt =====
-- The configurations of a file whose values are all numbers, or texts where a text is asked for.
use mathlib.Core.Option.{bind}
use logger_verifier.Base.Decimal.{pos}
use logger_verifier.Config.{
  Jsoncpp, dangling, kept, null, ServerCfg, ClientCfg, DbCfg, lookup, int_at, string_at, copied,
  read_server_cfg, read_client_cfg, read_db_cfg,
}
use logger_verifier.Config.Agree.{configurations_agree}
use logger_verifier.Config.Connection.{
  Surroundings, created, BoutDatabase, init_database, mkdir_func, mysql_connection_setup,
  make_directory, stores_pictures, bout_database,
}
use logger_verifier.Base.{ℕ, ◌≡◌, refl, true, false, none, some, List, [], length, codes, c_string}

-- A value is its name; as a number it is the length of that, as a text itself.
abbrev names : Jsoncpp
names = record {
  Value = List ℕ;
  member = λ name v. some name;
  as_int = λ v. some (pos (length v));
  as_string = λ v. some v;
}

abbrev server_before : ServerCfg
server_before = record {
  server_port = pos 0;
  storage_dir = null;
  s_storage_dir = [];
  hash_size = pos 0;
  signed_hash_size = pos 0;
  cid_size = pos 0;
  cmd_hdr_size = pos 0;
  async_bufsize = pos 0;
  max_user_cnt = pos 0;
  pubkeyfile_path = null;
  prikeyfile_path = null;
  password = [];
  num_of_share = pos 0;
  key_threshold = pos 0;
  salt = null;
}

abbrev server_after : ServerCfg
server_after = record {
  server_port = pos 11;
  storage_dir = dangling;
  s_storage_dir = codes "storage dir";
  hash_size = pos 9;
  signed_hash_size = pos 16;
  cid_size = pos 8;
  cmd_hdr_size = pos 19;
  async_bufsize = pos 13;
  max_user_cnt = pos 14;
  pubkeyfile_path = dangling;
  prikeyfile_path = dangling;
  password = codes "Password";
  num_of_share = pos 15;
  key_threshold = pos 17;
  salt = dangling;
}

abbrev client_before : ClientCfg
client_before = record {
  server_port = pos 0;
  server_ip_addr = null;
  storage_dir = null;
  hash_size = pos 0;
  signed_hash_size = pos 0;
  cid_size = pos 0;
  cmd_hdr_size = pos 0;
  async_bufsize = pos 0;
  max_user_cnt = pos 0;
  command = pos 0;
}

abbrev client_after : ClientCfg
client_after = record {
  server_port = pos 11;
  server_ip_addr = kept (codes "Server IP addr");
  storage_dir = kept (codes "storage dir");
  hash_size = pos 9;
  signed_hash_size = pos 16;
  cid_size = pos 8;
  cmd_hdr_size = pos 19;
  async_bufsize = pos 13;
  max_user_cnt = pos 14;
  command = pos 16;
}

server_reads : read_server_cfg names (some []) server_before ≡ some (tt, server_after)
unfolding read_server_cfg int_at string_at lookup bind
server_reads = refl

client_reads : read_client_cfg names (some []) client_before ≡ some (tt, client_after)
unfolding read_client_cfg int_at string_at lookup bind copied c_string
client_reads = refl

configurations_agree_example :
    (server_after.cmd_hdr_size ≡ client_after.cmd_hdr_size)
    × (server_after.async_bufsize ≡ client_after.async_bufsize)
    × (server_after.max_user_cnt ≡ client_after.max_user_cnt)
    × (client_after.storage_dir ≡ kept (c_string server_after.s_storage_dir))
    × (server_after.storage_dir ≡ dangling)
configurations_agree_example =
    configurations_agree names [] server_before server_after client_before client_after server_reads
      client_reads

abbrev open_house : Surroundings
open_house = record { mkdir = λ dir. created; real_connect = λ ip user password database. true }

abbrev db_before : DbCfg
db_before = record {
  db_ip = null;
  db_user = null;
  db_password = null;
  db_database = null;
  image_dir = codes "/images";
  cmd_hdr_size_d = pos 0;
  hash_size_d = pos 0;
  signed_hash_size_d = pos 0;
  cid_size_d = pos 0;
}

abbrev database : BoutDatabase
database = record {
  unverified_table = codes "Video_data_table";
  verified_table = codes "verified_frame";
  prover_switch = false;
  mysql_id = record { server = null; user = null; password = null; database = null };
}

-- Without a file that can be read, an earlier directory and no name at all are used.
no_file : bout_database names open_house stores_pictures none db_before ≡ some (database, db_before)
unfolding bout_database read_db_cfg init_database mkdir_func mysql_connection_setup make_directory
    c_string
no_file = refl
