-- ===== src/Config/Connection.antt =====
-- The constructor of DB/bout_database.cpp: `mkdir_func`, `initDatabase` and
-- `mysql_connection_setup`. `none` is the end of the program.
use logger_verifier.Base.Run.{Run, pure, fault, ◌>>◌}
use logger_verifier.Config.{Jsoncpp, TextPointer, DbCfg, read_db_cfg}
use logger_verifier.Base.{
  ℕ, ◌≡◌, ◌≢◌, Bool, true, false, Option, none, some, List, [], arith, ◌==◌, if◌then◌else◌, codes,
  c_string,
}

-- What `mkdir` answers: 0, -1 with EEXIST, or -1 with another error.
pub data MkdirResult : Type 0 where
  created exists refused : MkdirResult

-- The file system, and `mysql_real_connect` with the address, the user, the password and the
-- database.
pub record Surroundings : Type 0 where
  pub mkdir : List ℕ → MkdirResult
  pub real_connect : TextPointer → TextPointer → TextPointer → TextPointer → Bool

-- `struct db_user`
pub record DbUser : Type 0 where
  pub server : TextPointer
  pub user : TextPointer
  pub password : TextPointer
  pub database : TextPointer

-- What the constructor leaves, its connection being open.
pub record BoutDatabase : Type 0 where
  pub unverified_table : List ℕ
  pub verified_table : List ℕ
  pub prover_switch : Bool
  pub mysql_id : DbUser

-- The type of a program that stores pictures.
abbrev pub stores_pictures : ℕ
stores_pictures = 0x12

unfoldable pub init_database : DbCfg → DbUser
init_database c = record {
  server = c.db_ip;
  user = c.db_user;
  password = c.db_password;
  database = c.db_database;
}

module _ (J : Jsoncpp) (S : Surroundings) where
  -- A directory that is there already is as good as one that was made.
  unfoldable pub mkdir_func : List ℕ → Run DbCfg (Unit {0})
  mkdir_func dir = elim (S.mkdir (c_string dir)) [
    | created ↦ pure tt
    | exists ↦ pure tt
    | refused ↦ fault
  ]

  unfoldable pub mysql_connection_setup : DbUser → Run DbCfg (Unit {0})
  mysql_connection_setup u =
      if S.real_connect u.server u.user u.password u.database then pure tt else fault

  unfoldable pub make_directory : ℕ → Run DbCfg (Unit {0})
  unfolding mkdir_func
  make_directory type_id c =
      if type_id == stores_pictures then mkdir_func c.image_dir c else some (tt, c)

  unfoldable pub bout_database : ℕ → Option J.Value → Run DbCfg BoutDatabase
  unfolding make_directory mysql_connection_setup
  bout_database type_id file = do
    read_db_cfg J file
    make_directory type_id
    λ c.
        (mysql_connection_setup (init_database c)
            >> pure (record {
              unverified_table = codes "Video_data_table";
              verified_table = codes "verified_frame";
              prover_switch = false;
              mysql_id = init_database c;
            }))
          c

  -- The constructor that returns has read the configuration that it then holds, has its directory
  -- where the program stores pictures, and its connection is one to the server that the file names,
  -- under the name, the password and the database of the file.
  pub bout_database-connects :
      (file : Option J.Value) (c c' : DbCfg) (db : BoutDatabase)
      → bout_database stores_pictures file c ≡ some (db, c')
      → (read_db_cfg J file c ≡ some (tt, c'))
        × (S.mkdir (c_string c'.image_dir) ≢ refused)
        × (S.real_connect c'.db_ip c'.db_user c'.db_password c'.db_database ≡ true)
        × (db.mysql_id ≡ init_database c')
  unfolding bout_database init_database
  bout_database-connects file c c' db e = ground arith

  -- Where the file cannot be read before any was, the directory has no name, and the constructor
  -- ends the program, since `mkdir` refuses such a name.
  pub bout_database-no_file :
      (c : DbCfg)
      → c.image_dir ≡ []
      → S.mkdir [] ≡ refused
      → bout_database stores_pictures none c ≡ none
  unfolding bout_database read_db_cfg c_string
  bout_database-no_file c e f =
      let no_name : S.mkdir (c_string c.image_dir) ≡ refused = rw e f in ground arith
