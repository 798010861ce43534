-- ===== src/Server/Sample.antt =====
-- A server's environment to try the theorems on.
use logger_verifier.Base.Decimal.{pos}
use logger_verifier.Server.State.{Environment}
use logger_verifier.Base.{ℕ, ◌+◌, ◌-◌, ◌*◌, ◌/◌, true, [], ◌∷◌, ◌++◌, codes}

-- glibc gives 8 bytes of every block of 16 to its own use.
abbrev pub block_bytes : ℕ → ℕ
block_bytes n = (n + 23) / 16 * 16 - 8

abbrev pub environment : Environment
environment = record {
  storage_dir = codes "/images";
  password = codes "secret";
  num_of_share = pos 5;
  key_threshold = pos 3;
  cmd_hdr_size = 8;
  after = [];
  usable = block_bytes;
  can_create = λ name. true;
  generate_share_strings = λ secret n t. codes "a" ++ 10 ∷ codes "b";
  aes_key = λ password. password;
  rand = λ n. n;
}
