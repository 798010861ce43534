-- ===== src/KeyShare/Served.antt =====
-- The client's calls of helloworld/ answered by the service: the stub over `GreeterServiceImpl`.
use logger_verifier.Base.Run.{Run}
use logger_verifier.KeyShare.Client.{Stub}
use logger_verifier.KeyShare.Service.{
  Library, Greeter, say_hello, say_olleh, get_share, verify_key, get_threshhold,
  encrypt_fingerprint,
}
use logger_verifier.Base.{ℕ, ◌+◌, ◌≡◌, Option, none, some, arith}

-- What gRPC and the network make of a call: lost before the service runs it, or after, or
-- delivered.
pub data Fate : Type 0 where
  delivered request_lost reply_lost : Fate

-- The service, and the number of calls so far.
pub record Session : Type 0 where
  pub greeter : Greeter
  pub calls : ℕ

module _ (L : Library) (fate : ℕ → Fate) where
  unfoldable pub call : {A : Type 0} → Run Greeter A → Run Session (Option A)
  call handler w = elim (fate w.calls) [
    | request_lost ↦ some (none, record w { calls = w.calls + 1 })
    | delivered ↦ elim (handler w.greeter) [
      | none ↦ none
      | some (a, g) ↦ some (some a, record { greeter = g; calls = w.calls + 1 })
    ]
    | reply_lost ↦ elim (handler w.greeter) [
      | none ↦ none
      | some (a, g) ↦ some (none, record { greeter = g; calls = w.calls + 1 })
    ]
  ]

  abbrev pub served : Stub
  served = record {
    World = Session;
    say_hello = λ user. call (say_hello L user);
    say_olleh = λ user. call (say_olleh L user);
    get_share = λ user. call (get_share L user);
    verify_key = λ user. call (verify_key L user);
    get_threshhold = λ user. call (get_threshhold L user);
    encrypt_fingerprint = λ cipher salt. call (encrypt_fingerprint L cipher salt);
  }

  pub call-delivered :
      {A : Type 0} (handler : Run Greeter A) (w : Session) (a : A) (g : Greeter)
      → fate w.calls ≡ delivered
      → handler w.greeter ≡ some (a, g)
      → call handler w ≡ some (some a, record { greeter = g; calls = w.calls + 1 })
  unfolding call
  call-delivered handler w a g e h = ground arith
