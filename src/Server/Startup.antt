-- ===== src/Server/Startup.antt =====
-- `initServer` and `termServer` of Server/server.cpp, and the context that `g_pNetwork` points to.
use logger_verifier.Base.Decimal.{ℤ, pos, negsuc}
use logger_verifier.Base.{
  ℕ, zero, suc, ◌+◌, ◌≡◌, refl, ◌≢◌, Bool, true, false, not, ◌&&◌, Option, none, some, arith, ◌==◌,
  if◌then◌else◌,
}

-- `networkLoop` and `recvLoop`, which `initServer` leaves unset, and `m_socket`: `none` stands for
-- INVALID_SOCKET.
pub record NetworkContext : Type 0 where
  pub network_loop : Bool
  pub recv_loop : Option Bool
  pub m_socket : Option ℕ

pub data Pointer : Type 0 where
  null freed : Pointer
  live : NetworkContext → Pointer

-- What `malloc`, `create_socket`, `bind_socket` and `pthread_create` answer.
pub record Answers : Type 0 where
  pub memory : Bool
  pub socket : ℕ
  pub bound : Bool
  pub thread_error : ℤ

-- `res < 0`
unfoldable pub is_negative : ℤ → Bool
is_negative (pos n) = false
is_negative (negsuc n) = true

-- The result, and `g_pNetwork`. The pointer stays where the context is freed.
unfoldable pub init_server : Answers → ℤ × Pointer
init_server a =
    let context : NetworkContext = record {
      network_loop = true;
      recv_loop = none;
      m_socket = some a.socket;
    } in
    if not a.memory
    then (negsuc 2, null)
    else if not a.bound
    then (negsuc 1, live (record context { m_socket = none }))
    else if is_negative a.thread_error
    then (negsuc 0, freed)
    else (pos 1, live context)

-- The loop of `termServer`: `joins n` is what the two `pthread_join` of the n-th round answer, the
-- second where the first was 0. `none`: out of fuel.
unfoldable pub term_loop : ℕ → ℕ → (ℕ → ℕ × ℕ) → NetworkContext → Option NetworkContext
term_loop zero n joins c = none
term_loop (suc f) n joins c =
    let rest = term_loop f (n + 1) joins c in
    if (joins n).0 == 0 && (joins n).1 == 0
    then some (record c { network_loop = false; recv_loop = some false })
    else rest

-- `termServer`, which frees the context and leaves the pointer. `none`: out of fuel, or the pointer
-- leads to freed memory.
unfoldable pub term_server : ℕ → (ℕ → ℕ × ℕ) → Pointer → Option Pointer
term_server fuel joins null = some null
term_server fuel joins freed = none
term_server fuel joins (live c) = elim (term_loop fuel 0 joins c) [
  | none ↦ none
  | some c' ↦ some freed
]

-- `pthread_create` answers 0 or the number of an error, and never a negative number: then
-- `initServer` gives 1 wherever the socket could be bound, even if there is no thread that listens.
pub init_server-created :
    (a : Answers) (e : ℕ)
    → a.memory ≡ true
    → a.bound ≡ true
    → a.thread_error ≡ pos e
    → ((init_server a).0 ≡ pos 1)
unfolding init_server is_negative
init_server-created a e m b t = ground arith

term_loop_goes_on :
    (fuel n : ℕ) (joins : ℕ → ℕ × ℕ) (c : NetworkContext)
    → ((n : ℕ) → (joins n).0 ≢ 0)
    → term_loop fuel n joins c ≡ none
unfolding term_loop
term_loop_goes_on zero n joins c h = refl
term_loop_goes_on (suc f) n joins c h =
    let rest = term_loop_goes_on f (n + 1) joins c h in let failed = h n in ground arith

-- A join that fails each time, as that of a detached thread does, keeps `termServer` in its loop.
pub term_server_never_ends :
    (fuel : ℕ) (joins : ℕ → ℕ × ℕ) (c : NetworkContext)
    → ((n : ℕ) → (joins n).0 ≢ 0)
    → term_server fuel joins (live c) ≡ none
unfolding term_server
term_server_never_ends fuel joins c h =
    let stuck = term_loop_goes_on fuel 0 joins c h in ground arith
