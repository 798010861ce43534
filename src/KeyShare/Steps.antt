-- ===== src/KeyShare/Steps.antt =====
-- The steps of the client's `main` of helloworld/ against the service.
use logger_verifier.KeyShare.Answered.{IsShare, HasShares, delivered-Answers}
use logger_verifier.KeyShare.Client.{
  ask, message, SharesFile, c_hello_greeter, c_xor_greeter, c_get_threshhold, c_verify_key,
  send_fingerprint,
}
use logger_verifier.KeyShare.Collect.{c_get_threshhold-Collected}
use logger_verifier.KeyShare.Fingerprint.{send_fingerprint-echoes}
use logger_verifier.KeyShare.Hidden.{masked, until, say_olleh-until, c_xor_greeter-until}
use logger_verifier.KeyShare.Served.{Session, Fate, delivered, served, call-delivered}
use logger_verifier.KeyShare.Service.{
  Library, Greeter, num_threashhold, num_share, key_set, draw, generate_shares, say_hello,
  say_olleh, verify_key, get_threshhold,
}
use logger_verifier.KeyShare.Sets.{IsSorted}
use logger_verifier.KeyShare.Text.{write_share}
use logger_verifier.Base.{
  ℕ, ◌+◌, ◌≤◌, ◌≡◌, refl, ap, ◌⊎◌, inl, inr, Bool, true, false, Option, none, some, List, ◌++◌,
  arith, length, get_elem?, codes, All, bytes_eq_refl, c_string_self, get_elem?-some,
}
use logger_verifier.KeyShare.Assumptions.{
  IsSharing, CanEncrypt, plain, plain-NoNul, plain-IsByte, write_share-NoNul, key_set-plain,
  shares-NoNul,
}

module _ (L : Library) (fate : ℕ → Fate) (extract : List ℕ → List ℕ)
    (sharing : IsSharing L extract) where
  -- The state of a session after a greeting: a key is selected and its shares are written.
  abbrev pub IsGreeted : ℕ → List ℕ → Session → Type 0
  IsGreeted r key w =
      (get_elem? key_set r ≡ some key) × HasShares r key (sharing.shares key) w.greeter

  say_hello-HasShares :
      (user : List ℕ) (g : Greeter)
      → ((i b : ℕ) → L.uniform i b ≤ b)
      → (r : ℕ) × (key : List ℕ) × (g' : Greeter) × (say_hello L user g
          ≡ some (codes "Hello " ++ user, g'))
        × (get_elem? key_set r ≡ some key)
        × HasShares r key (sharing.shares key) g'
  unfolding say_hello generate_shares draw
  say_hello-HasShares user g range =
      let r = L.uniform g.draws 4 in
      let low = range g.draws 4 in
      let (key, e) = get_elem?-some key_set r (omega arith) in
      let written = sharing.writes r key e in
      (
        r,
        key,
        record {
          shares_string = some (L.generate_share_strings key num_share num_threashhold);
          selected_key_num = some r;
          selected_key = key;
          draws = g.draws + 1;
        },
        ground arith,
        e,
        record { written = ap some written; selected = refl; numbered = refl },
      )

  pub hello_step :
      (user : List ℕ) (w : Session)
      → ((i b : ℕ) → L.uniform i b ≤ b)
      → fate w.calls ≡ delivered
      → (r : ℕ) × (key : List ℕ) × (reply : List ℕ) × (w' : Session) × (c_hello_greeter
            (served L fate)
            user
            w
          ≡ some (reply, w'))
        × IsGreeted r key w'
        × (w'.calls ≡ w.calls + 1)
  unfolding c_hello_greeter ask message
  hello_step user w range sent =
      let (r, key, g', e, k, h) = say_hello-HasShares user w.greeter range in
      let answer = call-delivered L fate (say_hello L user) w _ g' sent e in
      (
        r,
        key,
        codes "Hello " ++ user,
        record { greeter = g'; calls = w.calls + 1 },
        ground arith,
        (k, h),
        refl,
      )

  -- `c_GetThreshhold` and what it collects.
  pub collect_step :
      (r : ℕ) (key : List ℕ) (file : SharesFile) (w : Session)
      → ((i b : ℕ) → L.uniform i b ≤ b)
      → ((i : ℕ) → fate i ≡ delivered)
      → file.writable ≡ true
      → IsGreeted r key w
      → (sub : List (List ℕ)) × (w' : Session) × (c_get_threshhold
            (served L fate)
            file
            (codes "alice")
            w
          ≡ some (write_share sub, w'))
        × IsGreeted r key w'
        × IsSorted sub
        × All (IsShare (sharing.shares key)) sub
        × (length sub ≤ num_threashhold)
        × ((length sub ≡ num_threashhold) ⊎ (w'.calls ≡ w.calls + 21))
  unfolding get_threshhold
  collect_step r key file w range sent writable (e, h) =
      let A =
        delivered-Answers L fate r key (sharing.shares key) range sent (sharing.tokens r key e)
          (sharing.many r key e) in
      let wanted =
        call-delivered L fate (get_threshhold L (codes "alice")) w num_threashhold w.greeter
          (sent w.calls) refl in
      let (sub, w', f, c) =
        c_get_threshhold-Collected (served L fate) (IsShare (sharing.shares key)) A (codes "alice")
          num_threashhold file w (record w { calls = w.calls + 1 }) wanted (omega arith) writable
          h in
      (
        sub,
        w',
        f,
        (e, c.ready),
        c.sorted,
        c.answers,
        c.few,
        elim c.enough [ inl q ↦ inl q | inr q ↦ inr (omega (arith, q)) ],
      )

  alice_is_plain : plain (codes "alice") ≡ true
  unfolding plain
  alice_is_plain = refl

  pub xor_step :
      (flag : Bool) (w : Session)
      → fate w.calls ≡ delivered
      → (out : List ℕ × Option (List ℕ)) × (c_xor_greeter (served L fate) (codes "alice") flag w
          ≡ some (out, record w { calls = w.calls + 1 }))
  unfolding c_xor_greeter ask message
  xor_step true w sent = (
    _,
    c_xor_greeter-until L fate (codes "alice") w (plain-IsByte (codes "alice") alice_is_plain)
        (plain-NoNul (codes "alice") alice_is_plain) (omega arith) sent,
  )
  xor_step false w sent =
      let reply =
        say_olleh-until L fate (codes "alice") w.greeter
          (plain-IsByte (codes "alice") alice_is_plain) (plain-NoNul (codes "alice") alice_is_plain)
          (omega arith) in
      let answer = call-delivered L fate (say_olleh L (codes "alice")) w _ _ sent reply in
      ((masked (until b'_' (codes "alice")), none), ground arith)

  verify_key-Verified :
      (r : ℕ) (key : List ℕ) (g : Greeter)
      → get_elem? key_set r ≡ some key
      → g.selected_key_num ≡ some r
      → verify_key L key g ≡ some (key ++ codes " is " ++ codes "Verified", g)
  unfolding verify_key
  verify_key-Verified r key g e h =
      let self = c_string_self key (plain-NoNul key (key_set-plain r key e).0) in
      let same_key = bytes_eq_refl key in ground arith

  pub verify_step :
      (r : ℕ) (key : List ℕ) (sub : List (List ℕ)) (w : Session)
      → ((i : ℕ) → fate i ≡ delivered)
      → IsGreeted r key w
      → IsSorted sub
      → All (IsShare (sharing.shares key)) sub
      → length sub ≡ num_threashhold
      → c_verify_key (served L fate) extract (write_share sub) w
        ≡ some ((key, key ++ codes " is " ++ codes "Verified"), record w { calls = w.calls + 1 })
  unfolding c_verify_key ask message
  verify_step r key sub w sent (e, h) sorted shares full =
      let text = c_string_self (write_share sub) (
        write_share-NoNul sub
          (shares-NoNul (sharing.shares key) sub (sharing.tokens r key e) shares)) in
      let rebuilt = sharing.rebuilds r key sub e sorted shares full in
      let answer =
        call-delivered L fate (verify_key L key) w _ w.greeter (sent w.calls)
          (verify_key-Verified r key w.greeter e h.numbered) in
      ground arith

  pub fingerprint_step :
      (r : ℕ) (key : List ℕ) (w : Session)
      → CanEncrypt L
      → ((i : ℕ) → fate i ≡ delivered)
      → IsGreeted r key w
      → send_fingerprint (served L fate) L.aes key w ≡ some (key, record w { calls = w.calls + 1 })
  fingerprint_step r key w can sent (e, h) =
      let (cipher, enc, bytes, fits) = can.ciphertext r key e in
      let (text, short) = key_set-plain r key e in
      send_fingerprint-echoes L fate key cipher w can.undoes enc bytes fits (plain-NoNul key text)
        short h.selected (sent w.calls)
