-- ===== src/KeyShare/Hidden.antt =====
-- The masked names of helloworld/: `SayOlleh` of the service and `c_xor_greeter` of the client.
use logger_verifier.Base.Bits.{xor_0x5f_twice, xor_0x5f_zero}
use logger_verifier.KeyShare.Client.{ask, message, c_xor_greeter}
use logger_verifier.KeyShare.Served.{Session, Fate, delivered, served, call-delivered}
use logger_verifier.KeyShare.Service.{Library, encode_size, say_olleh}
use logger_verifier.KeyShare.Text.{xor}
use logger_verifier.Base.{
  ℕ, ◌+◌, ◌≤◌, ◌<◌, bit_xor, ◌≡◌, refl, sym, ap, ◌≢◌, inl, inr, true, some, List, [], ◌∷◌, map,
  arith, ◌==◌, if◌then◌else◌, Bool-cases, length, length-map, All, IsByte, c_string, NoNul,
  c_string_self,
}

-- The bytes before the first `c`.
unfoldable pub until : ℕ → List ℕ → List ℕ
until c [] = []
until c (x ∷ xs) = let rest = until c xs in if x == c then [] else x ∷ rest

abbrev pub masked : List ℕ → List ℕ
masked = map (λ c. bit_xor c 0x5f)

-- The mask turns the underscore into the NUL.
c_string-masked : (cs : List ℕ) → All IsByte cs → c_string (masked cs) ≡ masked (until b'_' cs)
unfolding c_string until
c_string-masked [] h = refl
c_string-masked (c ∷ cs) (hc, hs) =
    let rest = c_string-masked cs hs in
    let zero_at = xor_0x5f_zero c hc in
    let underscore : c ≡ 95 → bit_xor c 0x5f ≡ 0 = λ e. ap (λ x. bit_xor x 0x5f) e in ground arith

c_string_twice : (cs : List ℕ) → c_string (c_string cs) ≡ c_string cs
unfolding c_string
c_string_twice [] = refl
c_string_twice (c ∷ cs) = let rest = c_string_twice cs in ground arith

masked_twice : (cs : List ℕ) → All IsByte cs → masked (masked cs) ≡ cs
masked_twice [] h = refl
masked_twice (c ∷ cs) (hc, hs) = rw (xor_0x5f_twice c hc, masked_twice cs hs)

until-All : (P : ℕ → Type 0) (c : ℕ) (cs : List ℕ) → All P cs → All P (until c cs)
unfolding until
until-All P c [] h = tt
until-All P c (x ∷ xs) (hx, hs) = elim (Bool-cases (x == c)) [
  | inl e ↦ rw e tt
  | inr e ↦ rw e (hx, until-All P c xs hs)
]

length-until : (c : ℕ) (cs : List ℕ) → length (until c cs) ≤ length cs
unfolding until
length-until c [] = omega arith
length-until c (x ∷ xs) = let rest = length-until c xs in ground arith

-- `XOR` of a text that fits.
xor_fits :
    (room : ℕ) (cs : List ℕ)
    → length (c_string cs) < room
    → xor room cs ≡ some (masked (c_string cs))
unfolding xor
xor_fits room cs h = ground arith

module _ (L : Library) (fate : ℕ → Fate) where
  -- What the service replies to a name is masked, and ends at the name's first underscore, which
  -- the mask turns into a NUL.
  pub say_olleh-until :
      (user : List ℕ) (g : _)
      → All IsByte user
      → NoNul user
      → length user < encode_size
      → say_olleh L user g ≡ some (masked (until b'_' user), g)
  unfolding say_olleh
  say_olleh-until user g bytes text short =
      let self = c_string_self user text in
      let fits = xor_fits encode_size user (rw self short) in
      let reply = c_string-masked user bytes in ground (arith, self, fits, reply)

  unmasked_room :
      (user : List ℕ)
      → length user < 2048
      → c_string (masked (until b'_' user)) ≡ masked (until b'_' user)
      → length (c_string (masked (until b'_' user))) < 2048
  unmasked_room user short stable = rw stable (
      omega
        (arith, short, length-until b'_' user, length-map (until b'_' user) (λ c. bit_xor c 0x5f)))

  -- A name without a NUL that fits into the buffers is printed by the client as far as its first
  -- underscore, and what comes on the network is masked.
  pub c_xor_greeter-until :
      (user : List ℕ) (w : Session)
      → All IsByte user
      → NoNul user
      → length user < encode_size
      → fate w.calls ≡ delivered
      → c_xor_greeter (served L fate) user true w
        ≡ some
            ((masked (until b'_' user), some (until b'_' user)), record w { calls = w.calls + 1 })
  unfolding c_xor_greeter ask message
  c_xor_greeter-until user w bytes text short sent =
      let u = until b'_' user in
      let reply = say_olleh-until user w.greeter bytes text short in
      let answer = call-delivered L fate (say_olleh L user) w _ _ sent reply in
      let stable : c_string (masked u) ≡ masked u =
        rw (sym (c_string-masked user bytes)) (c_string_twice (masked user)) in
      let fits = xor_fits 2048 (masked u) (unmasked_room user short stable) in
      let back = masked_twice u (until-All IsByte b'_' user bytes) in
      let self = c_string_self u (until-All (λ c. c ≢ 0) b'_' user text) in ground arith
