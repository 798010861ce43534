-- ===== src/KeyShare/Answered.antt =====
-- What a client can get from `GetShare` of helloworld/greeter_server.cc.
use logger_verifier.KeyShare.Client.{message}
use logger_verifier.KeyShare.Collect.{Answers}
use logger_verifier.KeyShare.Served.{
  Session, Fate, delivered, request_lost, reply_lost, call, served, call-delivered,
}
use logger_verifier.KeyShare.Service.{Library, Greeter, draw, get_share}
use logger_verifier.KeyShare.Tokens.{IsToken, tokenize-write_share}
use logger_verifier.KeyShare.Text.{write_share}
use logger_verifier.Base.{
  ℕ, suc, ◌+◌, ◌≤◌, ◌≡◌, refl, sym, ap, ◌∙◌, ◌⊎◌, inl, inr, Option, none, some, List, arith, length,
  get_elem?, codes, All, c_string, c_string_self, get_elem?-some, All-get_elem?,
}

-- One of the first three shares.
abbrev pub IsShare : List (List ℕ) → List ℕ → Type 0
IsShare ts text = (r : ℕ) × (r ≤ 2) × (get_elem? ts r ≡ some text)

-- The texts that a client gets for `GetShare` of the shares `ts`.
abbrev pub IsAnswer : List (List ℕ) → List ℕ → Type 0
IsAnswer ts text = (text ≡ codes "RPC failed") ⊎ IsShare ts text

Fate-cases : (f : Fate) → (f ≡ delivered) ⊎ ((f ≡ request_lost) ⊎ (f ≡ reply_lost))
Fate-cases delivered = inl refl
Fate-cases request_lost = inr (inl refl)
Fate-cases reply_lost = inr (inr refl)

failed_text : c_string (codes "RPC failed") ≡ codes "RPC failed"
unfolding c_string
failed_text = refl

-- A service that has said hello: it has selected `key`, of number `n`, and its string holds the
-- shares `ts`.
pub record HasShares (n : ℕ) (key : List ℕ) (ts : List (List ℕ)) (g : Greeter) : Type 0 where
  pub written : g.shares_string ≡ some (write_share ts)
  pub selected : g.selected_key ≡ key
  pub numbered : g.selected_key_num ≡ some n

module _ (L : Library) (fate : ℕ → Fate) where
  get_share-token :
      (n : ℕ) (key : List ℕ) (ts : List (List ℕ)) (user : List ℕ) (g : Greeter)
      → ((i b : ℕ) → L.uniform i b ≤ b)
      → All IsToken ts
      → 3 ≤ length ts
      → HasShares n key ts g
      → (r : ℕ) × (token : List ℕ) × (r ≤ 2)
        × (get_elem? ts r ≡ some token)
        × (c_string token ≡ token)
        × (get_share L user g ≡ some (token, record g { draws = g.draws + 1 }))
  unfolding get_share draw
  get_share-token n key ts user g range tokens many h =
      let r = L.uniform g.draws 2 in
      let low = range g.draws 2 in
      let (token, e) = get_elem?-some ts r (omega arith) in
      let self = c_string_self token (All-get_elem? IsToken ts r token tokens e).text in
      let taken = tokenize-write_share ts tokens in
      (r, token, low, e, self, ground (arith, h.written))

  -- A call of `GetShare`, whatever becomes of it.
  pub call-IsAnswer :
      (n : ℕ) (key : List ℕ) (ts : List (List ℕ)) (user : List ℕ) (w : Session)
      → ((i b : ℕ) → L.uniform i b ≤ b)
      → All IsToken ts
      → 3 ≤ length ts
      → HasShares n key ts w.greeter
      → (r : Option (List ℕ)) × (w' : Session) × (call L fate (get_share L user) w ≡ some (r, w'))
        × HasShares n key ts w'.greeter
        × (w'.calls ≡ suc w.calls)
        × IsAnswer ts (c_string (message r))
  unfolding call message
  call-IsAnswer n key ts user w range tokens many h =
      let (r, token, low, e, self, f) =
        get_share-token n key ts user w.greeter range tokens many h in
      let later = record (w.greeter) { draws = w.greeter.draws + 1 } in
      let kept : HasShares n key ts later = record {
        written = h.written;
        selected = h.selected;
        numbered = h.numbered;
      } in
      let called : ℕ = w.calls + 1 in
      elim (Fate-cases (fate w.calls)) [
        | inl q ↦ (
          some token,
          record { greeter = later; calls = called },
          ground arith,
          kept,
          omega arith,
          inr (r, low, e ∙ ap some (sym self)),
        )
        | inr (inl q) ↦
            (none, record w { calls = called }, ground arith, h, omega arith, inl failed_text)
        | inr (inr q) ↦ (
          none,
          record { greeter = later; calls = called },
          ground arith,
          kept,
          omega arith,
          inl failed_text,
        )
      ]

  -- `GetShare` of the service meets what the client's loop asks for.
  abbrev pub served-Answers :
      (n : ℕ) (key : List ℕ) (ts : List (List ℕ))
      → ((i b : ℕ) → L.uniform i b ≤ b)
      → All IsToken ts
      → 3 ≤ length ts
      → Answers (served L fate) (IsAnswer ts)
  served-Answers n key ts range tokens many = record {
    Ready = λ w. HasShares n key ts w.greeter;
    calls = λ w. w.calls;
    answer = λ user w ready. call-IsAnswer n key ts user w range tokens many ready;
  }

  pub call-IsShare :
      (n : ℕ) (key : List ℕ) (ts : List (List ℕ)) (user : List ℕ) (w : Session)
      → ((i b : ℕ) → L.uniform i b ≤ b)
      → ((i : ℕ) → fate i ≡ delivered)
      → All IsToken ts
      → 3 ≤ length ts
      → HasShares n key ts w.greeter
      → (r : Option (List ℕ)) × (w' : Session) × (call L fate (get_share L user) w ≡ some (r, w'))
        × HasShares n key ts w'.greeter
        × (w'.calls ≡ suc w.calls)
        × IsShare ts (c_string (message r))
  unfolding message
  call-IsShare n key ts user w range sent tokens many h =
      let (r, token, low, e, self, f) =
        get_share-token n key ts user w.greeter range tokens many h in
      (
        some token,
        _,
        call-delivered L fate (get_share L user) w token _ (sent w.calls) f,
        record { written = h.written; selected = h.selected; numbered = h.numbered },
        omega arith,
        (r, low, e ∙ ap some (sym self)),
      )

  -- With every call delivered, the answers are shares.
  abbrev pub delivered-Answers :
      (n : ℕ) (key : List ℕ) (ts : List (List ℕ))
      → ((i b : ℕ) → L.uniform i b ≤ b)
      → ((i : ℕ) → fate i ≡ delivered)
      → All IsToken ts
      → 3 ≤ length ts
      → Answers (served L fate) (IsShare ts)
  delivered-Answers n key ts range sent tokens many = record {
    Ready = λ w. HasShares n key ts w.greeter;
    calls = λ w. w.calls;
    answer = λ user w ready. call-IsShare n key ts user w range sent tokens many ready;
  }
