-- ===== src/Logger/WebUi.antt =====
-- What `send_image_hash_to_UI` of Logger/Logger.cpp does for the Web UI.
use logger_verifier.Base.Decimal.{pos}
use logger_verifier.Config.{dangling}
use logger_verifier.Base.Run.{Run, ◌>>=◌}
use logger_verifier.Logger.Pictures.{Mat}
use logger_verifier.Logger.Pipeline.{Vision}
use logger_verifier.Logger.Setup.{
  Desk, State, on_messages, pointed, imwrite, imwrite_to, send_image_hash_to_ui,
}
use logger_verifier.MsgQueue as MsgQueue
use logger_verifier.MsgQueue.{
  type_image_hash_req, type_image_hash_res, image_hash_req_mq, image_hash_res_mq, message_size,
  image_hash_request, image_hash_response, send_answer,
}
use logger_verifier.Base.{ℕ, ◌≡◌, refl, none, some, List, ◌∷◌, arith}

module _ (V : Vision) (Q : MsgQueue.Queues) (K : Desk) where
  image_hash_request-asked :
      (q : ℕ) (bytes : List ℕ) (w w1 w2 : Q.World)
      → Q.msgget image_hash_req_mq w ≡ some (some q, w1)
      → Q.msgrcv q message_size w1 ≡ some (some (type_image_hash_req, bytes), w2)
      → image_hash_request Q w ≡ some (pos 1, w2)
  unfolding image_hash_request
  image_hash_request-asked q bytes w w1 w2 e f = rw (e, ◌>>=◌, f) refl

  on_messages-some :
      {A : Type 0} (m : Run Q.World A) (st : State V Q K) (a : A) (w : Q.World)
      → m st.mq ≡ some (a, w)
      → on_messages V Q K m st ≡ some (a, record st { mq = w })
  unfolding on_messages
  on_messages-some m st a w e = rw (e, on_messages) refl

  -- When the Web UI has asked, and the path of the Y picture is the dangling pointer that
  -- Read_Logger_cfg leaves, `send_image_hash_to_UI` runs into undefined behaviour or an exception,
  -- whatever the queues hold.
  pub send_image_hash_to_ui-undefined :
      (ori y : Mat) (oris ys : List Mat) (q : ℕ) (bytes : List ℕ) (st : State V Q K)
      (w1 w2 : Q.World)
      → K.yfile_path ≡ dangling
      → Q.msgget image_hash_req_mq st.mq ≡ some (some q, w1)
      → Q.msgrcv q message_size w1 ≡ some (some (type_image_hash_req, bytes), w2)
      → send_image_hash_to_ui V Q K (ori ∷ oris) (y ∷ ys) st ≡ none
  unfolding send_image_hash_to_ui imwrite imwrite_to pointed
  send_image_hash_to_ui-undefined ori y oris ys q bytes st w1 w2 path e1 e2 =
      let asked =
        on_messages-some (image_hash_request Q) st (pos 1) w2
          (image_hash_request-asked q bytes st.mq w1 w2 e1 e2) in
      ground arith

  image_hash_request-none :
      (q : ℕ) (w w1 w2 : Q.World)
      → Q.msgget image_hash_req_mq w ≡ some (some q, w1)
      → Q.msgrcv q message_size w1 ≡ some (none, w2)
      → image_hash_request Q w ≡ some (pos 0, w2)
  unfolding image_hash_request
  image_hash_request-none q w w1 w2 e f = rw (e, ◌>>=◌, f) refl

  -- Without a request nothing is written and nothing is sent.
  pub send_image_hash_to_ui-waits :
      (ori y : Mat) (oris ys : List Mat) (q : ℕ) (st : State V Q K) (w1 w2 : Q.World)
      → Q.msgget image_hash_req_mq st.mq ≡ some (some q, w1)
      → Q.msgrcv q message_size w1 ≡ some (none, w2)
      → send_image_hash_to_ui V Q K (ori ∷ oris) (y ∷ ys) st ≡ some (tt, record st { mq = w2 })
  unfolding send_image_hash_to_ui
  send_image_hash_to_ui-waits ori y oris ys q st w1 w2 e f =
      let none_yet =
        on_messages-some (image_hash_request Q) st (pos 0) w2
          (image_hash_request-none q st.mq w1 w2 e f) in
      ground arith
