-- ===== src/HttpServer/Uploads.antt =====
-- scheduler/http_server.cpp: an upload in parts, and the status of a response.
use Prim.Native.String.{◌++◌ as append}
use text.Mathlib.TextLemmas.{append_assoc, append-nil, nil-append}
use mesos_framework.Base.{
  String, ◌≡◌, refl, ◌≢◌, ◌∙◌, false, List, [], ◌∷◌, ◌++◌, Option, none, some, arith, eq_iff, All,
  ◌>>=◌,
}
use mesos_framework.Base.Text.{is_empty, concat}
use mesos_framework.HttpServer.{Connection, respond, dispatch_request, handle_request, serve}

module _ {ℓ} {State : Type ℓ}
    (dispatch : String → String → String → State → Option (State × String)) (url : String) where
  abbrev received : String → Connection
  received text = record { post_data = some text; response = none }

  bind_eta : (o : Option (State × Connection)) → (o >>= λ r. some (r.0, r.1)) ≡ o
  bind_eta none = refl
  bind_eta (some r) = refl

  serve-received :
      (text : String) (parts : List String) (st : State)
      → All (λ part. part ≢ "") parts
      → serve dispatch url "POST" (parts ++ "" ∷ []) st (received text)
        ≡ dispatch_request dispatch url "POST" st (received (append text (concat parts)))
  unfolding serve handle_request
  serve-received text [] st h =
      rw append-nil (bind_eta (dispatch_request dispatch url "POST" st (received text)))
  serve-received text (part ∷ parts) st (p, h) =
      let filled : is_empty part ≡ false = ground (arith, eq_iff part "") in
      rw (filled, ← append_assoc) (serve-received (append text part) parts st h)

  -- An upload in any number of parts, none of them empty, is handed to the dispatcher once, when
  -- it is complete, as the parts joined in order.
  pub serve_upload :
      (parts : List String) (st : State)
      → All (λ part. part ≢ "") parts
      → serve dispatch url "POST"
          ("" ∷ parts ++ "" ∷ [])
          st
          (record { post_data = none; response = none })
        ≡ (dispatch "POST" url (concat parts) st >>= λ r. some (
          r.0,
          record { post_data = some (concat parts); response = some (respond dispatch url r.1) },
        ))
  unfolding serve handle_request dispatch_request
  serve_upload parts st h = serve-received "" parts st h ∙ rw nil-append refl
