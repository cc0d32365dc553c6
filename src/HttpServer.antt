-- ===== src/HttpServer.antt =====
-- scheduler/http_server.cpp: the callback of the HTTP daemon. The daemon calls it with the headers
-- first, then once for each part of an upload, and at last with nothing to upload.
pub mod Uploads
pub mod Daemon
use Prim.Native.String.{◌++◌ as append}
use mesos_framework.Base.{
  String, Bool, true, false, not, ◌&&◌, List, [], ◌∷◌, Option, none, some, ◌==◌, ◌>>=◌,
  if◌then◌else◌, get_or, is_none,
}
use mesos_framework.Base.Text.{is_empty}

-- What the callback leaves behind: `*ptr`, and the response that it has queued.
pub record Connection : Type 0 where
  pub post_data : Option String
  pub response : Option (Bool × String)

-- The flag of a response: found (200) or not (404).
abbrev pub ok : Bool
ok = true

abbrev pub not_found : Bool
not_found = false

module _ {ℓ} {State : Type ℓ}
    (dispatch : String → String → String → State → Option (State × String)) where
  abbrev pub respond : String → String → Bool × String
  respond url page =
      if not (is_empty page) then (ok, page) else (not_found, append "Not found: " url)

  -- The request is answered with all that was uploaded.
  unfoldable pub dispatch_request :
      (url method : String) → State → Connection → Option (State × Connection)
  dispatch_request url method st c =
      dispatch method url (get_or "" c.post_data) st >>= λ (st', page).
      some (st', record c { response = some (respond url page) })

  -- One call of the callback; `upload` is the part of the upload that it is given.
  unfoldable pub handle_request :
      (url method upload : String) → State → Connection → Option (State × Connection)
  unfolding dispatch_request
  handle_request url method upload st c =
      if method == "POST" && is_none c.post_data
      then some (st, record c { post_data = some "" })
      else (if method == "POST" && not (is_empty upload)
          then some (st, record c { post_data = some (append (get_or "" c.post_data) upload) })
          else dispatch_request url method st c)

  -- The calls of one request, each with its part of the upload.
  unfoldable pub serve :
      (url method : String) → List String → State → Connection → Option (State × Connection)
  serve url method [] st c = some (st, c)
  serve url method (u ∷ us) st c =
      handle_request url method u st c >>= λ (st', c'). serve url method us st' c'
