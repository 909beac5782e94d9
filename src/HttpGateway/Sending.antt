-- ===== src/HttpGateway/Sending.antt =====
-- http_gateway.go: `SendToServer` and `Run`.
pub mod Delivery
pub mod Resend
pub mod Repeats
pub mod Durable
mod Examples
use dhound_agent.Base.{
  ℕ, List, [], ◌∷◌, ◌++◌, Option, none, some, Bool, true, false, ◌==◌, ltb, if◌then◌else◌, length,
  Bytes, Dict, get_key, put,
}
use dhound_agent.SystemState.{WriteOutcome, written, refused, cut_short}
use dhound_agent.HttpGateway.{
  ServerRequestMessage, ServerResponseMessage, HttpGateway, Json, Reply, no_reply, replied, World,
  Batch, message_of, sort_strings, delete, keys, net_file,
}
use dhound_agent.Events.{SecurityEventsContainer}

-- What the outside does: the server's reply to a post, by the posts before it, and which
-- operations on files fail.
pub record Outside (json : Json) : Type 0 where
  pub server : List json.Content → json.Content → Reply json.Body
  pub read_fails : Bytes → Bool
  pub remove_fails : Bytes → Bool
  pub write_outcome : Bytes → WriteOutcome json.Content

module _ (json : Json) (outside : Outside json) where
  open json use {Content, Body, marshal, unmarshal}
  open outside use {server, read_fails, remove_fails, write_outcome}

  pub post : Content → World Content → Reply Body × World Content
  post content w = (server w.posts content, record w { posts = w.posts ++ content ∷ [] })

  -- `errs == nil && resp.StatusCode == 200`, the test for a file that was sent again.
  abbrev pub status_ok : Reply Body → Bool
  status_ok no_reply = false
  status_ok (replied status body) = status == 200

  pub resend_content : Bytes → Content → World Content → World Content
  unfolding post
  resend_content name content w =
      let (reply, w') = post content w in
      if status_ok reply
      then (if remove_fails name then w' else record w' { files = delete name w'.files })
      else w'

  -- One round of the loop over the files of failed requests.
  pub resend_file : Bytes → World Content → World Content
  unfolding resend_content get_key
  resend_file name w = elim (get_key name w.files) [
    | none ↦ w
    | some content ↦ if read_fails name then w else resend_content name content w
  ]

  pub resend : List Bytes → World Content → World Content
  unfolding resend_file
  resend [] w = w
  resend (name ∷ rest) w = resend rest (resend_file name w)

  response_failed : Option ServerResponseMessage → Bool
  response_failed none = true
  response_failed (some response) =
      if response.success then false else if response.error_code == 1 then false else true

  pub reply_failed : Reply Body → Bool
  unfolding response_failed
  reply_failed no_reply = true
  reply_failed (replied status body) =
      if status == 200 then response_failed (unmarshal body) else true

  write_to : WriteOutcome Content → Bytes → Content → Dict Content → Dict Content
  write_to written name content files = put name content files
  write_to refused name content files = files
  write_to (cut_short other) name content files = put name other files

  -- The file for a message that failed; a message without events is not kept.
  pub keep_failed : ℕ → ServerRequestMessage → World Content → World Content
  unfolding write_to put
  keep_failed file_time message w =
      if ltb 0 (length message.events)
      then record w {
        files =
            write_to (write_outcome (net_file file_time)) (net_file file_time) (marshal message)
              w.files;
      }
      else w

  -- The end of `SendToServer`, from the reply on.
  pub finish :
      HttpGateway
      → ℕ
      → ServerRequestMessage
      → Reply Body × World Content
      → HttpGateway × World Content
  unfolding reply_failed keep_failed
  finish gate file_time message (reply, w) =
      if reply_failed reply
      then (gate, keep_failed file_time message w)
      else (record gate { first_message_sent = true }, w)

  -- The receiver of `SendToServer` is a value: the first result is the method's own copy.
  pub send_to_server : HttpGateway → Batch → World Content → HttpGateway × World Content
  unfolding resend finish post sort_strings
  send_to_server gate batch w =
      let message = message_of gate batch.now batch.containers in
      finish gate batch.file_time message
        (post (marshal message) (resend (sort_strings (keys w.files)) w))

  -- The loop of `Run`: the caller's gateway is as it was before the call. The batches go on to the
  -- state of the sources, sent or not.
  pub run :
      HttpGateway → List Batch → World Content → World Content × List (List SecurityEventsContainer)
  unfolding send_to_server
  run gate [] w = (w, [])
  run gate (batch ∷ rest) w =
      let (own_copy, w') = send_to_server gate batch w in
      let (w'', passed_on) = run gate rest w' in (w'', batch.containers ∷ passed_on)
