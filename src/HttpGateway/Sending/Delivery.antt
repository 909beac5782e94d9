-- ===== src/HttpGateway/Sending/Delivery.antt =====
-- http_gateway.go: what becomes of the message of a batch.
use dhound_agent.Base.{
  ℕ, ◌<◌, List, [], ◌∷◌, ◌++◌, ◌≡◌, refl, ◌≢◌, ◌∙◌, ap, sym, ◌⊎◌, inl, inr, ◌↔◌, Option, none, some,
  Bool, true, false, arith, Bytes, Dict, get_key, get_key-put, str_eq_refl, length, append_assoc,
  append-nil, Bool-cases, ltb, lt→ltb, ==_iff, if◌then◌else◌, ◌==◌,
}
use dhound_agent.Events.{SecurityEvent, SecurityEventsContainer}
use dhound_agent.SystemState.{written}
use dhound_agent.HttpGateway.{
  ServerRequestMessage, ServerResponseMessage, HttpGateway, Json, Reply, no_reply, replied, World,
  Batch, message_of, collect, all_events, sort_strings, keys, net_file,
}
use dhound_agent.HttpGateway.Sending.{
  Outside, post, resend, response_failed, reply_failed, write_to, keep_failed, finish,
  send_to_server,
}

pub length-pos {ℓ} : {A : Type ℓ} (xs : List A) → xs ≢ [] → 0 < length xs
length-pos [] h = absurd (h refl)
length-pos (x ∷ xs) h = omega arith

if_some {ℓ} :
    {A : Type ℓ} (xs ys : List A) → (if ltb 0 (length ys) then xs ++ ys else xs) ≡ xs ++ ys
if_some xs [] = sym (append-nil xs)
if_some xs (y ∷ ys) = ground arith

collect_events :
    (containers : List SecurityEventsContainer) (events : List SecurityEvent)
    (services : Dict (List Bytes))
    → (collect containers (events, services)).0 ≡ events ++ all_events containers
unfolding collect
collect_events [] events services = sym (append-nil events)
collect_events (c ∷ rest) events services =
    collect_events rest _ _
    ∙ ap (λ l. l ++ all_events rest) (if_some events c.security_events)
    ∙ append_assoc events c.security_events (all_events rest)

-- The message carries the events of all containers, in order.
pub message_of-events :
    (gate : HttpGateway) (now : ℕ) (containers : List SecurityEventsContainer)
    → (message_of gate now containers).events ≡ all_events containers
unfolding message_of
message_of-events gate now containers = collect_events containers [] []

module _ (json : Json) (outside : Outside json) where
  open json use {Content, Body, marshal, unmarshal}
  open outside use {server, write_outcome}

  -- A reply with status 200 whose body reports a response of some kind.
  abbrev pub Says : (ServerResponseMessage → Type 0) → Reply Body → Type 0
  Says P no_reply = ⊥
  Says P (replied status body) =
      (status ≡ 200)
      × (response : ServerResponseMessage) × (unmarshal body ≡ some response)
      × P response

  -- Success: the server has taken the events.
  abbrev pub Takes : Reply Body → Type 0
  Takes reply = Says (λ response. response.success ≡ true) reply

  -- The error after which the agent gives the events up.
  abbrev pub Refuses : Reply Body → Type 0
  Refuses reply = Says (λ response. (response.success ≡ false) × (response.error_code ≡ 1)) reply

  -- A reply after which the message is neither kept nor sent again.
  abbrev pub IsFinal : Reply Body → Type 0
  IsFinal reply = Says (λ response. (response.success ≡ true) ⊎ (response.error_code ≡ 1)) reply

  final_cases : (reply : Reply Body) → IsFinal reply → Takes reply ⊎ Refuses reply
  final_cases no_reply h = absurd h
  final_cases (replied status body) (ok, response, e, why) = elim (Bool-cases response.success) [
    | inl success ↦ inl (ok, response, e, success)
    | inr failure ↦ inr (
      ok,
      response,
      e,
      (failure, elim why [ inl success ↦ absurd (cc (success, failure)) | inr code ↦ code ]),
    )
  ]

  response_failed_iff :
      (o : Option ServerResponseMessage)
      → (response_failed json outside o ≡ false) ↔ (
          (response : ServerResponseMessage) × (o ≡ some response)
          × ((response.success ≡ true) ⊎ (response.error_code ≡ 1)))
  unfolding response_failed
  response_failed_iff none = ((λ h. cc), (λ h. let e = h.1 in cc))
  response_failed_iff (some response) =
      ((λ h. (response, refl, ground arith)), (λ h. let e = h.1 in let k = h.2 in ground arith))

  pub reply_failed_iff :
      (reply : Reply Body) → (reply_failed json outside reply ≡ false) ↔ IsFinal reply
  unfolding reply_failed
  reply_failed_iff no_reply = ground arith
  reply_failed_iff (replied status body) = (
    (λ h.
        let (ok, k) = both status _ h in
        let r = (response_failed_iff (unmarshal body)).0 k in (ok, r.0, r.1, r.2)),
    (λ h.
        rw ((==_iff status 200).1 h.0) ((response_failed_iff (unmarshal body)).1 (h.1, h.2, h.3))),
  )
    where
      both :
          (status : ℕ) (b : Bool)
          → (if status == 200 then b else true) ≡ false
          → (status ≡ 200) × (b ≡ false)
      both status b h = ground arith

  finish_lem :
      (gate : HttpGateway) (file_time : ℕ) (message : ServerRequestMessage) (reply : Reply Body)
      (w : World Content)
      → (IsFinal reply
          × (finish json outside gate file_time message (reply, w)
              ≡ (record gate { first_message_sent = true }, w)))
        ⊎ ((¬ IsFinal reply)
            × (finish json outside gate file_time message (reply, w)
                ≡ (gate, keep_failed json outside file_time message w)))
  unfolding finish
  finish_lem gate file_time message reply w = elim (Bool-cases (reply_failed json outside reply)) [
    | inl e ↦ inr ((λ a. let k = (reply_failed_iff reply).1 a in cc), rw e)
    | inr e ↦ inl ((reply_failed_iff reply).0 e, rw e)
  ]

  pub keep_failed-posts :
      (file_time : ℕ) (message : ServerRequestMessage) (w : World Content)
      → (keep_failed json outside file_time message w).posts ≡ w.posts
  unfolding keep_failed
  keep_failed-posts file_time message w = ground arith

  keep_failed-files :
      (file_time : ℕ) (message : ServerRequestMessage) (w : World Content)
      → message.events ≢ []
      → write_outcome (net_file file_time) ≡ written
      → get_key (net_file file_time) (keep_failed json outside file_time message w).files
        ≡ some (marshal message)
  unfolding keep_failed write_to
  keep_failed-files file_time message w h k =
      rw (k, lt→ltb 0 (length message.events) (length-pos message.events h))
        (rw (
          get_key-put (net_file file_time) (net_file file_time) (marshal message) w.files,
          str_eq_refl,
        ))

  -- What becomes of a batch with at least one event, where the file for a failure can be written.
  -- The message with all events of the batch, in order, is posted once, after the files of earlier
  -- requests. Then there are three cases. The server takes it, with status 200 and a body that
  -- reports success, and no file is written. Or it answers with status 200 and a body that reports
  -- no success and error code 1: no file is written either, and the events are given up. Or the
  -- answer is any other, or none, and the same message stands in the directory afterwards, under
  -- the name made of the second of the failure.
  pub send_to_server_cases :
      (gate : HttpGateway) (batch : Batch) (w : World Content)
      → all_events batch.containers ≢ []
      → write_outcome (net_file batch.file_time) ≡ written
      → let message = message_of gate batch.now batch.containers in
        let earlier = resend json outside (sort_strings (keys w.files)) w in
        let reply = server earlier.posts (marshal message) in
        let after = (send_to_server json outside gate batch w).1 in
        (message.events ≡ all_events batch.containers)
        × (after.posts ≡ earlier.posts ++ marshal message ∷ [])
        × (((Takes reply ⊎ Refuses reply) × (after.files ≡ earlier.files))
            ⊎ ((¬ IsFinal reply)
                × (get_key (net_file batch.file_time) after.files ≡ some (marshal message))))
  unfolding send_to_server post
  send_to_server_cases gate batch w h k =
      let message = message_of gate batch.now batch.containers in
      let w₁ = resend json outside (sort_strings (keys w.files)) w in
      let w₂ : World Content = record w₁ { posts = w₁.posts ++ marshal message ∷ [] } in
      let reply = server w₁.posts (marshal message) in
      let events : message.events ≡ all_events batch.containers =
        message_of-events gate batch.now batch.containers in
      elim (finish_lem gate batch.file_time message reply w₂) [
        | inl (final, e) ↦
            (events, ap (λ r. r.1.posts) e, inl (final_cases reply final, ap (λ r. r.1.files) e))
        | inr (failed, e) ↦ (
          events,
          ap (λ r. r.1.posts) e ∙ keep_failed-posts batch.file_time message w₂,
          inr (
            failed,
            ap (λ r. get_key (net_file batch.file_time) r.1.files) e
                ∙ keep_failed-files batch.file_time message w₂ (λ z. h (sym events ∙ z)) k,
          ),
        )
      ]
