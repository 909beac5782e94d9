-- ===== src/HttpGateway/Sending/Repeats.antt =====
-- http_gateway.go: what repeats because `SendToServer` works on a copy of the gateway, and because
-- the name of a file is made of a second.
use dhound_agent.Base.{
  ℕ, List, [], ◌∷◌, ◌++◌, ◌≡◌, refl, ◌≢◌, ◌∙◌, ap, sym, false, arith, Bytes, put, str_eq_refl,
  lt→ltb, length,
}
use dhound_agent.Events.{SecurityEventsContainer}
use dhound_agent.SystemState.{written}
use dhound_agent.HttpGateway.{
  ServerRequestMessage, HttpGateway, Json, Reply, no_reply, World, Batch, message_of, version,
  all_events, sort_strings, keys, net_file,
}
use dhound_agent.HttpGateway.Sending.{
  Outside, post, resend_content, resend_file, resend, reply_failed, write_to, keep_failed, finish,
  send_to_server, run,
}
use dhound_agent.HttpGateway.Sending.Resend.{resend_file_cases}
use dhound_agent.HttpGateway.Sending.Delivery.{message_of-events, length-pos}

first_version :
    (gate : HttpGateway) (now : ℕ) (containers : List SecurityEventsContainer)
    → gate.first_message_sent ≡ false
    → (message_of gate now containers).version ≡ version
unfolding message_of
first_version gate now containers h = rw h

first_offset :
    (gate : HttpGateway) (now : ℕ) (containers : List SecurityEventsContainer)
    → gate.first_message_sent ≡ false
    → (message_of gate now containers).local_time_utc_offset_number ≡ gate.time_offset_in_seconds
unfolding message_of
first_offset gate now containers h = rw h

module _ (json : Json) (outside : Outside json) where
  open json use {Content, Body, marshal}
  open outside use {server, write_outcome}

  run-append :
      (gate : HttpGateway) (xs ys : List Batch) (w : World Content)
      → (run json outside gate (xs ++ ys) w).0
        ≡ (run json outside gate ys (run json outside gate xs w).0).0
  unfolding run
  run-append gate [] ys w = refl
  run-append gate (x ∷ xs) ys w = run-append gate xs ys (send_to_server json outside gate x w).1

  pub run_none : (gate : HttpGateway) (w : World Content) → (run json outside gate [] w).0 ≡ w
  unfolding run
  run_none gate w = refl

  pub run-snoc :
      (gate : HttpGateway) (batches : List Batch) (batch : Batch) (w : World Content)
      → (run json outside gate (batches ++ batch ∷ []) w).0
        ≡ (send_to_server json outside gate batch (run json outside gate batches w).0).1
  unfolding run
  run-snoc gate batches batch w = run-append gate batches (batch ∷ []) w

  finish-posts :
      (gate : HttpGateway) (file_time : ℕ) (message : ServerRequestMessage) (r : Reply Body)
      (w : World Content)
      → (finish json outside gate file_time message (r, w)).1.posts ≡ w.posts
  unfolding finish keep_failed
  finish-posts gate file_time message r w = ground arith

  send-posts :
      (gate : HttpGateway) (batch : Batch) (w : World Content)
      → (send_to_server json outside gate batch w).1.posts
        ≡ (resend json outside (sort_strings (keys w.files)) w).posts
          ++ marshal (message_of gate batch.now batch.containers) ∷ []
  unfolding send_to_server post
  send-posts gate batch w =
      let content = marshal (message_of gate batch.now batch.containers) in
      let w₁ = resend json outside (sort_strings (keys w.files)) w in
      finish-posts gate batch.file_time (message_of gate batch.now batch.containers)
        (server w₁.posts content) (record w₁ { posts = w₁.posts ++ content ∷ [] })

  run_one :
      (gate : HttpGateway) (batch : Batch) (w : World Content)
      → (run json outside gate (batch ∷ []) w).0.posts
        ≡ (resend json outside (sort_strings (keys w.files)) w).posts
          ++ marshal (message_of gate batch.now batch.containers) ∷ []
  unfolding run
  run_one gate batch w = send-posts gate batch w

  -- The version and the time zone are meant for the first message. But from a gateway that has not
  -- sent one, every batch of a run, whatever became of those before, ends in a post of a message
  -- that carries both.
  pub run_announces :
      (gate : HttpGateway) (earlier : List Batch) (batch : Batch) (w : World Content)
      → gate.first_message_sent ≡ false
      → let message = message_of gate batch.now batch.containers in
        let before = (run json outside gate earlier w).0 in
        ((run json outside gate (earlier ++ batch ∷ []) w).0.posts
          ≡ (resend json outside (sort_strings (keys before.files)) before).posts
            ++ marshal message ∷ [])
        × (message.version ≡ version)
        × (message.local_time_utc_offset_number ≡ gate.time_offset_in_seconds)
  run_announces gate earlier batch w h = (
    ap (λ v. v.posts) (run-append gate earlier (batch ∷ []) w) ∙ run_one gate batch _,
    first_version gate batch.now batch.containers h,
    first_offset gate batch.now batch.containers h,
  )

  module _
      (down : (posts : List Content) (content : Content) → server posts content ≡ no_reply) where
    resend_content_down :
        (name : Bytes) (content : Content) (w : World Content)
        → (resend_content json outside name content w).files ≡ w.files
    unfolding resend_content post
    resend_content_down name content w = rw (down w.posts content)

    resend_file_down :
        (name : Bytes) (w : World Content) → (resend_file json outside name w).files ≡ w.files
    resend_file_down name w =
        resend_file_cases json outside (λ v. v.files ≡ w.files) name w refl
          (λ content e. resend_content_down name content w)

    resend_down :
        (names : List Bytes) (w : World Content) → (resend json outside names w).files ≡ w.files
    unfolding resend
    resend_down [] w = refl
    resend_down (n ∷ names) w =
        resend_down names (resend_file json outside n w) ∙ resend_file_down n w

    finish_down :
        (gate : HttpGateway) (file_time : ℕ) (message : ServerRequestMessage) (w : World Content)
        → message.events ≢ []
        → write_outcome (net_file file_time) ≡ written
        → (finish json outside gate file_time message (no_reply, w)).1.files
          ≡ put (net_file file_time) (marshal message) w.files
    unfolding finish reply_failed keep_failed write_to
    finish_down gate file_time message w h k =
        rw (k, lt→ltb 0 (length message.events) (length-pos message.events h))

    send_down :
        (gate : HttpGateway) (batch : Batch) (w : World Content)
        → all_events batch.containers ≢ []
        → write_outcome (net_file batch.file_time) ≡ written
        → (send_to_server json outside gate batch w).1.files
          ≡ put
              (net_file batch.file_time)
              (marshal (message_of gate batch.now batch.containers))
              w.files
    unfolding send_to_server post
    send_down gate batch w h k =
        let message = message_of gate batch.now batch.containers in
        let w₁ = resend json outside (sort_strings (keys w.files)) w in
        rw (down w₁.posts (marshal message)) (
          finish_down gate batch.file_time message _
            (λ e. h (sym (message_of-events gate batch.now batch.containers) ∙ e)) k
          ∙ ap (put (net_file batch.file_time) (marshal message))
              (resend_down (sort_strings (keys w.files)) w))

    -- From an empty directory, while the server gives no reply and the file can be written, of two
    -- batches with events that fail within one second only the message of the second is kept: the
    -- file of the first is overwritten.
    pub same_second :
        (gate : HttpGateway) (first second : Batch)
        → all_events first.containers ≢ []
        → all_events second.containers ≢ []
        → first.file_time ≡ second.file_time
        → write_outcome (net_file second.file_time) ≡ written
        → (run json outside gate (first ∷ second ∷ []) (record { files = []; posts = [] })).0.files
          ≡ (net_file second.file_time, marshal (message_of gate second.now second.containers)) ∷ []
    unfolding run put
    same_second gate first second f s same k =
        send_down gate second (send_to_server json outside gate first start).1 s k
        ∙ ap (put (net_file second.file_time) content)
            (send_down gate first start f (rw same k) ∙ ap (λ t. (net_file t, old) ∷ []) same)
        ∙ (rw (str_eq_refl (net_file second.file_time)))
      where
        start : World Content
        start = record { files = []; posts = [] }

        content : Content
        content = marshal (message_of gate second.now second.containers)

        old : Content
        old = marshal (message_of gate first.now first.containers)
