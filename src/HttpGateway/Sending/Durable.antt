-- ===== src/HttpGateway/Sending/Durable.antt =====
-- http_gateway.go: what becomes of the message of a batch while later batches are sent.
use dhound_agent.Base.{
  ℕ, List, [], ◌∷◌, ◌++◌, ◌≡◌, refl, ◌≢◌, ◌∙◌, sym, subst, ◌⊎◌, inl, inr, some, true, false, arith,
  append_assoc, All, Bytes, Dict, codes, get_key, get_key-put, str_eq, str_eq_iff, Bool-cases,
}
use dhound_agent.Conversions.RoundTrip.{format_decimal_inj}
use dhound_agent.SystemState.{WriteOutcome, written, refused, cut_short}
use dhound_agent.HttpGateway.{
  ServerRequestMessage, HttpGateway, Json, Reply, no_reply, replied, World, Batch, message_of,
  all_events, sort_strings, keys, net_file,
}
use dhound_agent.HttpGateway.Sending.{
  Outside, post, status_ok, resend, write_to, keep_failed, finish, send_to_server, run,
  reply_failed,
}
use dhound_agent.HttpGateway.Sending.Delivery.{
  Takes, Refuses, IsFinal, send_to_server_cases, keep_failed-posts,
}
use dhound_agent.HttpGateway.Sending.Resend.{resend-IsKept, resend-Grows}

cancel_front : (front s t : Bytes) → front ++ s ≡ front ++ t → s ≡ t
cancel_front [] s t h = h
cancel_front (c ∷ front) s t h = cancel_front front s t (cc)

net_file_ne : (s t : ℕ) → s ≢ t → str_eq (net_file s) (net_file t) ≡ false
net_file_ne s t h = elim (Bool-cases (str_eq (net_file s) (net_file t))) [
  | inl e ↦ absurd (
      h (
        format_decimal_inj s t
          (cancel_front (codes ".state/.net_") _ _ ((str_eq_iff (net_file s) (net_file t)).0 e))))
  | inr e ↦ e
]

-- No two batches have one second for the name of their file.
abbrev pub HaveOwnSeconds : List Batch → Type 0
HaveOwnSeconds [] = Unit {0}
HaveOwnSeconds (b ∷ rest) = All (λ c. b.file_time ≢ c.file_time) rest × HaveOwnSeconds rest

module _ (json : Json) (outside : Outside json) where
  open json use {Content, Body, marshal}
  open outside use {server, write_outcome}

  -- The content was posted among these posts.
  abbrev pub WasPosted : Content → List Content → Type 0
  WasPosted content posts =
      (before : List Content) × ((later : List Content) × (posts ≡ before ++ content ∷ later))

  posted_grows :
      {content : Content} {posts : List Content} (more : List Content)
      → WasPosted content posts
      → WasPosted content (posts ++ more)
  posted_grows more p = (p.0, (p.1.0 ++ more, rw p.1.1 (append_assoc p.0 _ more)))

  -- The content was posted and got a final reply.
  abbrev pub WasSettled : Content → List Content → Type 0
  WasSettled content posts =
      (before : List Content) × (later : List Content) × (posts ≡ before ++ content ∷ later)
      × IsFinal json outside (server before content)

  settled_grows :
      {content : Content} {posts : List Content} (more : List Content)
      → WasSettled content posts
      → WasSettled content (posts ++ more)
  settled_grows more p = (p.0, p.1 ++ more, rw p.2 (append_assoc p.0 _ more), p.3)

  -- The content was posted, and posted again later, and that time the reply had status 200.
  abbrev pub WasResent : Content → List Content → Type 0
  WasResent content posts =
      (before : List Content) × (later : List Content) × (posts ≡ before ++ content ∷ later)
      × (status_ok json outside (server before content) ≡ true)
      × WasPosted content before

  resent_grows :
      {content : Content} {posts : List Content} (more : List Content)
      → WasResent content posts
      → WasResent content (posts ++ more)
  resent_grows more p = (p.0, p.1 ++ more, rw p.2 (append_assoc p.0 _ more), p.3, p.4)

  -- The content was posted and stands in the file, or it got a final reply, or it was posted again
  -- and answered with status 200.
  abbrev pub IsSafe : Bytes → Content → World Content → Type 0
  IsSafe name content w =
      ((get_key name w.files ≡ some content) × WasPosted content w.posts)
      ⊎ (WasSettled content w.posts ⊎ WasResent content w.posts)

  write_to-other :
      (outcome : WriteOutcome Content) (own name : Bytes) (content : Content) (files : Dict Content)
      → str_eq own name ≡ false
      → get_key name (write_to json outside outcome own content files) ≡ get_key name files
  unfolding write_to
  write_to-other written own name content files h = get_key-put own name content files ∙ rw h
  write_to-other refused own name content files h = refl
  write_to-other (cut_short other) own name content files h =
      get_key-put own name other files ∙ rw h

  keep_failed-other :
      (file_time : ℕ) (message : ServerRequestMessage) (name : Bytes) (w : World Content)
      → str_eq (net_file file_time) name ≡ false
      → get_key name (keep_failed json outside file_time message w).files ≡ get_key name w.files
  unfolding keep_failed
  keep_failed-other file_time message name w h =
      let own = net_file file_time in
      ground (arith, write_to-other (write_outcome own) own name (marshal message) w.files h)

  -- Sending a batch leaves the files of other seconds alone.
  finish-other :
      (gate : HttpGateway) (file_time : ℕ) (message : ServerRequestMessage) (name : Bytes)
      (reply : Reply Body) (w : World Content)
      → str_eq (net_file file_time) name ≡ false
      → (get_key name (finish json outside gate file_time message (reply, w)).1.files
          ≡ get_key name w.files)
        × ((finish json outside gate file_time message (reply, w)).1.posts ≡ w.posts)
  unfolding finish
  finish-other gate file_time message name reply w h =
      elim (Bool-cases (reply_failed json outside reply)) [
        | inl e ↦ rw e (
          keep_failed-other file_time message name w h,
          keep_failed-posts json outside file_time message w,
        )
        | inr e ↦ rw e (refl, refl)
      ]

  IsSafe-grows :
      (name : Bytes) (content : Content) (w w' : World Content) (more : List Content)
      → get_key name w'.files ≡ get_key name w.files
      → w'.posts ≡ w.posts ++ more
      → IsSafe name content w
      → IsSafe name content w'
  IsSafe-grows name content w w' more files posts (inl (there, posted)) =
      inl (files ∙ there, subst (WasPosted content) (sym posts) (posted_grows more posted))
  IsSafe-grows name content w w' more files posts (inr (inl settled)) =
      inr (inl (subst (WasSettled content) (sym posts) (settled_grows more settled)))
  IsSafe-grows name content w w' more files posts (inr (inr resent)) =
      inr (inr (subst (WasResent content) (sym posts) (resent_grows more resent)))

  resend-IsSafe :
      (names : List Bytes) (name : Bytes) (content : Content) (w : World Content)
      → IsSafe name content w
      → IsSafe name content (resend json outside names w)
  resend-IsSafe names name content w (inl (there, posted)) =
      let (more, e) = resend-Grows json outside names w in
      elim (resend-IsKept json outside names name content w there) [
        | inl kept ↦ inl (kept, subst (WasPosted content) (sym e) (posted_grows more posted))
        | inr (gone, (before, later, posts, ok, (middle, k))) ↦ inr (
            inr (
              before,
              later,
              posts,
              ok,
              subst (WasPosted content) (sym k) (posted_grows middle posted),
            ))
      ]
  resend-IsSafe names name content w (inr (inl settled)) =
      let (more, e) = resend-Grows json outside names w in
      inr (inl (subst (WasSettled content) (sym e) (settled_grows more settled)))
  resend-IsSafe names name content w (inr (inr resent)) =
      let (more, e) = resend-Grows json outside names w in
      inr (inr (subst (WasResent content) (sym e) (resent_grows more resent)))

  send-IsSafe :
      (gate : HttpGateway) (batch : Batch) (name : Bytes) (content : Content) (w : World Content)
      → str_eq (net_file batch.file_time) name ≡ false
      → IsSafe name content w
      → IsSafe name content (send_to_server json outside gate batch w).1
  unfolding send_to_server post
  send-IsSafe gate batch name content w other safe =
      let message = message_of gate batch.now batch.containers in
      let w₁ = resend json outside (sort_strings (keys w.files)) w in
      let w₂ : World Content = record w₁ { posts = w₁.posts ++ marshal message ∷ [] } in
      let (files, posts) =
        finish-other gate batch.file_time message name (server w₁.posts (marshal message)) w₂
          other in
      IsSafe-grows name content w₁ _ (marshal message ∷ []) files posts
        (resend-IsSafe (sort_strings (keys w.files)) name content w safe)

  cases-IsFinal :
      (reply : Reply Body)
      → Takes json outside reply ⊎ Refuses json outside reply
      → IsFinal json outside reply
  cases-IsFinal no_reply (inl h) = absurd h
  cases-IsFinal no_reply (inr h) = absurd h
  cases-IsFinal (replied status body) (inl (ok, r, e, success)) = (ok, r, e, inl success)
  cases-IsFinal (replied status body) (inr (ok, r, e, (failure, code))) = (ok, r, e, inr code)

  own-IsSafe :
      (gate : HttpGateway) (batch : Batch) (w : World Content)
      → all_events batch.containers ≢ []
      → write_outcome (net_file batch.file_time) ≡ written
      → IsSafe
          (net_file batch.file_time)
          (marshal (message_of gate batch.now batch.containers))
          (send_to_server json outside gate batch w).1
  own-IsSafe gate batch w has_events writes =
      let (events, posts, fate) =
        send_to_server_cases json outside gate batch w has_events writes in
      elim fate [
        | inl (final, files) ↦ inr (inl (_, [], posts, cases-IsFinal _ final))
        | inr (failed, kept) ↦ inl (kept, (_, ([], posts)))
      ]

  run-IsSafe :
      (gate : HttpGateway) (batches : List Batch) (file_time : ℕ) (content : Content)
      (w : World Content)
      → All (λ b. file_time ≢ b.file_time) batches
      → IsSafe (net_file file_time) content w
      → IsSafe (net_file file_time) content (run json outside gate batches w).0
  unfolding run
  run-IsSafe gate [] file_time content w h safe = safe
  run-IsSafe gate (b ∷ rest) file_time content w h safe =
      run-IsSafe gate rest file_time content (send_to_server json outside gate b w).1 h.1 (
        send-IsSafe gate b (net_file file_time) content w
          (net_file_ne b.file_time file_time (λ e. h.0 (sym e))) safe)

  -- The message of a batch with events is safe in this world.
  abbrev pub MessageIsSafe : HttpGateway → World Content → Batch → Type 0
  MessageIsSafe gate w b =
      all_events b.containers ≢ []
      → IsSafe (net_file b.file_time) (marshal (message_of gate b.now b.containers)) w

  -- While a list of batches is sent whose files can be written and have names of their own, no
  -- message of a batch with events is dropped without a reply of status 200: after all of them, one
  -- of three holds. It was posted and stands in its file. Or it was posted and got a final reply:
  -- status 200 with success, or with error code 1, after which the agent gives the events up. Or it
  -- was posted and later posted again, and that time the reply had status 200, whatever its body.
  pub run_accounts_for_messages :
      (gate : HttpGateway) (batches : List Batch) (w : World Content)
      → HaveOwnSeconds batches
      → All (λ b. write_outcome (net_file b.file_time) ≡ written) batches
      → All (MessageIsSafe gate (run json outside gate batches w).0) batches
  unfolding run
  run_accounts_for_messages gate [] w own writes = tt
  run_accounts_for_messages gate (b ∷ rest) w own writes =
      let w' = (send_to_server json outside gate b w).1 in
      (
        λ has_events.
            run-IsSafe gate rest b.file_time _ w' own.0 (own-IsSafe gate b w has_events writes.0),
        run_accounts_for_messages gate rest w' own.1 writes.1,
      )
