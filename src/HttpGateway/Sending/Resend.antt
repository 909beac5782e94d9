-- ===== src/HttpGateway/Sending/Resend.antt =====
-- http_gateway.go: which files of failed requests go away.
use dhound_agent.Base.{
  List, [], ◌∷◌, ◌++◌, ◌≡◌, ◌∙◌, ap, sym, subst, ◌⊎◌, inl, inr, none, some, true, false, arith,
  Bytes, Dict, get_key, str_eq, str_eq_iff, str_eq_refl, if◌then◌else◌, append_assoc, append-nil,
  Option-cases, Bool-cases, some_inj,
}
use dhound_agent.HttpGateway.{Json, replied, World, delete}
use dhound_agent.HttpGateway.Sending.{
  Outside, post, status_ok, resend_content, resend_file, resend, reply_failed,
}
use dhound_agent.HttpGateway.Sending.Delivery.{IsFinal, reply_failed_iff}

get_key-delete {ℓ} :
    {V : Type ℓ} (name other : Bytes) (m : Dict V)
    → get_key other (delete name m) ≡ (if str_eq name other then none else get_key other m)
unfolding delete get_key
get_key-delete name other [] = ground arith
get_key-delete name other ((key, value) ∷ rest) = ground (
  arith,
  str_eq_iff key name,
  str_eq_iff key other,
  str_eq_iff name other,
  get_key-delete name other rest,
)

module _ (json : Json) (outside : Outside json) where
  open json use {Content, Body}
  open outside use {server, read_fails, remove_fails}

  -- The content was posted, after the posts `earlier`, and the reply had status 200.
  abbrev pub WasAnswered : List Content → Content → List Content → Type 0
  WasAnswered earlier content posts =
      (before : List Content) × (later : List Content) × (posts ≡ before ++ content ∷ later)
      × (status_ok json outside (server before content) ≡ true)
      × ((middle : List Content) × (before ≡ earlier ++ middle))

  -- A file with this content is still there, or it is gone and was answered after `earlier`.
  abbrev pub IsKept : List Content → Bytes → Content → World Content → Type 0
  IsKept earlier name content w =
      (get_key name w.files ≡ some content)
      ⊎ ((get_key name w.files ≡ none) × WasAnswered earlier content w.posts)

  -- Each round only adds posts.
  abbrev pub Grows : World Content → World Content → Type 0
  Grows w w' = (more : List Content) × (w'.posts ≡ w.posts ++ more)

  resend_content-Grows :
      (name : Bytes) (content : Content) (w : World Content)
      → Grows w (resend_content json outside name content w)
  unfolding resend_content post
  resend_content-Grows name content w = (content ∷ [], ground arith)

  pub resend_file_cases {κ} :
      (P : World Content → Type κ) (name : Bytes) (w : World Content)
      → P w
      → ((content : Content)
          → get_key name w.files ≡ some content
          → P (resend_content json outside name content w))
      → P (resend_file json outside name w)
  unfolding resend_file
  resend_file_cases P name w same again = elim (Option-cases (get_key name w.files)) [
    | inl e ↦ rw (e, resend_file) same
    | inr (content, e) ↦ elim (Bool-cases (read_fails name)) [
      | inl f ↦ rw (e, resend_file, f) same
      | inr f ↦ rw (e, resend_file, f) (again content e)
    ]
  ]

  resend_content-files :
      (name other : Bytes) (w : World Content) (again content : Content)
      → get_key name w.files ≡ some again
      → get_key other w.files ≡ some content
      → IsKept w.posts other content (resend_content json outside name again w)
  unfolding resend_content post
  resend_content-files name other w again content k h =
      elim (Bool-cases (status_ok json outside (server w.posts again))) [
        | inr bad ↦ rw bad (inl h)
        | inl good ↦ elim (Bool-cases (remove_fails name)) [
          | inl fails ↦ rw (good, fails) (inl h)
          | inr gone ↦ elim (Bool-cases (str_eq name other)) [
            | inr ne ↦ rw (good, gone) (inl (get_key-delete name other w.files ∙ rw ne h))
            | inl eq ↦
                let same : again ≡ content =
                  some_inj
                    (sym k ∙ ap (λ n. get_key n w.files) ((str_eq_iff name other).0 eq) ∙ h) in
                rw (good, gone)
                  (inr (
                    get_key-delete name other w.files ∙ rw eq,
                    (
                      w.posts,
                      [],
                      ap (λ c. w.posts ++ c ∷ []) same,
                      rw (← same) good,
                      ([], sym (append-nil w.posts)),
                    ),
                  ))
          ]
        ]
      ]

  resend_file-files :
      (name other : Bytes) (w : World Content) (content : Content)
      → get_key other w.files ≡ some content
      → IsKept w.posts other content (resend_file json outside name w)
  resend_file-files name other w content h =
      resend_file_cases (IsKept w.posts other content) name w (inl h)
        (λ again e. resend_content-files name other w again content e h)

  answered_grows :
      (earlier : List Content) {content : Content} {posts : List Content} (more : List Content)
      → WasAnswered earlier content posts
      → WasAnswered earlier content (posts ++ more)
  answered_grows earlier more a = (a.0, a.1 ++ more, rw a.2 (append_assoc a.0 _ more), a.3, a.4)

  -- What is answered after some posts is answered after the first of them.
  IsKept-earlier :
      (earlier more : List Content) (name : Bytes) (content : Content) (w : World Content)
      → IsKept (earlier ++ more) name content w
      → IsKept earlier name content w
  IsKept-earlier earlier more name content w (inl there) = inl there
  IsKept-earlier earlier more name content w (inr (gone, (before, later, e, ok, (middle, k)))) =
      inr (gone, (before, later, e, ok, (more ++ middle, k ∙ append_assoc earlier more middle)))

  resend_content-none :
      (n name : Bytes) (content : Content) (w : World Content)
      → get_key name w.files ≡ none
      → get_key name (resend_content json outside n content w).files ≡ none
  unfolding resend_content post
  resend_content-none n name content w h = ground (arith, get_key-delete n name w.files)

  resend_file-none :
      (n name : Bytes) (w : World Content)
      → get_key name w.files ≡ none
      → get_key name (resend_file json outside n w).files ≡ none
  resend_file-none n name w h =
      resend_file_cases (λ w'. get_key name w'.files ≡ none) n w h
        (λ content e. resend_content-none n name content w h)

  resend-none :
      (names : List Bytes) (name : Bytes) (w : World Content)
      → get_key name w.files ≡ none
      → get_key name (resend json outside names w).files ≡ none
  unfolding resend
  resend-none [] name w h = h
  resend-none (n ∷ names) name w h =
      resend-none names name (resend_file json outside n w) (resend_file-none n name w h)

  resend_file-Grows : (name : Bytes) (w : World Content) → Grows w (resend_file json outside name w)
  resend_file-Grows name w =
      resend_file_cases (Grows w) name w ([], sym (append-nil w.posts))
        (λ content e. resend_content-Grows name content w)

  pub resend-Grows :
      (names : List Bytes) (w : World Content) → Grows w (resend json outside names w)
  unfolding resend
  resend-Grows [] w = ([], sym (append-nil w.posts))
  resend-Grows (n ∷ names) w =
      let first = resend_file-Grows n w in
      let rest = resend-Grows names (resend_file json outside n w) in
      (
        first.0 ++ rest.0,
        rest.1 ∙ ap (λ l. l ++ rest.0) first.1 ∙ append_assoc w.posts first.0 rest.0,
      )

  -- A file of a failed request is there after the round of all files, with its content, unless it
  -- was posted again and answered with status 200; then it is gone.
  pub resend-IsKept :
      (names : List Bytes) (name : Bytes) (content : Content) (w : World Content)
      → get_key name w.files ≡ some content
      → IsKept w.posts name content (resend json outside names w)
  unfolding resend
  resend-IsKept [] name content w h = inl h
  resend-IsKept (n ∷ names) name content w h =
      let w' = resend_file json outside n w in
      let (more, e) = resend-Grows names w' in
      elim (resend_file-files n name w content h) [
        | inl there ↦
            let (first, grown) = resend_file-Grows n w in
            IsKept-earlier w.posts first name content (resend json outside names w') (
              subst (λ l. IsKept l name content (resend json outside names w')) grown
                (resend-IsKept names name content w' there))
        | inr (gone, answered) ↦ inr (
          resend-none names name w' gone,
          subst (WasAnswered w.posts content) (sym e) (answered_grows w.posts more answered),
        )
      ]

  -- A file of a failed request that can be read and removed is removed as soon as the status is
  -- 200, also if the body is one for which `SendToServer` would keep a new message.
  resend_ignores_body :
      (name : Bytes) (content : Content) (w : World Content) (body : Body)
      → get_key name w.files ≡ some content
      → read_fails name ≡ false
      → remove_fails name ≡ false
      → server w.posts content ≡ replied 200 body
      → ¬ IsFinal json outside (replied 200 body)
      → (reply_failed json outside (server w.posts content) ≡ true)
        × (get_key name (resend_file json outside name w).files ≡ none)
  unfolding resend_file resend_content post
  resend_ignores_body name content w body h r d s bad = (
    rejected,
    rw (h, resend_file, r, s, d) (get_key-delete name name w.files ∙ rw (str_eq_refl name)),
  )
    where
      rejected : reply_failed json outside (server w.posts content) ≡ true
      rejected = elim (Bool-cases (reply_failed json outside (replied 200 body))) [
        | inl e ↦ rw s e
        | inr e ↦ absurd (bad ((reply_failed_iff json outside (replied 200 body)).0 e))
      ]
