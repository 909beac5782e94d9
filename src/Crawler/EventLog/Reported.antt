-- ===== src/Crawler/EventLog/Reported.antt =====
-- crawler_wineventlog_windows.go: what stands in the containers, and how far a source was read.
use dhound_agent.Base.{
  ℕ, ◌<◌, List, [], ◌∷◌, ◌++◌, ◌≡◌, refl, ◌⊎◌, inl, inr, Option, none, some, Bool, not, ltb, arith,
  length, All, All-append, Bytes, Dict, Bool-cases, Option-cases, codes, value_of,
}
use dhound_agent.Events.{SecurityEvent, SecurityEventsContainer, SourceState}
use dhound_agent.Regexp.{Regexp}
use dhound_agent.Config.{SecurityEventConfig, RuleConfig}
use dhound_agent.Utils.{contains_uint}
use dhound_agent.Utils.Matching.{apply_exclude_filter_to_security_events, regex_find_all_submatches}
use dhound_agent.Utils.Duplicates.{clean-All}
use dhound_agent.Conversions.{force_atoui}
use dhound_agent.Crawler.Parsing.{put_fields}
use dhound_agent.Crawler.EventLog.{
  win_event_id_search_list, event_of_map, parse_item, parse_items, parse_result, report, LogView,
  crawl_path,
}

-- What an event of a filter has: an address, and the source and the ids of the filter.
abbrev pub IsOf : {R : Type 0} → Bytes → SecurityEventConfig R → SecurityEvent → Type 0
IsOf path filter event =
    (0 < length event.ip_address)
    × (event.source ≡ some path)
    × (event.security_id ≡ filter.sid)
    × (event.critical ≡ filter.critical)
    × (0 < length filter.win_event_ids)

-- An event of one of the filters.
abbrev pub IsOfSome : {R : Type 0} → Bytes → List (SecurityEventConfig R) → SecurityEvent → Type 0
IsOfSome path [] event = ⊥
IsOfSome path (filter ∷ rest) event = IsOf path filter event ⊎ IsOfSome path rest event

All-map {ℓ κ} :
    {A : Type ℓ} (P Q : A → Type κ) → ((a : A) → P a → Q a) → (xs : List A) → All P xs → All Q xs
All-map P Q f [] h = tt
All-map P Q f (x ∷ xs) h = (f x h.0, All-map P Q f xs h.1)

module _ (regexp : Regexp) (win_event_fields_regex : regexp.Regex) (parse_time : Bytes → Option ℕ)
    (uint_bits : ℕ) where
  open regexp use {Regex}

  event_of_map-IsOf :
      (path : Bytes) (filter : SecurityEventConfig Regex) (m : Dict Bytes)
      → 0 < length filter.win_event_ids
      → All
          (IsOf path filter)
          (event_of_map regexp win_event_fields_regex parse_time uint_bits path filter m)
  unfolding event_of_map
  event_of_map-IsOf path filter m h =
      elim (Bool-cases
        (apply_exclude_filter_to_security_events regexp filter.exclude_compiled_regex m)) [
          | inl e ↦ rw e tt
          | inr e ↦ elim (Option-cases (parse_time (value_of [] (codes "_eventTime") m))) [
            | inl f ↦ rw (e, f, event_of_map) tt
            | inr (time, f) ↦ elim (Bool-cases (ltb (length (value_of [] (codes "ip") m)) 1)) [
              | inl g ↦ rw (e, f, event_of_map, g) tt
              | inr g ↦ rw (e, f, event_of_map, g) ((ground arith, refl, refl, refl, h), tt)
            ]
          ]
        ]

  parse_item-IsOf :
      (path : Bytes) (filter : SecurityEventConfig Regex) (item : Bytes)
      → 0 < length filter.win_event_ids
      → All
          (IsOf path filter)
          (parse_item regexp win_event_fields_regex parse_time uint_bits path filter item)
  unfolding parse_item
  parse_item-IsOf path filter item h = elim (Bool-cases unwanted) [
    | inl e ↦ rw (e, parse_item) tt
    | inr e ↦ elim (Option-cases filter.compiled_regex) [
      | inl f ↦ rw (e, f, parse_item) tt
      | inr (regex, f) ↦
          rw (e, f, parse_item)
            (event_of_map-IsOf path filter
              (regex_find_all_submatches regexp item regex (put_fields filter.fields base)) h)
    ]
  ]
    where
      base : Dict Bytes
      base = regex_find_all_submatches regexp item win_event_fields_regex []

      unwanted : Bool
      unwanted = not (
          contains_uint filter.win_event_ids
            (force_atoui uint_bits (value_of [] (codes "eventid") base)))

  parse_items-IsOf :
      (path : Bytes) (filter : SecurityEventConfig Regex) (items : List Bytes)
      → 0 < length filter.win_event_ids
      → All
          (IsOf path filter)
          (parse_items regexp win_event_fields_regex parse_time uint_bits path filter items)
  unfolding parse_items
  parse_items-IsOf path filter [] h = tt
  parse_items-IsOf path filter (item ∷ rest) h =
      All-append (IsOf path filter) _ _ (parse_item-IsOf path filter item h)
        (parse_items-IsOf path filter rest h)

  parse_result-IsOfSome :
      (path : Bytes) (result : List Bytes) (filters : List (SecurityEventConfig Regex))
      → All
          (IsOfSome path filters)
          (parse_result regexp win_event_fields_regex parse_time uint_bits path result filters)
  unfolding parse_result
  parse_result-IsOfSome path result [] = tt
  parse_result-IsOfSome path result (filter ∷ rest) =
      let others =
        All-map (IsOfSome path rest) (IsOfSome path (filter ∷ rest)) (λ e k. inr k) _
          (parse_result-IsOfSome path result rest) in
      elim (Bool-cases (ltb (length filter.win_event_ids) 1)) [
        | inl e ↦ rw e others
        | inr e ↦ rw e (
            All-append (IsOfSome path (filter ∷ rest)) _ _
              (All-map (IsOf path filter) (IsOfSome path (filter ∷ rest)) (λ e k. inl k) _
                (parse_items-IsOf path filter result (ground arith)))
              others)
      ]

  -- A container of one source, whose position is the second of the query.
  abbrev pub IsReport : RuleConfig Regex → LogView → Bytes → Option SecurityEventsContainer → Type 0
  IsReport rule view path none = Unit {0}
  IsReport rule view path (some c) =
      (c.source_id ≡ rule.rule_file_name ++ codes "_" ++ path)
      × (c.offset ≡ view.query_time)
      × All (IsOfSome path rule.events) c.security_events

  report-IsReport :
      (rule : RuleConfig Regex) (view : LogView) (path : Bytes) (sources : List SourceState)
      (pointer : ℕ) (answer : Option (List Bytes))
      → IsReport rule view path
          (report regexp win_event_fields_regex parse_time uint_bits rule path
            (rule.rule_file_name ++ codes "_" ++ path)
            view.query_time
            sources
            pointer
            answer).1
  unfolding report
  report-IsReport rule view path sources pointer none = tt
  report-IsReport rule view path sources pointer (some result) =
      (refl, refl, clean-All _ _ (parse_result-IsOfSome path result rule.events))

  -- Whatever the system answers: if a round for a source sends a container, it has the id made of the
  -- rule's name and the path, and the second of the query as its position, and every event in it
  -- comes from a filter of the rule that names event ids: it has that filter's id and its mark for
  -- critical events, the path as its source, and an address.
  pub crawl_path-IsReport :
      (rule : RuleConfig Regex) (view : LogView) (path : Bytes) (sources : List SourceState)
      → IsReport rule view path
          (crawl_path regexp win_event_fields_regex parse_time uint_bits rule view path sources).1
  unfolding crawl_path
  crawl_path-IsReport rule view path sources =
      elim (Bool-cases (ltb (length (win_event_id_search_list rule.events [])) 1)) [
        | inl e ↦ rw e tt
        | inr e ↦ rw e (report-IsReport rule view path _ _ _)
      ]
