-- ===== src/IpEnricher/DisplayDns/Expressions.antt =====
-- ip_enricher_windows.go: the whole of `_InternalSync`, from the compilation of its expressions on.
use dhound_agent.Base.{
  List, ◌≡◌, ◌⊎◌, inl, inr, Option, none, some, Option-cases, Bool, true, Bytes, codes,
}
use dhound_agent.Regexp.{Regexp}
use dhound_agent.IpEnricher.{IpEnricher}
use dhound_agent.IpEnricher.DisplayDns.Loop.{Attempt, sync_rounds}

pub record Expressions (R : Type 0) : Type 0 where
  pub a_records_regex : R
  pub cname_records_regex : R
  pub delimiter_regex : R
  pub internal_ip_regex : R

abbrev a_records_expression : Bytes
a_records_expression =
    codes
      ": (?P<name>.*?)\r*\n(.*?:.*?\n){4}.*?:( |\t)*(?P<ip>((\\d+\\.){3}[0-9]{1,3})|(([A-f0-9:]+:+)+[A-f0-9]+))"

abbrev cname_records_expression : Bytes
cname_records_expression =
    codes ": (?P<name>.*?)\r*\n(.*?:.*?\n){4}( |\t)+([CNAME]).*?:( |\t)*(?P<cname>\\S+)"

abbrev delimiter_expression : Bytes
delimiter_expression = codes "(\r*)\n(\r*)\n"

abbrev internal_ip_expression : Bytes
internal_ip_expression =
    codes
      "^((0\\.)|(127\\.0\\.0\\.1)|(192\\.168\\.)|(10\\.)|(172\\.(1[6-9]|2[0-9]|3[0-1])\\.)|(fc00:)|(fe80:))"

infixl 5 ◌>>=◌
abbrev ◌>>=◌ : {A B : Type 0} → Option A → (A → Option B) → Option B
none >>= f = none
some a >>= f = f a

module _ (regexp : Regexp) where
  open regexp use {Regex, compile}

  -- `none` where one of the four does not compile.
  pub compile_expressions : Option (Expressions Regex)
  compile_expressions = do
    a_records_regex ← compile a_records_expression
    cname_records_regex ← compile cname_records_expression
    delimiter_regex ← compile delimiter_expression
    internal_ip_regex ← compile internal_ip_expression
    some (record {
      a_records_regex = a_records_regex;
      cname_records_regex = cname_records_regex;
      delimiter_regex = delimiter_regex;
      internal_ip_regex = internal_ip_regex;
    })

  -- The enricher after these rounds, and whether the function has returned.
  pub internal_sync : (Bytes → Bytes) → Bool → List Attempt → IpEnricher → IpEnricher × Bool
  unfolding compile_expressions sync_rounds
  internal_sync to_lower run_once attempts enricher = elim compile_expressions [
    | none ↦ (enricher, true)
    | some e ↦
        sync_rounds regexp to_lower e.a_records_regex e.cname_records_regex e.delimiter_regex
          e.internal_ip_regex run_once attempts enricher
  ]

  -- If one of the four expressions does not compile, the function returns and leaves all as it was,
  -- whatever the command would have printed; if all do, its rounds are those of the loop.
  pub internal_sync_cases :
      (to_lower : Bytes → Bytes) (run_once : Bool) (attempts : List Attempt) (enricher : IpEnricher)
      → (compile_expressions ≡ none)
          × (internal_sync to_lower run_once attempts enricher ≡ (enricher, true))
        ⊎ (e : Expressions Regex) × (compile_expressions ≡ some e)
          × (internal_sync to_lower run_once attempts enricher
              ≡ sync_rounds regexp to_lower e.a_records_regex e.cname_records_regex
                  e.delimiter_regex e.internal_ip_regex run_once attempts enricher)
  unfolding internal_sync
  internal_sync_cases to_lower run_once attempts enricher =
      elim (Option-cases compile_expressions) [
        | inl e ↦ inl (e, rw (e, internal_sync))
        | inr (e, h) ↦ inr (e, h, rw (h, internal_sync))
      ]
