-- ===== src/Program/Waiting.antt =====
-- program.go and ip_enricher_windows.go: a start that waits for ipconfig.
use dhound_agent.Base.{List, [], ◌≡◌, refl, ap, none, true, false, inl, inr, Bytes, All}
use dhound_agent.Events.{SourceState}
use dhound_agent.Regexp.{Regexp}
use dhound_agent.Config.{MainConfig}
use dhound_agent.IpEnricher.DisplayDns.Loop
use dhound_agent.IpEnricher.DisplayDns.Loop.{Attempt, failed}
use dhound_agent.Options.{Options}
use dhound_agent.Program.{Startup, waiting, init_enricher, set_up}
use dhound_agent.Program.Starting.{HasProxy, set_up_cases}

module _ (regexp : Regexp) (to_lower : Bytes → Bytes)
    (a_records_regex cname_records_regex delimiter_regex internal_ip_regex : regexp.Regex)
    {C : Type 0} (startup : Startup C) (runs : List Attempt)
    (windows_init_lem : startup.windows_init
      ≡ Loop.init regexp to_lower a_records_regex cname_records_regex delimiter_regex
          internal_ip_regex runs) where
  open regexp use {Regex}

  -- On Windows, where DNS traffic is tracked, the start waits as long as ipconfig fails.
  set_up_waits :
      (options : Options) (config : MainConfig Regex) (sources : List SourceState)
      → startup.is_windows ≡ true
      → config.input.track_dns_traffic ≡ true
      → HasProxy startup config
      → All (λ a. a ≡ failed) runs
      → set_up startup options config sources ≡ waiting
  unfolding init_enricher
  set_up_waits options config sources windows track proxy fail =
      elim (set_up_cases startup options config sources) [
        | inl (bad, e) ↦ absurd (bad proxy)
        | inr (inl (good, never, e)) ↦ e
        | inr (inr (good, returns, more)) ↦
            absurd (let stays = init_enricher-false in cc (returns, stays))
      ]
    where
      init_enricher-false : (init_enricher startup config).1 ≡ false
      init_enricher-false =
          rw (windows, track, windows_init_lem)
            (ap (λ p. p.1)
              (Loop.init_waits regexp to_lower a_records_regex cname_records_regex delimiter_regex
                internal_ip_regex runs [] []
                (record { track_dns_traffic = true; ip_to_services_map = none }) refl fail).0)
