-- ===== src/HttpGateway/Client.antt =====
-- http_gateway.go: the client that `Init` makes. Durations are nanoseconds, and what `url.Parse` takes
-- is a parameter.
use dhound_agent.Base.{
  ℕ, ℤ, negsuc, ◌*◌, Option, none, some, Bool, true, ltb, if◌then◌else◌, length, Bytes,
}

-- The settings of the transport and of the client that are not the defaults.
pub record Client : Type 0 where
  pub disable_keep_alives : Bool
  pub max_idle_conns : ℤ
  pub idle_conn_timeout : ℕ
  pub disable_compression : Bool
  pub proxy : Option Bytes
  pub timeout : ℕ

abbrev millisecond : ℕ
millisecond = 1_000_000

unfoldable pub client_with : Option Bytes → Client
client_with proxy = record {
  disable_keep_alives = true;
  max_idle_conns = negsuc 0;
  idle_conn_timeout = 10 * 1000 * millisecond;
  disable_compression = true;
  proxy = proxy;
  timeout = 15000 * millisecond;
}

-- `none` is the panic at a proxy that is no URL.
unfoldable pub make_client : (Bytes → Bool) → Bytes → Option Client
unfolding client_with
make_client is_url proxy =
    if ltb 0 (length proxy)
    then (if is_url proxy then some (client_with (some proxy)) else none)
    else some (client_with none)
