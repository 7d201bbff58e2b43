-- ===== src/Handler/Proxy.antt =====
-- internal/handler/middleware.go: the list of trusted proxies, and the address of a client.
-- Addresses and networks are those of Go's package `net`, a parameter.
pub mod Laws
use fileflow.Common.{
  Bool, Bytes, List, Option, [], bytes_beq, false, get_or, has_byte, if◌then◌else◌, none, some,
  split, trim_space, ℕ, ◌||◌, ◌∷◌,
}
use fileflow.Common.Result.{Result, err, ok, some_or, ◌>>=◌, ◌>>◌}
use mathlib.Core.List.{reverse}

-- `net.IP`, `net.IPNet` and their functions; `host_network bits ip` is the network whose mask has
-- only ones. `split_host` is the host that `net.SplitHostPort` gives.
pub record Net : Type 1 where
  pub Ip : Type 0
  pub Network : Type 0
  pub parse_ip : Bytes → Option Ip
  pub parse_cidr : Bytes → Option Network
  pub is_v4 : Ip → Bool
  pub host_network : ℕ → Ip → Network
  pub contains : Network → Ip → Bool
  pub split_host : Bytes → Option Bytes

-- What the address of a client is found from; a header that is not there reads as empty.
pub record Origin : Type 0 where
  pub remote_addr : Bytes
  pub forwarded_for : Bytes
  pub real_ip : Bytes

module _ (net : Net) where
  open net use {Ip, Network, parse_ip, parse_cidr, is_v4, host_network, contains, split_host}

  -- One entry of the list, or the entry that is reported as invalid.
  unfoldable pub parse_proxy : Bytes → Result Bytes Network
  parse_proxy cidr =
      if has_byte b'/' cidr
      then some_or (parse_cidr cidr) cidr
      else do ip ← some_or (parse_ip cidr) cidr; ok (host_network (if is_v4 ip then 32 else 128) ip)

  unfoldable pub parse_proxies : List Bytes → Result Bytes (List Network)
  unfolding parse_proxy
  parse_proxies [] = ok []
  parse_proxies (c ∷ cs) =
      let cidr = trim_space c in
      let rest = parse_proxies cs in
      if bytes_beq cidr [] then rest else do n ← parse_proxy cidr; ns ← rest; ok (n ∷ ns)

  -- An error leaves the trusted list as it was.
  unfoldable pub set_trusted_proxies :
      List Network → List Bytes → Result Bytes (Unit {0}) × List Network
  unfolding parse_proxies
  set_trusted_proxies old cidrs = elim (parse_proxies cidrs) [
    | ok parsed ↦ (ok tt, parsed)
    | err e ↦ (err e, old)
  ]

  unfoldable pub in_any : List Network → Ip → Bool
  in_any [] ip = false
  in_any (n ∷ ns) ip = contains n ip || in_any ns ip

  unfoldable pub is_trusted : List Network → Bytes → Bool
  unfolding in_any
  is_trusted trusted s = elim (parse_ip s) [ none ↦ false | some ip ↦ in_any trusted ip ]

  -- The loop over the parts of `X-Forwarded-For`, the last one first.
  unfoldable pub last_untrusted : List Network → List Bytes → Option Bytes
  unfolding is_trusted
  last_untrusted trusted [] = none
  last_untrusted trusted (part ∷ parts) =
      let ip = trim_space part in
      let rest = last_untrusted trusted parts in
      if bytes_beq ip [] then rest else if is_trusted trusted ip then rest else some ip

  unfoldable pub forwarded : List Network → Bytes → Option Bytes
  unfolding last_untrusted
  forwarded trusted xff =
      if bytes_beq xff [] then none else last_untrusted trusted (reverse (split b',' xff))

  -- The last steps: `X-Real-IP` if it is an address, or else the host.
  unfoldable pub real_or_host : Bytes → Bytes → Bytes
  real_or_host xri host =
      if bytes_beq xri [] then host else elim (parse_ip xri) [ none ↦ host | some ip ↦ xri ]

  -- The host of the remote address, or all of it where that has no port.
  unfoldable pub remote_host : Bytes → Bytes
  remote_host addr = get_or (split_host addr) addr

  unfoldable pub get_client_ip : List Network → Origin → Bytes
  unfolding remote_host is_trusted forwarded real_or_host
  get_client_ip trusted r =
      let host = remote_host r.remote_addr in
      if is_trusted trusted host
      then get_or (forwarded trusted r.forwarded_for) (real_or_host (trim_space r.real_ip) host)
      else host
