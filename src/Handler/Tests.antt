-- ===== src/Handler/Tests.antt =====
-- Runs of the middleware of internal/handler on the sample server.
use fileflow.Common.{
  Bytes, List, [], codes, inl, inr, none, refl, some, split, trim_left, trim_space, true, ℕ, ◌+◌,
  ◌↔◌, ◌∷◌, ◌≡◌, ◌⊎◌, bytes_key,
}
use fileflow.Common.Result.{err, ok}
use fileflow.Limit.{ip_allow}
use fileflow.Handler.Http.{Method, healthy, options, other_method}
use fileflow.Handler.Proxy.{get_client_ip, in_any, is_trusted, remote_host, set_trusted_proxies}
use fileflow.Handler.Proxy.Laws.{
  Any, Covers, IsInvalid, get_client_ip_forwarded, set_trusted_proxies_lem,
}
use fileflow.Handler.Sample.{proxy, small_net, through_proxy, tokens}
use fileflow.Handler.Middleware.{Body, Headers, RateLimiter, Reply, new_rate_limiter, rate_allow}
use fileflow.Handler.Middleware.Visitors.{forget, rate_allow-ip_allow}
use fileflow.Handler.Middleware.Through.{Visit}

get_client_ip_forwarded_example :
    get_client_ip small_net (proxy ∷ []) through_proxy ≡ trim_space (codes " 1.2.3.4")
unfolding is_trusted in_any split remote_host trim_space trim_left
get_client_ip_forwarded_example =
    get_client_ip_forwarded small_net (proxy ∷ []) through_proxy (codes "6.6.6.6" ∷ [])
      (codes "10.0.0.1" ∷ codes " " ∷ []) (codes " 1.2.3.4") refl refl (inr refl, (inl refl, tt))
      (λ e. cc) refl

set_trusted_proxies_lem_example :
    let (r, now) = set_trusted_proxies small_net [] (codes " 10.0.0.1" ∷ []) in
    ((r ≡ ok tt)
      × ((is_trusted small_net now proxy ≡ true)
          ↔ Any small_net (Covers small_net proxy) (codes " 10.0.0.1" ∷ [])))
    ⊎ ((bad : Bytes) × (r ≡ err bad)
        × (now ≡ [])
        × Any small_net (IsInvalid small_net bad) (codes " 10.0.0.1" ∷ []))
set_trusted_proxies_lem_example =
    set_trusted_proxies_lem small_net [] (codes " 10.0.0.1" ∷ []) proxy proxy refl

abbrev visitors : RateLimiter tokens
visitors = new_rate_limiter tokens tt 1

rate_allow-ip_allow_example :
    let (allowed, l') = rate_allow tokens visitors proxy 10 in
    ip_allow tokens (forget tokens visitors) proxy 10 ≡ (allowed, forget tokens l')
rate_allow-ip_allow_example = rate_allow-ip_allow tokens visitors proxy 10

abbrev sent : Body
sent = record { unread = codes "{}"; room = none }

-- Two requests through the proxy, a preflight between them, and one from elsewhere.
abbrev visit : Bytes → Method → Visit
visit ip method = record {
  ip = ip;
  now = 10;
  elapsed = 3;
  method = method;
  path = codes "/api/login";
  origin = codes "https://ff.example";
  body = sent;
}

abbrev some_visits : List Visit
some_visits =
    visit proxy other_method
    ∷ visit proxy options
    ∷ visit (codes "1.2.3.4") other_method
    ∷ visit proxy other_method
    ∷ []

-- Routes that answer every request, and count.
abbrev answer_all : Headers → Body × ℕ → Reply × (Body × ℕ)
answer_all hs (body, n) =
    (record { written = some 200; headers = hs; answer = some healthy }, (body, n + 1))
