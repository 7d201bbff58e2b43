-- ===== src/Server/Start.antt =====
-- cmd/server/main.go: what holds of a server that starts.
use fileflow.Common.{
  Bool, Bool-cases, Bytes, [], ap, arith, bytes_beq, codes, false, if◌then◌else◌, inl, inr, int_beq,
  int_beq_iff, ne_of_bytes_beq, negsuc, not, pos, refl, subst, true, ℕ, ℤ, ◌&&◌, ◌+◌, ◌||◌, ◌≡◌,
  ◌≢◌, ◌⊎◌, bytes_key,
}
use fileflow.Common.Result.{>>=-eq-ok, Result-cases, err-ne-ok, ok, ok-inj, require, require-eq-ok}
use fileflow.Limit.{RateLimit}
use fileflow.Store.{Database, get_config}
use fileflow.Handler.Proxy.{Net}
use fileflow.Realtime.Events.{max_message_size}
use fileflow.Handler.Api.{default_ticket_ttl, new_handler}
use fileflow.Server.{
  Env, Readers, Server, ServerConfig, app_domain_required, dev_session_key, get_env, is_dev_env,
  load_config, load_proxies, load_secret_hash, resolve_session_key, start,
}

-- The key that tokens are signed with: a key of its own, or the key for development where this is
-- asked for and cookies are not secure.
abbrev pub IsSafeKey : Env → Bool → Bytes → Type 0
IsSafeKey env secure_cookies key =
    (key ≢ [])
    × ((key ≢ dev_session_key)
        ⊎ ((key ≡ dev_session_key) × (secure_cookies ≡ false) × (is_dev_env env ≡ true)))

is_false_of : (a b : Bool) → (a || b) ≡ false → a ≡ false
is_false_of a b e = ground arith

is_true_of : (b : Bool) → (false || not b) ≡ false → b ≡ true
is_true_of b e = ground arith

resolve_session_key-IsSafeKey :
    (env : Env) (secure_cookies : Bool) (key : Bytes)
    → resolve_session_key env secure_cookies ≡ ok key
    → IsSafeKey env secure_cookies key
unfolding resolve_session_key
resolve_session_key-IsSafeKey env secure_cookies key e =
    let given : Bytes = env (codes "SESSION_KEY") in
    elim (Bool-cases (bytes_beq given [] || bytes_beq given dev_session_key)) [
      | inr own ↦
          let same : given ≡ key = ground arith in
          rw (← same) (
            ne_of_bytes_beq given [] (ground (arith, own)),
            inl (ne_of_bytes_beq given dev_session_key (ground (arith, own))),
          )
      | inl default ↦ elim (Bool-cases (secure_cookies || not (is_dev_env env))) [
        | inl secure ↦ absurd (err-ne-ok (rw (default, secure, resolve_session_key) at e))
        | inr dev ↦
            let off : secure_cookies ≡ false =
              is_false_of secure_cookies (not (is_dev_env env)) dev in
            let on : is_dev_env env ≡ true = is_true_of (is_dev_env env) (rw (off) at dev) in
            let same : dev_session_key ≡ key =
              ok-inj (rw (default, dev, resolve_session_key) at e) in
            rw (← same) (λ q. cc, inr (refl, off, on))
      ]
    ]

module _ (rl : RateLimit) (net : Net) (db : Database) (readers : Readers rl) where
  load_secret_hash_lem :
      (env : Env) (s : db.State) (hash : Bytes)
      → load_secret_hash rl net db readers env s ≡ ok hash
      → hash ≢ []
  unfolding load_secret_hash
  load_secret_hash_lem env s hash e =
      let given : Bytes = env (codes "APP_SECRET_HASH") in
      elim (Bool-cases (bytes_beq given [])) [
        | inr set ↦
            let same : given ≡ hash = ground arith in rw (← same) (ne_of_bytes_beq given [] set)
        | inl unset ↦ elim (Result-cases (get_config db (codes "secret_hash") s)) [
          | inr (x, f) ↦ absurd (err-ne-ok (rw (unset, f, load_secret_hash) at e))
          | inl (stored, f) ↦ elim (Bool-cases (bytes_beq stored [])) [
            | inl empty ↦ absurd (err-ne-ok (rw (unset, f, empty, load_secret_hash) at e))
            | inr some_hash ↦
                let same : stored ≡ hash =
                  ok-inj (rw (unset, f, some_hash, load_secret_hash) at e) in
                rw (← same) (ne_of_bytes_beq stored [] some_hash)
          ]
        ]
      ]

  -- What is safe about a server that starts in an environment.
  pub record IsSafe (env : Env) (server : Server rl net db readers) : Type 0 where
    pub key : IsSafeKey env server.handler.secure_cookies server.handler.token_secret
    pub hash : server.handler.secret_hash ≢ []
    -- In production only one origin may open a WebSocket.
    pub origin :
        (get_env env (codes "ENV") [] ≢ codes "prod") ⊎ (server.handler.allowed_origin ≢ [])
    pub ticket_ttl : server.handler.device_ticket_ttl ≡ default_ticket_ttl
    pub limited : server.handler.max_ws_msg_bytes ≢ pos 0

  abbrev abs : ℤ → ℕ
  abs (pos n) = n
  abs (negsuc n) = n + 1

  some_limit : (n : ℤ) → (if int_beq n (pos 0) then pos max_message_size else n) ≢ pos 0
  some_limit n q = elim (Bool-cases (int_beq n (pos 0))) [
    | inl same ↦ let clash : max_message_size ≡ 0 = ap abs (rw same at q) in ground (arith, clash)
    | inr other ↦ let e : n ≡ pos 0 = rw other at q in cc ((int_beq_iff n (pos 0)).1 e)
  ]

  some_origin :
      (domain name : Bytes)
      → require (not (bytes_beq domain [] && bytes_beq name (codes "prod"))) app_domain_required
        ≡ ok tt
      → (name ≢ codes "prod") ⊎ (domain ≢ [])
  some_origin domain name e = elim (Bool-cases (bytes_beq domain [])) [
    | inr set ↦ inr (ne_of_bytes_beq domain [] set)
    | inl empty ↦
        let good : not (bytes_beq domain [] && bytes_beq name (codes "prod")) ≡ true =
          require-eq-ok _ _ e in
        inl (ne_of_bytes_beq name (codes "prod") (ground (arith, empty, good)))
  ]

  -- A server starts only with a key for tokens and a hash of the secret that are not empty; the key
  -- is the one for development only if the environment is for development and cookies are not
  -- secure. In production it has an allowed origin. A device ticket lasts 15 minutes, and a limit of
  -- 0 bytes for a message was replaced.
  pub start-IsSafe :
      (env : Env) (s : db.State) (server : Server rl net db readers)
      → start rl net db readers env s ≡ ok server
      → IsSafe env server
  unfolding start new_handler load_config
  start-IsSafe env s server e =
      let cfg : ServerConfig rl net db readers = load_config rl net db readers env in
      let prod : Bool =
        bytes_beq cfg.app_domain [] && bytes_beq (get_env env (codes "ENV") []) (codes "prod") in
      let (u, e₁, r₁) = >>=-eq-ok (require (not prod) app_domain_required) _ e in
      let (hash, e₂, r₂) = >>=-eq-ok (load_secret_hash rl net db readers env s) _ r₁ in
      let (key, e₃, r₃) = >>=-eq-ok (resolve_session_key env cfg.secure_cookies) _ r₂ in
      let (trusted, e₄, r₄) = >>=-eq-ok (load_proxies rl net db readers env) _ r₃ in
      let same = ok-inj r₄ in
      subst (IsSafe env) same (record {
        key = resolve_session_key-IsSafeKey env cfg.secure_cookies key e₃;
        hash = load_secret_hash_lem env s hash e₂;
        origin = some_origin cfg.app_domain (get_env env (codes "ENV") []) e₁;
        ticket_ttl = refl;
        limited = some_limit cfg.max_ws_msg_bytes;
      })
