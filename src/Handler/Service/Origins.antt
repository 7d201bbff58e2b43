-- ===== src/Handler/Service/Origins.antt =====
-- internal/handler/api.go: the tokens that the answers set as cookies, and what they were given for.
use fileflow.Common.{
  All, Bytes, List, Option, [], inl, inr, none, some, subst, ℕ, ◌<◌, ◌∷◌, ◌≡◌, ◌⊎◌,
}
use fileflow.Handler.Service.Entitled.{IsEntitled}
use fileflow.Auth.Session.{Cookie}
use fileflow.Auth.Token.{sign, version_device_ticket, version_session}
use fileflow.Common.Result.{ok}
use fileflow.Limit.{RateLimit}
use fileflow.Auth.Platform.{Platform}
use fileflow.Handler.Proxy.{Net}
use fileflow.Handler.Http.{Response}
use fileflow.Handler.Api.{Handler}
use fileflow.Store.{Database}
use fileflow.Handler.Service.{
  Ask, Served, World, asked, attests, enrolls, logs_in, opened, seeks_challenge, serve, sweeps,
}
use fileflow.Handler.Service.Ledger.{Asks}
use fileflow.Handler.Service.Earned.{IsEarned}

module _ (p : Platform) (db : Database) (rl : RateLimit) (net : Net) (h : Handler) where
  -- A token that is the value of one of these cookies.
  abbrev pub Sets : List Cookie → Bytes → Type 0
  Sets [] token = ⊥
  Sets (c ∷ cs) token = (c.value ≡ token) ⊎ Sets cs token

  abbrev pub Gives : Option Response → Bytes → Type 0
  Gives none token = ⊥
  Gives (some response) token = Sets response.set_cookies token

  -- One of the answers to these requests has set the token as a cookie.
  abbrev pub GaveOut :
      {start w : World p db rl net h} {asks : Asks p db rl net h}
      → Served p db rl net h start w asks
      → Bytes
      → Type 0
  GaveOut opened token = ⊥
  GaveOut (asked {w = v} a served) token =
      Gives (serve p db rl net h v a).0 token ⊎ GaveOut served token

  -- One of the requests to attest this device was earned from those before it.
  abbrev pub WasAttested : World p db rl net h → Asks p db rl net h → Bytes → Type 0
  WasAttested start [] id = ⊥
  WasAttested start (attests r now ∷ asks) id =
      ((earned : IsEarned p db rl net h start asks r now) × (earned.body.device_id ≡ id))
      ⊎ WasAttested start asks id
  WasAttested start (enrolls r now ∷ asks) id = WasAttested start asks id
  WasAttested start (seeks_challenge r random uuid now ∷ asks) id = WasAttested start asks id
  WasAttested start (logs_in trusted r uuid now ∷ asks) id = WasAttested start asks id
  WasAttested start (sweeps now ∷ asks) id = WasAttested start asks id

  -- One of the logins, for which the server chose this identifier, was entitled to it by those
  -- before it.
  abbrev pub WasLetIn : Asks p db rl net h → Bytes → Type 0
  WasLetIn [] id = ⊥
  WasLetIn (logs_in trusted r uuid now ∷ asks) id =
      (IsEntitled p db rl net h asks r now × (uuid ≡ id)) ⊎ WasLetIn asks id
  WasLetIn (enrolls r now ∷ asks) id = WasLetIn asks id
  WasLetIn (seeks_challenge r random uuid now ∷ asks) id = WasLetIn asks id
  WasLetIn (attests r now ∷ asks) id = WasLetIn asks id
  WasLetIn (sweeps now ∷ asks) id = WasLetIn asks id

  -- The text of a UUID is ASCII.
  abbrev pub AsciiIds : Asks p db rl net h → Type 0
  AsciiIds [] = Unit {0}
  AsciiIds (logs_in trusted r uuid now ∷ asks) = All (λ b. b < 128) uuid × AsciiIds asks
  AsciiIds (enrolls r now ∷ asks) = AsciiIds asks
  AsciiIds (seeks_challenge r random uuid now ∷ asks) = AsciiIds asks
  AsciiIds (attests r now ∷ asks) = AsciiIds asks
  AsciiIds (sweeps now ∷ asks) = AsciiIds asks

  abbrev pub SignedFor : (Bytes → Type 0) → ℕ → ℕ → Bytes → Type 0
  SignedFor For version ttl token =
      (id : Bytes) × (at_time : ℕ) × For id
      × All (λ b. b < 128) id
      × (sign p h.token_secret id version ttl at_time ≡ ok token)

  -- A token is a ticket of an attested device, or a session of a login that was let in.
  abbrev pub HasOrigin : World p db rl net h → Asks p db rl net h → Bytes → Type 0
  HasOrigin start asks token =
      SignedFor (WasAttested start asks) version_device_ticket h.device_ticket_ttl token
      ⊎ SignedFor (WasLetIn asks) version_session h.session_ttl token

  WasAttested-later :
      (start : World p db rl net h) (a : Ask p db rl net h) (asks : Asks p db rl net h) (id : Bytes)
      → WasAttested start asks id
      → WasAttested start (a ∷ asks) id
  WasAttested-later start (attests r now) asks id was = inr was
  WasAttested-later start (enrolls r now) asks id was = was
  WasAttested-later start (seeks_challenge r random uuid now) asks id was = was
  WasAttested-later start (logs_in trusted r uuid now) asks id was = was
  WasAttested-later start (sweeps now) asks id was = was

  WasLetIn-later :
      (a : Ask p db rl net h) (asks : Asks p db rl net h) (id : Bytes)
      → WasLetIn asks id
      → WasLetIn (a ∷ asks) id
  WasLetIn-later (logs_in trusted r uuid now) asks id was = inr was
  WasLetIn-later (enrolls r now) asks id was = was
  WasLetIn-later (seeks_challenge r random uuid now) asks id was = was
  WasLetIn-later (attests r now) asks id was = was
  WasLetIn-later (sweeps now) asks id was = was

  pub HasOrigin-later :
      (start : World p db rl net h) (a : Ask p db rl net h) (asks : Asks p db rl net h)
      (token : Bytes)
      → HasOrigin start asks token
      → HasOrigin start (a ∷ asks) token
  HasOrigin-later start a asks token (inl (id, at_time, was, ascii, signed)) =
      inl (id, at_time, WasAttested-later start a asks id was, ascii, signed)
  HasOrigin-later start a asks token (inr (id, at_time, was, ascii, signed)) =
      inr (id, at_time, WasLetIn-later a asks id was, ascii, signed)

  pub AsciiIds-earlier :
      (a : Ask p db rl net h) (asks : Asks p db rl net h) → AsciiIds (a ∷ asks) → AsciiIds asks
  AsciiIds-earlier (logs_in trusted r uuid now) asks (_, ascii) = ascii
  AsciiIds-earlier (enrolls r now) asks ascii = ascii
  AsciiIds-earlier (seeks_challenge r random uuid now) asks ascii = ascii
  AsciiIds-earlier (attests r now) asks ascii = ascii
  AsciiIds-earlier (sweeps now) asks ascii = ascii

  pub plain : (cookies : List Cookie) (token : Bytes) → cookies ≡ [] → Sets cookies token → ⊥
  plain cookies token none_set given = subst (λ cs. Sets cs token) none_set given

  pub single :
      (cookies : List Cookie) (c : Cookie) (token : Bytes)
      → cookies ≡ c ∷ []
      → Sets cookies token
      → c.value ≡ token
  single cookies c token one given = elim (subst (λ cs. Sets cs token) one given) [
    | inl same ↦ same
    | inr other ↦ absurd other
  ]
