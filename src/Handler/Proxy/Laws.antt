-- ===== src/Handler/Proxy/Laws.antt =====
-- internal/handler/middleware.go: which address a request is attributed to, and which addresses are
-- trusted.
use fileflow.Common.{
  All, Bool-cases, Bytes, List, [], ap, arith, bytes_beq, bytes_beq_iff, false, inl, inr,
  ne_of_bytes_beq, refl, some, split, trim_left, trim_space, true, ◌++◌, ◌↔◌, ◌∙◌, ◌∷◌, ◌≡◌, ◌≢◌,
  ◌⊎◌,
}
use fileflow.Common.Result.{Result-cases, err, ok}
use fileflow.Handler.Proxy.{
  Net, Origin, forwarded, get_client_ip, in_any, is_trusted, last_untrusted, parse_proxies,
  parse_proxy, remote_host, set_trusted_proxies,
}
use mathlib.Core.Bool.{false≢true}
use mathlib.Core.List.{reverse, reverse_aux, reverse-append, reverse_aux-eq, append_assoc}

module _ (net : Net) where
  open net use {Ip, Network, parse_ip, contains}

  -- A part of the header that the search passes over: it is blank or trusted.
  abbrev pub IsPassed : List Network → Bytes → Type 0
  IsPassed trusted part = (trim_space part ≡ []) ⊎ (is_trusted net trusted (trim_space part) ≡ true)

  last_untrusted-passed :
      (trusted : List Network) (later rest : List Bytes)
      → All (IsPassed trusted) later
      → last_untrusted net trusted (later ++ rest) ≡ last_untrusted net trusted rest
  unfolding last_untrusted
  last_untrusted-passed trusted [] rest h = refl
  last_untrusted-passed trusted (p ∷ later) rest (inl e, h) =
      rw e (last_untrusted-passed trusted later rest h)
  last_untrusted-passed trusted (p ∷ later) rest (inr e, h) =
      rw e (ground (arith, last_untrusted-passed trusted later rest h))

  reverse-split :
      (text : Bytes) (earlier later : List Bytes) (part : Bytes)
      → split b',' text ≡ earlier ++ part ∷ later
      → reverse (split b',' text) ≡ reverse later ++ part ∷ reverse earlier
  reverse-split text earlier later part e = rw e (
      reverse-append earlier (part ∷ later)
      ∙ ap (λ l. l ++ reverse earlier) (reverse_aux-eq later (part ∷ []))
      ∙ append_assoc (reverse later) (part ∷ []) (reverse earlier))

  reverse_aux-All :
      (P : Bytes → Type 0) (xs ys : List Bytes) → All P xs → All P ys → All P (reverse_aux xs ys)
  reverse_aux-All P [] ys h k = k
  reverse_aux-All P (x ∷ xs) ys (p, h) k = reverse_aux-All P xs (x ∷ ys) h (p, k)

  last_untrusted-found :
      (trusted : List Network) (part : Bytes) (rest : List Bytes)
      → trim_space part ≢ []
      → is_trusted net trusted (trim_space part) ≡ false
      → last_untrusted net trusted (part ∷ rest) ≡ some (trim_space part)
  unfolding last_untrusted
  last_untrusted-found trusted part rest n far =
      elim (Bool-cases (bytes_beq (trim_space part) [])) [
        | inl blank ↦ absurd (n ((bytes_beq_iff (trim_space part) []).0 blank))
        | inr text ↦ rw (text, far)
      ]

  forwarded-found :
      (trusted : List Network) (text ip : Bytes)
      → last_untrusted net trusted (reverse (split b',' text)) ≡ some ip
      → forwarded net trusted text ≡ some ip
  unfolding forwarded last_untrusted split trim_space trim_left
  forwarded-found trusted [] ip e = cc
  forwarded-found trusted (c ∷ s) ip e = e

  -- A request is attributed to the last address of `X-Forwarded-For` that is not trusted, where the
  -- host that sent it is trusted: whatever stands before that address, and in `X-Real-IP`, makes
  -- no difference.
  pub get_client_ip_forwarded :
      (trusted : List Network) (r : Origin) (earlier later : List Bytes) (part : Bytes)
      → is_trusted net trusted (remote_host net r.remote_addr) ≡ true
      → split b',' r.forwarded_for ≡ earlier ++ part ∷ later
      → All (IsPassed trusted) later
      → trim_space part ≢ []
      → is_trusted net trusted (trim_space part) ≡ false
      → get_client_ip net trusted r ≡ trim_space part
  unfolding get_client_ip
  get_client_ip_forwarded trusted r earlier later part near parts passed some_text far =
      let found : last_untrusted net trusted (reverse (split b',' r.forwarded_for))
          ≡ some (trim_space part) =
        rw (reverse-split r.forwarded_for earlier later part parts) (
          last_untrusted-passed trusted (reverse later) (part ∷ reverse earlier)
            (reverse_aux-All (IsPassed trusted) later [] passed tt)
          ∙ last_untrusted-found trusted part (reverse earlier) some_text far) in
      rw (get_client_ip, near, forwarded-found trusted r.forwarded_for (trim_space part) found)

  -- An entry of the list covers an address.
  abbrev pub Covers : Ip → Bytes → Type 0
  Covers ip entry =
      (n : Network) × (trim_space entry ≢ [])
      × (parse_proxy net (trim_space entry) ≡ ok n)
      × (contains n ip ≡ true)

  -- An entry that is neither blank nor an address nor a network.
  abbrev pub IsInvalid : Bytes → Bytes → Type 0
  IsInvalid bad entry = (trim_space entry ≢ []) × (parse_proxy net (trim_space entry) ≡ err bad)

  abbrev pub Any : (Bytes → Type 0) → List Bytes → Type 0
  Any P [] = ⊥
  Any P (x ∷ xs) = P x ⊎ Any P xs

  abbrev Parsed : Ip → List Bytes → Type 0
  Parsed ip cidrs =
      (parsed : List Network) × (parse_proxies net cidrs ≡ ok parsed)
      × ((in_any net parsed ip ≡ true) ↔ Any (Covers ip) cidrs)

  abbrev Refused : List Bytes → Type 0
  Refused cidrs = (bad : Bytes) × (parse_proxies net cidrs ≡ err bad) × Any (IsInvalid bad) cidrs

  in_any-cons :
      (ip : Ip) (n : Network) (ns : List Network) (entry : Bytes) (rest : List Bytes)
      → trim_space entry ≢ []
      → parse_proxy net (trim_space entry) ≡ ok n
      → (in_any net ns ip ≡ true) ↔ Any (Covers ip) rest
      → (in_any net (n ∷ ns) ip ≡ true) ↔ Any (Covers ip) (entry ∷ rest)
  unfolding in_any
  in_any-cons ip n ns entry rest some_text e (to, from) = (
    λ h. elim (Bool-cases (contains n ip)) [
      | inl covers ↦ inl (n, some_text, e, covers)
      | inr spares ↦ inr (to (ground (arith, spares)))
    ],
    λ c. elim c [
      | inl (m, _, f, covers) ↦ let same : m ≡ n = cc in ground (arith, rw same at covers)
      | inr later ↦ ground (arith, from later)
    ],
  )

  parse_proxies-cases : (ip : Ip) (cidrs : List Bytes) → Parsed ip cidrs ⊎ Refused cidrs
  unfolding parse_proxies in_any
  parse_proxies-cases ip [] = inl ([], refl, (λ e. absurd (false≢true e), λ a. absurd a))
  parse_proxies-cases ip (c ∷ cs) = elim (Bool-cases (bytes_beq (trim_space c) [])) [
    | inl blank ↦
        let empty = (bytes_beq_iff (trim_space c) []).0 blank in
        elim (parse_proxies-cases ip cs) [
          | inl (parsed, f, (to, from)) ↦ inl (
            parsed,
            rw (parse_proxies, blank) f,
            (
              λ h. inr (to h),
              λ a. elim a [ inl (n, text, _, _) ↦ absurd (text empty) | inr later ↦ from later ],
            ),
          )
          | inr (bad, f, invalid) ↦ inr (bad, rw (parse_proxies, blank) f, inr invalid)
        ]
    | inr text ↦
        let some_text = ne_of_bytes_beq (trim_space c) [] text in
        elim (Result-cases (parse_proxy net (trim_space c))) [
          | inl (n, g) ↦ elim (parse_proxies-cases ip cs) [
            | inl (parsed, f, covered) ↦ inl (
              n ∷ parsed,
              rw (parse_proxies, text, g, f),
              in_any-cons ip n parsed c cs some_text g covered,
            )
            | inr (bad, f, invalid) ↦ inr (bad, rw (parse_proxies, text, g, f), inr invalid)
          ]
          | inr (bad, g) ↦ inr (bad, rw (parse_proxies, text, g), inl (some_text, g))
        ]
  ]

  -- Setting the trusted proxies either succeeds, and then an address is trusted if and only if an
  -- entry of the list that is not blank covers it, or it reports an invalid entry and leaves the
  -- trusted networks as they were.
  pub set_trusted_proxies_lem :
      (old : List Network) (cidrs : List Bytes) (ip : Ip) (address : Bytes)
      → parse_ip address ≡ some ip
      → let (r, now) = set_trusted_proxies net old cidrs in
        ((r ≡ ok tt) × ((is_trusted net now address ≡ true) ↔ Any (Covers ip) cidrs))
        ⊎ ((bad : Bytes) × (r ≡ err bad) × (now ≡ old) × Any (IsInvalid bad) cidrs)
  unfolding set_trusted_proxies is_trusted
  set_trusted_proxies_lem old cidrs ip address e = elim (parse_proxies-cases ip cidrs) [
    | inl (parsed, f, covered) ↦
        let g : set_trusted_proxies net old cidrs ≡ (ok tt, parsed) = rw (set_trusted_proxies, f) in
        let t : is_trusted net parsed address ≡ in_any net parsed ip = rw (is_trusted, e) in
        rw (g, t) (inl (refl, covered))
    | inr (bad, f, invalid) ↦ rw (set_trusted_proxies, f) (inr (bad, refl, refl, invalid))
  ]
