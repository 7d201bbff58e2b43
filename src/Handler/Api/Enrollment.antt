-- ===== src/Handler/Api/Enrollment.antt =====
-- internal/handler/api.go: which devices are enrolled, and which are challenged.
use fileflow.Common.{
  Bool, Bool-cases, [], arith, bytes_beq, bytes_beq_iff, inl, inr, ne_of_bytes_beq, not, refl, some,
  subst, sym, true, ℕ, ◌&&◌, ◌/◌, ◌∙◌, ◌≡◌, ◌≢◌, ◌⊎◌, bytes_key,
}
use fileflow.Common.Result.{
  >>=-ErrIs, >>=-eq-ok, ErrIs, Result, Result-cases, err, err-ne-ok, ok, ok-ErrIs, require,
  require-ErrIs, require-eq-ok, some_or, some_or-ErrIs, some_or-eq-ok,
}
use fileflow.Auth.Platform.{Platform}
use fileflow.Auth.Jwk.{validate_device_id}
use fileflow.Store.{
  Database, Device, StoreError, add_device, config_not_found, device_exists, device_not_found,
  store_failed,
}
use fileflow.Handler.Http.{
  IsRefusal, Request, Response, added, is_post, method_not_allowed, write_error, write_json,
}
use fileflow.Handler.Api.{Handler, map_err, map_err-ErrIs, map_err-eq-ok}
use fileflow.Handler.Api.Devices.{
  EnrollBody, added_answer, device_to_add, handle_admin_devices, marshal_pub_jwk,
}

module _ (p : Platform) (db : Database) (h : Handler) where
  -- A request to enroll that the handler passes on to the store.
  pub record MayEnroll (r : Request EnrollBody) (now : ℕ) (d : Device) : Type 0 where
    pub posted : is_post r.method ≡ true
    pub token : r.bootstrap_header ≡ h.bootstrap_token
    pub some_token : h.bootstrap_token ≢ []
    pub body : EnrollBody
    pub read : r.body ≡ some body
    pub valid : validate_device_id p body.device_id body.pub_jwk ≡ ok tt
    pub jwk : marshal_pub_jwk p db h body.pub_jwk ≡ some d.pub_jwk_json
    pub id : d.device_id ≡ body.device_id
    pub label : d.label ≡ body.label
    pub made_at : d.created_at ≡ now / 1_000_000

  device_to_add-MayEnroll :
      (r : Request EnrollBody) (now : ℕ) (d : Device)
      → device_to_add p db h r now ≡ ok d
      → MayEnroll r now d
  unfolding device_to_add
  device_to_add-MayEnroll r now d e =
      let (u₁, e₁, r₁) = >>=-eq-ok (require (is_post r.method) method_not_allowed) _ e in
      let good : Bool =
        not (bytes_beq r.bootstrap_header []) && bytes_beq r.bootstrap_header h.bootstrap_token in
      let (u₂, e₂, r₂) = >>=-eq-ok (require good _) _ r₁ in
      let (b, e₃, r₃) = >>=-eq-ok (some_or r.body _) _ r₂ in
      let (u₄, e₄, r₄) = >>=-eq-ok (map_err _ (validate_device_id p b.device_id b.pub_jwk)) _ r₃ in
      let (jwk, e₅, r₅) = >>=-eq-ok (some_or (marshal_pub_jwk p db h b.pub_jwk) _) _ r₄ in
      let passed : good ≡ true = require-eq-ok good _ e₂ in
      let token : r.bootstrap_header ≡ h.bootstrap_token =
        (bytes_beq_iff _ _).0 (ground (arith, passed)) in
      let made : Device = record {
        device_id = b.device_id;
        pub_jwk_json = jwk;
        label = b.label;
        created_at = now / 1_000_000;
      } in
      let same : made ≡ d = cc in
      subst (MayEnroll r now) same (record {
        posted = require-eq-ok _ _ e₁;
        token = token;
        some_token = rw (← token) (ne_of_bytes_beq _ _ (ground (arith, passed)));
        body = b;
        read = some_or-eq-ok _ _ e₃;
        valid = map_err-eq-ok _ (validate_device_id p b.device_id b.pub_jwk) e₄;
        jwk = some_or-eq-ok _ _ e₅;
        id = refl;
        label = refl;
        made_at = refl;
      })

  device_to_add-ErrIs :
      (r : Request EnrollBody) (now : ℕ) → ErrIs IsRefusal (device_to_add p db h r now)
  unfolding device_to_add method_not_allowed write_error write_json
  device_to_add-ErrIs r now =
      >>=-ErrIs IsRefusal (require (is_post r.method) method_not_allowed) _
        (require-ErrIs IsRefusal _ _ (_, _, refl, refl))
        (λ _.
          >>=-ErrIs IsRefusal (require _ _) _ (require-ErrIs IsRefusal _ _ (_, _, refl, refl)) (λ _.
            >>=-ErrIs IsRefusal (some_or r.body _) _
              (some_or-ErrIs IsRefusal r.body _ (_, _, refl, refl))
              (λ b.
                >>=-ErrIs IsRefusal (map_err _ (validate_device_id p b.device_id b.pub_jwk)) _
                  (map_err-ErrIs IsRefusal _ (validate_device_id p b.device_id b.pub_jwk)
                    (λ _. (_, _, refl, refl)))
                  (λ _.
                    >>=-ErrIs IsRefusal (some_or (marshal_pub_jwk p db h b.pub_jwk) _) _
                      (some_or-ErrIs IsRefusal (marshal_pub_jwk p db h b.pub_jwk) _
                        (_, _, refl, refl))
                      (λ _. ok-ErrIs IsRefusal _)))))

  added_answer_cases :
      (result : Result StoreError (Unit {0}))
      → ((result ≡ ok tt) × (added_answer p db h result ≡ write_json 200 added))
        ⊎ ((result ≢ ok tt) × IsRefusal (added_answer p db h result))
  unfolding added_answer write_error write_json
  added_answer_cases (ok u) = inl (refl, refl)
  added_answer_cases (err device_exists) = inr (λ q. cc, (_, _, refl, refl))
  added_answer_cases (err device_not_found) = inr (λ q. cc, (_, _, refl, refl))
  added_answer_cases (err config_not_found) = inr (λ q. cc, (_, _, refl, refl))
  added_answer_cases (err store_failed) = inr (λ q. cc, (_, _, refl, refl))

  device_to_add-allowed :
      (r : Request EnrollBody) (now : ℕ) (d : Device)
      → MayEnroll r now d
      → (made : Device) × (device_to_add p db h r now ≡ ok made)
  unfolding device_to_add map_err
  device_to_add-allowed r now d k = elim (Bool-cases (bytes_beq h.bootstrap_token [])) [
    | inl empty ↦ absurd (k.some_token ((bytes_beq_iff h.bootstrap_token []).0 empty))
    | inr some_token ↦
        let own = (bytes_beq_iff h.bootstrap_token h.bootstrap_token).1 refl in
        let made : Device = record {
          device_id = k.body.device_id;
          pub_jwk_json = d.pub_jwk_json;
          label = k.body.label;
          created_at = now / 1_000_000;
        } in
        (
          made,
          rw (device_to_add, k.posted, k.token, some_token, own, k.read, k.valid, map_err, k.jwk),
        )
  ]

  abbrev pub EnrollOutcome : Request EnrollBody → ℕ → db.State → Response → db.State → Type 0
  EnrollOutcome r now s response s' =
      (IsRefusal response × (s' ≡ s) × ((d : Device) → MayEnroll r now d → ⊥))
      ⊎ ((d : Device) × MayEnroll r now d
          × (s' ≡ (add_device db d s).1)
          × ((((add_device db d s).0 ≡ ok tt) × (response ≡ write_json 200 added))
              ⊎ (((add_device db d s).0 ≢ ok tt) × IsRefusal response)))

  -- A request to enroll a device is refused and leaves the store alone exactly where it is not let
  -- through: where it is not posted, does not carry the bootstrap token, the token is empty, or it has
  -- no body with a well-formed id and a public key that can be read and written. Where it is let
  -- through, the device with this id, key and label, and the time, is handed to the store, and the
  -- answer says whether the store took it.
  pub handle_admin_devices-MayEnroll :
      (r : Request EnrollBody) (now : ℕ) (s : db.State)
      → let (response, s') = handle_admin_devices p db h r now s in
        EnrollOutcome r now s response s'
  unfolding handle_admin_devices
  handle_admin_devices-MayEnroll r now s = elim (Result-cases (device_to_add p db h r now)) [
    | inr (x, e) ↦
        let q : handle_admin_devices p db h r now s ≡ (x, s) = rw (handle_admin_devices, e) in
        rw q (
          inl (
            device_to_add-ErrIs r now x e,
            refl,
            λ d k. let (made, f) = device_to_add-allowed r now d k in err-ne-ok (sym e ∙ f),
          ))
    | inl (d, e) ↦
        let (result, s') = add_device db d s in
        let q : handle_admin_devices p db h r now s ≡ (added_answer p db h result, s') =
          rw (handle_admin_devices, e) in
        rw q (inr (d, device_to_add-MayEnroll r now d e, refl, added_answer_cases result))
  ]
