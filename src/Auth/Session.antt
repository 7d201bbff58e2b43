-- ===== src/Auth/Session.antt =====
-- internal/auth/session.go: the older sessions kept by the server, and the cookies.
pub mod Calls
use fileflow.Common.{
  Bool, Bool-cases, Bytes, IsDistinct, IsFresh, List, Option, [], arith, bytes_beq, bytes_beq_iff,
  codes, delete, get_or, if◌then◌else◌, inl, inr, lookup, ltb, none, put, refl, some, true, ℕ, ◌+◌,
  ◌∷◌, ◌≡◌, ◌≤◌, bytes_key,
}
use fileflow.Common.Result.{Result, err, ok}

pub data SessionError : Type 0 where
  session_not_found rand_failed : SessionError

pub record Session : Type 0 where
  pub id : Bytes
  pub device_id : Bytes
  pub expires_at : ℕ

pub record SessionStore : Type 0 where
  pub sessions : List (Bytes × Session)
  pub ttl : ℕ

unfoldable pub new_session_store : ℕ → SessionStore
new_session_store ttl = record { sessions = []; ttl = ttl }

unfoldable pub drop_late : ℕ → List (Bytes × Session) → List (Bytes × Session)
drop_late now [] = []
drop_late now ((id, s) ∷ rest) =
    if ltb s.expires_at now then drop_late now rest else (id, s) ∷ drop_late now rest

unfoldable pub cleanup : SessionStore → ℕ → SessionStore
cleanup ss now = record ss { sessions = drop_late now ss.sessions }

-- The identifier is the encoding of 32 random bytes.
unfoldable pub create :
    (Bytes → Bytes)
    → SessionStore
    → Bytes
    → Option Bytes
    → ℕ
    → Result SessionError Session × SessionStore
create url_encode ss device_id none now = (err rand_failed, ss)
create url_encode ss device_id (some random) now =
    let s : Session = record {
      id = url_encode random;
      device_id = device_id;
      expires_at = now + ss.ttl;
    } in
    (ok s, record ss { sessions = put s.id s ss.sessions })

unfoldable pub get : SessionStore → Bytes → ℕ → Result SessionError Session
get ss id now = elim (lookup id ss.sessions) [
  | none ↦ err session_not_found
  | some s ↦ if ltb s.expires_at now then err session_not_found else ok s
]

unfoldable pub remove : SessionStore → Bytes → SessionStore
remove ss id = record ss { sessions = delete id ss.sessions }

-- `http.Cookie`, always for the path "/" and with `SameSite` strict.
pub record Cookie : Type 0 where
  pub name : Bytes
  pub value : Bytes
  pub expires : ℕ
  pub http_only : Bool
  pub secure : Bool

unfoldable pub session_cookie : Session → Bool → Cookie
session_cookie s secure = record {
  name = codes "session";
  value = s.id;
  expires = s.expires_at;
  http_only = true;
  secure = secure;
}

unfoldable pub device_ticket_cookie : Bytes → ℕ → Bool → ℕ → Cookie
device_ticket_cookie ticket ttl secure now = record {
  name = codes "device_ticket";
  value = ticket;
  expires = now + ttl;
  http_only = true;
  secure = secure;
}

-- `r.Cookie(name)`: a request is the list of its cookies' names and values.
unfoldable pub get_session_from_request : List (Bytes × Bytes) → Bytes
get_session_from_request cookies = get_or (lookup (codes "session") cookies) []

unfoldable pub get_device_ticket_from_request : List (Bytes × Bytes) → Bytes
get_device_ticket_from_request cookies = get_or (lookup (codes "device_ticket") cookies) []

drop_late-IsFresh :
    (id : Bytes) (now : ℕ) (m : List (Bytes × Session))
    → IsFresh id m
    → lookup id (drop_late now m) ≡ none
unfolding drop_late lookup
drop_late-IsFresh id now [] f = refl
drop_late-IsFresh id now ((i, s) ∷ rest) (n, f) =
    ground (arith, bytes_beq_iff i id, drop_late-IsFresh id now rest f)

abbrev find_timely : Option Session → ℕ → Result SessionError Session
find_timely o now = elim o [
  | none ↦ err session_not_found
  | some s ↦ if ltb s.expires_at now then err session_not_found else ok s
]

find_timely-drop_late :
    (id : Bytes) (earlier now : ℕ) (m : List (Bytes × Session))
    → earlier ≤ now
    → IsDistinct m
    → find_timely (lookup id (drop_late earlier m)) now ≡ find_timely (lookup id m) now
unfolding drop_late lookup
find_timely-drop_late id earlier now [] h d = refl
find_timely-drop_late id earlier now ((i, s) ∷ rest) h (f, d) = elim (Bool-cases (bytes_beq i id)) [
  | inl same ↦
      let e : i ≡ id = (bytes_beq_iff i id).0 same in
      let gone = drop_late-IsFresh id earlier rest (rw (← e) f) in
      elim (Bool-cases (ltb s.expires_at earlier)) [
        | inl late ↦ rw (late, gone, same) (ground arith)
        | inr timely ↦ rw (timely, same)
      ]
  | inr other ↦
      let ih = find_timely-drop_late id earlier now rest h d in
      elim (Bool-cases (ltb s.expires_at earlier)) [
        | inl late ↦ rw (late, other) ih
        | inr timely ↦ rw (timely, other) ih
      ]
]

-- The cleaning goroutine is invisible: whenever it ran up to now, `Get` answers what it would have
-- answered without, where each identifier is stored once.
get-cleanup :
    (ss : SessionStore) (id : Bytes) (earlier now : ℕ)
    → earlier ≤ now
    → IsDistinct ss.sessions
    → get (cleanup ss earlier) id now ≡ get ss id now
unfolding get cleanup
get-cleanup ss id earlier now h d = find_timely-drop_late id earlier now ss.sessions h d
