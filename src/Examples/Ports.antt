-- ===== src/Examples/Ports.antt =====
-- internal/portsync: an application that wants a login, and its first pass.
use molebridge.Base.{
  ℕ, true, false, Bool, ◌≡◌, refl, inr, Option, none, some, List, [], ◌∷◌, ◌==◌, Text, bytes,
  Text-discrete, ◌⊎◌, ◌≤◌, leb, Bool-cases, inl,
}
use molebridge.Validate.Json.{Json, whole, string, object, Object, no_member, member}
use molebridge.PortSync.Sync.{
  min_port, max_port, Purpose, get_preferences, set_port, log_in, Request, Response, Outside,
  Syncer, listen_port, apply, forwarded_port, step,
}
use molebridge.PortSync.Requests.{recording, Adds, step-Adds}
use molebridge.PortSync.Listens.{Honest, apply-listens}

abbrev plain : ℕ → Text → Response
plain status body = record { status = status; body = body; cookies = [] }

abbrev welcome : Response
welcome = record { status = 204; body = []; cookies = (bytes "SID", bytes "s1") ∷ [] }

-- The application's state is the port that it listens on; the port stands for the body.
abbrev serve : Bool → Purpose → ℕ → Option Response × ℕ
serve b (log_in u p) s = (some welcome, s)
serve false get_preferences s = (some (plain 403 []), s)
serve false (set_port n) s = (some (plain 403 []), s)
serve true get_preferences s = (some (plain 200 (s ∷ [])), s)
serve true (set_port n) s = (some (plain 200 []), n)

abbrev decode : Text → Option (Json ℕ)
decode (n ∷ []) = some (object (member (bytes "listen_port") (whole n) no_member))
decode _ = none

abbrev with_text : Text → Bool
with_text [] = false
with_text (c ∷ cs) = true

abbrev qbittorrent : Outside ℕ ℕ
qbittorrent = record {
  fetch = λ r s. serve (with_text r.cookie) r.purpose s;
  now = λ s. 63850161610000000000;
  cancelled = λ s. false;
  has_credentials = true;
  username = λ s. some (bytes "admin");
  password = λ s. some (bytes "secret");
  decode_json = decode;
  trim_space = λ t. t;
}

serve-preferences :
    (b : Bool) (p : Purpose) (s : ℕ) (r : Response) (n : ℕ)
    → p ≡ get_preferences
    → (serve b p s).0 ≡ some r
    → (r.status == 200) ≡ true
    → listen_port qbittorrent (decode r.body) ≡ some n
    → (serve b p s).1 ≡ n
unfolding listen_port Text-discrete
serve-preferences false get_preferences s r n e a k l =
    let q : plain 403 [] ≡ r = cc in absurd (let z = rw (← q) at k in cc)
serve-preferences true get_preferences s r n e a k l =
    let q : plain 200 (s ∷ []) ≡ r = cc in
    let z = rw (← q) at l in
    elim (Bool-cases (leb s 65535)) [
      | inl f ↦ let y = rw f at z in cc
      | inr f ↦ absurd (let y = rw f at z in cc)
    ]
serve-preferences b (set_port m) s r n e a k l = cc
serve-preferences b (log_in u p) s r n e a k l = cc

serve-port :
    (b : Bool) (p : Purpose) (s : ℕ) (r : Response) (n : ℕ)
    → p ≡ set_port n
    → (serve b p s).0 ≡ some r
    → (r.status == 200) ≡ true
    → (serve b p s).1 ≡ n
serve-port b get_preferences s r n e a k = cc
serve-port b (log_in u p) s r n e a k = cc
serve-port false (set_port m) s r n e a k =
    let q : plain 403 [] ≡ r = cc in absurd (let z = rw (← q) at k in cc)
serve-port true (set_port m) s r n e a k = cc

qbittorrent-Honest : Honest qbittorrent (λ s. s)
qbittorrent-Honest = record {
  answers-listens = λ q s r n. serve-preferences (with_text q.cookie) q.purpose s r n;
  accepts-listens = λ q s r n. serve-port (with_text q.cookie) q.purpose s r n;
}

abbrev syncer_on : {S : Type 0} → S → Syncer S
syncer_on s = record {
  outside = s;
  cookie = [];
  last_logged = [];
  no_port_said = false;
  lines = [];
}

abbrev sidecar_record : Object ℕ
sidecar_record = member (bytes "checked_at") (string (bytes "2024-05-01T12:00:00Z")) (
    member (bytes "kind") (string (bytes "sidecar"))
      (member (bytes "forwarded_port") (whole 40000) no_member))

-- The application listens on 6881; the role logs in, asks and sets the port.
apply-listens_example : (apply qbittorrent 40000 (syncer_on 6881)).1.outside ≡ 40000
unfolding apply Text-discrete
apply-listens_example =
    apply-listens qbittorrent (λ s. s) qbittorrent-Honest 40000 (syncer_on 6881) refl

step-Adds_example :
    let y = syncer_on {S = ℕ × List Request} (6881, []) in
    (((forwarded_port (recording qbittorrent) (some sidecar_record) y).0 ≡ none)
      × ((step (recording qbittorrent) (some sidecar_record) y).outside ≡ y.outside))
    ⊎ ((port : ℕ) × (((forwarded_port (recording qbittorrent) (some sidecar_record) y).0
            ≡ some port)
          × ((min_port ≤ port)
              × ((port ≤ max_port)
                  × Adds qbittorrent port 8 y
                      (step (recording qbittorrent) (some sidecar_record) y)))))
step-Adds_example =
    step-Adds qbittorrent (some sidecar_record) (syncer_on {S = ℕ × List Request} (6881, []))

port_is_set : (step qbittorrent (some sidecar_record) (syncer_on 6881)).outside ≡ 40000
unfolding step Text-discrete
port_is_set = refl
