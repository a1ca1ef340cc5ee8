-- ===== src/Examples/Verdicts.antt =====
-- internal/verdict: a record of an overlay exit through gluetun, judged ten seconds after it was
-- written.
use molebridge.Base.{ℕ, true, false, ◌≡◌, refl, some, [], ◌∷◌, Text, bytes, Text-discrete, leb}
use molebridge.Validate.Json.{
  Json, whole, string, array, no_item, item, object, Object, no_member, member,
}
use molebridge.Validate.Time.{parse_text}
use molebridge.Validate.Lenient.{lenient_text}
use molebridge.Validate.Strict.{parse_text-lenient_text}
use molebridge.Verdict.Unrepeated.{Unrepeated}
use molebridge.Verdict.Request.{World, configured_server}
use molebridge.Verdict.Checks.{ExitConfig, CheckName-discrete, CheckState-discrete}
use molebridge.Verdict.Assess.{Target, or_empty, time_or_now, assess}
use molebridge.Verdict.Connected.{Connected}
use molebridge.Verdict.Judged.{assess-Connected}

-- Texts are ASCII, so that a rune is one byte.
abbrev first_of : Text → ℕ
first_of [] = 0
first_of (c ∷ s) = c

abbrev world : World ℕ
world = record {
  lookup = λ p. some (record {
    egress_tier = bytes "provider";
    backend = bytes "gluetun";
    server_name = λ s. true;
  });
  same_float = λ a b. false;
  decode_rune = λ s. (first_of s, 1);
  is_print = λ r. leb 32 r;
}

abbrev written : Text
written = bytes "2024-05-01T12:00:00Z"

written_at : parse_text written ≡ some 63850161600
unfolding parse_text
written_at = refl

abbrev str : Text → Json ℕ
str t = string t

-- A passed check, with further members.
abbrev passed : Object ℕ → Json ℕ
passed rest =
    object (member (bytes "state") (str (bytes "pass")) (member (bytes "at") (str written) rest))

abbrev on_server : Object ℕ → Object ℕ
on_server rest = member (bytes "server") (str (bytes "se-1")) rest

abbrev families : Object ℕ
families = member (bytes "4") (str (bytes "pass")) no_member

abbrev checks : Object ℕ
checks = member (bytes "routing") (passed no_member) (
    member (bytes "netbird") (passed no_member) (
      member (bytes "peer") (passed (on_server no_member)) (
        member (bytes "handshake")
          (passed (on_server (member (bytes "age_s") (whole 40) no_member)))
          (member (bytes "egress")
            (passed (
              on_server (
                member (bytes "families") (object families) (
                  member (bytes "expected_families") (array (item (str (bytes "4")) no_item))
                    (member (bytes "tier") (str (bytes "provider")) no_member)))))
            (member (bytes "traffic_protection")
              (passed (member (bytes "from") (str (bytes "routing")) no_member)) no_member)))))

abbrev healthy_record : Object ℕ
healthy_record = member (bytes "schema") (whole 2) (
    member (bytes "kind") (str (bytes "overlay")) (
      member (bytes "backend") (str (bytes "gluetun")) (
        member (bytes "provider") (str (bytes "gluetun-mullvad")) (
          member (bytes "status") (str (bytes "ok")) (
            member (bytes "checked_at") (str written) (
              member (bytes "server") (str (bytes "se-1")) (
                member (bytes "requested_server") (str (bytes "se-1")) (
                  member (bytes "request_id") (str (bytes "se-1@x")) (
                    member (bytes "checks") (object checks) (
                      member (bytes "egress_ips")
                        (object (member (bytes "4") (str (bytes "192.0.2.7")) no_member))
                        no_member))))))))))

abbrev exit_config : ExitConfig
exit_config = record { provider = bytes "gluetun-mullvad"; kind = bytes "overlay" }

abbrev asked : Target
asked = record {
  server = bytes "se-1";
  source = bytes "panel";
  request = some (record { server = bytes "se-1"; requested_at = bytes "x"; request_id = [] });
}

abbrev ten_seconds_later : ℕ
ten_seconds_later = 63850161610000000000

assess-Connected_example :
    (m : Object ℕ) × ((object healthy_record ≡ object m)
      × Connected world exit_config m asked
          (or_empty (configured_server world (object healthy_record)))
          (time_or_now world 0 ten_seconds_later))
unfolding assess Text-discrete CheckName-discrete CheckState-discrete
assess-Connected_example =
    assess-Connected world exit_config (object healthy_record) asked 0 ten_seconds_later refl

parse_text-lenient_text_example : lenient_text written ≡ some 63850161600
parse_text-lenient_text_example = parse_text-lenient_text written 63850161600 written_at

abbrev short_record : Object ℕ
short_record =
    member (bytes "checks")
      (object (
        member (bytes "routing") (object (member (bytes "state") (string (bytes "pass")) no_member))
          no_member))
      (member (bytes "schema") (whole 2) no_member)
