-- ===== src/ServiceUrl/Tests.antt =====
-- shared/service_url.go on the URL of a camera.
use unblink.Base.{ℕ, ◌≡◌, refl, false, some, List, [], inr, arith}
use unblink.Trim.Truncate.{codes, contains_text}
use unblink.Chat.Text.{trim_space}
use unblink.ServiceUrl.{
  Env, Url, ServiceUrl, is_supported, is_valid_hostname, check_port, rooted, parse_service_url,
}
use unblink.ServiceUrl.Decimal.{atoi, digits_from}
use unblink.ServiceUrl.Valid.{IsValid, parse_service_url-IsValid, parse_service_url-decimal}

abbrev text : List ℕ
text = codes "RTSP://cam.lan:8554/live"

abbrev parsed : Url
parsed = record {
  scheme = codes "RTSP";
  hostname = codes "cam.lan";
  port = codes "8554";
  path = codes "/live";
  username = [];
  password = [];
}

abbrev env : Env
env = record { parse = λ t. some parsed; is_ip = λ host. false }

abbrev camera : ServiceUrl
camera = record {
  scheme = codes "rtsp";
  host = codes "cam.lan";
  port = 8554;
  path = codes "/live";
  username = [];
  password = [];
}

accepted : parse_service_url env text ≡ inr camera
unfolding parse_service_url check_port is_supported is_valid_hostname rooted contains_text
    trim_space atoi digits_from
accepted = refl

parse_service_url-IsValid_example : IsValid env.is_ip camera
parse_service_url-IsValid_example = parse_service_url-IsValid env text camera accepted

parse_service_url-decimal_example : parse_service_url env text ≡ inr camera
unfolding is_supported is_valid_hostname rooted contains_text trim_space
parse_service_url-decimal_example =
    parse_service_url-decimal env text parsed 8554 refl refl refl refl refl refl refl refl
      (omega arith) (omega arith)
