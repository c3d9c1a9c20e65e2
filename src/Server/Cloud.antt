-- ===== src/Server/Cloud.antt =====
-- server/CloudStreamer.hpp: the protocols and the configuration. The operations of `CloudStreamer` have no
-- body in the repository.
use camera_platform.Prelude.{ℕ, Bytes, codes, [], ◌≡◌, arith}

data CloudProtocol : Type 0 where
  web_rtc : CloudProtocol
  rtmp : CloudProtocol
  srt : CloudProtocol
  hls : CloudProtocol

-- `toString`; its `"unknown"` is for values outside the enum.
to_string : CloudProtocol → Bytes
to_string web_rtc = codes "webrtc"
to_string rtmp = codes "rtmp"
to_string srt = codes "srt"
to_string hls = codes "hls"

record CloudConfig : Type 0 where
  protocol : CloudProtocol
  endpoint : Bytes
  stream_key : Bytes
  bitrate_kbps : ℕ

abbrev default_config : CloudConfig
default_config = record { protocol = web_rtc; endpoint = []; stream_key = []; bitrate_kbps = 2000 }

to_string-injective : (p q : CloudProtocol) → to_string p ≡ to_string q → p ≡ q
unfolding to_string
to_string-injective p q e = grind arith
